-- ===== src/Tests/Jobs.antt =====
-- Writes through the gate of src/services/job-status.ts.
use actor_runtime.Base.{ℕ, ◌≤◌, String, ◌≡◌, ◌↔◌, ◌⊎◌, refl, true, List, [], ◌∷◌}
use actor_runtime.Jobs.Status.{
  succeeded, failed, aborting, aborted, is_terminal_job_status, allowed_next,
}
use actor_runtime.Jobs.Registry
use actor_runtime.Jobs.Registry.{Registry, on_record}
use actor_runtime.Jobs.Gate.{gate}
use actor_runtime.Jobs.Progress.{
  Request, writes, accepted, accepted-le, writes_of_terminal, writes_of_aborting,
  get-registry_writes, registry_writes, requests_for, status-gate-eq_iff,
}
use actor_runtime.Entities.Run.{RunRecord}
use actor_runtime.Runs.World.{run_status, finished_at_patch}
use actor_runtime.Tests.Data.{run_1, run_2, both_runs}

-- An abort, the container's exit and the end of the abort, in that order.
abbrev requests : List (Request {T = RunRecord ℕ} run_status)
requests =
    (aborting, λ r. r) ∷ (succeeded, finished_at_patch 7) ∷ (aborted, finished_at_patch 9) ∷ []

abbrev aborting_run : RunRecord ℕ
aborting_run = record run_1 { status = aborting }

writes_of_aborting_example :
    (writes run_status requests aborting_run ≡ aborting_run)
    ⊎ ((writes run_status requests aborting_run).status ≡ aborted)
writes_of_aborting_example = writes_of_aborting run_status requests aborting_run refl

accepted-le_example : accepted run_status requests run_1 ≤ 3
accepted-le_example = accepted-le run_status requests run_1

writes_of_terminal_example : writes run_status requests run_2 ≡ run_2
unfolding is_terminal_job_status
writes_of_terminal_example = writes_of_terminal run_status requests run_2 refl

abbrev addressed : List (String × Request {T = RunRecord ℕ} run_status)
addressed =
    ("run1", (aborting, λ r. r))
    ∷ ("run2", (failed, finished_at_patch 8))
    ∷ ("run1", (aborted, finished_at_patch 9))
    ∷ []

get-registry_writes_example :
    Registry.get (registry_writes run_status addressed both_runs) "run1"
    ≡ on_record
        (writes run_status (requests_for run_status "run1" addressed))
        (Registry.get both_runs "run1")
get-registry_writes_example = get-registry_writes run_status addressed both_runs "run1"

status-gate-eq_iff_example :
    ((gate run_status succeeded (finished_at_patch 7) run_2).status ≡ succeeded)
    ↔ ((allowed_next run_2.status succeeded ≡ true) ⊎ (run_2.status ≡ succeeded))
status-gate-eq_iff_example = status-gate-eq_iff run_status succeeded (finished_at_patch 7) run_2
