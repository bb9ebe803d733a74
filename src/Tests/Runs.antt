-- ===== src/Tests/Runs.antt =====
-- Aborts, restarts and the end of a container, on two runs.
use actor_runtime.Base.{
  ◌+◌, ◌*◌, max, ◌⊎◌, ℕ, ◌≤◌, String, ◌≡◌, refl, true, false, none, some, List, [], ◌∷◌,
}
use actor_runtime.Base.Dict.{lookup}
use actor_runtime.Jobs.Status.{succeeded, aborted, is_terminal_job_status}
use actor_runtime.Jobs.Registry
use actor_runtime.Jobs.Registry.{Registry}
use actor_runtime.Entities.Run.{RunRecord}
use actor_runtime.Runs.World.{run_status, World, finished_at_patch}
use actor_runtime.Runs.Abort.{abort_run, abort_run_begin}
use actor_runtime.Runs.Writes.{RunWrite, gated, plain, interfere}
use actor_runtime.Runs.Abort.Race.{abort_run_ends_aborted}
use actor_runtime.Runs.Restart.{in_window}
use actor_runtime.Runs.Restart.Bound.{restart_times, restarts_per_minute}
use actor_runtime.Runs.Background.{Outcome, container_exited}
use actor_runtime.Runs.Ended.{SameEnd}
use actor_runtime.Double.{micros}
use actor_runtime.Charging.{Ledger}
use actor_runtime.Runs.Ended.Steps.{here, then_step, aborts, exits, Reaches-SameEnd}
use actor_runtime.Runs.Timeout.{
  remaining_timeout_secs, run_timeout_at, remaining_timeout_secs-run_timeout_at,
}
use actor_runtime.Runs.Reconcile.{reconcile_orphaned, reconcile_orphaned_lem}
use actor_runtime.Tests.Data.{both_runs, run_2, run_1, world_1}

-- While the driver stops the container, its exit and a status message reach the record.
abbrev meanwhile : List (String × RunWrite ℕ)
meanwhile =
    ("run1", gated succeeded (finished_at_patch 7))
    ∷ ("run1", plain (λ r. record r { status_message = some "bye" }) (λ r. refl))
    ∷ []

abort_run_ends_aborted_example :
    (r' : RunRecord ℕ) × ((abort_run (interfere meanwhile) world_1 run_1 false none 9).1 ≡ some r')
    × (Registry.get (abort_run (interfere meanwhile) world_1 run_1 false none 9).0.runs "run1"
        ≡ some r')
    × (r'.status ≡ aborted)
unfolding Registry.get lookup is_terminal_job_status
abort_run_ends_aborted_example =
    abort_run_ends_aborted world_1 run_1 run_1 none 9 meanwhile refl refl refl

-- Four failures within a minute.
abbrev four : List ((World ℕ → World ℕ) × ℕ × ℕ)
four = ((λ w. w), 1, 1000) ∷ ((λ w. w), 1, 2000) ∷ ((λ w. w), 137, 3000) ∷ ((λ w. w), 1, 4000) ∷ []

restarts_per_minute_example : in_window 500 (restart_times world_1 "run1" four []) ≤ 3
restarts_per_minute_example = restarts_per_minute world_1 "run1" four 500

abbrev crashed : Outcome
crashed = record { exit_code = 1; timed_out = false }

abbrev ledger_1 : Ledger ℕ
ledger_1 = record { world = world_1; idempotency_records = [] }

-- The first run is aborted gracefully and its container exits.
abbrev after_abort : Ledger ℕ
after_abort = record ledger_1 { world = (abort_run_begin world_1 run_1 true none).0 }

abbrev after_exit : Ledger ℕ
after_exit = record after_abort {
  world = (container_exited none run_1 crashed 4000 [] after_abort.world).0;
}

Reaches-SameEnd_example :
    (r' : RunRecord ℕ) × (Registry.get after_exit.world.runs "run2" ≡ some r') × SameEnd run_2 r'
unfolding Registry.get lookup is_terminal_job_status
Reaches-SameEnd_example =
    Reaches-SameEnd micros ledger_1 after_exit "run2" run_2
      (then_step after_abort after_exit
        (then_step ledger_1 after_abort here (aborts ledger_1 run_1 true none))
        (exits after_abort none run_1 crashed 4000 []))
      refl refl

-- Two minutes into a budget of five.
remaining_timeout_secs-run_timeout_at_example :
    (300000 ≤ 120500 + remaining_timeout_secs 120500 run_1 * 1000)
    × (120500 + remaining_timeout_secs 120500 run_1 * 1000 ≤ max (300000 + 999) (120500 + 1000))
unfolding run_timeout_at
remaining_timeout_secs-run_timeout_at_example =
    remaining_timeout_secs-run_timeout_at 120500 300000 run_1 refl

abbrev orphaned_at : ℕ → RunRecord ℕ → RunRecord ℕ
orphaned_at now r = record r {
  finished_at = some now;
  status_message = some "Orphaned by a runtime restart";
}

reconcile_orphaned_lem_example :
    (t' : RunRecord ℕ) × (Registry.get
        (reconcile_orphaned run_status (λ r. r.id) (orphaned_at 9) both_runs)
        "run1"
      ≡ some t')
    × (is_terminal_job_status t'.status ≡ true)
    × ((is_terminal_job_status run_1.status ≡ false) ⊎ (t' ≡ run_1))
unfolding Registry.get lookup
reconcile_orphaned_lem_example =
    reconcile_orphaned_lem run_status (λ r. r.id) (orphaned_at 9) both_runs "run1" run_1
      (refl, (refl, tt)) refl
