-- ===== src/Runs/Ended/Parts.antt =====
-- The parts of src/services/runs.ts and migrations.ts, each on a run that has ended.
use actor_runtime.Base.{
  length, ℕ, String, ◌≡◌, refl, Bool, false, Option, none, some, List, arith, Bool-cases, or_else,
  inl, inr,
}
use actor_runtime.Jobs.Status.{JobStatus, running, aborting, is_terminal_job_status, same_status}
use actor_runtime.Jobs.Registry
use actor_runtime.Jobs.Registry.{Registry, on_record}
use actor_runtime.Jobs.Gate.{gate, transition_job_status}
use actor_runtime.Entities.Run.{RunRecord, Telemetry}
use actor_runtime.Runs.World.{World, run_status, finished_at_patch}
use actor_runtime.Runs.Abort.{
  aborting_or_returned, proceed_aborting, abort_patch, abort_run_begin, abort_run_end,
  cancel_graceful_abort, status_is,
}
use actor_runtime.Runs.Restart.{
  Decision, restart, limit_reached, undecided, restart_mutator, after_decision, restart_after_error,
  decide_restart, if_running, if_live, bump_migration_count, bump_reboot_count, migrate_run,
  stop_for_migration, reboot_run, recent,
}
use actor_runtime.Runs.Background.{
  set_status, begin_run, finalize_aborting, fail_before_container, persist_run_telemetry,
  with_telemetry,
}
use actor_runtime.Runs.Message.{message_mutator, set_run_status_message}
use actor_runtime.Runs.Ended.{
  SameEnd, SameEnd-refl, KeepsEnded, KeepsEnded-refl, Freezes, update-KeepsEnded,
}

module _ {U : Type 0} where
  pub transition-KeepsEnded :
      (rs : Registry (RunRecord U)) (id : String) (next : JobStatus)
      (patch : RunRecord U → RunRecord U)
      → KeepsEnded rs (transition_job_status run_status rs id next patch).0
  unfolding transition_job_status gate
  transition-KeepsEnded rs id next patch =
      update-KeepsEnded rs id _ (record { at = λ r t. rw t (r, refl, SameEnd-refl r) })

  abbrev KeepsStatus : (RunRecord U → RunRecord U) → Type 0
  KeepsStatus f = (r : RunRecord U) → SameEnd r (f r)

  pub on_record-Freezes : (f : RunRecord U → RunRecord U) → KeepsStatus f → Freezes (on_record f)
  on_record-Freezes f h = record { at = λ r t. (f r, refl, h r) }

  message-Freezes : (m : Option String) (b : Bool) → Freezes (message_mutator {U = U} m b)
  message-Freezes m b = record {
    at = λ r t. elim (Bool-cases (or_else r.is_status_message_from_runtime false)) [
      | inl kept ↦ rw kept (r, refl, SameEnd-refl r)
      | inr open' ↦
          rw open' (_, refl, record { status = refl; finished_at = refl; exit_code = refl })
    ];
  }

  restart-Freezes : (d : Decision) → Freezes (restart_mutator {U = U} d)
  restart-Freezes restart =
      on_record-Freezes _ (λ r. record { status = refl; finished_at = refl; exit_code = refl })
  restart-Freezes limit_reached = record { at = λ r t. (r, refl, SameEnd-refl r) }
  restart-Freezes undecided = record { at = λ r t. (r, refl, SameEnd-refl r) }

  if_running-Freezes : (f : RunRecord U → RunRecord U) → Freezes (if_running f)
  unfolding is_terminal_job_status same_status
  if_running-Freezes f = record { at = λ r t. (r, ground arith, SameEnd-refl r) }

  if_live-Freezes : (f : RunRecord U → RunRecord U) → Freezes (if_live f)
  unfolding is_terminal_job_status same_status
  if_live-Freezes f = record { at = λ r t. (r, ground arith, SameEnd-refl r) }

  pub set_status-KeepsEnded :
      (id : String) (next : JobStatus) (patch : RunRecord U → RunRecord U) (w : World U)
      → KeepsEnded w.runs (set_status id next patch w).runs
  set_status-KeepsEnded id next patch w = transition-KeepsEnded w.runs id next patch

  runs-aborting_or_returned :
      (id : String) (g was already : Bool) (o : Option (RunRecord U)) (w : World U)
      → (aborting_or_returned id g was already o w).0.runs ≡ w.runs
  unfolding proceed_aborting
  runs-aborting_or_returned id g was already none w = refl
  runs-aborting_or_returned id g was already (some r) w = ground arith

  pub abort_run_begin-KeepsEnded :
      (w : World U) (run : RunRecord U) (g : Bool) (m : Option String)
      → KeepsEnded w.runs (abort_run_begin w run g m).0.runs
  unfolding abort_run_begin
  abort_run_begin-KeepsEnded w run g m = elim (Bool-cases (is_terminal_job_status run.status)) [
    | inl over ↦ rw over (KeepsEnded-refl w.runs)
    | inr live ↦
        rw (live, runs-aborting_or_returned)
          (transition-KeepsEnded w.runs run.id aborting (abort_patch m))
  ]

  pub abort_run_end-KeepsEnded :
      (w : World U) (id : String) (now : ℕ) → KeepsEnded w.runs (abort_run_end w id now).0.runs
  unfolding abort_run_end
  abort_run_end-KeepsEnded w id now = transition-KeepsEnded w.runs id _ (finished_at_patch now)

  pub begin_run-KeepsEnded : (w : World U) (id : String) → KeepsEnded w.runs (begin_run w id).0.runs
  unfolding begin_run
  begin_run-KeepsEnded w id = transition-KeepsEnded w.runs id _ _

  runs-cancel_graceful_abort :
      (id : String) (w : World U) → (cancel_graceful_abort id w).0.runs ≡ w.runs
  unfolding cancel_graceful_abort
  runs-cancel_graceful_abort id w = ground arith

  pub cancel_graceful_abort-KeepsEnded :
      (id : String) (w : World U) → KeepsEnded w.runs (cancel_graceful_abort id w).0.runs
  cancel_graceful_abort-KeepsEnded id w =
      rw (runs-cancel_graceful_abort id w) (KeepsEnded-refl w.runs)

  pub finalize_aborting-KeepsEnded :
      (w : World U) (id : String) → KeepsEnded w.runs (finalize_aborting w id).runs
  unfolding finalize_aborting
  finalize_aborting-KeepsEnded w id = cancel_graceful_abort-KeepsEnded id w

  pub fail_before_container-KeepsEnded :
      (w : World U) (id l : String) (m : Option String) (now : ℕ)
      → KeepsEnded w.runs (fail_before_container w id l m now).runs
  unfolding fail_before_container
  fail_before_container-KeepsEnded w id l m now = transition-KeepsEnded w.runs id _ _

  pub persist_run_telemetry-KeepsEnded :
      (t : Option (Telemetry U)) (w : World U) (id : String)
      → KeepsEnded w.runs (persist_run_telemetry t w id).runs
  unfolding persist_run_telemetry
  persist_run_telemetry-KeepsEnded none w id = KeepsEnded-refl w.runs
  persist_run_telemetry-KeepsEnded (some t) w id = update-KeepsEnded w.runs id _ (
      on_record-Freezes (with_telemetry t)
        (λ r. record { status = refl; finished_at = refl; exit_code = refl }))

  pub restart_after_error-KeepsEnded :
      (w : World U) (id : String) (code now : ℕ) (ts : List ℕ)
      → KeepsEnded w.runs (restart_after_error w id code now ts).0.runs
  unfolding restart_after_error
  restart_after_error-KeepsEnded w id code now ts =
      let d = decide_restart (length (recent now ts)) (Registry.get w.runs id) in
      rw runs-after_decision (update-KeepsEnded w.runs id (restart_mutator d) (restart-Freezes d))
    where
      runs-after_decision :
          (id : String) (code now : ℕ) (ts : List ℕ) (d : Decision) (w : World U)
          → (after_decision id code now ts d w).0.runs ≡ w.runs
      runs-after_decision id code now ts restart w = refl
      runs-after_decision id code now ts limit_reached w = refl
      runs-after_decision id code now ts undecided w = refl

  pub set_run_status_message-KeepsEnded :
      (rs : Registry (RunRecord U)) (id : String) (m : Option String) (b : Bool)
      → KeepsEnded rs (set_run_status_message rs id m b).0
  unfolding set_run_status_message
  set_run_status_message-KeepsEnded rs id m b = update-KeepsEnded rs id _ (message-Freezes m b)

  pub stop_for_migration-KeepsEnded :
      (w : World U) (id : String) → KeepsEnded w.runs (stop_for_migration w id).runs
  unfolding stop_for_migration
  stop_for_migration-KeepsEnded w id =
      elim (Bool-cases (status_is running (Registry.get w.runs id))) [
        | inl e ↦ rw e (update-KeepsEnded w.runs id _ (if_running-Freezes bump_migration_count))
        | inr e ↦ rw e (update-KeepsEnded w.runs id _ (if_running-Freezes bump_migration_count))
      ]

  pub reboot_run-KeepsEnded :
      (w : World U) (run : RunRecord U) → KeepsEnded w.runs (reboot_run w run).0.runs
  unfolding reboot_run
  reboot_run-KeepsEnded w run = elim (Bool-cases (status_is running (Registry.get w.runs run.id))) [
    | inl e ↦ rw e (update-KeepsEnded w.runs run.id _ (if_live-Freezes bump_reboot_count))
    | inr e ↦ rw e (update-KeepsEnded w.runs run.id _ (if_live-Freezes bump_reboot_count))
  ]

  pub migrate_run-KeepsEnded :
      (w : World U) (run : RunRecord U) → KeepsEnded w.runs (migrate_run w run).0.runs
  unfolding migrate_run
  migrate_run-KeepsEnded w run = rw (runs-migrate_run) (KeepsEnded-refl w.runs)
    where
      runs-migrate_run : (migrate_run w run).0.runs ≡ w.runs
      runs-migrate_run = ground arith
