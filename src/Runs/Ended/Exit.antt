-- ===== src/Runs/Ended/Exit.antt =====
-- The end of a container in `runInBackground` of src/services/runs.ts, on runs that have ended.
use actor_runtime.Base.{
  ℕ, String, Bool, not, ◌&&◌, Option, some, List, ◌==◌, Bool-cases, Option-cases, inl, inr,
}
use actor_runtime.Base.Dict.{erase, has, lookup}
use actor_runtime.Jobs.Status.{running, aborted, failed}
use actor_runtime.Jobs.Registry
use actor_runtime.Jobs.Registry.{Registry}
use actor_runtime.Entities.Run.{RunRecord, Telemetry}
use actor_runtime.Runs.World.{
  World, flush_log, runtime_log, cannot_start_run, finished_at_patch, emit,
}
use actor_runtime.Runs.Abort.{cancel_graceful_abort, status_is}
use actor_runtime.Runs.Restart.{restart_after_error, consume_run_restart, clear_run_restart_state}
use actor_runtime.Runs.Background.{
  Outcome, set_status, persist_run_telemetry, wind_down, finish_exit, exit_without_restart,
  container_exited, run_failed, exit_status, exit_patch, failed_patch,
}
use actor_runtime.Runs.Ended.{KeepsEnded, KeepsEnded-refl, KeepsEnded-trans}
use actor_runtime.Runs.Ended.Parts.{
  set_status-KeepsEnded, persist_run_telemetry-KeepsEnded, restart_after_error-KeepsEnded,
  cancel_graceful_abort-KeepsEnded,
}

module _ {U : Type 0} (telemetry : Option (Telemetry U)) (run : RunRecord U) where
  pub wind_down-KeepsEnded :
      (now : ℕ) (w : World U) → KeepsEnded w.runs (wind_down telemetry run now w).runs
  unfolding wind_down clear_run_restart_state
  wind_down-KeepsEnded now w =
      KeepsEnded-trans w.runs w1.runs _ (persist_run_telemetry-KeepsEnded telemetry w run.id) (
        KeepsEnded-trans w1.runs w2.runs _ (cancel_graceful_abort-KeepsEnded run.id w1)
          (elim (Bool-cases (cancel_graceful_abort run.id w1).1) [
            | inl open' ↦ rw open' (set_status-KeepsEnded run.id aborted (finished_at_patch now) w2)
            | inr shut ↦ rw shut (KeepsEnded-refl w2.runs)
          ]))
    where
      w1 : World U
      w1 = persist_run_telemetry telemetry w run.id

      w2 : World U
      w2 = (cancel_graceful_abort run.id w1).0

  finish_exit-KeepsEnded :
      (o : Outcome) (standby : Bool) (now : ℕ) (w : World U)
      → KeepsEnded w.runs (finish_exit telemetry run o standby now w).runs
  unfolding finish_exit
  finish_exit-KeepsEnded o standby now w =
      KeepsEnded-trans w.runs w1.runs _
        (persist_run_telemetry-KeepsEnded telemetry (emit (flush_log run.id) w) run.id)
        (KeepsEnded-trans w1.runs w2.runs _
          (set_status-KeepsEnded run.id (exit_status standby o) (exit_patch now o.exit_code) w1)
          (wind_down-KeepsEnded now w2))
    where
      w1 : World U
      w1 = persist_run_telemetry telemetry (emit (flush_log run.id) w) run.id

      w2 : World U
      w2 = set_status run.id (exit_status standby o) (exit_patch now o.exit_code) w1

  pub run_failed-KeepsEnded :
      (message : String) (now : ℕ) (w : World U)
      → KeepsEnded w.runs (run_failed telemetry run message now w).runs
  unfolding run_failed
  run_failed-KeepsEnded message now w =
      KeepsEnded-trans w.runs w1.runs _ (persist_run_telemetry-KeepsEnded telemetry w0 run.id) (
        KeepsEnded-trans w1.runs w2.runs _
          (set_status-KeepsEnded run.id failed (failed_patch now (some message)) w1)
          (wind_down-KeepsEnded now w2))
    where
      w0 : World U
      w0 = emit (flush_log run.id) (emit (runtime_log run.id (cannot_start_run message)) w)

      w1 : World U
      w1 = persist_run_telemetry telemetry w0 run.id

      w2 : World U
      w2 = set_status run.id failed (failed_patch now (some message)) w1

  exit_without_restart-KeepsEnded :
      (o : Outcome) (now : ℕ) (ts : List ℕ) (w : World U)
      → KeepsEnded w.runs (exit_without_restart telemetry run o now ts w).0.runs
  unfolding exit_without_restart
  exit_without_restart-KeepsEnded o now ts w =
      elim (Bool-cases (not standby && not o.timed_out && not (o.exit_code == 0))) [
        | inl failing ↦ rw failing (
            KeepsEnded-trans w.runs w2.runs _
              (restart_after_error-KeepsEnded w1 run.id o.exit_code now ts)
              (elim (Bool-cases tried.1) [
                | inl again ↦ rw again (KeepsEnded-refl w2.runs)
                | inr over ↦ rw over (finish_exit-KeepsEnded o standby now w2)
              ]))
        | inr ending ↦ rw ending (finish_exit-KeepsEnded o standby now w1)
      ]
    where
      standby : Bool
      standby = has run.id w.finishing_runs

      w1 : World U
      w1 = record w { finishing_runs = erase run.id w.finishing_runs }

      tried : World U × Bool × List ℕ
      tried = restart_after_error w1 run.id o.exit_code now ts

      w2 : World U
      w2 = tried.0

  pub container_exited-KeepsEnded :
      (o : Outcome) (now : ℕ) (ts : List ℕ) (w : World U)
      → KeepsEnded w.runs (container_exited telemetry run o now ts w).0.runs
  unfolding container_exited consume_run_restart
  container_exited-KeepsEnded o now ts w = elim (Option-cases (lookup run.id w.pending_restarts)) [
    | inl none' ↦ rw (none', container_exited) (exit_without_restart-KeepsEnded o now ts w1)
    | inr (kind, asked) ↦
        rw (asked, container_exited)
          (elim (Bool-cases (status_is running (Registry.get w.runs run.id))) [
            | inl live ↦ rw live (KeepsEnded-refl w.runs)
            | inr over ↦ rw over (exit_without_restart-KeepsEnded o now ts w1)
          ])
  ]
    where
      w1 : World U
      w1 = record w { pending_restarts = erase run.id w.pending_restarts }
