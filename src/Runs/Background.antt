-- ===== src/Runs/Background.antt =====
-- `runInBackground` and its parts in src/services/runs.ts, from the READY record to the end of the
-- run. The parts stand between the function's waits for the driver, whose answers are
-- arguments; what comes between two of them is one part, over its waits for the log, the event channel
-- and each write of the registry.
use actor_runtime.Base.{ℕ, String, Bool, not, ◌&&◌, Option, none, some, List, ◌==◌, if◌then◌else◌}
use actor_runtime.Base.Dict.{erase, has}
use actor_runtime.Jobs.Status.{
  JobStatus, running, succeeded, failed, aborting, aborted, timed_out, same_status,
}
use actor_runtime.Jobs.Registry
use actor_runtime.Jobs.Registry.{Registry, on_record}
use actor_runtime.Jobs.Gate.{transition_job_status}
use actor_runtime.Entities.Run.{RunRecord, Telemetry}
use actor_runtime.Runs.World.{
  World, RunRestartKind, migration, reboot, Effect, driver_abort_run, runtime_log, flush_log,
  mark_log_terminal, mark_events_terminal, migrating_to_new_container, rebooting_container,
  cannot_start_run, line, run_status, emit, with_runs, finished_at_patch,
}
use actor_runtime.Runs.Abort.{cancel_graceful_abort, status_is}
use actor_runtime.Runs.Restart.{
  stats_of, restart_after_error, consume_run_restart, clear_run_restart_state,
}

-- What `driver.startRun` resolves to.
pub record Outcome : Type 0 where
  pub exit_code : ℕ
  pub timed_out : Bool

pub data StartNext : Type 0 where
  proceed finalizing nothing_left : StartNext

pub data ExitNext : Type 0 where
  start_again ended : ExitNext

-- The status that the container's end asks for.
unfoldable pub exit_status : Bool → Outcome → JobStatus
exit_status standby_finishing o =
    if standby_finishing
    then succeeded
    else (if o.timed_out then timed_out else (if o.exit_code == 0 then succeeded else failed))

abbrev pub restart_line : String → RunRestartKind → Effect
restart_line id migration = runtime_log id migrating_to_new_container
restart_line id reboot = runtime_log id rebooting_container

module _ {U : Type 0} where
  abbrev pub set_status : String → JobStatus → (RunRecord U → RunRecord U) → World U → World U
  set_status id next patch w = with_runs (transition_job_status run_status w.runs id next patch).0 w

  abbrev pub next_of : Option (RunRecord U) → StartNext
  next_of none = nothing_left
  next_of (some r) =
      if same_status r.status running
      then proceed
      else (if same_status r.status aborting then finalizing else nothing_left)

  -- The first write, `READY -> RUNNING`, and what the record it returns asks for.
  unfoldable pub begin_run : World U → String → World U × StartNext
  begin_run w id =
      let (runs', after_start) = transition_job_status run_status w.runs id running (λ r. r) in
      (with_runs runs' w, next_of after_start)

  -- The second look, right before the container is created.
  unfoldable pub pre_start : World U → String → StartNext
  pre_start w id = next_of (Registry.get w.runs id)

  -- An abort landed first: close its window and stop whatever there is; `abort_run_end` follows.
  unfoldable pub finalize_aborting : World U → String → World U
  finalize_aborting w id = emit (driver_abort_run id) (cancel_graceful_abort id w).0

  abbrev pub failed_patch : ℕ → Option String → RunRecord U → RunRecord U
  failed_patch now message r = record r { finished_at = some now; status_message = message }

  unfoldable pub fail_before_container : World U → String → String → Option String → ℕ → World U
  fail_before_container w id log_message message now =
      set_status id failed (failed_patch now message) (
        emit (mark_events_terminal id) (
          emit (mark_log_terminal id)
            (emit (flush_log id) (emit (runtime_log id (line log_message)) w))))

  abbrev pub with_telemetry : Telemetry U → RunRecord U → RunRecord U
  with_telemetry t r = record r { stats = some (record (stats_of r) { telemetry = some t }) }

  unfoldable pub persist_run_telemetry : Option (Telemetry U) → World U → String → World U
  persist_run_telemetry none w id = w
  persist_run_telemetry (some t) w id =
      with_runs (Registry.update w.runs id (on_record (with_telemetry t))).0 w

  abbrev pub exit_patch : ℕ → ℕ → RunRecord U → RunRecord U
  exit_patch now exit_code r = record r { finished_at = some now; exit_code = some exit_code }

  -- The `finally` block.
  unfoldable pub wind_down : Option (Telemetry U) → RunRecord U → ℕ → World U → World U
  wind_down telemetry run now w =
      let w1 = persist_run_telemetry telemetry w run.id in
      let (w2, was_open) = cancel_graceful_abort run.id w1 in
      let w3 : World U =
        if was_open then set_status run.id aborted (finished_at_patch now) w2 else w2 in
      let w4 : World U = record w3 {
        default_dataset_runs = erase run.default_dataset_id w3.default_dataset_runs;
      } in
      let w5 = clear_run_restart_state w4 run.id in
      emit (mark_events_terminal run.id) (
        emit (mark_log_terminal run.id)
          (record w5 { finishing_runs = erase run.id w5.finishing_runs }))

  -- The write of the container's end and the `finally` block after it.
  unfoldable pub finish_exit :
      Option (Telemetry U) → RunRecord U → Outcome → Bool → ℕ → World U → World U
  finish_exit telemetry run o standby_finishing now w = wind_down telemetry run now (
      set_status run.id (exit_status standby_finishing o) (exit_patch now o.exit_code)
        (persist_run_telemetry telemetry (emit (flush_log run.id) w) run.id))

  -- No migration or reboot asked for this exit: a standby run that was wound down and a run that timed
  -- out or exited with 0 end; any other may be restarted.
  unfoldable pub exit_without_restart :
      Option (Telemetry U)
      → RunRecord U
      → Outcome
      → ℕ
      → List ℕ
      → World U
      → World U × ExitNext × List ℕ
  exit_without_restart telemetry run o now times w =
      let standby_finishing = has run.id w.finishing_runs in
      let w1 : World U = record w { finishing_runs = erase run.id w.finishing_runs } in
      let (w2, again, times') = restart_after_error w1 run.id o.exit_code now times in
      if not standby_finishing && not o.timed_out && not (o.exit_code == 0)
      then (if again
          then (w2, start_again, times')
          else (finish_exit telemetry run o standby_finishing now w2, ended, times'))
      else (finish_exit telemetry run o standby_finishing now w1, ended, times)

  -- One round of the loop after `driver.startRun` resolved.
  unfoldable pub container_exited :
      Option (Telemetry U)
      → RunRecord U
      → Outcome
      → ℕ
      → List ℕ
      → World U
      → World U × ExitNext × List ℕ
  container_exited telemetry run o now times w =
      let (w1, restart) = consume_run_restart w run.id in
      elim restart [
        | none ↦ exit_without_restart telemetry run o now times w1
        | some kind ↦
            if status_is running (Registry.get w1.runs run.id)
            then (emit (restart_line run.id kind) w1, start_again, times)
            else exit_without_restart telemetry run o now times w1
      ]

  -- The `catch` block, with the message that it composes, and the `finally` block after it.
  unfoldable pub run_failed : Option (Telemetry U) → RunRecord U → String → ℕ → World U → World U
  run_failed telemetry run message now w = wind_down telemetry run now (
      set_status run.id failed (failed_patch now (some message)) (
        persist_run_telemetry telemetry
          (emit (flush_log run.id) (emit (runtime_log run.id (cannot_start_run message)) w))
          run.id))
