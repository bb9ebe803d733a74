-- ===== src/Standby/Finish.antt =====
-- How a standby run is wound down: `finishRun` of src/services/standby.ts and the marks of
-- src/services/standby-finish.ts, which runs.ts reads when the container exits.
pub mod Exit
use actor_runtime.Base.{ℕ, String, Bool, true, false, Option, none, some, List, ◌∷◌, if◌then◌else◌}
use actor_runtime.Base.Dict.{insert, erase, has}
use actor_runtime.Jobs.Status.{JobStatus, ready, running, same_status}
use actor_runtime.Jobs.Registry
use actor_runtime.Jobs.Registry.{Registry}
use actor_runtime.Entities.Run.{RunRecord}
use actor_runtime.Runs.World.{
  World, LogMessage, Effect, runtime_log, publish_aborting, publish_persist_state, driver_abort_run,
  emit,
}

-- After one look at the record: look again later, stop the container when the warning has passed, or
-- leave the run alone.
pub data FinishNext : Type 0 where
  look_again stop_later leave : FinishNext

module _ {U : Type 0} where
  unfoldable pub mark_standby_run_finishing : String → World U → World U
  mark_standby_run_finishing run_id w = record w {
    finishing_runs = insert run_id tt w.finishing_runs;
  }

  unfoldable pub consume_standby_run_finishing : String → World U → World U × Bool
  consume_standby_run_finishing run_id w =
      (record w { finishing_runs = erase run_id w.finishing_runs }, has run_id w.finishing_runs)

  abbrev pub warn : String → LogMessage → World U → World U
  warn run_id message w = emit (publish_persist_state run_id false) (
      emit (publish_aborting run_id)
        (emit (runtime_log run_id message) (mark_standby_run_finishing run_id w)))

  abbrev pub finish_with :
      Option (RunRecord U) → String → LogMessage → World U → World U × FinishNext
  finish_with none run_id message w = (w, leave)
  finish_with (some r) run_id message w =
      if same_status r.status ready
      then (w, look_again)
      else (if same_status r.status running
          then (warn run_id message w, stop_later)
          else (w, leave))

  -- finishRun from one read of the record on; a run that is still READY is read again.
  unfoldable pub finish_standby_run : String → LogMessage → World U → World U × FinishNext
  finish_standby_run run_id message w = finish_with (Registry.get w.runs run_id) run_id message w

  -- The timer that is set for `stop_later`: the stop signal, with a grace period before the kill.
  unfoldable pub warning_passes : String → World U → World U
  warning_passes run_id w = emit (driver_abort_run run_id) w
