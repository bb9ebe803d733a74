-- ===== src/Runs/Abort.antt =====
-- `abortRun` and the graceful-abort window of src/services/runs.ts. What the function does before it
-- awaits the driver is one step, and what it does after is another: other handlers run in between.
pub mod Race
use actor_runtime.Base.{
  ℕ, String, ◌≡◌, Bool, true, false, not, ◌&&◌, Option, none, some, List, [], ◌∷◌, ◌===◌,
  if◌then◌else◌,
}
use actor_runtime.Base.Dict.{insert, erase, has}
use actor_runtime.Jobs.Status.{
  JobStatus, running, aborting, aborted, is_terminal_job_status, same_status,
}
use actor_runtime.Jobs.Registry
use actor_runtime.Jobs.Registry.{Registry}
use actor_runtime.Jobs.Gate.{gate, transition_job_status}
use actor_runtime.Entities.Run.{RunRecord}
use actor_runtime.Runs.World.{
  World, Effect, driver_abort_run, publish_aborting, publish_persist_state, arm_graceful_abort,
  run_status, emit, with_runs, finished_at_patch,
}

-- What the first part of `abortRun` ends with: its result, or the wait for `driver.abortRun`.
pub data AbortNext (U : Type 0) : Type 0 where
  returned : Option (RunRecord U) → AbortNext U
  stopping : AbortNext U

module _ {U : Type 0} where
  unfoldable pub arm_graceful_abort_window : String → World U → World U
  arm_graceful_abort_window run_id w =
      emit (arm_graceful_abort run_id)
        (record w { pending_graceful_aborts = insert run_id tt w.pending_graceful_aborts })

  -- Reports whether a window was open.
  unfoldable pub cancel_graceful_abort : String → World U → World U × Bool
  cancel_graceful_abort run_id w =
      if has run_id w.pending_graceful_aborts
      then (record w { pending_graceful_aborts = erase run_id w.pending_graceful_aborts }, true)
      else (w, false)

  abbrev pub abort_patch : Option String → RunRecord U → RunRecord U
  abort_patch none r = r
  abort_patch (some message) r = record r {
    status_message = some message;
    is_status_message_terminal = some true;
    is_status_message_from_runtime = some true;
  }

  abbrev pub status_is : JobStatus → Option (RunRecord U) → Bool
  status_is s none = false
  status_is s (some r) = same_status r.status s

  -- The branches once the record is ABORTING; the two flags are what `onBeforeTransition` read.
  unfoldable pub proceed_aborting :
      String → Bool → Bool → Bool → RunRecord U → World U → World U × AbortNext U
  unfolding arm_graceful_abort_window cancel_graceful_abort
  proceed_aborting id gracefully was_running already_aborting r w =
      if already_aborting && gracefully
      then (w, returned (some r))
      else (if not already_aborting && gracefully && was_running
          then (
            arm_graceful_abort_window id
                (emit (publish_persist_state id false) (emit (publish_aborting id) w)),
            returned (some r),
          )
          else (emit (driver_abort_run id) (cancel_graceful_abort id w).0, stopping))

  abbrev pub aborting_or_returned :
      String → Bool → Bool → Bool → Option (RunRecord U) → World U → World U × AbortNext U
  aborting_or_returned id gracefully was_running already none w = (w, returned none)
  aborting_or_returned id gracefully was_running already (some r) w =
      if same_status r.status aborting
      then proceed_aborting id gracefully was_running already r w
      else (w, returned (some r))

  unfoldable pub abort_run_begin :
      World U → RunRecord U → Bool → Option String → World U × AbortNext U
  abort_run_begin w run gracefully message =
      let current = Registry.get w.runs run.id in
      let (runs', aborting') =
        transition_job_status run_status w.runs run.id aborting (abort_patch message) in
      if is_terminal_job_status run.status
      then (w, returned (some run))
      else aborting_or_returned run.id gracefully (status_is running current)
          (status_is aborting current) aborting' (with_runs runs' w)

  -- After `await driver.abortRun`; also the body of `finishGracefulAbort` after its own await.
  unfoldable pub abort_run_end : World U → String → ℕ → World U × Option (RunRecord U)
  abort_run_end w id now =
      let (runs', ended) =
        transition_job_status run_status w.runs id aborted (finished_at_patch now) in
      (with_runs runs' w, ended)

  -- The window's timer fires: the entry goes, and the driver is asked to stop the container.
  unfoldable pub graceful_abort_fires : World U → String → World U
  graceful_abort_fires w id =
      emit (driver_abort_run id)
        (record w { pending_graceful_aborts = erase id w.pending_graceful_aborts })

  -- The whole of `abortRun`; `meanwhile` is what other handlers do while the driver stops the container.
  unfoldable pub abort_run :
      (World U → World U)
      → World U
      → RunRecord U
      → Bool
      → Option String
      → ℕ
      → World U × Option (RunRecord U)
  abort_run meanwhile w run gracefully message now =
      let (w', next) = abort_run_begin w run gracefully message in
      elim next [ returned r ↦ (w', r) | stopping ↦ abort_run_end (meanwhile w') run.id now ]
