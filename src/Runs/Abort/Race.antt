-- ===== src/Runs/Abort/Race.antt =====
-- What `abortRun` guarantees against the handlers that run while it waits for the driver.
use actor_runtime.Base.{
  ℕ, String, ◌≡◌, inl, refl, Bool, false, Option, none, some, List, arith, eq_refl,
}
use actor_runtime.Jobs.Status.{
  running, aborting, aborted, is_terminal_job_status, allowed_next, same_status,
}
use actor_runtime.Jobs.Registry
use actor_runtime.Jobs.Registry.{Registry, on_record}
use actor_runtime.Jobs.Gate.{gate, transition_job_status}
use actor_runtime.Jobs.Progress.{
  get-transition_job_status, result-transition_job_status, status-gate,
}
use actor_runtime.Entities.Run.{RunRecord}
use actor_runtime.Runs.World.{World, run_status, with_runs, finished_at_patch}
use actor_runtime.Runs.Abort.{
  stopping, abort_patch, aborting_or_returned, proceed_aborting, abort_run_begin, abort_run_end,
  abort_run, status_is,
}
use actor_runtime.Runs.Writes.{RunWrite, IsAborting, interfere, interfere-IsAborting}

module _ {U : Type 0} where
  -- A live record takes the move to ABORTING, or is ABORTING already.
  gate_aborting :
      (patch : RunRecord U → RunRecord U) (r : RunRecord U)
      → is_terminal_job_status r.status ≡ false
      → (gate run_status aborting patch r).status ≡ aborting
  unfolding is_terminal_job_status allowed_next
  gate_aborting patch r h = ground (arith, status-gate run_status aborting patch r)

  gate_aborted :
      (patch : RunRecord U → RunRecord U) (r : RunRecord U)
      → IsAborting (some r)
      → (gate run_status aborted patch r).status ≡ aborted
  unfolding allowed_next
  gate_aborted patch r h = ground (arith, status-gate run_status aborted patch r)

  hard_stops :
      (id : String) (was_running already : Bool) (o : Option (RunRecord U)) (w : World U)
      (r : RunRecord U)
      → o ≡ some r
      → r.status ≡ aborting
      → ((aborting_or_returned id false was_running already o w).0.runs ≡ w.runs)
        × ((aborting_or_returned id false was_running already o w).1 ≡ stopping)
  unfolding same_status proceed_aborting
  hard_stops id was_running already o w r e h = rw (e, h) (ground arith, ground arith)

  -- An abort without `gracefully` of a live run leaves it ABORTING and goes on to stop the container.
  abort_run_begin_hard :
      (w : World U) (run r : RunRecord U) (message : Option String)
      → Registry.get w.runs run.id ≡ some r
      → is_terminal_job_status run.status ≡ false
      → is_terminal_job_status r.status ≡ false
      → IsAborting (Registry.get (abort_run_begin w run false message).0.runs run.id)
        × ((abort_run_begin w run false message).1 ≡ stopping)
  unfolding abort_run_begin
  abort_run_begin_hard w run r message found live' live = rw live' (
    rw
        (
          stops.0,
          get-transition_job_status run_status w.runs run.id run.id aborting patch,
          eq_refl run.id,
          found,
        )
        (inl moved),
    stops.1,
  )
    where
      patch : RunRecord U → RunRecord U
      patch = abort_patch message

      moved : (gate run_status aborting patch r).status ≡ aborting
      moved = gate_aborting patch r live

      written : Registry (RunRecord U) × Option (RunRecord U)
      written = transition_job_status run_status w.runs run.id aborting patch

      returned' : written.1 ≡ some (gate run_status aborting patch r)
      returned' = rw (result-transition_job_status run_status w.runs run.id aborting patch, found)

      stops :
          ((aborting_or_returned run.id false
              (status_is running (Registry.get w.runs run.id))
              (status_is aborting (Registry.get w.runs run.id))
              written.1
              (with_runs written.0 w)).0.runs
            ≡ written.0)
          × ((aborting_or_returned run.id false
                (status_is running (Registry.get w.runs run.id))
                (status_is aborting (Registry.get w.runs run.id))
                written.1
                (with_runs written.0 w)).1
              ≡ stopping)
      stops =
          hard_stops run.id _ _ written.1 (with_runs written.0 w) (gate run_status aborting patch r)
            returned' moved

  -- The second part, on a run that is being aborted, ends it as ABORTED and reports that record.
  abort_run_end_aborts :
      (w : World U) (id : String) (now : ℕ)
      → IsAborting (Registry.get w.runs id)
      → (r : RunRecord U) × ((abort_run_end w id now).1 ≡ some r)
        × (Registry.get (abort_run_end w id now).0.runs id ≡ some r)
        × (r.status ≡ aborted)
  unfolding abort_run_end
  abort_run_end_aborts w id now h = go (Registry.get w.runs id) refl h
    where
      patch : RunRecord U → RunRecord U
      patch = finished_at_patch now

      go :
          (o : Option (RunRecord U))
          → Registry.get w.runs id ≡ o
          → IsAborting o
          → (r : RunRecord U) × ((abort_run_end w id now).1 ≡ some r)
            × (Registry.get (abort_run_end w id now).0.runs id ≡ some r)
            × (r.status ≡ aborted)
      go none e k = absurd k
      go (some r) e k = (
        gate run_status aborted patch r,
        rw (result-transition_job_status run_status w.runs id aborted patch, e),
        rw (get-transition_job_status run_status w.runs id id aborted patch, eq_refl id, e),
        gate_aborted patch r k,
      )

  -- An abort without `gracefully` of a run that is live in the caller's copy and in the registry
  -- ends with the run ABORTED, in the registry and in what the call returns, whatever status writes
  -- through the gate and updates that keep the status the handlers that run meanwhile make. A
  -- deletion or a resurrection is neither.
  pub abort_run_ends_aborted :
      (w : World U) (run r : RunRecord U) (message : Option String) (now : ℕ)
      (xs : List (String × RunWrite U))
      → Registry.get w.runs run.id ≡ some r
      → is_terminal_job_status run.status ≡ false
      → is_terminal_job_status r.status ≡ false
      → (r' : RunRecord U) × ((abort_run (interfere xs) w run false message now).1 ≡ some r')
        × (Registry.get (abort_run (interfere xs) w run false message now).0.runs run.id ≡ some r')
        × (r'.status ≡ aborted)
  unfolding abort_run
  abort_run_ends_aborted w run r message now xs found live' live =
      let begun = abort_run_begin_hard w run r message found live' live in
      rw (begun.1, abort_run)
        (abort_run_end_aborts (interfere xs (abort_run_begin w run false message).0) run.id now
          (interfere-IsAborting xs (abort_run_begin w run false message).0 run.id begun.0))
