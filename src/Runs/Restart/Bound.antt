-- ===== src/Runs/Restart/Bound.antt =====
-- How often `restartAfterError` of src/services/runs.ts restarts a run.
use mathlib.Core.List.{append_assoc, append-nil}
use actor_runtime.Base.{
  refl, sym, ap, ◌∙◌, ◌++◌, ℕ, ◌≤◌, ◌<◌, String, ◌≡◌, Bool, false, Option, none, some, List, [],
  ◌∷◌, arith, length, or_else, if◌then◌else◌, ltb, ◌+◌,
}
use actor_runtime.Jobs.Registry
use actor_runtime.Jobs.Registry.{Registry}
use actor_runtime.Entities.Run.{RunRecord}
use actor_runtime.Runs.World.{World, with_runs}
use actor_runtime.Runs.Restart.{
  Decision, undecided, limit_reached, restart, recent, decide_restart, restart_after_error,
  restart_mutator, in_window, window_step, after_decision,
}

-- How many of the times are less than a minute before `now`.
abbrev pub younger : ℕ → List ℕ → ℕ
younger now [] = 0
younger now (t ∷ ts) = let rest = younger now ts in if ltb now (t + 60000) then rest + 1 else rest

module _ {U : Type 0} where
  decide_restart-lt : (n : ℕ) (o : Option (RunRecord U)) → decide_restart n o ≡ restart → n < 3
  unfolding decide_restart
  decide_restart-lt n none h = cc
  decide_restart-lt n (some r) h = ground arith

  after_decision_window :
      (id : String) (exit_code now start : ℕ) (times : List ℕ) (d : Decision) (w : World U)
      → (d ≡ restart → length (recent now times) < 3)
      → in_window start times ≤ 3
      → in_window start (after_decision id exit_code now times d w).2 ≤ 3
  after_decision_window id exit_code now start times restart w h k =
      window_step start now times k (h refl')
    where
      refl' : ◌≡◌ {A = Decision} restart restart
      refl' = cc
  after_decision_window id exit_code now start times limit_reached w h k = k
  after_decision_window id exit_code now start times undecided w h k = k

  restart_window :
      (w : World U) (id : String) (exit_code now start : ℕ) (times : List ℕ)
      → in_window start times ≤ 3
      → in_window start (restart_after_error w id exit_code now times).2 ≤ 3
  unfolding restart_after_error
  restart_window w id exit_code now start times h =
      after_decision_window id exit_code now start times _ _
        (decide_restart-lt (length (recent now times)) (Registry.get w.runs id)) h

  -- The failures of one incarnation: before each, other handlers change the world; each has an exit
  -- code and a time. The history starts empty, as `errorRestartTimes` does.
  pub failures : World U → String → List ((World U → World U) × ℕ × ℕ) → List ℕ → List ℕ
  failures w id [] times = times
  failures w id ((meanwhile, exit_code, now) ∷ rest) times =
      let after = restart_after_error (meanwhile w) id exit_code now times in
      failures after.0 id rest after.2

  failures_window :
      (w : World U) (id : String) (fs : List ((World U → World U) × ℕ × ℕ)) (times : List ℕ)
      (start : ℕ)
      → in_window start times ≤ 3
      → in_window start (failures w id fs times) ≤ 3
  unfolding failures
  failures_window w id [] times start h = h
  failures_window w id ((meanwhile, exit_code, now) ∷ rest) times start h =
      let after = restart_after_error (meanwhile w) id exit_code now times in
      failures_window after.0 id rest after.2 start
        (restart_window (meanwhile w) id exit_code now start times h)

  -- The times of the failures after which the run is restarted: those that are answered `true`.
  pub restart_times : World U → String → List ((World U → World U) × ℕ × ℕ) → List ℕ → List ℕ
  restart_times w id [] times = []
  restart_times w id ((meanwhile, exit_code, now) ∷ rest) times =
      let after = restart_after_error (meanwhile w) id exit_code now times in
      (if after.1 then now ∷ [] else []) ++ restart_times after.0 id rest after.2

  history_of_decision :
      (id : String) (exit_code now : ℕ) (times : List ℕ) (d : Decision) (w : World U)
      → (after_decision id exit_code now times d w).2
        ≡ times ++ (if (after_decision id exit_code now times d w).1 then now ∷ [] else [])
  history_of_decision id exit_code now times restart w = refl
  history_of_decision id exit_code now times limit_reached w = sym (append-nil times)
  history_of_decision id exit_code now times undecided w = sym (append-nil times)

  -- The history holds each restart's time.
  failures-restart_times :
      (w : World U) (id : String) (fs : List ((World U → World U) × ℕ × ℕ)) (times : List ℕ)
      → failures w id fs times ≡ times ++ restart_times w id fs times
  unfolding failures restart_times restart_after_error
  failures-restart_times w id [] times = sym (append-nil times)
  failures-restart_times w id ((meanwhile, exit_code, now) ∷ rest) times =
      let after = restart_after_error (meanwhile w) id exit_code now times in
      failures-restart_times after.0 id rest after.2
      ∙ ap (λ t. t ++ restart_times after.0 id rest after.2)
          (history_of_decision id exit_code now times _ _)
      ∙ append_assoc times (if after.1 then now ∷ [] else [])
          (restart_times after.0 id rest after.2)

  -- However often the container of an incarnation fails, at whatever times and whatever other handlers
  -- do in between, no window of one minute holds more than three of the failures after which it is
  -- restarted.
  pub restarts_per_minute :
      (w : World U) (id : String) (fs : List ((World U → World U) × ℕ × ℕ)) (start : ℕ)
      → in_window start (restart_times w id fs []) ≤ 3
  restarts_per_minute w id fs start =
      rw (failures-restart_times w id fs []) at (failures_window w id fs [] start (omega arith))

  abbrev decided : World U → String → ℕ → ℕ → List ℕ → Decision → World U × Bool × List ℕ
  decided w id exit_code now times d =
      after_decision id exit_code now times d
        (with_runs (Registry.update w.runs id (restart_mutator d)).0 w)

  -- How often the record says that the run was restarted.
  abbrev pub restarts_of : RunRecord U → ℕ
  restarts_of r = elim r.stats [ none ↦ 0 | some s ↦ or_else s.restart_count 0 ]

  -- What a decision leaves of the record: one more restart where there is one, and all else as it was.
  abbrev pub Counted : Bool → RunRecord U → RunRecord U → Type 0
  Counted restarted r r' =
      (restarts_of r' ≡ (if restarted then restarts_of r + 1 else restarts_of r))
      × (record r' { stats = r.stats } ≡ r)
      × (restarted ≡ false → r' ≡ r)
