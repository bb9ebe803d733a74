-- ===== src/Runs/Timeout.antt =====
-- The timeout budget of a run in src/services/runs.ts. Times are milliseconds.
use actor_runtime.Base.{
  ℕ, ◌+◌, ◌*◌, ◌-◌, ◌/◌, ◌≤◌, ◌≡◌, false, Option, none, some, arith, max, ◌==◌, or_else,
  if◌then◌else◌, Bool-cases, inl, inr,
}
use actor_runtime.Entities.Run.{RunRecord}

module _ {U : Type 0} where
  abbrev pub budget_start : RunRecord U → ℕ
  budget_start r = or_else r.resurrected_at r.started_at

  -- `Math.ceil` of the seconds that are left, at least one.
  unfoldable pub remaining_timeout_secs : ℕ → RunRecord U → ℕ
  remaining_timeout_secs now r =
      if r.options.timeout_secs == 0
      then 0
      else max 1 ((budget_start r + r.options.timeout_secs * 1000 - now + 999) / 1000)

  unfoldable pub run_timeout_at : RunRecord U → Option ℕ
  run_timeout_at r =
      if r.options.timeout_secs == 0
      then none
      else some (budget_start r + r.options.timeout_secs * 1000)

  -- A container that is started at `now` with what is left of the budget is not stopped before the
  -- instant that the run was told, and at most 999 ms after it or a second after its own start.
  pub remaining_timeout_secs-run_timeout_at :
      (now deadline : ℕ) (r : RunRecord U)
      → run_timeout_at r ≡ some deadline
      → (deadline ≤ now + remaining_timeout_secs now r * 1000)
        × (now + remaining_timeout_secs now r * 1000 ≤ max (deadline + 999) (now + 1000))
  unfolding remaining_timeout_secs run_timeout_at
  remaining_timeout_secs-run_timeout_at now deadline r h =
      elim (Bool-cases (r.options.timeout_secs == 0)) [
        | inl unlimited ↦ absurd (clash (rw (unlimited, run_timeout_at) at h))
        | inr limited ↦
            bounds (budget_start r + r.options.timeout_secs * 1000)
              (some_inj (rw (limited, run_timeout_at) at h)) limited
      ]
    where
      clash : none ≡ some deadline → ⊥
      clash e = cc

      some_inj : {a b : ℕ} → some a ≡ some b → a ≡ b
      some_inj e = cc

      bounds :
          (total : ℕ)
          → budget_start r + r.options.timeout_secs * 1000 ≡ deadline
          → (r.options.timeout_secs == 0) ≡ false
          → (deadline ≤ now + remaining_timeout_secs now r * 1000)
            × (now + remaining_timeout_secs now r * 1000 ≤ max (deadline + 999) (now + 1000))
      bounds total e limited =
          rw (limited, remaining_timeout_secs) (omega (arith, e), omega (arith, e))
