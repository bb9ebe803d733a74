-- ===== src/Schedules/Cron/Offset.antt =====
-- The random offset of the `@hourly`-style expressions in src/services/schedule-cron.ts.
use actor_runtime.Base.{
  ℕ, ◌<◌, ◌≤◌, ◌≡◌, String, true, some, [], ◌∷◌, ltb, ◌===◌, arith, Bool-cases, inl, inr, All,
}
use actor_runtime.Base.Dict.{Dict, lookup}
use actor_runtime.Webhooks.Dispatches.{random_unit}
use actor_runtime.Schedules.Cron.{
  RandomOffsetBounds, bounds_of, cron_random_offset_bounds, offset_within, offset_secs,
}

-- The offset stays inside a pair of bounds.
abbrev Within : ℕ → RandomOffsetBounds → Type 0
Within coeff bound =
    (bound.min_secs ≤ offset_within bound coeff) × (offset_within bound coeff ≤ bound.max_secs)

module _ (coeff : ℕ) (h : coeff ≤ random_unit) where
  All-Within : All (λ entry. Within coeff (entry.1)) cron_random_offset_bounds
  All-Within =
      let hourly : Within coeff (bounds_of 60 1800 10) = (omega (arith, h), omega (arith, h)) in
      let daily : Within coeff (bounds_of 300 21600 30) = (omega (arith, h), omega (arith, h)) in
      let weekly : Within coeff (bounds_of 300 43200 60) = (omega (arith, h), omega (arith, h)) in
      let monthly : Within coeff (bounds_of 300 86400 600) = (omega (arith, h), omega (arith, h)) in
      (hourly, (daily, (weekly, (monthly, (monthly, tt)))))

module _ {V : Type 0} (P : V → Type 0) where
  lookup-All :
      (key : String) (v : V) (d : Dict V)
      → All (λ entry. P (entry.1)) d
      → lookup key d ≡ some v
      → P v
  unfolding lookup
  lookup-All key v [] all h = absurd (cc)
  lookup-All key v ((k, u) ∷ d) (here, there) h = elim (Bool-cases (k === key)) [
    | inl yes' ↦ rw (← some_inj u v (rw yes' at h)) here
    | inr no' ↦ lookup-All key v d there (rw no' at h)
  ]
    where
      some_inj : (x y : V) → some x ≡ some y → x ≡ y
      some_inj x y e = cc

-- For each of the shortcuts, any positive coefficient up to 1 gives an offset inside the shortcut's bounds.
pub offset_secs_bounds :
    (expression : String) (coeff : ℕ) (bound : RandomOffsetBounds)
    → lookup expression cron_random_offset_bounds ≡ some bound
    → 0 < coeff
    → coeff ≤ random_unit
    → (bound.min_secs ≤ offset_secs expression coeff)
      × (offset_secs expression coeff ≤ bound.max_secs)
unfolding offset_secs
offset_secs_bounds expression coeff bound found positive most =
    rw (found, offset_by_positive)
      (lookup-All (Within coeff) expression bound cron_random_offset_bounds (All-Within coeff most)
        found)
  where
    offset_by_positive : ltb 0 coeff ≡ true
    offset_by_positive = ground (arith, positive)
