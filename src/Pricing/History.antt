-- ===== src/Pricing/History.antt =====
-- What an accepted pricing update of src/services/pricing.ts leaves of the past.
use actor_runtime.Base.{
  ℕ, ◌≤◌, ◌<◌, ◌≡◌, ◌⊎◌, inl, inr, refl, Bool, true, false, Option, none, some, List, [], ◌∷◌, ◌++◌,
  ◌∙◌, ◌+◌, ◌-◌, ◌==◌, length-append, Bool-cases, arith, length, ltb, last?, All, if◌then◌else◌,
}
use mathlib.Core.List.{append-nil}
use actor_runtime.Entities.Pricing.{ActorPricingInfoRecord}
use actor_runtime.Pricing.{
  better, effective_from, effective_pricing_info, differing, any_at_least, any_after, check_added,
  validate_pricing_infos_update, UpdateRefusal, incorrect_pricing_modifier_prefix,
}

module _ {U : Type 0} where
  effective_from-append :
      (date : ℕ) (best : Option (ActorPricingInfoRecord U)) (xs : List (ActorPricingInfoRecord U))
      (x : ActorPricingInfoRecord U)
      → effective_from date best (xs ++ x ∷ []) ≡ better date (effective_from date best xs) x
  unfolding effective_from
  effective_from-append date best [] x = refl
  effective_from-append date best (y ∷ ys) x = effective_from-append date (better date best y) ys x

  abbrev pub StartsBy : ℕ → ActorPricingInfoRecord U → Type 0
  StartsBy time e = e.started_at ≤ time

  abbrev pub StartsBefore : ℕ → ActorPricingInfoRecord U → Type 0
  StartsBefore time e = e.started_at < time

  -- A later entry in force takes over; one that starts after the date changes nothing.
  better_of_later :
      (date : ℕ) (best : Option (ActorPricingInfoRecord U)) (x : ActorPricingInfoRecord U)
      → (ltb date x.started_at ≡ true)
        ⊎ ((best ≡ none)
            ⊎ ((b : ActorPricingInfoRecord U) × (best ≡ some b) × (b.started_at < x.started_at)))
      → better date best x ≡ (if ltb date x.started_at then best else some x)
  better_of_later date none x h = ground arith
  better_of_later date (some b) x h = ground arith

  -- Every answer from the list, or the starting one, is no later than what bounds them all.
  effective_from_before :
      (date time : ℕ) (best : Option (ActorPricingInfoRecord U))
      (xs : List (ActorPricingInfoRecord U))
      → All (StartsBefore time) xs
      → (best ≡ none) ⊎ ((b : ActorPricingInfoRecord U) × (best ≡ some b) × (b.started_at < time))
      → (effective_from date best xs ≡ none)
        ⊎ ((b : ActorPricingInfoRecord U) × (effective_from date best xs ≡ some b)
            × (b.started_at < time))
  unfolding effective_from
  effective_from_before date time best [] h k = k
  effective_from_before date time best (x ∷ xs) h k =
      effective_from_before date time (better date best x) xs h.1 (step best k)
    where
      step :
          (o : Option (ActorPricingInfoRecord U))
          → (o ≡ none) ⊎ ((b : ActorPricingInfoRecord U) × (o ≡ some b) × (b.started_at < time))
          → (better date o x ≡ none)
            ⊎ ((b : ActorPricingInfoRecord U) × (better date o x ≡ some b) × (b.started_at < time))
      step none e = elim (Bool-cases (ltb date x.started_at)) [
        | inl late ↦ inl (rw late)
        | inr now ↦ inr (x, rw now, h.0)
      ]
      step (some b) e = elim (Bool-cases (ltb date x.started_at)) [
        | inl late ↦ rw late e
        | inr now ↦ rw now (elim (Bool-cases (ltb b.started_at x.started_at)) [
          | inl newer ↦ inr (x, rw newer, h.0)
          | inr older ↦ rw older e
        ])
      ]

  effective_of_append :
      (date : ℕ) (xs : List (ActorPricingInfoRecord U)) (x : ActorPricingInfoRecord U)
      → All (StartsBefore x.started_at) xs
      → effective_pricing_info (some (xs ++ x ∷ [])) date
        ≡ (if ltb date x.started_at then effective_pricing_info (some xs) date else some x)
  unfolding effective_pricing_info
  effective_of_append date xs x h =
      effective_from-append date none xs x
      ∙ better_of_later date (effective_from date none xs) x
          (inr (effective_from_before date x.started_at none xs h (inl refl)))

  any_at_least_none :
      (time : ℕ) (xs : List (ActorPricingInfoRecord U))
      → any_at_least time xs ≡ false
      → All (StartsBefore time) xs
  unfolding any_at_least
  any_at_least_none time [] h = tt
  any_at_least_none time (x ∷ xs) h = (ground arith, any_at_least_none time xs (ground arith))

  any_after_none :
      (time : ℕ) (xs : List (ActorPricingInfoRecord U))
      → any_after time xs ≡ false
      → All (StartsBy time) xs
  unfolding any_after
  any_after_none time [] h = tt
  any_after_none time (x ∷ xs) h = (ground arith, any_after_none time xs (ground arith))

  -- An accepted update leaves the existing entries as they are and appends at most one. The one starts
  -- after all of them, and either not in the future or with no existing entry in the future.
  pub Accepted : ℕ → List (ActorPricingInfoRecord U) → List (ActorPricingInfoRecord U) → Type 0
  Accepted now current submitted =
      (submitted ≡ current)
      ⊎ ((added : ActorPricingInfoRecord U) × (submitted ≡ current ++ added ∷ [])
          × All (StartsBefore added.started_at) current
          × ((added.started_at ≤ now) ⊎ All (StartsBy now) current))

module _ {U : Type 0} (same : ActorPricingInfoRecord U → ActorPricingInfoRecord U → Bool)
    (same→≡ : (a b : ActorPricingInfoRecord U) → same a b ≡ true → a ≡ b) where
  differing_prefix :
      (index : ℕ) (submitted current : List (ActorPricingInfoRecord U))
      → differing same index submitted current ≡ none
      → (rest : List (ActorPricingInfoRecord U)) × (submitted ≡ current ++ rest)
  unfolding differing
  differing_prefix index submitted [] h = (submitted, refl)
  differing_prefix index [] (e ∷ current) h = cc
  differing_prefix index (s ∷ submitted) (e ∷ current) h = elim (Bool-cases (same s e)) [
    | inl alike ↦
        let (rest, eq) = differing_prefix (index + 1) submitted current (cut alike) in
        (rest, ground (arith, eq, same→≡ s e alike))
    | inr unlike ↦ absurd (clash unlike)
  ]
    where
      cut : same s e ≡ true → differing same (index + 1) submitted current ≡ none
      cut alike = ground (arith, h, alike)

      clash : same s e ≡ false → ⊥
      clash unlike = ground (arith, h, unlike)

  check_added-none :
      (now : ℕ) (current : List (ActorPricingInfoRecord U)) (added : ActorPricingInfoRecord U)
      → check_added now current (some added) ≡ none
      → All (StartsBefore added.started_at) current
        × ((added.started_at ≤ now) ⊎ All (StartsBy now) current)
  unfolding check_added
  check_added-none now current added h = elim (Bool-cases (any_at_least added.started_at current)) [
    | inl past ↦ absurd (clash past)
    | inr fresh ↦ (any_at_least_none added.started_at current fresh, future fresh)
  ]
    where
      clash : any_at_least added.started_at current ≡ true → ⊥
      clash past = ground (arith, h, past)

      future :
          any_at_least added.started_at current ≡ false
          → (added.started_at ≤ now) ⊎ All (StartsBy now) current
      future fresh = elim (Bool-cases (any_after now current)) [
        | inl other ↦ inl (ground (arith, h, fresh, other))
        | inr alone ↦ inr (any_after_none now current alone)
      ]

  appended :
      (now : ℕ) (current rest : List (ActorPricingInfoRecord U))
      → length (current ++ rest) - length current < 2
      → (if length (current ++ rest) == length current
          then none
          else check_added now current (last? (current ++ rest)))
        ≡ none
      → Accepted now current (current ++ rest)
  unfolding Accepted
  appended now current [] short h = inl (append-nil current)
  appended now current (x ∷ []) short h =
      let checked = check_added-none now current x (last_checked h) in
      inr (x, refl, checked.0, checked.1)
    where
      last-append : (ys : List (ActorPricingInfoRecord U)) → last? (ys ++ x ∷ []) ≡ some x
      last-append [] = refl
      last-append (y ∷ []) = refl
      last-append (y ∷ z ∷ zs) = last-append (z ∷ zs)

      last_checked :
          (if length (current ++ x ∷ []) == length current
              then none
              else check_added now current (last? (current ++ x ∷ [])))
            ≡ none
          → check_added now current (some x) ≡ none
      last_checked k = ground (arith, k, length-append current (x ∷ []), last-append current)
  appended now current (x ∷ y ∷ ys) short h =
      absurd (omega (arith, length-append current (x ∷ y ∷ ys)))

  -- The append-only rule: where the comparison of entries calls only equal ones the same, an update
  -- is accepted only if it leaves the existing entries as they are and appends at most one, which
  -- starts after all of them, and either not in the future or with no existing entry in the future.
  pub validate_pricing_infos_update-Accepted :
      (now : ℕ) (current submitted : List (ActorPricingInfoRecord U))
      → validate_pricing_infos_update same now current submitted ≡ none
      → Accepted now current submitted
  unfolding validate_pricing_infos_update
  validate_pricing_infos_update-Accepted now current submitted h =
      elim (Bool-cases (ltb (length submitted) (length current))) [
        | inl fewer ↦ absurd (clash (rw (fewer, validate_pricing_infos_update) at h))
        | inr enough ↦ elim (Bool-cases (ltb 1 (length submitted - length current))) [
          | inl many ↦ absurd (clash (rw (enough, many, validate_pricing_infos_update) at h))
          | inr few ↦ prefixed few (rw (enough, few, validate_pricing_infos_update) at h)
        ]
      ]
    where
      clash : {r : UpdateRefusal} → ◌≡◌ {A = Option UpdateRefusal} (some r) none → ⊥
      clash e = cc

      Rest : Option ℕ → Type 0
      Rest o =
          (elim o [
            | some index ↦ some (incorrect_pricing_modifier_prefix index)
            | none ↦
                if length submitted == length current
                then none
                else check_added now current (last? submitted)
          ])
          ≡ none

      matched :
          (o : Option ℕ)
          → differing same 0 submitted current ≡ o
          → ltb 1 (length submitted - length current) ≡ false
          → Rest o
          → Accepted now current submitted
      matched none e few k =
          let (rest, eq) = differing_prefix 0 submitted current e in
          rw eq (appended now current rest (ground (arith, eq, few)) (rw eq at k))
      matched (some index) e few k = absurd (clash k)

      prefixed :
          ltb 1 (length submitted - length current) ≡ false
          → Rest (differing same 0 submitted current)
          → Accepted now current submitted
      prefixed few k = matched (differing same 0 submitted current) refl few k

  lt→ltb : (a b : ℕ) → a < b → ltb a b ≡ true
  lt→ltb a b h = ground arith

  le→ltb : (a b : ℕ) → b ≤ a → ltb a b ≡ false
  le→ltb a b h = ground arith

  -- Where the comparison of entries calls only equal ones the same, an accepted update leaves the list
  -- as it is or adds one entry; then the entry in force is what it was at every date before the added
  -- one starts, and the added one from there on.
  pub accepted_keeps_past :
      (now date : ℕ) (current submitted : List (ActorPricingInfoRecord U))
      → validate_pricing_infos_update same now current submitted ≡ none
      → (submitted ≡ current)
        ⊎ ((added : ActorPricingInfoRecord U) × (submitted ≡ current ++ added ∷ [])
            × (date < added.started_at
                → effective_pricing_info (some submitted) date
                  ≡ effective_pricing_info (some current) date)
            × (added.started_at ≤ date → effective_pricing_info (some submitted) date ≡ some added))
  unfolding Accepted
  accepted_keeps_past now date current submitted h =
      elim (validate_pricing_infos_update-Accepted now current submitted h) [
        | inl unchanged ↦ inl unchanged
        | inr (added, eq, later, _) ↦ inr (
          added,
          eq,
          λ early.
              rw
                (
                  eq,
                  effective_of_append date current added later,
                  lt→ltb date added.started_at early,
                )
                refl,
          λ due.
              rw
                (eq, effective_of_append date current added later, le→ltb date added.started_at due)
                refl,
        )
      ]
