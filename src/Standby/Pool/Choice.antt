-- ===== src/Standby/Pool/Choice.antt =====
-- Which entry acquireStandbyRun of src/services/standby.ts picks.
use actor_runtime.Base.{
  ℕ, ◌≤◌, ◌<◌, ◌≡◌, ◌⊎◌, inl, inr, refl, true, false, ◌||◌, Option, none, some, List, [], ◌∷◌, All,
  ltb, leb, is_some, arith, if◌then◌else◌, Bool-cases,
}
use actor_runtime.Standby.Pool.{PooledRun, count, least_loaded}

module _ (entries : ℕ → PooledRun) (most : ℕ) where
  -- It takes no further request.
  abbrev pub IsFull : ℕ → Type 0
  IsFull k = (is_some (entries k).retiring || leb most (entries k).open_requests) ≡ true

  abbrev pub HasRoom : ℕ → Type 0
  HasRoom k = (is_some (entries k).retiring || leb most (entries k).open_requests) ≡ false

  -- `p` carries no more than any entry that takes a further request.
  abbrev pub IsLeast : ℕ → List ℕ → Type 0
  IsLeast p ks = All (λ k. IsFull k ⊎ ((entries p).open_requests ≤ (entries k).open_requests)) ks

  abbrev pub Held : ℕ → Option ℕ → Type 0
  Held p none = Unit {0}
  Held p (some q) = (entries p).open_requests ≤ (entries q).open_requests

  -- What is chosen, given what was picked before.
  abbrev pub Chosen : List ℕ → Option ℕ → Option ℕ → Type 0
  Chosen ks picked none = All IsFull ks × (picked ≡ none)
  Chosen ks picked (some p) =
      ((picked ≡ some p) ⊎ ((0 < count p ks) × HasRoom p)) × IsLeast p ks × Held p picked

  lower :
      (p k : ℕ) (picked : Option ℕ)
      → (entries p).open_requests ≤ (entries k).open_requests
      → Held k picked
      → Held p picked
  lower p k none le held = tt
  lower p k (some q) le held = omega arith

  -- The next entry has no room: what the rest chooses.
  skip :
      (k : ℕ) (ks : List ℕ) (picked o : Option ℕ)
      → IsFull k
      → Chosen ks picked o
      → Chosen (k ∷ ks) picked o
  skip k ks picked none full (all, e) = ((full, all), e)
  skip k ks picked (some p) full (inl e, least, held) = (inl e, (inl full, least), held)
  skip k ks picked (some p) full (inr (there, room), least, held) =
      (inr (ground arith, room), (inl full, least), held)

  -- It has room, and carries less than what was picked or nothing was.
  pass :
      (k : ℕ) (ks : List ℕ) (picked o : Option ℕ)
      → HasRoom k
      → Held k picked
      → Chosen ks (some k) o
      → Chosen (k ∷ ks) picked o
  pass k ks picked none room held (all, e) = absurd (cc)
  pass k ks picked (some p) room held (from, least, le) =
      (inr (came from), (inr le, least), lower p k picked le held)
    where
      came :
          ((some k ≡ some p) ⊎ ((0 < count p ks) × HasRoom p)) → (0 < count p (k ∷ ks)) × HasRoom p
      came (inl e) = let same : k ≡ p = cc in rw (← same) (ground arith, room)
      came (inr (there, room')) = (ground arith, room')

  -- It has room, but what was picked carries no more.
  stay :
      (k q : ℕ) (ks : List ℕ) (o : Option ℕ)
      → (entries q).open_requests ≤ (entries k).open_requests
      → Chosen ks (some q) o
      → Chosen (k ∷ ks) (some q) o
  stay k q ks none le (all, e) = absurd (cc)
  stay k q ks (some p) le (inl e, least, held) = (inl e, (inr (omega arith), least), held)
  stay k q ks (some p) le (inr (there, room), least, held) =
      (inr (ground arith, room), (inr (omega arith), least), held)

  with_room :
      (k : ℕ) (ks : List ℕ) (picked : Option ℕ)
      → HasRoom k
      → ((q : Option ℕ) → Chosen ks q (least_loaded entries most ks q))
      → Chosen (k ∷ ks) picked (
          least_loaded entries most ks (elim picked [
            | none ↦ some k
            | some p ↦
                if ltb (entries k).open_requests (entries p).open_requests then some k else some p
          ]))
  with_room k ks none room rest = pass k ks none _ room tt (rest (some k))
  with_room k ks (some q) room rest =
      elim (Bool-cases (ltb (entries k).open_requests (entries q).open_requests)) [
        | inl less ↦ rw less (pass k ks (some q) _ room (ground arith) (rest (some k)))
        | inr more ↦ rw more (stay k q ks _ (ground arith) (rest (some q)))
      ]

  pub choose :
      (ks : List ℕ) (picked : Option ℕ) → Chosen ks picked (least_loaded entries most ks picked)
  choose [] none = (tt, refl)
  choose [] (some p) = (inl refl, tt, omega arith)
  choose (k ∷ ks) picked =
      elim (Bool-cases (is_some (entries k).retiring || leb most (entries k).open_requests)) [
        | inl full ↦ rw full (skip k ks picked _ full (choose ks picked))
        | inr room ↦ rw room (with_room k ks picked room (choose ks))
      ]
