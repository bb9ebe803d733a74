-- ===== src/Standby/Pool/Newest.antt =====
-- Whom a reservation of src/services/standby.ts goes to.
use actor_runtime.Base.{
  ℕ, suc, ◌+◌, ◌≤◌, ◌<◌, String, ◌≡◌, refl, ◌∙◌, ◌⊎◌, inl, inr, Bool, true, false, not, ◌&&◌, ◌||◌,
  Option, none, some, List, [], ◌∷◌, ◌==◌, ◌===◌, leb, leb→le, is_some, arith, All, Bool-cases,
  eq_iff,
}
use native.Mathlib.Decide.{ℕ_discrete as dec_eq}
use actor_runtime.Standby.Pool.{
  Pool, PoolSettings, FinishReason, newer_build, count, remove_from_pool, retire, retire_outdated,
  add_run, least_loaded, add_if_none, take_lease, add_ahead, reserve,
}
use actor_runtime.Standby.Pool.Sound.{count-without}
use actor_runtime.Standby.Pool.Steps.{pool-retire}
use actor_runtime.Standby.Pool.Choice.{choose, Chosen, IsFull, HasRoom, IsLeast}

-- What retiring leaves of an entry.
entry-retire :
    (k j : ℕ) (reason : FinishReason) (s : Pool)
    → (((retire k reason s).entries j).build_id ≡ (s.entries j).build_id)
      × ((retire k reason s).next_ticket ≡ s.next_ticket)
      × (is_some ((retire k reason s).entries j).retiring
          ≡ (j == k || is_some (s.entries j).retiring))
unfolding retire remove_from_pool
entry-retire k j reason s = ground arith

abbrev is_outdated : String → Pool → ℕ → Bool
is_outdated build_id s k =
    not ((s.entries k).build_id === build_id) && not (is_some (s.entries k).retiring)

-- An entry that is not outdated is of the build, or is retiring and stays so.
not_outdated :
    (build_id : String) (s : Pool) (k : ℕ) (after : Bool)
    → is_outdated build_id s k ≡ false
    → (is_some (s.entries k).retiring ≡ true → after ≡ true)
    → ((s.entries k).build_id === build_id || after) ≡ true
not_outdated build_id s k after current stays = ground arith

-- Of the entries in the list, those of another build are retiring afterwards; builds stay as they are.
outdated_retired :
    (build_id : String) (reason : FinishReason) (ks : List ℕ) (s : Pool) (j : ℕ)
    → (((retire_outdated build_id reason ks s).entries j).build_id ≡ (s.entries j).build_id)
      × ((retire_outdated build_id reason ks s).next_ticket ≡ s.next_ticket)
      × (is_some (s.entries j).retiring ≡ true
          → is_some ((retire_outdated build_id reason ks s).entries j).retiring ≡ true)
      × (0 < count j ks
          → ((s.entries j).build_id === build_id
              || is_some ((retire_outdated build_id reason ks s).entries j).retiring)
            ≡ true)
unfolding retire_outdated
outdated_retired build_id reason [] s j = ground arith
outdated_retired build_id reason (k ∷ ks) s j = elim (Bool-cases (is_outdated build_id s k)) [
  | inl outdated ↦
      let er = entry-retire k j reason s in
      let ih = outdated_retired build_id reason ks (retire k reason s) j in
      rw (outdated, retire_outdated)
        (
          ih.0 ∙ er.0,
          ih.1 ∙ er.1,
          λ h. ih.2 (ground (arith, er.2)),
          λ h. ground (arith, ih.3, ih.2, er.0, er.2),
        )
  | inr current ↦
      let ih = outdated_retired build_id reason ks s j in
      rw (current, retire_outdated)
        (
          ih.0,
          ih.1,
          ih.2,
          λ h. elim (dec_eq j k) [
            | yes same ↦ not_outdated build_id s j _ (rw same current) ih.2
            | no other ↦ ih.3 (ground arith)
          ],
        )
]

pool-shrinks :
    (build_id : String) (reason : FinishReason) (ks : List ℕ) (s : Pool) (j : ℕ)
    → count j (retire_outdated build_id reason ks s).pool ≤ count j s.pool
unfolding retire_outdated
pool-shrinks build_id reason [] s j = omega arith
pool-shrinks build_id reason (k ∷ ks) s j = elim (Bool-cases (is_outdated build_id s k)) [
  | inl outdated ↦
      rw (outdated, retire_outdated)
        (ground (
          arith,
          pool-shrinks build_id reason ks (retire k reason s) j,
          pool-retire k reason s,
          count-without j k s.pool,
        ))
  | inr current ↦ rw (current, retire_outdated) (pool-shrinks build_id reason ks s j)
]

-- The entries that a reservation chooses among.
abbrev pub serving : String → String → Pool → Pool
serving build_id build_number s = retire_outdated build_id (newer_build build_number) s.pool s

-- A new entry, as no other had room; or the least loaded with room, of the build that now serves.
abbrev pub Reserved : ℕ → String → Pool → Pool → ℕ → Type 0
Reserved most build_id s kept k =
    ((k ≡ s.next_ticket) × All (IsFull kept.entries most) kept.pool)
    ⊎ ((0 < count k kept.pool)
        × HasRoom kept.entries most k
        × IsLeast kept.entries most k kept.pool
        × ((s.entries k).build_id ≡ build_id))

reserved :
    (most : ℕ) (build_id build_number : String) (s : Pool) (o : Option ℕ)
    → Chosen
        (serving build_id build_number s).entries
        most
        (serving build_id build_number s).pool
        none
        o
    → Reserved most build_id s
        (serving build_id build_number s)
        (add_if_none build_id o (serving build_id build_number s)).1
reserved most build_id build_number s none (full, e) =
    inl ((outdated_retired build_id (newer_build build_number) s.pool s 0).1, full)
reserved most build_id build_number s (some k) (inl e, least, held) = absurd (cc)
reserved most build_id build_number s (some k) (inr (there, room), least, held) =
    let kept = outdated_retired build_id (newer_build build_number) s.pool s k in
    let was_there : 0 < count k s.pool =
      omega (arith, pool-shrinks build_id (newer_build build_number) s.pool s k, there) in
    inr (
      there,
      room,
      least,
      ground (arith, kept.3 was_there, room, eq_iff (s.entries k).build_id build_id),
    )

add_ahead_next :
    (settings : PoolSettings) (build_id : String) (s : Pool)
    → (add_ahead settings build_id s).next_ticket ≤ suc s.next_ticket
unfolding add_run
add_ahead_next settings build_id s = ground arith

add_if_none_next :
    (build_id : String) (o : Option ℕ) (s : Pool)
    → (add_if_none build_id o s).0.next_ticket ≤ suc s.next_ticket
unfolding add_run
add_if_none_next build_id none s = omega arith
add_if_none_next build_id (some k) s = omega arith

Reserved-of_kept :
    (settings : PoolSettings) (build_id build_number : String) (s : Pool)
    → Reserved settings.max_requests build_id s
        (serving build_id build_number s)
        (reserve settings build_id build_number s).1
      × ((reserve settings build_id build_number s).0.next_ticket ≤ s.next_ticket + 2)
unfolding reserve add_run
Reserved-of_kept settings build_id build_number s = (
  reserved settings.max_requests build_id build_number s _ (
      choose (serving build_id build_number s).entries settings.max_requests
        (serving build_id build_number s).pool none),
  started (
      least_loaded (serving build_id build_number s).entries settings.max_requests
        (serving build_id build_number s).pool none),
)
  where
    kept : Pool
    kept = serving build_id build_number s

    started :
        (o : Option ℕ)
        → (add_ahead settings build_id (
            take_lease (add_if_none build_id o kept).1 (add_if_none build_id o kept).0)).next_ticket
          ≤ s.next_ticket + 2
    started o = ground (
      arith,
      add_ahead_next settings build_id
          (take_lease (add_if_none build_id o kept).1 (add_if_none build_id o kept).0),
      add_if_none_next build_id o kept,
      outdated_retired build_id (newer_build build_number) s.pool s 0,
    )

entry-retire_other :
    (k j : ℕ) (reason : FinishReason) (s : Pool)
    → (j == k) ≡ false
    → (retire k reason s).entries j ≡ s.entries j
unfolding retire remove_from_pool
entry-retire_other k j reason s other = ground (arith, other)

-- An entry of the build stays whole, and in the pool, while others are retired.
current_stays :
    (build_id : String) (reason : FinishReason) (ks : List ℕ) (s : Pool) (j : ℕ)
    → ((s.entries j).build_id === build_id) ≡ true
    → ((retire_outdated build_id reason ks s).entries j ≡ s.entries j)
      × (count j (retire_outdated build_id reason ks s).pool ≡ count j s.pool)
unfolding retire_outdated
current_stays build_id reason [] s j current = (refl, refl)
current_stays build_id reason (k ∷ ks) s j current = elim (Bool-cases (is_outdated build_id s k)) [
  | inr stays ↦ rw (stays, retire_outdated) (current_stays build_id reason ks s j current)
  | inl outdated ↦
      let other = differs outdated in
      let same = entry-retire_other k j reason s other in
      let ih = current_stays build_id reason ks (retire k reason s) j (rw same current) in
      rw (outdated, retire_outdated)
        (
          ih.0 ∙ same,
          ih.1 ∙ (rw (pool-retire k reason s) (ground (arith, count-without j k s.pool, other))),
        )
]
  where
    clash : ((s.entries k).build_id === build_id) ≡ true → is_outdated build_id s k ≡ true → ⊥
    clash same outdated = ground (arith, same, outdated)

    differs : is_outdated build_id s k ≡ true → (j == k) ≡ false
    differs outdated = elim (dec_eq j k) [
      | yes same ↦ absurd (clash (rw same at current) outdated)
      | no other ↦ ground (arith, other)
    ]

All-count : (P : ℕ → Type 0) (ks : List ℕ) (j : ℕ) → All P ks → 0 < count j ks → P j
All-count P [] j all there = absurd (omega (arith, there))
All-count P (k ∷ ks) j (first, rest) there = elim (dec_eq j k) [
  | yes same ↦ rw same first
  | no other ↦ All-count P ks j rest (ground arith)
]

-- In the pool, of the build that the address now stands for, and not retiring.
abbrev pub Serves : String → Pool → ℕ → Type 0
Serves build_id s k =
    (0 < count k s.pool) × ((s.entries k).build_id ≡ build_id) × ((s.entries k).retiring ≡ none)

-- The least loaded of those that serve and have room, or a new entry where all of them are full.
abbrev pub IsNewest : ℕ → String → Pool → ℕ → Type 0
IsNewest most build_id s k =
    ((k ≡ s.next_ticket) × ((j : ℕ) → Serves build_id s j → most ≤ (s.entries j).open_requests))
    ⊎ (Serves build_id s k
        × ((s.entries k).open_requests < most)
        × ((j : ℕ)
            → Serves build_id s j
            → (most ≤ (s.entries j).open_requests)
              ⊎ ((s.entries k).open_requests ≤ (s.entries j).open_requests)))

not_retiring :
    (o : Option FinishReason) (b : Bool) → (is_some o || b) ≡ false → (o ≡ none) × (b ≡ false)
not_retiring none b h = (refl, h)
not_retiring (some r) b h = absurd (cc h)

newest :
    (most : ℕ) (build_id build_number : String) (s : Pool) (k : ℕ)
    → Reserved most build_id s (serving build_id build_number s) k
    → IsNewest most build_id s k
newest most build_id build_number s k chosen = go chosen
  where
    kept : Pool
    kept = serving build_id build_number s

    same :
        (j : ℕ)
        → (s.entries j).build_id ≡ build_id
        → (kept.entries j ≡ s.entries j) × (count j kept.pool ≡ count j s.pool)
    same j e =
        current_stays build_id (newer_build build_number) s.pool s j
          ((eq_iff (s.entries j).build_id build_id).1 e)

    full :
        (j : ℕ)
        → Serves build_id s j
        → IsFull kept.entries most j
        → most ≤ (s.entries j).open_requests
    full j (there, e, live) h =
        leb→le most (s.entries j).open_requests (rw ((same j e).0, live) at h)

    against :
        (j : ℕ)
        → Serves build_id s j
        → kept.entries k ≡ s.entries k
        → (IsFull kept.entries most j
            ⊎ ((kept.entries k).open_requests ≤ (kept.entries j).open_requests))
        → (most ≤ (s.entries j).open_requests)
          ⊎ ((s.entries k).open_requests ≤ (s.entries j).open_requests)
    against j serves whole (inl h) = inl (full j serves h)
    against j serves whole (inr h) = inr (rw (whole, (same j serves.1).0) at h)

    go : Reserved most build_id s kept k → IsNewest most build_id s k
    go (inl (new, all)) = inl (
      new,
      λ j serves. full j serves (
          All-count (IsFull kept.entries most) kept.pool j all
            (rw ((same j serves.1).1) (serves.0))),
    )
    go (inr (there, room, least, e)) =
        let (whole, counted) = same k e in
        let (live, less) =
          not_retiring (s.entries k).retiring (leb most (s.entries k).open_requests)
            (rw whole at room) in
        inr (
          (rw (← counted) there, e, live),
          ground (arith, less),
          λ j serves. against j serves whole (
              All-count
                (λ i.
                  IsFull kept.entries most i
                  ⊎ ((kept.entries k).open_requests ≤ (kept.entries i).open_requests))
                kept.pool j least (rw ((same j serves.1).1) (serves.0))),
        )

-- A request that is given a run gets the least loaded of those in the pool that are of the build that
-- the address now stands for, are not retiring and have room for one more; only where all such are full
-- does it get a new one. At most two runs are started for it.
pub reserve_lem :
    (settings : PoolSettings) (build_id build_number : String) (s : Pool)
    → IsNewest settings.max_requests build_id s (reserve settings build_id build_number s).1
      × ((reserve settings build_id build_number s).0.next_ticket ≤ s.next_ticket + 2)
reserve_lem settings build_id build_number s =
    let kept = Reserved-of_kept settings build_id build_number s in
    (newest settings.max_requests build_id build_number s _ kept.0, kept.1)
