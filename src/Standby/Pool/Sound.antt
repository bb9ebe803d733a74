-- ===== src/Standby/Pool/Sound.antt =====
-- The invariant of the standby pool, and that its parts keep it.
use actor_runtime.Base.{
  ℕ, zero, suc, ◌+◌, ◌-◌, ◌≤◌, ◌<◌, ◌≡◌, inl, inr, refl, true, false, not, ◌&&◌, none, some, List,
  [], ◌∷◌, ◌++◌, get_elem?, ltb, ◌==◌, is_some, arith, if◌then◌else◌, Bool-cases,
}
use native.Mathlib.Decide.{ℕ_discrete as dec_eq}
use actor_runtime.Standby.Pool.{
  PooledRun, Pool, PoolEffect, start_standby_run, finish_run, FinishReason, idle_too_long, Lease,
  set_entry, count, without, clear_idle_timer, remove_from_pool, emit_pool, idle_timer_fires,
  finish_if_unused, retire, set_released,
}

-- The requests that an entry serves.
abbrev pub open_leases : ℕ → List Lease → ℕ
open_leases k [] = 0
open_leases k (l ∷ ls) =
    (if l.ticket == k then (if l.released then 0 else 1) else 0) + open_leases k ls

-- How often an entry was asked to finish.
abbrev pub finishes : ℕ → List PoolEffect → ℕ
finishes k [] = 0
finishes k (finish_run j reason ∷ es) = (if j == k then 1 else 0) + finishes k es
finishes k (start_standby_run j build_id ∷ es) = finishes k es

-- Of one entry: its counter is the number of its open leases, and is within the limit; it is in the pool
-- once at most, and not once it is retired; it is asked to finish once at most, and only when it serves
-- no request and has left the pool; and what was never created is nowhere.
pub record IsSoundAt (most : ℕ) (s : Pool) (k : ℕ) : Type 0 where
  pub counted : (s.entries k).open_requests ≡ open_leases k s.leases
  pub capped : (s.entries k).open_requests ≤ most
  pub once : count k s.pool ≤ 1
  pub retired : is_some (s.entries k).retiring ≡ true → count k s.pool ≡ 0
  pub single : finishes k s.effects ≤ 1
  pub over : 0 < finishes k s.effects → ((s.entries k).open_requests ≡ 0) × (count k s.pool ≡ 0)
  pub unused :
      s.next_ticket ≤ k
      → ((s.entries k).open_requests ≡ 0) × (count k s.pool ≡ 0) × (finishes k s.effects ≡ 0)

pub count-without :
    (k j : ℕ) (js : List ℕ) → count k (without j js) ≡ count k js - (if j == k then 1 else 0)
count-without k j [] = ground arith
count-without k j (i ∷ js) = ground (arith, count-without k j js)

pub count-append : (k : ℕ) (js is : List ℕ) → count k (js ++ is) ≡ count k js + count k is
count-append k [] is = omega arith
count-append k (j ∷ js) is = omega (arith, count-append k js is)

pub open_leases-append :
    (k : ℕ) (ls ms : List Lease) → open_leases k (ls ++ ms) ≡ open_leases k ls + open_leases k ms
open_leases-append k [] ms = omega arith
open_leases-append k (l ∷ ls) ms = omega (arith, open_leases-append k ls ms)

some_inj : (x y : Lease) → some x ≡ some y → x ≡ y
some_inj x y e = cc

-- Releasing an open lease takes one from the count of its entry.
pub open_leases-set_released :
    (k i : ℕ) (ls : List Lease) (l : Lease)
    → get_elem? ls i ≡ some l
    → l.released ≡ false
    → open_leases k (set_released i ls) + (if l.ticket == k then 1 else 0) ≡ open_leases k ls
open_leases-set_released k i [] l e h = absurd (cc)
open_leases-set_released k zero (m ∷ ls) l e h = rw (some_inj m l e) (ground arith)
open_leases-set_released k (suc i) (m ∷ ls) l e h =
    omega (arith, open_leases-set_released k i ls l e h)

module _ (most : ℕ) {s : Pool} (k : ℕ) (sound : IsSoundAt most s k) where
  -- A write to an entry that leaves its counter alone, and does not retire it in the pool.
  pub set_entry-IsSoundAt :
      (j : ℕ) (e : PooledRun)
      → e.open_requests ≡ (s.entries j).open_requests
      → e.retiring ≡ (s.entries j).retiring
      → IsSoundAt most (set_entry j e s) k
  set_entry-IsSoundAt j e same_open same_retiring =
      ground (arith, sound.retired, sound.over, sound.unused)

  pub remove_from_pool-IsSoundAt : (j : ℕ) → IsSoundAt most (remove_from_pool j s) k
  unfolding remove_from_pool
  remove_from_pool-IsSoundAt j =
      ground (arith, count-without k j s.pool, sound.retired, sound.over, sound.unused)

-- An entry that serves no request, has left the pool and was not asked to finish yet may be.
pub emit_finish-IsSoundAt :
    (most : ℕ) {s : Pool} (k : ℕ)
    → IsSoundAt most s k
    → (j : ℕ) (reason : FinishReason) → (s.entries j).open_requests ≡ 0
    → count j s.pool ≡ 0
    → finishes j s.effects ≡ 0
    → j < s.next_ticket
    → IsSoundAt most (emit_pool (finish_run j reason) s) k
emit_finish-IsSoundAt most {s} k sound j reason unused out fresh there = elim (dec_eq k j) [
  | yes same ↦
      let unused' : (s.entries k).open_requests ≡ 0 = rw same unused in
      let out' : count k s.pool ≡ 0 = rw same out in
      let fresh' : finishes k s.effects ≡ 0 = rw same fresh in
      ground (arith, sound.retired, sound.over, sound.unused)
  | no other ↦ ground (arith, sound.retired, sound.over, sound.unused)
]

abbrev pub IsSound : ℕ → Pool → Type 0
IsSound most s = (k : ℕ) → IsSoundAt most s k

module _ (most : ℕ) {s : Pool} (sound : IsSound most s) where
  finish_if_unused-IsSound :
      (j : ℕ) (reason : FinishReason)
      → count j s.pool ≡ 0
      → finishes j s.effects ≡ 0
      → j < s.next_ticket
      → IsSound most (finish_if_unused j reason s)
  finish_if_unused-IsSound j reason out fresh there k =
      elim (Bool-cases ((s.entries j).open_requests == 0)) [
        | inl unused ↦
            let none_open : (s.entries j).open_requests ≡ 0 = ground arith in
            rw unused (emit_finish-IsSoundAt most k (sound k) j reason none_open out fresh there)
        | inr serving ↦ rw serving (sound k)
      ]

module _ (most : ℕ) {s : Pool} (sound : IsSound most s) where
  -- What is in the pool was created, was not asked to finish, and stands there once.
  pub in_pool :
      (j : ℕ)
      → 0 < count j s.pool
      → (finishes j s.effects ≡ 0) × (j < s.next_ticket) × (count j s.pool ≡ 1)
  in_pool j h =
      let at = sound j in
      (ground (arith, at.over, at.single), ground (arith, at.unused), ground (arith, at.once))

  clear_idle_timer-IsSound : (j : ℕ) → IsSound most (clear_idle_timer j s)
  clear_idle_timer-IsSound j k = set_entry-IsSoundAt most k (sound k) j _ refl refl

  removed : (j : ℕ) → 0 < count j s.pool → count j (without j s.pool) ≡ 0
  removed j h = ground (arith, count-without j j s.pool, in_pool j h)

  -- `retire` before it asks the entry to finish.
  retired_out-IsSound :
      (j : ℕ) (reason : FinishReason)
      → 0 < count j s.pool
      → IsSound most (
          remove_from_pool j
            (set_entry j (record (s.entries j) { retiring = some reason; idle_timer = none }) s))
  unfolding remove_from_pool
  retired_out-IsSound j reason h k = elim (dec_eq k j) [
    | yes same ↦
        let at = sound k in
        let out : count k (without j s.pool) ≡ 0 = rw same (removed j h) in
        let fresh : finishes k s.effects ≡ 0 = rw same (in_pool j h).0 in
        let there : k < s.next_ticket = rw same (in_pool j h).1 in
        ground (arith, at.counted, at.capped)
    | no other ↦
        let at = sound k in ground (arith, count-without k j s.pool, at.retired, at.over, at.unused)
  ]

  pub retire-IsSound :
      (j : ℕ) (reason : FinishReason) → 0 < count j s.pool → IsSound most (retire j reason s)
  unfolding retire remove_from_pool
  retire-IsSound j reason h =
      finish_if_unused-IsSound most (retired_out-IsSound j reason h) j reason (removed j h)
        (in_pool j h).0 (in_pool j h).1

  out_of_pool-IsSound : (j : ℕ) → IsSound most (remove_from_pool j (clear_idle_timer j s))
  out_of_pool-IsSound j k =
      remove_from_pool-IsSoundAt most k (set_entry-IsSoundAt most k (sound k) j _ refl refl) j

  -- The idle timer asks an entry to finish that serves nothing and is in the pool.
  pub idle_timer_fires-IsSound : (j : ℕ) → IsSound most (idle_timer_fires j s)
  unfolding idle_timer_fires remove_from_pool
  idle_timer_fires-IsSound j k =
      elim (Bool-cases (not (ltb 0 (s.entries j).open_requests) && ltb 0 (count j s.pool))) [
        | inl unused ↦
            let member : 0 < count j s.pool = ground arith in
            let none_open : (s.entries j).open_requests ≡ 0 = ground arith in
            rw unused (
              emit_finish-IsSoundAt most k (out_of_pool-IsSound j k) j idle_too_long (ground arith)
                (removed j member) (in_pool j member).0 (in_pool j member).1)
        | inr serving ↦ rw serving (clear_idle_timer-IsSound j k)
      ]
