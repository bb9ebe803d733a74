-- ===== src/Standby/Pool/Steps.antt =====
-- The standby pool over time: the handlers of src/services/standby.ts in any order.
use actor_runtime.Base.{
  ℕ, ◌-◌, ◌≤◌, ◌<◌, String, ◌≡◌, inl, inr, refl, true, false, not, ◌&&◌, Option, none, some, List,
  [], ◌∷◌, get_elem?, ltb, ◌===◌, is_some, arith, Bool-cases, Option-cases,
}
use actor_runtime.Standby.Pool.{
  Pool, PoolSettings, FinishReason, newer_build, Lease, set_entry, count, without, remove_from_pool,
  arm_idle_timer, retire, retire_outdated, add_run, all_above, add_if_none, take_lease, add_ahead,
  reserve, set_released, after_release, release_lease, release,
}
use actor_runtime.Standby.Pool.Sound.{
  finishes, IsSound, count-without, count-append, open_leases-append, open_leases-set_released,
  set_entry-IsSoundAt, in_pool, retire-IsSound, emit_finish-IsSoundAt,
}
use actor_runtime.Standby.Pool.Choice.{choose, Chosen}

pub pool-retire :
    (k : ℕ) (reason : FinishReason) (s : Pool) → (retire k reason s).pool ≡ without k s.pool
unfolding retire remove_from_pool
pool-retire k reason s = ground arith

-- What is left of the copied list is still in the pool.
abbrev Covers : List ℕ → Pool → Type 0
Covers ks s = (j : ℕ) → count j ks ≤ count j s.pool

Covers-retired :
    (most k : ℕ) (ks : List ℕ) (reason : FinishReason) (s : Pool)
    → IsSound most s
    → Covers (k ∷ ks) s
    → Covers ks (retire k reason s)
Covers-retired most k ks reason s sound covers j =
    ground (arith, pool-retire k reason s, count-without j k s.pool, covers j, (sound j).once)

retire_outdated-IsSound :
    (most : ℕ) (build_id : String) (reason : FinishReason) (ks : List ℕ) (s : Pool)
    → IsSound most s
    → Covers ks s
    → IsSound most (retire_outdated build_id reason ks s)
unfolding retire_outdated
retire_outdated-IsSound most build_id reason [] s sound covers = sound
retire_outdated-IsSound most build_id reason (k ∷ ks) s sound covers =
    elim (Bool-cases
      (not ((s.entries k).build_id === build_id) && not (is_some (s.entries k).retiring))) [
        | inl outdated ↦ rw outdated (
            retire_outdated-IsSound most build_id reason ks (retire k reason s)
              (retire-IsSound most sound k reason (ground (arith, covers k)))
              (Covers-retired most k ks reason s sound covers))
        | inr current ↦ rw current (
            retire_outdated-IsSound most build_id reason ks s sound (λ j. ground (arith, covers j)))
      ]

module _ (most : ℕ) {s : Pool} (sound : IsSound most s) where
  add_run-IsSound : (build_id : String) → IsSound most (add_run build_id s)
  unfolding add_run
  add_run-IsSound build_id k =
      let at = sound k in
      ground (
        arith,
        count-append k s.pool (s.next_ticket ∷ []),
        at.counted,
        at.capped,
        at.once,
        at.retired,
        at.single,
        at.over,
        at.unused,
      )

  take_lease-IsSound :
      (j : ℕ)
      → (s.entries j).open_requests < most
      → finishes j s.effects ≡ 0
      → j < s.next_ticket
      → IsSound most (take_lease j s)
  take_lease-IsSound j room fresh there k =
      let at = sound k in
      ground (
        arith,
        open_leases-append k s.leases (record { ticket = j; released = false } ∷ []),
        at.retired,
        at.over,
        at.unused,
      )

taken :
    (most : ℕ) (build_id : String) (s : Pool) (o : Option ℕ)
    → 1 ≤ most
    → IsSound most s
    → Chosen s.entries most s.pool none o
    → IsSound most (take_lease (add_if_none build_id o s).1 (add_if_none build_id o s).0)
unfolding add_run
taken most build_id s none positive sound chosen =
    let at = sound s.next_ticket in
    take_lease-IsSound most (add_run-IsSound most sound build_id) s.next_ticket (ground arith)
      (ground (arith, at.unused)) (omega arith)
taken most build_id s (some k) positive sound (inl e, least, held) = absurd (cc)
taken most build_id s (some k) positive sound (inr (there, room), least, held) =
    take_lease-IsSound most sound k (ground arith) (in_pool most sound k there).0
      (in_pool most sound k there).1

add_ahead-IsSound :
    (most : ℕ) (settings : PoolSettings) (build_id : String) (s : Pool)
    → IsSound most s
    → IsSound most (add_ahead settings build_id s)
add_ahead-IsSound most settings build_id s sound =
    elim (Bool-cases (all_above s.entries settings.desired_requests s.pool)) [
      | inl all ↦ rw all (add_run-IsSound most sound build_id)
      | inr some' ↦ rw some' sound
    ]

pub reserve-IsSound :
    (settings : PoolSettings) (build_id build_number : String) (s : Pool)
    → 1 ≤ settings.max_requests
    → IsSound settings.max_requests s
    → IsSound settings.max_requests (reserve settings build_id build_number s).0
unfolding reserve
reserve-IsSound settings build_id build_number s positive sound =
    let kept : Pool = retire_outdated build_id (newer_build build_number) s.pool s in
    let kept-IsSound =
      retire_outdated-IsSound settings.max_requests build_id (newer_build build_number) s.pool s
        sound (λ j. omega arith) in
    add_ahead-IsSound settings.max_requests settings build_id _ (
      taken settings.max_requests build_id kept _ positive kept-IsSound
        (choose kept.entries settings.max_requests kept.pool none))

module _ (most : ℕ) {s : Pool} (sound : IsSound most s) where
  arm_idle_timer-IsSound :
      (now : ℕ) (settings : PoolSettings) (j : ℕ) → IsSound most (arm_idle_timer now settings j s)
  unfolding arm_idle_timer
  arm_idle_timer-IsSound now settings j k = set_entry-IsSoundAt most k (sound k) j _ refl refl

  -- An entry that serves nothing any more has left the pool if it is retiring.
  after_release-IsSound :
      (now : ℕ) (settings : PoolSettings) (j : ℕ)
      → finishes j s.effects ≡ 0
      → j < s.next_ticket
      → IsSound most (after_release now settings j s)
  after_release-IsSound now settings j fresh there k =
      elim (Bool-cases (ltb 0 (s.entries j).open_requests)) [
        | inl serving ↦ rw serving (sound k)
        | inr unused ↦ elim (Option-cases (s.entries j).retiring) [
          | inl staying ↦ rw (unused, staying) (arm_idle_timer-IsSound now settings j k)
          | inr (reason, leaving) ↦
              let is_retired : is_some (s.entries j).retiring ≡ true = rw leaving refl in
              rw (unused, leaving)
                (emit_finish-IsSoundAt most k (sound k) j reason (ground arith)
                  ((sound j).retired is_retired) fresh there)
        ]
      ]

  counted_down :
      (i : ℕ) (l : Lease)
      → get_elem? s.leases i ≡ some l
      → l.released ≡ false
      → IsSound most (
          set_entry l.ticket
            (record (s.entries l.ticket) { open_requests = (s.entries l.ticket).open_requests - 1 })
            (record s { leases = set_released i s.leases }))
  counted_down i l e open' k =
      let at = sound k in
      ground (
        arith,
        open_leases-set_released k i s.leases l e open',
        at.counted,
        at.capped,
        at.retired,
        at.over,
        at.unused,
      )

release_lease-IsSound :
    (most now : ℕ) (settings : PoolSettings) (i : ℕ) (o : Option Lease) (s : Pool)
    → IsSound most s
    → get_elem? s.leases i ≡ o
    → IsSound most (release_lease now settings i o s)
release_lease-IsSound most now settings i none s sound e = sound
release_lease-IsSound most now settings i (some l) s sound e = elim (Bool-cases l.released) [
  | inl done ↦ rw done sound
  | inr open' ↦
      let at = sound l.ticket in
      let served : 0 < (s.entries l.ticket).open_requests =
        ground (arith, open_leases-set_released l.ticket i s.leases l e open', at.counted) in
      rw open' (
        after_release-IsSound most (counted_down most sound i l e open') now settings l.ticket
          (ground (arith, at.over)) (ground (arith, at.unused)))
]

pub release-IsSound :
    (most now : ℕ) (settings : PoolSettings) (i : ℕ) (s : Pool)
    → IsSound most s
    → IsSound most (release now settings i s)
unfolding release
release-IsSound most now settings i s sound =
    release_lease-IsSound most now settings i (get_elem? s.leases i) s sound refl
