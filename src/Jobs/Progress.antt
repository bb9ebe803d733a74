-- ===== src/Jobs/Progress.antt =====
-- What the gate of src/services/job-status.ts gives whatever the order in which the background
-- handlers, aborts and timers reach it: a sequence of requested writes stands for an interleaving.
use actor_runtime.Base.{
  ℕ, ◌+◌, ◌≤◌, ◌<◌, String, ◌≡◌, ◌↔◌, ◌⊎◌, inl, inr, refl, true, false, none, some, List, [], ◌∷◌,
  arith, ◌===◌, if◌then◌else◌, Bool-cases, eq_iff,
}
use actor_runtime.Jobs.Status.{
  JobStatus, ready, running, succeeded, failed, aborting, aborted, timed_out,
  is_terminal_job_status, allowed_next,
}
use actor_runtime.Jobs.Registry
use actor_runtime.Jobs.Registry.{Registry, on_record, get-update, result-update}
use actor_runtime.Jobs.Gate.{HasStatus, gate, transition_job_status}

-- How far a status is from a fresh record.
abbrev pub rank : JobStatus → ℕ
rank ready = 0
rank running = 1
rank aborting = 2
rank succeeded = 3
rank failed = 3
rank aborted = 3
rank timed_out = 3

pub allowed_next-rank : (a b : JobStatus) → allowed_next a b ≡ true → rank a < rank b
unfolding allowed_next
allowed_next-rank a b h = ground arith

pub rank-le : (a : JobStatus) → rank a ≤ 3
rank-le a = ground arith

-- A terminal status has no legal next one, so the table already says what the first test says.
pub allowed_next_of_terminal :
    (a b : JobStatus) → is_terminal_job_status a ≡ true → allowed_next a b ≡ false
unfolding allowed_next is_terminal_job_status
allowed_next_of_terminal a b h = ground arith

pub allowed_next_of_aborting : (b : JobStatus) → allowed_next aborting b ≡ true → b ≡ aborted
unfolding allowed_next
allowed_next_of_aborting b h = ground arith

pub not-allowed_next_self : (a : JobStatus) → allowed_next a a ≡ false
unfolding allowed_next
not-allowed_next_self a = ground arith

module _ {T : Type 0} (h : HasStatus T) where
  open h use {status, with_status, status-with_status}

  abbrev pub Request : Type 0
  Request = JobStatus × (T → T)

  pub gate-eq-if :
      (next : JobStatus) (patch : T → T) (t : T)
      → gate h next patch t
        ≡ (if allowed_next (status t) next then with_status next (patch t) else t)
  unfolding gate
  gate-eq-if next patch t = ground (arith, allowed_next_of_terminal (status t) next)

  -- The writes in the order in which the mutex lets them through.
  abbrev pub writes : List Request → T → T
  writes [] t = t
  writes ((next, patch) ∷ qs) t = writes qs (gate h next patch t)

  abbrev pub accepted : List Request → T → ℕ
  accepted [] t = 0
  accepted ((next, patch) ∷ qs) t =
      let rest = accepted qs (gate h next patch t) in
      if allowed_next (status t) next then rest + 1 else rest

  pub status-gate :
      (next : JobStatus) (patch : T → T) (t : T)
      → status (gate h next patch t) ≡ (if allowed_next (status t) next then next else status t)
  status-gate next patch t =
      ground (arith, gate-eq-if next patch t, status-with_status next (patch t))

  -- Each write that is let through climbs the ranks.
  accepted-rank :
      (qs : List Request) (t : T) → accepted qs t + rank (status t) ≤ rank (status (writes qs t))
  accepted-rank [] t = omega arith
  accepted-rank ((next, patch) ∷ qs) t = ground (
    arith,
    accepted-rank qs (gate h next patch t),
    status-gate next patch t,
    allowed_next-rank (status t) next,
  )

  -- Whatever writes are requested on a record and in whatever order, at most three are let through.
  pub accepted-le : (qs : List Request) (t : T) → accepted qs t ≤ 3
  accepted-le qs t = omega (arith, accepted-rank qs t, rank-le (status (writes qs t)))

  gate_of_terminal :
      (next : JobStatus) (patch : T → T) (t : T)
      → is_terminal_job_status (status t) ≡ true
      → gate h next patch t ≡ t
  unfolding gate
  gate_of_terminal next patch t e = ground arith

  -- Once the record is terminal, no requested write changes it in any field.
  pub writes_of_terminal :
      (qs : List Request) (t : T) → is_terminal_job_status (status t) ≡ true → writes qs t ≡ t
  writes_of_terminal [] t e = refl
  writes_of_terminal ((next, patch) ∷ qs) t e =
      rw (gate_of_terminal next patch t e) (writes_of_terminal qs t e)

  -- From an aborting record the writes leave it whole or end it as aborted.
  pub writes_of_aborting :
      (qs : List Request) (t : T)
      → status t ≡ aborting
      → (writes qs t ≡ t) ⊎ (status (writes qs t) ≡ aborted)
  writes_of_aborting [] t e = inl refl
  writes_of_aborting ((next, patch) ∷ qs) t e = elim (Bool-cases (allowed_next (status t) next)) [
    | inl yes' ↦
        let ended : status (gate h next patch t) ≡ aborted =
          ground (arith, status-gate next patch t, allowed_next_of_aborting next) in
        inr (
          rw
            (writes_of_terminal qs (gate h next patch t)
              (rw ended (unfold is_terminal_job_status in refl)))
            ended)
    | inr no' ↦ rw (gate-eq-if next patch t, no') (writes_of_aborting qs t e)
  ]

  -- The record a write returns has the requested status exactly when the write was let through or the
  -- record had that status already.
  pub status-gate-eq_iff :
      (next : JobStatus) (patch : T → T) (t : T)
      → (status (gate h next patch t) ≡ next)
        ↔ ((allowed_next (status t) next ≡ true) ⊎ (status t ≡ next))
  status-gate-eq_iff next patch t = ground (arith, status-gate next patch t)

  -- Requests on a whole registry: an id each.
  abbrev pub registry_writes : List (String × Request) → Registry T → Registry T
  registry_writes [] r = r
  registry_writes ((id, (next, patch)) ∷ ws) r =
      registry_writes ws (transition_job_status h r id next patch).0

  abbrev pub requests_for : String → List (String × Request) → List Request
  requests_for j [] = []
  requests_for j ((id, q) ∷ ws) =
      let rest = requests_for j ws in if id === j then q ∷ rest else rest

  pub get-transition_job_status :
      (r : Registry T) (id j : String) (next : JobStatus) (patch : T → T)
      → Registry.get (transition_job_status h r id next patch).0 j
        ≡ (if id === j then on_record (gate h next patch) (Registry.get r j) else Registry.get r j)
  unfolding transition_job_status
  get-transition_job_status r id j next patch = ground (
    arith,
    get-update r id j (elim [ none ↦ none | some current ↦ some (gate h next patch current) ]),
    eq_iff id j,
  )

  pub result-transition_job_status :
      (r : Registry T) (id : String) (next : JobStatus) (patch : T → T)
      → (transition_job_status h r id next patch).1
        ≡ on_record (gate h next patch) (Registry.get r id)
  unfolding transition_job_status
  result-transition_job_status r id next patch = ground (
    arith,
    result-update r id (elim [ none ↦ none | some current ↦ some (gate h next patch current) ]),
  )

  -- However writes to several records interleave, each record ends as its own writes alone leave it.
  pub get-registry_writes :
      (ws : List (String × Request)) (r : Registry T) (j : String)
      → Registry.get (registry_writes ws r) j
        ≡ on_record (writes (requests_for j ws)) (Registry.get r j)
  get-registry_writes [] r j = ground arith
  get-registry_writes ((id, (next, patch)) ∷ ws) r j = ground (
    arith,
    get-registry_writes ws (transition_job_status h r id next patch).0 j,
    get-transition_job_status r id j next patch,
  )
