-- ===== src/Standby/Pool.antt =====
-- The pool of src/services/standby.ts for one Actor or task: `acquireStandbyRun` up to the reservation,
-- `release`, `retire`, `addRun`, `removeFromPool`, `pruneEndedRuns` and the idle timer. The entries are
-- objects that the pool, the leases and the timers share, so they stand in a store under tickets, in
-- the order of their creation. What is asked of the driver is the list `effects`, newest first.
pub mod Sound
pub mod Choice
pub mod Steps
pub mod Reach
pub mod Newest
use actor_runtime.Base.{
  ℕ, zero, suc, ◌+◌, ◌-◌, ◌*◌, String, Bool, true, false, not, ◌&&◌, ◌||◌, Option, none, some, List,
  [], ◌∷◌, ◌++◌, get_elem?, ltb, leb, ◌==◌, ◌===◌, is_some, if◌then◌else◌,
}
use actor_runtime.Jobs.Status.{aborting, is_terminal_job_status, same_status}
use actor_runtime.Jobs.Registry
use actor_runtime.Jobs.Registry.{Registry}
use actor_runtime.Entities.Run.{RunRecord}

-- What an entry needs of an `ActorStandbyRecord`.
pub record PoolSettings : Type 0 where
  pub desired_requests : ℕ
  pub max_requests : ℕ
  pub idle_timeout_secs : ℕ

-- Why an entry is wound down.
pub data FinishReason : Type 0 where
  idle_too_long : FinishReason
  newer_build : String → FinishReason

-- `idle_timer` is the time at which the armed timer is due.
pub record PooledRun : Type 0 where
  pub known_run_id : Option String
  pub build_id : String
  pub open_requests : ℕ
  pub ready_address : Option String
  pub idle_timer : Option ℕ
  pub retiring : Option FinishReason

pub data PoolEffect : Type 0 where
  start_standby_run : ℕ → String → PoolEffect
  finish_run : ℕ → FinishReason → PoolEffect

-- `released` of the closure that a caller of acquireStandbyRun gets.
pub record Lease : Type 0 where
  pub ticket : ℕ
  pub released : Bool

pub record Pool : Type 0 where
  pub entries : ℕ → PooledRun
  pub next_ticket : ℕ
  pub pool : List ℕ
  pub leases : List Lease
  pub effects : List PoolEffect

abbrev pub set_entry : ℕ → PooledRun → Pool → Pool
set_entry k e s = record s { entries = λ j. if j == k then e else s.entries j }

abbrev pub count : ℕ → List ℕ → ℕ
count k [] = 0
count k (j ∷ js) = (if j == k then 1 else 0) + count k js

-- `pool.splice(pool.indexOf(entry), 1)`, where it is there.
abbrev pub without : ℕ → List ℕ → List ℕ
without k [] = []
without k (j ∷ js) = let rest = without k js in if j == k then js else j ∷ rest

abbrev pub clear_idle_timer : ℕ → Pool → Pool
clear_idle_timer k s = set_entry k (record (s.entries k) { idle_timer = none }) s

unfoldable pub remove_from_pool : ℕ → Pool → Pool
remove_from_pool k s = clear_idle_timer k (record s { pool = without k s.pool })

abbrev pub emit_pool : PoolEffect → Pool → Pool
emit_pool e s = record s { effects = e ∷ s.effects }

unfoldable pub arm_idle_timer : ℕ → PoolSettings → ℕ → Pool → Pool
arm_idle_timer now settings k s =
    set_entry k
      (record (s.entries k) { idle_timer = some (now + settings.idle_timeout_secs * 1000) }) s

-- The timer's callback.
unfoldable pub idle_timer_fires : ℕ → Pool → Pool
idle_timer_fires k s =
    let fired = clear_idle_timer k s in
    if not (ltb 0 (s.entries k).open_requests) && ltb 0 (count k s.pool)
    then emit_pool (finish_run k idle_too_long) (remove_from_pool k fired)
    else fired

abbrev pub finish_if_unused : ℕ → FinishReason → Pool → Pool
finish_if_unused k reason s =
    if (s.entries k).open_requests == 0 then emit_pool (finish_run k reason) s else s

unfoldable pub retire : ℕ → FinishReason → Pool → Pool
retire k reason s = finish_if_unused k reason (
    remove_from_pool k
      (set_entry k (record (s.entries k) { retiring = some reason; idle_timer = none }) s))

-- The entries of another build than the one that now serves, in a copy of the pool.
unfoldable pub retire_outdated : String → FinishReason → List ℕ → Pool → Pool
retire_outdated build_id reason [] s = s
retire_outdated build_id reason (k ∷ ks) s = retire_outdated build_id reason ks (
    if not ((s.entries k).build_id === build_id) && not (is_some (s.entries k).retiring)
    then retire k reason s
    else s)

unfoldable pub add_run : String → Pool → Pool
add_run build_id s = record s {
  entries = λ j.
      if j == s.next_ticket
      then record {
        known_run_id = none;
        build_id = build_id;
        open_requests = 0;
        ready_address = none;
        idle_timer = none;
        retiring = none;
      }
      else s.entries j;
  next_ticket = suc s.next_ticket;
  pool = s.pool ++ s.next_ticket ∷ [];
  effects = start_standby_run s.next_ticket build_id ∷ s.effects;
}

-- The promise of addRun: the run's record exists. `settings` and the line of the log are those of the
-- request that added the entry.
unfoldable pub run_started : ℕ → PoolSettings → ℕ → String → Pool → Pool
run_started now settings k run_id s =
    let known = set_entry k (record (s.entries k) { known_run_id = some run_id }) s in
    if (s.entries k).open_requests == 0 then arm_idle_timer now settings k known else known

-- The candidates are the entries that are not retiring.
abbrev pub least_loaded : (ℕ → PooledRun) → ℕ → List ℕ → Option ℕ → Option ℕ
least_loaded entries most [] picked = picked
least_loaded entries most (k ∷ ks) picked = least_loaded entries most ks (
    if is_some (entries k).retiring || leb most (entries k).open_requests
    then picked
    else (elim picked [
      | none ↦ some k
      | some p ↦ if ltb (entries k).open_requests (entries p).open_requests then some k else some p
    ]))

abbrev pub all_above : (ℕ → PooledRun) → ℕ → List ℕ → Bool
all_above entries desired [] = true
all_above entries desired (k ∷ ks) =
    (is_some (entries k).retiring || ltb desired (entries k).open_requests)
    && all_above entries desired ks

abbrev pub add_if_none : String → Option ℕ → Pool → Pool × ℕ
add_if_none build_id (some k) s = (s, k)
add_if_none build_id none s = (add_run build_id s, s.next_ticket)

-- `picked.openRequests++` and the lease; the new lease is the last.
abbrev pub take_lease : ℕ → Pool → Pool
take_lease k s =
    let e = s.entries k in
    set_entry k (record e { open_requests = suc e.open_requests; idle_timer = none })
      (record s { leases = s.leases ++ record { ticket = k; released = false } ∷ [] })

abbrev pub add_ahead : PoolSettings → String → Pool → Pool
add_ahead settings build_id s =
    if all_above s.entries settings.desired_requests s.pool then add_run build_id s else s

-- acquireStandbyRun from the read of the pool to the reservation, which nothing interrupts.
unfoldable pub reserve : PoolSettings → String → String → Pool → Pool × ℕ
reserve settings build_id build_number s =
    let kept = retire_outdated build_id (newer_build build_number) s.pool s in
    let picked = least_loaded kept.entries settings.max_requests kept.pool none in
    let (having, k) = add_if_none build_id picked kept in
    (add_ahead settings build_id (take_lease k having), k)

abbrev pub set_released : ℕ → List Lease → List Lease
set_released i [] = []
set_released zero (l ∷ ls) = record l { released = true } ∷ ls
set_released (suc i) (l ∷ ls) = l ∷ set_released i ls

abbrev pub after_release : ℕ → PoolSettings → ℕ → Pool → Pool
after_release now settings k s =
    let e = s.entries k in
    if ltb 0 e.open_requests then s else (elim e.retiring [
      | some reason ↦ emit_pool (finish_run k reason) s
      | none ↦ arm_idle_timer now settings k s
    ])

abbrev pub release_lease : ℕ → PoolSettings → ℕ → Option Lease → Pool → Pool
release_lease now settings i none s = s
release_lease now settings i (some l) s =
    let e = s.entries l.ticket in
    if l.released
    then s
    else after_release now settings l.ticket (
        set_entry l.ticket (record e { open_requests = e.open_requests - 1 })
          (record s { leases = set_released i s.leases }))

-- `release` of the i-th lease.
unfoldable pub release : ℕ → PoolSettings → ℕ → Pool → Pool
release now settings i s = release_lease now settings i (get_elem? s.leases i) s

abbrev pub has_gone : {U : Type 0} → Option (RunRecord U) → Bool
has_gone none = true
has_gone (some r) = is_terminal_job_status r.status || same_status r.status aborting

-- One entry of pruneEndedRuns, which waits for the read of each run.
unfoldable pub prune_entry : {U : Type 0} → Registry (RunRecord U) → ℕ → Pool → Pool
prune_entry runs k s = elim (s.entries k).known_run_id [
  | none ↦ s
  | some run_id ↦ if has_gone (Registry.get runs run_id) then remove_from_pool k s else s
]

-- `entry.readyAddress = ...`, of waitForServer and of markUnreachable.
unfoldable pub set_ready_address : ℕ → Option String → Pool → Pool
set_ready_address k address s = set_entry k (record (s.entries k) { ready_address = address }) s
