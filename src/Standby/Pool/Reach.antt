-- ===== src/Standby/Pool/Reach.antt =====
-- The states that the standby pool of src/services/standby.ts reaches from an empty one, the handlers
-- running in any order. The settings may change between requests, except for the limit of requests.
use actor_runtime.Base.{
  ℕ, ◌≤◌, ◌<◌, String, ◌≡◌, inl, inr, refl, Option, none, some, [], ◌==◌, arith, Bool-cases,
  Option-cases,
}
use actor_runtime.Jobs.Registry
use actor_runtime.Jobs.Registry.{Registry}
use actor_runtime.Entities.Run.{RunRecord}
use actor_runtime.Standby.Pool.{
  PooledRun, Pool, PoolSettings, count, set_entry, remove_from_pool, arm_idle_timer,
  idle_timer_fires, run_started, reserve, release, has_gone, prune_entry, set_ready_address,
}
use actor_runtime.Standby.Pool.Sound.{
  open_leases, finishes, IsSound, set_entry-IsSoundAt, remove_from_pool-IsSoundAt,
  idle_timer_fires-IsSound,
}
use actor_runtime.Standby.Pool.Steps.{reserve-IsSound, release-IsSound}

-- A request is reserved or released, a run starts or fails to, an idle timer fires, an ended run is
-- dropped, a server answers its probe or is marked unreachable.
pub data Step (most : ℕ) (U : Type 0) : Pool → Pool → Type 0 where
  reserves :
      (settings : PoolSettings) (build_id build_number : String) (s : Pool)
      → settings.max_requests ≡ most
      → Step most U s (reserve settings build_id build_number s).0
  releases :
      (now : ℕ) (settings : PoolSettings) (i : ℕ) (s : Pool)
      → Step most U s (release now settings i s)
  starts :
      (now : ℕ) (settings : PoolSettings) (k : ℕ) (run_id : String) (s : Pool)
      → Step most U s (run_started now settings k run_id s)
  start_fails : (k : ℕ) (s : Pool) → Step most U s (remove_from_pool k s)
  idles : (k : ℕ) (s : Pool) → Step most U s (idle_timer_fires k s)
  prunes : (runs : Registry (RunRecord U)) (k : ℕ) (s : Pool) → Step most U s (prune_entry runs k s)
  probes :
      (k : ℕ) (address : Option String) (s : Pool) → Step most U s (set_ready_address k address s)

pub data Reach (most : ℕ) (U : Type 0) (s : Pool) : Pool → Type 0 where
  here : Reach most U s s
  next : {t u : Pool} → Reach most U s t → Step most U t u → Reach most U s u

abbrev unused_entry : PooledRun
unused_entry = record {
  known_run_id = none;
  build_id = "";
  open_requests = 0;
  ready_address = none;
  idle_timer = none;
  retiring = none;
}

-- `pools` before the first request.
abbrev pub empty_pool : Pool
empty_pool = record {
  entries = λ k. unused_entry;
  next_ticket = 0;
  pool = [];
  leases = [];
  effects = [];
}

empty_pool-IsSound : (most : ℕ) → IsSound most empty_pool
empty_pool-IsSound most k = ground arith

module _ (most : ℕ) {s : Pool} (sound : IsSound most s) where
  known-IsSound :
      (k : ℕ) (run_id : String)
      → IsSound most (set_entry k (record (s.entries k) { known_run_id = some run_id }) s)
  known-IsSound k run_id j = set_entry-IsSoundAt most j (sound j) k _ refl refl

  run_started-IsSound :
      (now : ℕ) (settings : PoolSettings) (k : ℕ) (run_id : String)
      → IsSound most (run_started now settings k run_id s)
  unfolding run_started arm_idle_timer
  run_started-IsSound now settings k run_id j =
      elim (Bool-cases ((s.entries k).open_requests == 0)) [
        | inl unused ↦
            rw unused (set_entry-IsSoundAt most j (known-IsSound k run_id j) k _ refl refl)
        | inr serving ↦ rw serving (known-IsSound k run_id j)
      ]

  prune_entry-IsSound :
      {U : Type 0} (runs : Registry (RunRecord U)) (k : ℕ) → IsSound most (prune_entry runs k s)
  unfolding prune_entry
  prune_entry-IsSound runs k j = elim (Option-cases (s.entries k).known_run_id) [
    | inl starting ↦ rw (starting, prune_entry) (sound j)
    | inr (run_id, known) ↦ elim (Bool-cases (has_gone (Registry.get runs run_id))) [
      | inl gone ↦ rw (known, gone, prune_entry) (remove_from_pool-IsSoundAt most j (sound j) k)
      | inr there ↦ rw (known, there, prune_entry) (sound j)
    ]
  ]

  set_ready_address-IsSound :
      (k : ℕ) (address : Option String) → IsSound most (set_ready_address k address s)
  unfolding set_ready_address
  set_ready_address-IsSound k address j = set_entry-IsSoundAt most j (sound j) k _ refl refl

Step-IsSound :
    {most : ℕ} {U : Type 0} {s t : Pool}
    → 1 ≤ most
    → Step most U s t
    → IsSound most s
    → IsSound most t
Step-IsSound positive (reserves settings build_id build_number s e) sound =
    rw (← e) (reserve-IsSound settings build_id build_number s (rw e positive) (rw e sound))
Step-IsSound positive (releases now settings i s) sound = release-IsSound _ now settings i s sound
Step-IsSound positive (starts now settings k run_id s) sound =
    run_started-IsSound _ sound now settings k run_id
Step-IsSound positive (start_fails k s) sound = λ j. remove_from_pool-IsSoundAt _ j (sound j) k
Step-IsSound positive (idles k s) sound = idle_timer_fires-IsSound _ sound k
Step-IsSound positive (prunes runs k s) sound = prune_entry-IsSound _ sound runs k
Step-IsSound positive (probes k address s) sound = set_ready_address-IsSound _ sound k address

Reach-IsSound :
    {most : ℕ} {U : Type 0} {t : Pool} → 1 ≤ most → Reach most U empty_pool t → IsSound most t
Reach-IsSound {most} positive here = empty_pool-IsSound most
Reach-IsSound positive (next r step) = Step-IsSound positive step (Reach-IsSound positive r)

-- With a limit of at least one request for a run, no entry ever serves more requests at once than the
-- limit, in whatever order requests, releases, starts, failures, idle timers and ended runs come.
pub open_leases-le-most :
    {U : Type 0} (most : ℕ) (s : Pool) (k : ℕ)
    → 1 ≤ most
    → Reach most U empty_pool s
    → open_leases k s.leases ≤ most
open_leases-le-most most s k positive r =
    let at = Reach-IsSound positive r k in omega (arith, at.counted, at.capped)

-- With a limit of at least one request for a run, an entry that was asked to finish serves no request,
-- then or later, is in the pool no more, and is asked only once.
pub finished_serves_none :
    {U : Type 0} (most : ℕ) (s : Pool) (k : ℕ)
    → 1 ≤ most
    → Reach most U empty_pool s
    → 0 < finishes k s.effects
    → (open_leases k s.leases ≡ 0) × (count k s.pool ≡ 0) × (finishes k s.effects ≡ 1)
finished_serves_none most s k positive r asked =
    let at = Reach-IsSound positive r k in ground (arith, at.counted, at.over, at.single)
