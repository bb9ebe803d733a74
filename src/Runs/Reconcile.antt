-- ===== src/Runs/Reconcile.antt =====
-- `reconcileOrphanedJobs` of src/services/runs.ts: the runs and builds that a previous process left
-- unfinished. The driver's part, `reconcileOrphans`, only stops containers.
use actor_runtime.Base.{
  String, ◌≡◌, refl, true, false, not, some, List, [], ◌∷◌, arith, keep, map, All, ◌===◌,
  Bool-cases, inl, inr, ap, ◌∙◌, ◌⊎◌,
}
use actor_runtime.Base.Dict.{Dict, lookup, values}
use actor_runtime.Jobs.Status.{aborted, is_terminal_job_status, allowed_next}
use actor_runtime.Jobs.Registry
use actor_runtime.Jobs.Registry.{Registry, on_record}
use actor_runtime.Jobs.Gate.{HasStatus, gate}
use actor_runtime.Jobs.Progress.{
  Request, writes, registry_writes, requests_for, get-registry_writes, writes_of_terminal,
  status-gate,
}

module _ {T : Type 0} (h : HasStatus T) (id_of : T → String) where
  open h use {status}

  -- allRuns.filter((r) => !isTerminalJobStatus(r.status)), and the same of builds
  abbrev pub orphans : Registry T → List T
  orphans r = keep (λ t. not (is_terminal_job_status (status t))) (Registry.list r)

  abbrev pub abort_requests : (T → T) → List T → List (String × Request h)
  abort_requests patch = map (λ t. (id_of t, (aborted, patch)))

  -- `Promise.all` over the orphans: the gate's writes, one after another.
  pub reconcile_orphaned : (T → T) → Registry T → Registry T
  reconcile_orphaned patch r = registry_writes h (abort_requests patch (orphans r)) r

  -- A record is stored under its own id.
  abbrev pub IsKeyed : Dict T → Type 0
  IsKeyed = All (λ e. id_of e.1 ≡ e.0)

  aborts : (patch : T → T) (t : T) → is_terminal_job_status (status (gate h aborted patch t)) ≡ true
  unfolding is_terminal_job_status allowed_next
  aborts patch t = ground (arith, status-gate h aborted patch t)

  -- Any positive number of requests to abort ends a record.
  aborts_all :
      (patch : T → T) (j : String) (ts : List T) (t : T)
      → is_terminal_job_status (status t) ≡ true
      → is_terminal_job_status (status (writes h (requests_for h j (abort_requests patch ts)) t))
        ≡ true
  aborts_all patch j ts t e =
      rw (writes_of_terminal h (requests_for h j (abort_requests patch ts)) t e) e

  -- A stored record that is not terminal is among those asked to abort.
  ends :
      (patch : T → T) (j : String) (m : Dict T) (t : T)
      → IsKeyed m
      → lookup j m ≡ some t
      → (u : T) → is_terminal_job_status (status t) ≡ false
      → is_terminal_job_status (
          status (
            writes h
              (requests_for h j (
                abort_requests patch
                  (keep (λ x. not (is_terminal_job_status (status x))) (values m))))
              u))
        ≡ true
  unfolding lookup
  ends patch j [] t k e u live = cc
  ends patch j ((i, x) ∷ m) t k e u live = elim (Bool-cases (i === j)) [
    | inl same ↦
        let here : x ≡ t = some_inj (rw same at e) in
        let mine : (id_of x === j) ≡ true = rw (k.0) same in
        let unfinished : is_terminal_job_status (status x) ≡ false = rw here live in
        rw (unfinished, mine)
          (aborts_all patch j (keep (λ y. not (is_terminal_job_status (status y))) (values m))
            (gate h aborted patch u) (aborts patch u))
    | inr other ↦
        let not_mine : (id_of x === j) ≡ false = rw (k.0) other in
        elim (Bool-cases (is_terminal_job_status (status x))) [
          | inl over ↦ rw over (ends patch j m t k.1 (rw other at e) u live)
          | inr live' ↦ rw (live', not_mine) (ends patch j m t k.1 (rw other at e) u live)
        ]
  ]
    where
      some_inj : {a b : T} → some a ≡ some b → a ≡ b
      some_inj h' = cc

  -- After the reconciliation of a registry whose records stand under their own ids, every record is
  -- terminal, and one that was terminal before is as it was.
  pub reconcile_orphaned_lem :
      (patch : T → T) (r : Registry T) (j : String) (t : T)
      → IsKeyed r.store
      → Registry.get r j ≡ some t
      → (t' : T) × (Registry.get (reconcile_orphaned patch r) j ≡ some t')
        × (is_terminal_job_status (status t') ≡ true)
        × ((is_terminal_job_status (status t) ≡ false) ⊎ (t' ≡ t))
  unfolding reconcile_orphaned Registry.get Registry.list
  reconcile_orphaned_lem patch r j t keyed there =
      elim (Bool-cases (is_terminal_job_status (status t))) [
        | inl over ↦ (t, stored ∙ ap some (writes_of_terminal h asked t over), over, inr refl)
        | inr live ↦ (writes h asked t, stored, ends patch j r.store t keyed there t live, inl live)
      ]
    where
      asked : List (Request h)
      asked = requests_for h j (abort_requests patch (orphans r))

      stored : Registry.get (reconcile_orphaned patch r) j ≡ some (writes h asked t)
      stored =
          get-registry_writes h (abort_requests patch (orphans r)) r j
          ∙ ap (on_record (writes h asked)) there
