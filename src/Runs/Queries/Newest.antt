-- ===== src/Runs/Queries/Newest.antt =====
-- Which run `findLastOwnedRun` of src/services/runs.ts gives.
use mathlib.Core.List.{append_assoc, append-nil}
use actor_runtime.Base.{
  ℕ, ◌≤◌, ◌<◌, String, refl, Option, none, some, List, [], ◌∷◌, ◌++◌, arith, ltb, ltb→lt, keep, All,
  All-append, Bool-cases, inl, inr, ap, ◌∙◌, ◌≡◌, ◌↔◌, Bool, true, false, ◌&&◌, ◌===◌, eq_iff,
}
use actor_runtime.Jobs.Registry
use actor_runtime.Jobs.Registry.{Registry}
use actor_runtime.Entities.Run.{RunRecord}
use actor_runtime.Runs.Queries.{
  RunScope, of_actor, of_task, RunFilter, status_text, equals, passes, in_scope, is_candidate,
  newer, last_from, find_last_owned_run, list_owned_runs,
}

ltb-no : (a b : ℕ) → ltb a b ≡ false → b ≤ a
ltb-no a b h = ground arith

both : (a b : Bool) → (a && b) ≡ true → (a ≡ true) × (b ≡ true)
both true b h = (refl, h)
both false b h = absurd (cc h)

abbrev pub IsAsked : Option String → String → Type 0
IsAsked none text = Unit {0}
IsAsked (some t) text = text ≡ t

IsAsked-iff :
    (wanted : Option String) (text : String) → (passes wanted text ≡ true) ↔ IsAsked wanted text
IsAsked-iff none text = (λ h. tt, λ p. refl)
IsAsked-iff (some t) text = eq_iff text t

equals_iff : (o : Option String) (t : String) → (equals o t ≡ true) ↔ (o ≡ some t)
equals_iff none t = (λ h. absurd (cc h), λ e. absurd (cc e))
equals_iff (some u) t =
    (λ h. ap (λ v. some v) ((eq_iff u t).0 h), λ e. (eq_iff u t).1 (some_inj u t e))
  where
    some_inj : (x y : String) → some x ≡ some y → x ≡ y
    some_inj x y e = cc

module _ {U : Type 0} where
  -- A run of the user, of the Actor or task, and of the status and origin that are asked for, if any.
  abbrev pub OfScope : RunScope → RunRecord U → Type 0
  OfScope (of_actor actor_id) run = run.actor_id ≡ actor_id
  OfScope (of_task task_id) run = run.actor_task_id ≡ some task_id

  abbrev pub IsWanted : String → RunScope → RunFilter → RunRecord U → Type 0
  IsWanted user scope filter run =
      (run.user_id ≡ user)
      × OfScope scope run
      × IsAsked filter.status (status_text run.status)
      × IsAsked filter.origin run.meta.origin

  -- The first of those that started last of the wanted ones in a list, or none where none is wanted.
  abbrev pub IsLast : (RunRecord U → Type 0) → List (RunRecord U) → Option (RunRecord U) → Type 0
  IsLast P runs none = All (λ x. P x → ⊥) runs
  IsLast P runs (some r) =
      (before after : List (RunRecord U)) × (runs ≡ before ++ r ∷ after)
      × P r
      × All (λ x. P x → x.started_at < r.started_at) before
      × All (λ x. P x → x.started_at ≤ r.started_at) after

  wanted_before :
      (P : RunRecord U → Type 0) (n m : ℕ) (xs : List (RunRecord U))
      → n < m
      → All (λ x. P x → x.started_at ≤ n) xs
      → All (λ x. P x → x.started_at < m) xs
  wanted_before P n m [] h k = tt
  wanted_before P n m (x ∷ xs) h (first, rest) =
      ((λ p. let le = first p in omega (arith, le, h)), wanted_before P n m xs h rest)

  wanted_lax :
      (P : RunRecord U → Type 0) (n : ℕ) (xs : List (RunRecord U))
      → All (λ x. P x → x.started_at < n) xs
      → All (λ x. P x → x.started_at ≤ n) xs
  wanted_lax P n [] k = tt
  wanted_lax P n (x ∷ xs) (first, rest) =
      ((λ p. let lt = first p in omega (arith, lt)), wanted_lax P n xs rest)

  none_before :
      (P : RunRecord U → Type 0) (n : ℕ) (xs : List (RunRecord U))
      → All (λ x. P x → ⊥) xs
      → All (λ x. P x → x.started_at < n) xs
  none_before P n [] k = tt
  none_before P n (x ∷ xs) (first, rest) = ((λ p. absurd (first p)), none_before P n xs rest)

  one_more :
      (P : RunRecord U → Type 0) (runs : List (RunRecord U)) (o : Option (RunRecord U))
      (x : RunRecord U)
      → P x
      → IsLast P runs o
      → IsLast P (runs ++ x ∷ []) (newer o x)
  one_more P runs none x hit h = (runs, [], refl, hit, none_before P x.started_at runs h, tt)
  one_more P runs (some r) x hit (before, after, e, p, earlier, later) =
      elim (Bool-cases (ltb r.started_at x.started_at)) [
        | inl newest ↦
            let lt = ltb→lt r.started_at x.started_at newest in
            rw newest (
              runs,
              [],
              refl,
              hit,
              rw e (
                  All-append (λ y. P y → y.started_at < x.started_at) before (r ∷ after)
                    (wanted_before P r.started_at x.started_at before lt
                      (wanted_lax P r.started_at before earlier))
                    ((λ _. lt), wanted_before P r.started_at x.started_at after lt later)),
              tt,
            )
        | inr older ↦ rw older (
          before,
          after ++ x ∷ [],
          ap (λ t. t ++ x ∷ []) e ∙ append_assoc before (r ∷ after) (x ∷ []),
          p,
          earlier,
          All-append (λ y. P y → y.started_at ≤ r.started_at) after (x ∷ []) later
              ((λ _. ltb-no r.started_at x.started_at older), tt),
        )
      ]

  one_other :
      (P : RunRecord U → Type 0) (runs : List (RunRecord U)) (o : Option (RunRecord U))
      (x : RunRecord U)
      → (P x → ⊥)
      → IsLast P runs o
      → IsLast P (runs ++ x ∷ []) o
  one_other P runs none x miss h = All-append (λ y. P y → ⊥) runs (x ∷ []) h (miss, tt)
  one_other P runs (some r) x miss (before, after, e, p, earlier, later) = (
    before,
    after ++ x ∷ [],
    ap (λ t. t ++ x ∷ []) e ∙ append_assoc before (r ∷ after) (x ∷ []),
    p,
    earlier,
    All-append (λ y. P y → y.started_at ≤ r.started_at) after (x ∷ []) later
        ((λ q. absurd (miss q)), tt),
  )

  module _ (user : String) (scope : RunScope) (filter : RunFilter) where
    abbrev owned : RunRecord U → Bool
    owned run = (run.user_id === user) && in_scope run (some scope)

    in_scope_iff : (run : RunRecord U) → (in_scope run (some scope) ≡ true) ↔ OfScope scope run
    in_scope_iff run = go scope
      where
        go : (s : RunScope) → (in_scope run (some s) ≡ true) ↔ OfScope s run
        go (of_actor id) = eq_iff run.actor_id id
        go (of_task id) = equals_iff run.actor_task_id id

    IsWanted-iff :
        (run : RunRecord U)
        → ((owned run && is_candidate filter run) ≡ true) ↔ IsWanted user scope filter run
    IsWanted-iff run = (
      λ h.
          let (mine, candidate) = both (owned run) (is_candidate filter run) h in
          let (user', scope') = both (run.user_id === user) (in_scope run (some scope)) mine in
          let (status', origin') =
            both (passes filter.status (status_text run.status))
              (passes filter.origin run.meta.origin) candidate in
          (
            (eq_iff run.user_id user).0 user',
            (in_scope_iff run).0 scope',
            (IsAsked-iff filter.status (status_text run.status)).0 status',
            (IsAsked-iff filter.origin run.meta.origin).0 origin',
          ),
      λ p.
          rw
            (
              (eq_iff run.user_id user).1 p.0,
              (in_scope_iff run).1 p.1,
              (IsAsked-iff filter.status (status_text run.status)).1 p.2,
              (IsAsked-iff filter.origin run.meta.origin).1 p.3,
            )
            refl,
    )

    last_from_other :
        (runs : List (RunRecord U)) (o : Option (RunRecord U)) (x : RunRecord U)
        (xs : List (RunRecord U))
        → ((runs' : List (RunRecord U))
            → IsLast (IsWanted user scope filter) runs' o
            → IsLast
                (IsWanted user scope filter)
                (runs' ++ xs)
                (last_from filter o (keep owned xs)))
        → IsLast (IsWanted user scope filter) runs o
        → (IsWanted user scope filter x → ⊥)
        → IsLast (IsWanted user scope filter) (runs ++ x ∷ xs) (last_from filter o (keep owned xs))
    last_from_other runs o x xs rest h miss =
        rw (append_assoc runs (x ∷ []) xs) at
          (rest (runs ++ x ∷ []) (one_other (IsWanted user scope filter) runs o x miss h))

    last_from_newest :
        (runs : List (RunRecord U)) (o : Option (RunRecord U)) (more : List (RunRecord U))
        → IsLast (IsWanted user scope filter) runs o
        → IsLast (IsWanted user scope filter) (runs ++ more) (last_from filter o (keep owned more))
    unfolding last_from
    last_from_newest runs o [] h = rw (append-nil runs) h
    last_from_newest runs o (x ∷ xs) h = elim (Bool-cases (owned x)) [
      | inr other ↦ rw other (
          last_from_other runs o x xs (λ runs' k. last_from_newest runs' o xs k) h
            (λ p. absurd (cc (rw other at ((IsWanted-iff x).1 p)))))
      | inl mine ↦ elim (Bool-cases (is_candidate filter x)) [
        | inl hit ↦
            rw (mine, hit, last_from)
              (rw (append_assoc runs (x ∷ []) xs) at (
                last_from_newest (runs ++ x ∷ []) (newer o x) xs (
                  one_more (IsWanted user scope filter) runs o x
                    ((IsWanted-iff x).0 (rw (mine, hit) refl)) h)))
        | inr miss ↦
            rw (mine, miss, last_from)
              (last_from_other runs o x xs (λ runs' k. last_from_newest runs' o xs k) h
                (λ p. absurd (cc (rw (mine, miss) at ((IsWanted-iff x).1 p)))))
      ]
    ]

    -- The last run of a user in a scope is the one that started last (of several, the first of the registry)
    -- of the user's runs of that Actor or task that have the status and the origin that are asked for; and
    -- there is none only if no run is such.
    pub find_last_owned_run_lem :
        (runs : Registry (RunRecord U))
        → IsLast
            (IsWanted user scope filter)
            (Registry.list runs)
            (find_last_owned_run runs user scope filter)
    unfolding find_last_owned_run list_owned_runs
    find_last_owned_run_lem runs = last_from_newest [] none (Registry.list runs) tt
