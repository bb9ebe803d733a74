-- ===== src/Webhooks/Dispatches/Created.antt =====
-- Which dispatches an event gives rise to: `createDispatches` and `insertDispatch` of
-- src/services/webhook-dispatches.ts.
use actor_runtime.Base.{
  ℕ, String, ◌≡◌, ◌↔◌, ◌&&◌, ◌||◌, ◌⊎◌, inl, inr, refl, sym, ap, ◌∙◌, Bool, true, false, Option,
  none, some, arith, eq_iff, ◌==◌, List, [], ◌∷◌, keep, All, ◌===◌, if◌then◌else◌, Bool-cases,
  eq_refl,
}
use actor_runtime.Base.Dict.{Dict, lookup}
use actor_runtime.Jobs.Registry
use actor_runtime.Jobs.Registry.{Registry, get-set}
use actor_runtime.Entities.Webhook.{
  EventType, run_created, run_succeeded, run_failed, run_timed_out, run_aborted, run_resurrected,
  build_created, build_succeeded, build_failed, build_timed_out, build_aborted, test, event_index,
  same_event, includes_event, WebhookCondition, actor_id, actor_task_id, actor_run_id, active,
  WebhookRecord, WebhookDispatchRecord,
}
use actor_runtime.Webhooks.Records.{list_all_webhooks}
use actor_runtime.Webhooks.Events.{WebhookEvent, condition_matches}
use actor_runtime.Webhooks.Dispatches.{
  Dispatcher, insert_dispatch, schedule_attempt, dispatch_to, is_matching, create_dispatches,
  owned_webhooks,
}

All-keep {ℓ} : {A : Type ℓ} (p : A → Bool) (xs : List A) → All (λ x. p x ≡ true) (keep p xs)
All-keep p [] = tt
All-keep p (x ∷ xs) = elim (Bool-cases (p x)) [
  | inl e ↦ rw (e, keep) (e, All-keep p xs)
  | inr e ↦ rw (e, keep) (All-keep p xs)
]

keep-All {ℓ κ} :
    {A : Type ℓ} (P : A → Type κ) (p : A → Bool) (xs : List A) → All P xs → All P (keep p xs)
keep-All P p [] _ = tt
keep-All P p (x ∷ xs) (first, rest) = elim (Bool-cases (p x)) [
  | inl e ↦ rw (e, keep) (first, keep-All P p xs rest)
  | inr e ↦ rw (e, keep) (keep-All P p xs rest)
]

All-pair {ℓ κ ι} :
    {A : Type ℓ} (P : A → Type κ) (Q : A → Type ι) (xs : List A)
    → All P xs
    → All Q xs
    → All (λ x. P x × Q x) xs
All-pair P Q [] _ _ = tt
All-pair P Q (x ∷ xs) (p, ps) (q, qs) = ((p, q), All-pair P Q xs ps qs)

All-map {ℓ κ ι} :
    {A : Type ℓ} (P : A → Type κ) (Q : A → Type ι) (xs : List A)
    → ((x : A) → P x → Q x)
    → All P xs
    → All Q xs
All-map P Q [] f _ = tt
All-map P Q (x ∷ xs) f (p, ps) = (f x p, All-map P Q xs f ps)

All-unkeep {ℓ κ} :
    {A : Type ℓ} (P : A → Type κ) (p : A → Bool) (xs : List A)
    → All P (keep p xs)
    → All (λ x. p x ≡ true → P x) xs
All-unkeep P p [] _ = tt
All-unkeep P p (x ∷ xs) h = elim (Bool-cases (p x)) [
  | inl e ↦ let (first, rest) = rw (e, keep) at h in (λ _. first, All-unkeep P p xs rest)
  | inr e ↦ (λ e'. absurd (cc (e, e')), All-unkeep P p xs (rw (e, keep) at h))
]

both : (a b : Bool) → (a && b) ≡ true → (a ≡ true) × (b ≡ true)
both true b h = (refl, h)
both false b h = absurd (cc h)

event_at : ℕ → EventType
event_at n =
    if n == 0
    then run_created
    else (if n == 1
        then run_succeeded
        else (if n == 2
            then run_failed
            else (if n == 3
                then run_timed_out
                else (if n == 4
                    then run_aborted
                    else (if n == 5
                        then run_resurrected
                        else (if n == 6
                            then build_created
                            else (if n == 7
                                then build_succeeded
                                else (if n == 8
                                    then build_failed
                                    else (if n == 9
                                        then build_timed_out
                                        else (if n == 10 then build_aborted else test))))))))))

event_at-event_index : (e : EventType) → event_at (event_index e) ≡ e
unfolding event_at
event_at-event_index run_created = refl
event_at-event_index run_succeeded = refl
event_at-event_index run_failed = refl
event_at-event_index run_timed_out = refl
event_at-event_index run_aborted = refl
event_at-event_index run_resurrected = refl
event_at-event_index build_created = refl
event_at-event_index build_succeeded = refl
event_at-event_index build_failed = refl
event_at-event_index build_timed_out = refl
event_at-event_index build_aborted = refl
event_at-event_index test = refl

same_event_iff : (a b : EventType) → (same_event a b ≡ true) ↔ (a ≡ b)
same_event_iff a b = (
  λ h. sym (event_at-event_index a) ∙ ap event_at (index_eq h) ∙ event_at-event_index b,
  λ e. rw e (ground arith),
)
  where
    index_eq : same_event a b ≡ true → event_index a ≡ event_index b
    index_eq h = ground (arith, h)

abbrev pub IsSubscribed : EventType → List EventType → Type 0
IsSubscribed e [] = ⊥
IsSubscribed e (f ∷ fs) = (f ≡ e) ⊎ IsSubscribed e fs

or_true : (a : Bool) {b : Bool} → b ≡ true → (a || b) ≡ true
or_true true h = refl
or_true false h = h

field_iff :
    (id : String) (o : Option String)
    → ((elim o [ none ↦ false | some v ↦ v === id ]) ≡ true) ↔ (o ≡ some id)
field_iff id none = (λ h. absurd (cc h), λ e. absurd (cc e))
field_iff id (some v) =
    (λ h. ap (λ t. some t) ((eq_iff v id).0 h), λ e. (eq_iff v id).1 (some_inj v id e))
  where
    some_inj : (x y : String) → some x ≡ some y → x ≡ y
    some_inj x y e = cc

includes_event_iff :
    (es : List EventType) (e : EventType) → (includes_event es e ≡ true) ↔ IsSubscribed e es
includes_event_iff [] e = (λ h. absurd (cc h), λ p. absurd p)
includes_event_iff (f ∷ fs) e = (
  λ h. there (includes_event_iff fs e).0 (Bool-cases (same_event f e)) h,
  back (includes_event_iff fs e).1,
)
  where
    there :
        (includes_event fs e ≡ true → IsSubscribed e fs)
        → ((same_event f e ≡ true) ⊎ (same_event f e ≡ false))
        → (same_event f e || includes_event fs e) ≡ true
        → (f ≡ e) ⊎ IsSubscribed e fs
    there further (inl same) h = inl ((same_event_iff f e).0 same)
    there further (inr other) h = inr (further (rw other at h))

    back :
        (IsSubscribed e fs → includes_event fs e ≡ true)
        → ((f ≡ e) ⊎ IsSubscribed e fs)
        → (same_event f e || includes_event fs e) ≡ true
    back further (inl same) = rw ((same_event_iff f e).1 same) refl
    back further (inr later) = or_true (same_event f e) (further later)

-- The job of the event has what the condition asks for.
abbrev pub Meets : Dict String → WebhookCondition → Type 0
Meets event_data (actor_id id) = lookup "actorId" event_data ≡ some id
Meets event_data (actor_task_id id) = lookup "actorTaskId" event_data ≡ some id
Meets event_data (actor_run_id id) = lookup "actorRunId" event_data ≡ some id

condition_matches_iff :
    (c : WebhookCondition) (event_data : Dict String)
    → (condition_matches c event_data ≡ true) ↔ Meets event_data c
unfolding condition_matches
condition_matches_iff (actor_id id) event_data = field_iff id (lookup "actorId" event_data)
condition_matches_iff (actor_task_id id) event_data = field_iff id (lookup "actorTaskId" event_data)
condition_matches_iff (actor_run_id id) event_data = field_iff id (lookup "actorRunId" event_data)

module _ {J : Type 0} (generated : String → String) (now : ℕ) (event : WebhookEvent J) where
  -- The dispatch of the event to a webhook.
  abbrev pub dispatch_of : WebhookRecord → WebhookDispatchRecord J
  dispatch_of w = record {
    id = generated w.id;
    user_id = event.user_id;
    webhook_id = w.id;
    created_at = now;
    finished_at = none;
    status = active;
    event_type = event.event_type;
    event_data = some event.event_data;
    webhook = w;
    resource = event.resource;
    call_at = now;
    calls = [];
  }

  get-insert_dispatch :
      (r : WebhookDispatchRecord J) (j : String) (d : Dispatcher J)
      → Registry.get (insert_dispatch r d).dispatches j
        ≡ (if r.id === j then some r else Registry.get d.dispatches j)
  unfolding insert_dispatch schedule_attempt
  get-insert_dispatch r j d = get-set d.dispatches r.id j r

  abbrev Unlike : String → List WebhookRecord → Type 0
  Unlike j ws = All (λ w. (generated w.id === j) ≡ false) ws

  -- The ids drawn for the webhooks are distinct.
  abbrev pub Distinct : List WebhookRecord → Type 0
  Distinct [] = Unit
  Distinct (w ∷ ws) = Unlike (generated w.id) ws × Distinct ws

  dispatch_to_other :
      (j : String) (ws : List WebhookRecord) (d : Dispatcher J)
      → Unlike j ws
      → Registry.get (dispatch_to generated now event ws d).dispatches j
        ≡ Registry.get d.dispatches j
  dispatch_to_other j [] d _ = refl
  dispatch_to_other j (w ∷ ws) d (first, rest) =
      rw (dispatch_to_other j ws _ rest, get-insert_dispatch (dispatch_of w) j d, first) refl

  dispatch_to-Has :
      (ws : List WebhookRecord) (d : Dispatcher J)
      → Distinct ws
      → All
          (λ w.
            Registry.get (dispatch_to generated now event ws d).dispatches (generated w.id)
            ≡ some (dispatch_of w))
          ws
  dispatch_to-Has [] d _ = tt
  dispatch_to-Has (w ∷ ws) d (unlike, distinct) = (
    rw
        (
          dispatch_to_other (generated w.id) ws _ unlike,
          get-insert_dispatch (dispatch_of w) (generated w.id) d,
          eq_refl (generated w.id),
        )
        refl,
    dispatch_to-Has ws _ distinct,
  )

  -- A dispatch that was not there before is that of a webhook of the list.
  abbrev pub From :
      (WebhookRecord → Type 0)
      → Option (WebhookDispatchRecord J)
      → Option (WebhookDispatchRecord J)
      → Type 0
  From P before after =
      (after ≡ before) ⊎ ((w : WebhookRecord) × P w × (after ≡ some (dispatch_of w)))

  From-step :
      (P : WebhookRecord → Type 0) (w : WebhookRecord) (is_its : Bool)
      (before between after : Option (WebhookDispatchRecord J))
      → P w
      → between ≡ (if is_its then some (dispatch_of w) else before)
      → From P between after
      → From P before after
  From-step P w true before between after p e (inl same) = inr (w, p, same ∙ e)
  From-step P w false before between after p e (inl same) = inl (same ∙ e)
  From-step P w is_its before between after p e (inr later) = inr later

  dispatch_to-From :
      (P : WebhookRecord → Type 0) (j : String) (ws : List WebhookRecord) (d : Dispatcher J)
      → All P ws
      → From P
          (Registry.get d.dispatches j)
          (Registry.get (dispatch_to generated now event ws d).dispatches j)
  dispatch_to-From P j [] d _ = inl refl
  dispatch_to-From P j (w ∷ ws) d (first, rest) =
      From-step P w (generated w.id === j) (Registry.get d.dispatches j)
        (Registry.get (insert_dispatch (dispatch_of w) d).dispatches j)
        (Registry.get (dispatch_to generated now event (w ∷ ws) d).dispatches j) first
        (get-insert_dispatch (dispatch_of w) j d) (dispatch_to-From P j ws _ rest)

  -- The event's user's webhook, enabled, subscribed to the event and of the job that it is about.
  abbrev pub IsMeant : WebhookRecord → Type 0
  IsMeant w =
      (w.user_id ≡ event.user_id)
      × (w.is_enabled ≡ true)
      × IsSubscribed event.event_type w.event_types
      × Meets event.event_data w.condition

  abbrev taken : WebhookRecord → Bool
  taken w = (w.user_id === event.user_id) && is_matching event w

  taken_iff : (w : WebhookRecord) → (taken w ≡ true) ↔ IsMeant w
  unfolding is_matching
  taken_iff w = (
    λ h.
        let (user, h1) = both (w.user_id === event.user_id) (is_matching event w) h in
        let (h2, met) =
          both (w.is_enabled && includes_event w.event_types event.event_type)
            (condition_matches w.condition event.event_data) h1 in
        let (enabled, subscribed) =
          both w.is_enabled (includes_event w.event_types event.event_type) h2 in
        (
          (eq_iff w.user_id event.user_id).0 user,
          enabled,
          (includes_event_iff w.event_types event.event_type).0 subscribed,
          (condition_matches_iff w.condition event.event_data).0 met,
        ),
    λ p.
        rw
          (
            (eq_iff w.user_id event.user_id).1 p.0,
            p.1,
            (includes_event_iff w.event_types event.event_type).1 p.2,
            (condition_matches_iff w.condition event.event_data).1 p.3,
          )
          refl,
  )

  meant : (d : Dispatcher J) → All IsMeant (keep (is_matching event) (owned_webhooks event d))
  meant d =
      All-map (λ w. (is_matching event w ≡ true) × ((w.user_id === event.user_id) ≡ true)) IsMeant _
        (λ w p. (taken_iff w).0 (rw (p.1) (p.0)))
        (All-pair (λ w. is_matching event w ≡ true) (λ w. (w.user_id === event.user_id) ≡ true) _
          (All-keep (is_matching event) (owned_webhooks event d))
          (keep-All (λ w. (w.user_id === event.user_id) ≡ true) (is_matching event)
            (owned_webhooks event d)
            (All-keep (λ w. w.user_id === event.user_id) (list_all_webhooks d.webhooks))))

  Distinct-keep :
      (p : WebhookRecord → Bool) (ws : List WebhookRecord) → Distinct ws → Distinct (keep p ws)
  Distinct-keep p [] distinct = tt
  Distinct-keep p (w ∷ ws) (first, rest) = elim (Bool-cases (p w)) [
    | inl e ↦
        rw (e, keep)
          (
            keep-All (λ v. (generated v.id === generated w.id) ≡ false) p ws first,
            Distinct-keep p ws rest,
          )
    | inr e ↦ rw (e, keep) (Distinct-keep p ws rest)
  ]

  -- An event gives each webhook of its user that is enabled, is subscribed to it and has a condition
  -- that it meets a dispatch of its own, ACTIVE, due at once and without calls, if the ids drawn for the
  -- webhooks are distinct; and every dispatch that is there afterwards was there before or is one of
  -- these: no other user's webhook, no disabled one and none of another job is ever sent the event. No
  -- other handler writes webhooks or dispatches meanwhile.
  pub create_dispatches_lem :
      (d : Dispatcher J)
      → Distinct (list_all_webhooks d.webhooks)
      → All
          (λ w.
            IsMeant w
            → Registry.get (create_dispatches generated now event d).dispatches (generated w.id)
              ≡ some (dispatch_of w))
          (list_all_webhooks d.webhooks)
        × ((j : String)
            → From IsMeant
                (Registry.get d.dispatches j)
                (Registry.get (create_dispatches generated now event d).dispatches j))
  unfolding create_dispatches
  create_dispatches_lem d distinct = (
    All-map (λ w. (w.user_id === event.user_id) ≡ true → is_matching event w ≡ true → Sent w)
        (λ w. IsMeant w → Sent w) all
        (λ w given is.
          let (user, match) =
            both (w.user_id === event.user_id) (is_matching event w) ((taken_iff w).1 is) in
          given user match)
        (All-unkeep (λ w. is_matching event w ≡ true → Sent w) (λ w. w.user_id === event.user_id)
          all
          (All-unkeep Sent (is_matching event) owned (
            dispatch_to-Has (keep (is_matching event) owned) _ (
              Distinct-keep (is_matching event) owned
                (Distinct-keep (λ w. w.user_id === event.user_id) all distinct))))),
    λ j. dispatch_to-From IsMeant j (keep (is_matching event) owned) _ (meant d),
  )
    where
      all : List WebhookRecord
      all = list_all_webhooks d.webhooks

      owned : List WebhookRecord
      owned = owned_webhooks event d

      Sent : WebhookRecord → Type 0
      Sent w =
          Registry.get (create_dispatches generated now event d).dispatches (generated w.id)
          ≡ some (dispatch_of w)
