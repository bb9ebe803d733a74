-- ===== src/Webhooks/Attempts/Settle.antt =====
-- What becomes of a dispatch: `attemptDispatch` and `finishAttempt` of
-- src/services/webhook-dispatches.ts over a sequence of attempts.
use actor_runtime.Base.{
  ℕ, suc, ◌+◌, ◌-◌, ◌≤◌, ◌<◌, String, ◌≡◌, inl, inr, refl, true, false, not, ◌&&◌, Option, none,
  some, List, [], ◌∷◌, length, length-append, arith, is_some, if◌then◌else◌, Bool-cases, eq_refl,
}
use actor_runtime.Jobs.Registry
use actor_runtime.Jobs.Registry.{Registry, get-update, on_record}
use actor_runtime.Entities.Webhook.{
  WebhookDispatchStatus, active, failed, WebhookRecord, test, same_event, WebhookDispatchCall,
  WebhookDispatchRecord,
}
use actor_runtime.Webhooks.Records.{get_webhook_by_id}
use actor_runtime.Webhooks.Delivery.{Attempt, new_call, deliver, failed_with}
use actor_runtime.Webhooks.Dispatches.{Dispatcher, same_delivery, schedule_attempt}
use actor_runtime.Webhooks.Attempts.{
  retries_for, next_call, with_call, finish_attempt, attempt_with, attempt_dispatch,
}

module _ {J : Type 0} where
  -- The record that an attempt leaves, with its call and its outcome.
  abbrev pub written :
      Attempt J
      → WebhookDispatchRecord J
      → WebhookDispatchCall
      → WebhookDispatchStatus
      → WebhookDispatchRecord J
      → WebhookDispatchRecord J
  written a r call outcome =
      with_call (next_call a r outcome).0 (next_call a r outcome).1
        (record call { finished_at = some a.finished_at }) a.finished_at

  finish_writes :
      (a : Attempt J) (r : WebhookDispatchRecord J) (call : WebhookDispatchCall)
      (outcome : WebhookDispatchStatus) (d : Dispatcher J)
      → (finish_attempt a r call outcome d).dispatches
        ≡ (Registry.update d.dispatches r.id (on_record (written a r call outcome))).0
  unfolding finish_attempt schedule_attempt
  finish_writes a r call outcome d =
      elim (Bool-cases (same_delivery (next_call a r outcome).0 active)) [
        | inl e ↦ rw e refl
        | inr e ↦ rw e refl
      ]

  -- How far a record stands from its end, in attempts.
  abbrev attempts_left : WebhookDispatchRecord J → ℕ
  attempts_left r =
      if same_delivery r.status active then suc (retries_for r.event_type) - length r.calls else 0

  abbrev IsSettled : WebhookDispatchRecord J → Type 0
  IsSettled r = same_delivery r.status active ≡ false

  -- An attempt adds one call and either settles the record or stays within its retries.
  written_calls :
      (a : Attempt J) (r : WebhookDispatchRecord J) (call : WebhookDispatchCall)
      (outcome : WebhookDispatchStatus)
      → (length (written a r call outcome r).calls ≡ suc (length r.calls))
        × ((written a r call outcome r).event_type ≡ r.event_type)
        × ((written a r call outcome r).id ≡ r.id)
  written_calls a r call outcome = (omega (arith, length-append r.calls), refl, refl)

  written_retries :
      (a : Attempt J) (r : WebhookDispatchRecord J) (call : WebhookDispatchCall)
      (outcome : WebhookDispatchStatus)
      → same_delivery (written a r call outcome r).status active ≡ true
      → length r.calls < retries_for r.event_type
  unfolding next_call
  written_retries a r call outcome h = ground arith

  pub finish_get :
      (a : Attempt J) (r : WebhookDispatchRecord J) (call : WebhookDispatchCall)
      (outcome : WebhookDispatchStatus) (d : Dispatcher J)
      → Registry.get d.dispatches r.id ≡ some r
      → Registry.get (finish_attempt a r call outcome d).dispatches r.id
        ≡ some (written a r call outcome r)
  finish_get a r call outcome d found =
      rw
        (
          finish_writes a r call outcome d,
          get-update d.dispatches r.id r.id (on_record (written a r call outcome)),
          eq_refl r.id,
          found,
        )
        refl

  abbrev Written : Attempt J → WebhookDispatchRecord J → Option (WebhookDispatchRecord J) → Type 0
  Written a r o =
      (call : WebhookDispatchCall) × (outcome : WebhookDispatchStatus) × (o
        ≡ some (written a r call outcome r))

  -- Whatever the attempt meets, it finishes with one call and one outcome; others may have written to
  -- the webhooks.
  abbrev pub Finishes : Attempt J → WebhookDispatchRecord J → Dispatcher J → Dispatcher J → Type 0
  Finishes a r d after =
      (call : WebhookDispatchCall) × (outcome : WebhookDispatchStatus) × (hooks : Registry
        WebhookRecord)
      × (after ≡ finish_attempt a r call outcome (record d { webhooks = hooks }))

  attempt_with-Finishes :
      (a : Attempt J) (r : WebhookDispatchRecord J) (o : Option WebhookRecord) (d : Dispatcher J)
      → Finishes a r d (attempt_with a r o d)
  attempt_with-Finishes a r none d =
      (failed_with a "Webhook was removed." (new_call a), failed, d.webhooks, refl)
  attempt_with-Finishes a r (some w) d =
      elim (Bool-cases (not w.is_enabled && not (same_event r.event_type test))) [
        | inl disabled ↦ (
          failed_with a "Webhook was disabled." (new_call a),
          failed,
          d.webhooks,
          rw disabled refl,
        )
        | inr enabled ↦ (
          (deliver a r (new_call a)).0,
          (deliver a r (new_call a)).1,
          a.meanwhile d.webhooks,
          rw enabled refl,
        )
      ]

  pub attempt-Finishes :
      (a : Attempt J) (r : WebhookDispatchRecord J) (d : Dispatcher J)
      → Registry.get d.dispatches r.id ≡ some r
      → same_delivery r.status active ≡ true
      → Finishes a r d (attempt_dispatch a r.id d)
  unfolding attempt_dispatch
  attempt-Finishes a r d found live =
      rw (found, live) (attempt_with-Finishes a r (get_webhook_by_id d.webhooks r.webhook_id) d)

  attempt_get :
      (a : Attempt J) (r : WebhookDispatchRecord J) (d : Dispatcher J)
      → Registry.get d.dispatches r.id ≡ some r
      → same_delivery r.status active ≡ true
      → Written a r (Registry.get (attempt_dispatch a r.id d).dispatches r.id)
  attempt_get a r d found live =
      let (call, outcome, hooks, e) = attempt-Finishes a r d found live in
      (call, outcome, rw e (finish_get a r call outcome (record d { webhooks = hooks }) found))

  attempt_settled :
      (a : Attempt J) (r : WebhookDispatchRecord J) (d : Dispatcher J)
      → Registry.get d.dispatches r.id ≡ some r
      → IsSettled r
      → attempt_dispatch a r.id d ≡ d
  unfolding attempt_dispatch
  attempt_settled a r d found over = rw (found, over) refl

  -- The attempts at one dispatch, one after another, each with whatever it meets.
  abbrev pub attempts : String → List (Attempt J) → Dispatcher J → Dispatcher J
  attempts id [] d = d
  attempts id (a ∷ as') d = attempts id as' (attempt_dispatch a id d)

  -- A dispatch that has ended is not attempted again: no call is made for it and nothing is written,
  -- for it or for its webhook.
  pub attempts_of_settled :
      (as' : List (Attempt J)) (r : WebhookDispatchRecord J) (d : Dispatcher J)
      → Registry.get d.dispatches r.id ≡ some r
      → same_delivery r.status active ≡ false
      → attempts r.id as' d ≡ d
  attempts_of_settled [] r d found over = refl
  attempts_of_settled (a ∷ as') r d found over =
      rw (attempt_settled a r d found over) (attempts_of_settled as' r d found over)

  -- The end of a dispatch: settled, with at most one call more than it has retries.
  abbrev pub Ended : WebhookDispatchRecord J → Option (WebhookDispatchRecord J) → Type 0
  Ended r o =
      (r' : WebhookDispatchRecord J) × (o ≡ some r')
      × (same_delivery r'.status active ≡ false)
      × (length r'.calls ≤ suc (retries_for r.event_type))
      × (is_some r'.finished_at ≡ true)

  abbrev EndsIn : List (Attempt J) → Type 0
  EndsIn as' =
      (r : WebhookDispatchRecord J) (d : Dispatcher J)
      → Registry.get d.dispatches r.id ≡ some r
      → same_delivery r.status active ≡ true
      → length r.calls ≤ retries_for r.event_type
      → suc (retries_for r.event_type) ≤ length r.calls + length as'
      → Ended r (Registry.get (attempts r.id as' d).dispatches r.id)

  -- After one attempt: the record has ended, or the rest of the attempts end it.
  next_attempts :
      (a : Attempt J) (as' : List (Attempt J)) (r : WebhookDispatchRecord J) (d : Dispatcher J)
      → length r.calls ≤ retries_for r.event_type
      → suc (retries_for r.event_type) ≤ length r.calls + suc (length as')
      → Written a r (Registry.get (attempt_dispatch a r.id d).dispatches r.id)
      → EndsIn as'
      → Ended r (Registry.get (attempts r.id as' (attempt_dispatch a r.id d)).dispatches r.id)
  next_attempts a as' r d few enough (call, outcome, e) ih =
      let r' : WebhookDispatchRecord J = written a r call outcome r in
      let d' : Dispatcher J = attempt_dispatch a r.id d in
      let counted = written_calls a r call outcome in
      elim (Bool-cases (same_delivery r'.status active)) [
        | inl again ↦
            ih r' d' e again (omega (arith, counted.0, written_retries a r call outcome again))
              (omega (arith, counted.0))
        | inr over ↦ (
          r',
          rw (attempts_of_settled as' r' d' e over) e,
          over,
          omega (arith, counted.0),
          rw over refl,
        )
      ]

  -- A dispatch that is still ACTIVE and has made no more calls than it has retries is ended, as
  -- SUCCEEDED or FAILED and with the time of its end, by as many attempts as are left to it, whatever
  -- these attempts meet: eleven retries after the first call, three for a test. It then has at most
  -- that many calls.
  pub attempts_end :
      (as' : List (Attempt J)) (r : WebhookDispatchRecord J) (d : Dispatcher J)
      → Registry.get d.dispatches r.id ≡ some r
      → same_delivery r.status active ≡ true
      → length r.calls ≤ retries_for r.event_type
      → suc (retries_for r.event_type) ≤ length r.calls + length as'
      → Ended r (Registry.get (attempts r.id as' d).dispatches r.id)
  attempts_end [] r d found live few enough = absurd (omega arith)
  attempts_end (a ∷ as') r d found live few enough =
      next_attempts a as' r d few enough (attempt_get a r d found live) (attempts_end as')
