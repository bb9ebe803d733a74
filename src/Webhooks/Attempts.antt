-- ===== src/Webhooks/Attempts.antt =====
-- `attemptDispatch`, `finishAttempt` and the timer that starts an attempt, of
-- src/services/webhook-dispatches.ts. The random delay is computed exactly where JavaScript rounds to a
-- double; both are cut to whole milliseconds by `new Date`.
pub mod Settle
pub mod Backoff
use actor_runtime.Base.{
  ℕ, ◌+◌, ◌-◌, ◌*◌, ◌/◌, ◌^◌, String, Bool, true, false, not, ◌&&◌, ◌||◌, Option, none, some, List,
  [], ◌∷◌, ◌++◌, length, ltb, if◌then◌else◌,
}
use actor_runtime.Base.Dict.{erase}
use actor_runtime.Jobs.Registry
use actor_runtime.Jobs.Registry.{Registry, on_record}
use actor_runtime.Entities.Webhook.{
  EventType, test, same_event, WebhookDispatchStatus, active, failed, WebhookLastDispatch,
  WebhookRecord, WebhookDispatchCall, WebhookDispatchRecord,
}
use actor_runtime.Webhooks.Records.{get_webhook_by_id, update_webhook}
use actor_runtime.Webhooks.Delivery.{Attempt, new_call, deliver, failed_with}
use actor_runtime.Webhooks.Dispatches.{
  Dispatcher, max_retries, max_test_retries, backoff_base_millis, random_unit, same_delivery,
  schedule_attempt,
}

-- `backoffBaseMillis * 2 ** retries * (1 + (random * 2 - 1) * 0.25)`, with `random` in its units.
unfoldable pub randomized_delay : ℕ → ℕ → ℕ
randomized_delay retries random =
    backoff_base_millis * 2 ^ retries * (3 * random_unit + 2 * random) / (4 * random_unit)

abbrev pub retries_for : EventType → ℕ
retries_for event_type = if same_event event_type test then max_test_retries else max_retries

abbrev pub finished_if_final : WebhookDispatchStatus → ℕ → Option ℕ
finished_if_final status finished_at =
    if same_delivery status active then none else some finished_at

module _ {J : Type 0} where
  -- The status and the time of the next call.
  unfoldable pub next_call :
      Attempt J → WebhookDispatchRecord J → WebhookDispatchStatus → WebhookDispatchStatus × ℕ
  unfolding randomized_delay
  next_call a dispatch outcome =
      if same_delivery outcome active
      then (if not dispatch.webhook.do_not_retry
            && ltb (length dispatch.calls) (retries_for dispatch.event_type)
          then (active, a.decided_at + randomized_delay (length dispatch.calls) a.random)
          else (failed, dispatch.call_at))
      else (outcome, dispatch.call_at)

  abbrev pub with_call :
      WebhookDispatchStatus
      → ℕ
      → WebhookDispatchCall
      → ℕ
      → WebhookDispatchRecord J
      → WebhookDispatchRecord J
  with_call status call_at call finished_at r = record r {
    status = status;
    call_at = call_at;
    finished_at = finished_if_final status finished_at;
    calls = r.calls ++ call ∷ [];
  }

  -- `final` is false exactly for `active`.
  unfoldable pub finish_attempt :
      Attempt J
      → WebhookDispatchRecord J
      → WebhookDispatchCall
      → WebhookDispatchStatus
      → Dispatcher J
      → Dispatcher J
  unfolding next_call schedule_attempt
  finish_attempt a dispatch call outcome d =
      let ended : WebhookDispatchCall = record call { finished_at = some a.finished_at } in
      let (status, call_at) = next_call a dispatch outcome in
      let last : WebhookLastDispatch = record {
        status = status;
        finished_at = finished_if_final status a.finished_at;
      } in
      let written : Dispatcher J = record d {
        dispatches =
            (Registry.update d.dispatches dispatch.id
              (on_record (with_call status call_at ended a.finished_at))).0;
        webhooks =
            (update_webhook d.webhooks dispatch.webhook_id
              (λ w. record w { last_dispatch = some last })).0;
      } in
      if same_delivery status active
      then schedule_attempt dispatch.id a.scheduled_at (call_at - a.scheduled_at) written
      else written

  abbrev pub attempt_delivery : Attempt J → WebhookDispatchRecord J → Dispatcher J → Dispatcher J
  attempt_delivery a dispatch d =
      let (call, outcome) = deliver a dispatch (new_call a) in
      finish_attempt a dispatch call outcome (record d { webhooks = a.meanwhile d.webhooks })

  abbrev pub attempt_with :
      Attempt J → WebhookDispatchRecord J → Option WebhookRecord → Dispatcher J → Dispatcher J
  attempt_with a dispatch none d =
      finish_attempt a dispatch (failed_with a "Webhook was removed." (new_call a)) failed d
  attempt_with a dispatch (some webhook) d =
      if not webhook.is_enabled && not (same_event dispatch.event_type test)
      then finish_attempt a dispatch (failed_with a "Webhook was disabled." (new_call a)) failed d
      else attempt_delivery a dispatch d

  abbrev pub attempt_on : Attempt J → Option (WebhookDispatchRecord J) → Dispatcher J → Dispatcher J
  attempt_on a none d = d
  attempt_on a (some dispatch) d =
      if same_delivery dispatch.status active
      then attempt_with a dispatch (get_webhook_by_id d.webhooks dispatch.webhook_id) d
      else d

  unfoldable pub attempt_dispatch : Attempt J → String → Dispatcher J → Dispatcher J
  unfolding finish_attempt
  attempt_dispatch a dispatch_id d = attempt_on a (Registry.get d.dispatches dispatch_id) d

  -- The timer's callback.
  unfoldable pub timer_fires : Attempt J → String → Dispatcher J → Dispatcher J
  unfolding attempt_dispatch
  timer_fires a dispatch_id d =
      attempt_dispatch a dispatch_id (record d { timers = erase dispatch_id d.timers })

  abbrev pub resume : ℕ → List (WebhookDispatchRecord J) → Dispatcher J → Dispatcher J
  resume now [] d = d
  resume now (r ∷ rs) d =
      resume now rs
        (if same_delivery r.status active then schedule_attempt r.id now (r.call_at - now) d else d)

  -- What startWebhookDispatcher does to the dispatches that an earlier process left unfinished.
  unfoldable pub start_webhook_dispatcher : ℕ → Dispatcher J → Dispatcher J
  unfolding schedule_attempt
  start_webhook_dispatcher now d = resume now (Registry.list d.dispatches) d
