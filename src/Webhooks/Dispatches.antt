-- ===== src/Webhooks/Dispatches.antt =====
-- The dispatcher of src/services/webhook-dispatches.ts: the two registries that it writes and its
-- timers, by the millisecond at which each is due. `createDispatches` is one function, over
-- its waits for the registries: no one else writes webhooks or dispatches meanwhile. `attemptDispatch`
-- is one function too; what others do to the webhooks while a request is under way is an argument of the
-- attempt. Generated ids are a function of the webhook that they are drawn for.
pub mod Created
use actor_runtime.Base.{
  ℕ, ◌+◌, ◌-◌, ◌*◌, ◌/◌, ◌^◌, String, Bool, true, false, not, ◌&&◌, ◌||◌, Option, none, some, List,
  [], ◌∷◌, ◌++◌, keep, length, ltb, ◌===◌, if◌then◌else◌,
}
use actor_runtime.Base.Dict.{Dict, lookup, insert, erase}
use actor_runtime.Jobs.Registry
use actor_runtime.Jobs.Registry.{Registry, on_record}
use actor_runtime.Entities.Webhook.{
  EventType, run_succeeded, run_failed, run_timed_out, run_aborted, test, same_event,
  includes_event, WebhookCondition, actor_run_id, WebhookDispatchStatus, active, failed,
  WebhookRecord, WebhookDispatchCall, WebhookDispatchRecord,
}
use actor_runtime.Webhooks.Records.{
  list_all_webhooks, get_webhook_by_id, update_webhook, delete_webhook,
}
use actor_runtime.Webhooks.Events.{WebhookEvent, condition_matches}
use actor_runtime.Webhooks.Delivery.{Attempt, new_call, deliver, failed_with}

abbrev pub max_retries : ℕ
max_retries = 11

abbrev pub max_test_retries : ℕ
max_test_retries = 3

abbrev pub backoff_base_millis : ℕ
backoff_base_millis = 60000

-- The steps of `Math.random()` from 0 to 1.
abbrev pub random_unit : ℕ
random_unit = 2 ^ 53

pub record Dispatcher (J : Type 0) : Type 0 where
  pub webhooks : Registry WebhookRecord
  pub dispatches : Registry (WebhookDispatchRecord J)
  pub timers : Dict ℕ

abbrev pub same_delivery : WebhookDispatchStatus → WebhookDispatchStatus → Bool
same_delivery active active = true
same_delivery WebhookDispatchStatus.succeeded WebhookDispatchStatus.succeeded = true
same_delivery failed failed = true
same_delivery _ _ = false

-- Object.values(RUN_TERMINAL_EVENTS)
abbrev pub terminal_run_events : List EventType
terminal_run_events = run_succeeded ∷ run_failed ∷ run_timed_out ∷ run_aborted ∷ []

abbrev pub waits_for : String → WebhookCondition → Bool
waits_for run_id (actor_run_id id) = id === run_id
waits_for run_id _ = false

-- `list.some(x => terminal.includes(x))`
abbrev pub any_terminal : List EventType → Bool
any_terminal [] = false
any_terminal (e ∷ es) = includes_event terminal_run_events e || any_terminal es

abbrev pub count_dispatch : WebhookRecord → WebhookRecord
count_dispatch w = record w { total_dispatches = w.total_dispatches + 1 }

module _ {J : Type 0} where
  abbrev pub waits_for_run : WebhookEvent J → WebhookCondition → Bool
  waits_for_run event condition = elim (lookup "actorRunId" event.event_data) [
    | none ↦ false
    | some run_id ↦ waits_for run_id condition
  ]

  -- An ad-hoc webhook of the event's run that waits for another end only.
  unfoldable pub is_obsolete : WebhookEvent J → WebhookRecord → Bool
  is_obsolete event w =
      w.is_ad_hoc
      && waits_for_run event w.condition
      && not (includes_event w.event_types event.event_type)
      && any_terminal w.event_types

  abbrev pub delete_obsolete :
      WebhookEvent J → List WebhookRecord → Registry WebhookRecord → Registry WebhookRecord
  delete_obsolete event [] hooks = hooks
  delete_obsolete event (w ∷ ws) hooks =
      delete_obsolete event ws (if is_obsolete event w then delete_webhook hooks w.id else hooks)

  unfoldable pub delete_obsolete_ad_hoc_webhooks :
      WebhookEvent J → List WebhookRecord → Registry WebhookRecord → Registry WebhookRecord
  delete_obsolete_ad_hoc_webhooks event webhooks hooks =
      if includes_event terminal_run_events event.event_type
      then delete_obsolete event webhooks hooks
      else hooks

  -- `delayMillis` is what is left until `due`; a timer that is there is replaced.
  unfoldable pub schedule_attempt : String → ℕ → ℕ → Dispatcher J → Dispatcher J
  schedule_attempt dispatch_id now delay_millis d = record d {
    timers = insert dispatch_id (now + delay_millis) d.timers;
  }

  abbrev pub new_dispatch :
      String
      → ℕ
      → WebhookRecord
      → String
      → EventType
      → Option (Dict String)
      → J
      → WebhookDispatchRecord J
  new_dispatch id now webhook user_id event_type event_data resource = record {
    id = id;
    user_id = user_id;
    webhook_id = webhook.id;
    created_at = now;
    finished_at = none;
    status = active;
    event_type = event_type;
    event_data = event_data;
    webhook = webhook;
    resource = resource;
    call_at = now;
    calls = [];
  }

  unfoldable pub insert_dispatch : WebhookDispatchRecord J → Dispatcher J → Dispatcher J
  unfolding schedule_attempt
  insert_dispatch dispatch d =
      schedule_attempt dispatch.id dispatch.created_at 0
        (record d { dispatches = Registry.set d.dispatches dispatch.id dispatch })

  unfoldable pub is_matching : WebhookEvent J → WebhookRecord → Bool
  is_matching event w =
      w.is_enabled
      && includes_event w.event_types event.event_type
      && condition_matches w.condition event.event_data

  abbrev pub dispatch_to :
      (String → String) → ℕ → WebhookEvent J → List WebhookRecord → Dispatcher J → Dispatcher J
  dispatch_to generated now event [] d = d
  dispatch_to generated now event (w ∷ ws) d =
      let dispatch : WebhookDispatchRecord J =
        new_dispatch (generated w.id) now w event.user_id event.event_type (some event.event_data)
          event.resource in
      let d' = insert_dispatch dispatch d in
      dispatch_to generated now event ws
        (record d' { webhooks = (update_webhook d'.webhooks w.id count_dispatch).0 })

  -- The webhooks of the event's user, as they were before the obsolete ones are deleted.
  abbrev pub owned_webhooks : WebhookEvent J → Dispatcher J → List WebhookRecord
  owned_webhooks event d = keep (λ w. w.user_id === event.user_id) (list_all_webhooks d.webhooks)

  unfoldable pub create_dispatches :
      (String → String) → ℕ → WebhookEvent J → Dispatcher J → Dispatcher J
  create_dispatches generated now event d =
      let owned = owned_webhooks event d in
      dispatch_to generated now event (keep (is_matching event) owned)
        (record d { webhooks = delete_obsolete_ad_hoc_webhooks event owned d.webhooks })

  -- `joke` is the resource of a test dispatch without one.
  unfoldable pub create_test_dispatch :
      String
      → ℕ
      → J
      → WebhookRecord
      → Option (Dict String × J)
      → Dispatcher J
      → Dispatcher J × WebhookDispatchRecord J
  create_test_dispatch id now joke webhook with_resource d =
      let dispatch : WebhookDispatchRecord J = elim with_resource [
        | none ↦ new_dispatch id now webhook webhook.user_id test none joke
        | some (event_data, resource) ↦
            new_dispatch id now webhook webhook.user_id test (some event_data) resource
      ] in
      (insert_dispatch dispatch d, dispatch)

  unfoldable pub list_owned_webhook_dispatches :
      Dispatcher J → String → List (WebhookDispatchRecord J)
  list_owned_webhook_dispatches d user_id =
      keep (λ r. r.user_id === user_id) (Registry.list d.dispatches)

  dispatch_owned_by : String → Option (WebhookDispatchRecord J) → Option (WebhookDispatchRecord J)
  dispatch_owned_by user_id none = none
  dispatch_owned_by user_id (some r) = if r.user_id === user_id then some r else none

  unfoldable pub get_owned_webhook_dispatch :
      Dispatcher J → String → String → Option (WebhookDispatchRecord J)
  unfolding dispatch_owned_by
  get_owned_webhook_dispatch d user_id id = dispatch_owned_by user_id (Registry.get d.dispatches id)
