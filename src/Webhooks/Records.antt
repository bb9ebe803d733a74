-- ===== src/Webhooks/Records.antt =====
-- The records of src/services/webhooks.ts: listing, creation, update and deletion. The per-user mutex
-- makes the look-up and the write of createWebhook one step. The generated id and the time are arguments.
use actor_runtime.Base.{
  ℕ, String, Bool, false, Option, none, some, List, [], ◌∷◌, keep, find_first, ◌===◌, if◌then◌else◌,
}
use actor_runtime.Jobs.Registry
use actor_runtime.Jobs.Registry.{Registry, on_record}
use actor_runtime.Entities.Webhook.{
  EventType, WebhookCondition, actor_id, actor_task_id, actor_run_id, WebhookRecord,
}

-- `WebhookFields`: a record less what the runtime manages itself.
pub record WebhookFields : Type 0 where
  pub is_enabled : Bool
  pub is_ad_hoc : Bool
  pub event_types : List EventType
  pub condition : WebhookCondition
  pub request_url : String
  pub payload_template : String
  pub headers_template : Option String
  pub ignore_ssl_errors : Bool
  pub do_not_retry : Bool
  pub should_interpolate_strings : Bool
  pub title : Option String
  pub description : Option String
  pub idempotency_key : Option String

unfoldable pub list_owned_webhooks : Registry WebhookRecord → String → List WebhookRecord
list_owned_webhooks hooks user_id = keep (λ w. w.user_id === user_id) (Registry.list hooks)

unfoldable pub list_all_webhooks : Registry WebhookRecord → List WebhookRecord
list_all_webhooks hooks = Registry.list hooks

unfoldable pub get_webhook_by_id : Registry WebhookRecord → String → Option WebhookRecord
get_webhook_by_id hooks id = Registry.get hooks id

owned_by : String → Option WebhookRecord → Option WebhookRecord
owned_by user_id none = none
owned_by user_id (some w) = if w.user_id === user_id then some w else none

unfoldable pub get_owned_webhook : Registry WebhookRecord → String → String → Option WebhookRecord
unfolding owned_by
get_owned_webhook hooks user_id id = owned_by user_id (Registry.get hooks id)

abbrev pub new_webhook : String → String → ℕ → WebhookFields → WebhookRecord
new_webhook id user_id now fields = record {
  id = id;
  user_id = user_id;
  created_at = now;
  modified_at = now;
  is_enabled = fields.is_enabled;
  is_ad_hoc = fields.is_ad_hoc;
  event_types = fields.event_types;
  condition = fields.condition;
  request_url = fields.request_url;
  payload_template = fields.payload_template;
  headers_template = fields.headers_template;
  ignore_ssl_errors = fields.ignore_ssl_errors;
  do_not_retry = fields.do_not_retry;
  should_interpolate_strings = fields.should_interpolate_strings;
  title = fields.title;
  description = fields.description;
  idempotency_key = fields.idempotency_key;
  last_dispatch = none;
  total_dispatches = 0;
}

-- `webhook.idempotencyKey === key` for a key that is given.
abbrev pub has_key : String → WebhookRecord → Bool
has_key key w = elim w.idempotency_key [ none ↦ false | some k ↦ k === key ]

-- What an earlier creation with the same key gave, if one did.
abbrev pub existing_webhook : Registry WebhookRecord → String → Option String → Option WebhookRecord
existing_webhook hooks user_id none = none
existing_webhook hooks user_id (some key) =
    find_first (has_key key) (list_owned_webhooks hooks user_id)

abbrev pub created_or_existing :
    Registry WebhookRecord
    → WebhookRecord
    → Option WebhookRecord
    → Registry WebhookRecord × WebhookRecord
created_or_existing hooks new (some existing) = (hooks, existing)
created_or_existing hooks new none = (Registry.set hooks new.id new, new)

unfoldable pub create_webhook :
    Registry WebhookRecord
    → String
    → ℕ
    → String
    → WebhookFields
    → Registry WebhookRecord × WebhookRecord
create_webhook hooks generated now user_id fields =
    created_or_existing hooks (new_webhook generated user_id now fields)
      (existing_webhook hooks user_id fields.idempotency_key)

unfoldable pub update_webhook :
    Registry WebhookRecord
    → String
    → (WebhookRecord → WebhookRecord)
    → Registry WebhookRecord × Option WebhookRecord
update_webhook hooks id mutator = Registry.update hooks id (on_record mutator)

unfoldable pub delete_webhook : Registry WebhookRecord → String → Registry WebhookRecord
delete_webhook hooks id = Registry.delete hooks id

-- `webhook.condition[key] === id` for the one key of `condition`.
unfoldable pub same_condition : WebhookCondition → WebhookCondition → Bool
same_condition (actor_id a) (actor_id b) = a === b
same_condition (actor_task_id a) (actor_task_id b) = a === b
same_condition (actor_run_id a) (actor_run_id b) = a === b
same_condition _ _ = false

abbrev pub delete_matching :
    WebhookCondition → List WebhookRecord → Registry WebhookRecord → Registry WebhookRecord
delete_matching condition [] hooks = hooks
delete_matching condition (w ∷ ws) hooks =
    delete_matching condition ws
      (if same_condition w.condition condition then delete_webhook hooks w.id else hooks)

unfoldable pub delete_webhooks_with_condition :
    Registry WebhookRecord → WebhookCondition → Registry WebhookRecord
delete_webhooks_with_condition hooks condition =
    delete_matching condition (list_all_webhooks hooks) hooks
