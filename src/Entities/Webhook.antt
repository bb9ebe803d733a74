-- ===== src/Entities/Webhook.antt =====
-- The webhook and dispatch records of src/storage/entities.ts. `J` is the type of the resources, passed
-- on unread.
use actor_runtime.Base.{ℕ, String, Bool, false, Option, List, [], ◌∷◌, ◌==◌, ◌||◌}
use actor_runtime.Base.Dict.{Dict}

-- WEBHOOK_EVENT_TYPES of src/services/webhooks.ts.
pub data EventType : Type 0 where
  run_created run_succeeded run_failed run_timed_out run_aborted run_resurrected : EventType
  build_created build_succeeded build_failed build_timed_out build_aborted test : EventType

-- The place in WEBHOOK_EVENT_TYPES.
abbrev pub event_index : EventType → ℕ
event_index run_created = 0
event_index run_succeeded = 1
event_index run_failed = 2
event_index run_timed_out = 3
event_index run_aborted = 4
event_index run_resurrected = 5
event_index build_created = 6
event_index build_succeeded = 7
event_index build_failed = 8
event_index build_timed_out = 9
event_index build_aborted = 10
event_index test = 11

-- `a === b` on event types, which are distinct texts.
abbrev pub same_event : EventType → EventType → Bool
same_event a b = event_index a == event_index b

abbrev pub includes_event : List EventType → EventType → Bool
includes_event [] e = false
includes_event (f ∷ fs) e = same_event f e || includes_event fs e

pub data WebhookCondition : Type 0 where
  actor_id actor_task_id actor_run_id : String → WebhookCondition

pub data WebhookDispatchStatus : Type 0 where
  active succeeded failed : WebhookDispatchStatus

pub record WebhookLastDispatch : Type 0 where
  pub status : WebhookDispatchStatus
  pub finished_at : Option ℕ

pub record WebhookRecord : Type 0 where
  pub id : String
  pub user_id : String
  pub created_at : ℕ
  pub modified_at : ℕ
  pub is_enabled : Bool
  pub is_ad_hoc : Bool
  pub event_types : List EventType
  pub condition : WebhookCondition
  pub request_url : String
  pub payload_template : String
  pub headers_template : Option String
  pub ignore_ssl_errors : Bool
  pub do_not_retry : Bool
  pub should_interpolate_strings : Bool
  pub title : Option String
  pub description : Option String
  pub idempotency_key : Option String
  pub last_dispatch : Option WebhookLastDispatch
  pub total_dispatches : ℕ

pub record WebhookDispatchCall : Type 0 where
  pub started_at : ℕ
  pub finished_at : Option ℕ
  pub error_message : Option String
  pub response_status : Option ℕ
  pub response_body : Option String

pub record WebhookDispatchRecord (J : Type 0) : Type 0 where
  pub id : String
  pub user_id : String
  pub webhook_id : String
  pub created_at : ℕ
  pub finished_at : Option ℕ
  pub status : WebhookDispatchStatus
  pub event_type : EventType
  pub event_data : Option (Dict String)
  pub webhook : WebhookRecord
  pub resource : J
  pub call_at : ℕ
  pub calls : List WebhookDispatchCall
