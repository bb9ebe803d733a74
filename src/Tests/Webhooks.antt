-- ===== src/Tests/Webhooks.antt =====
-- A webhook, its dispatch and the attempts at it.
use actor_runtime.Base.{
  ℕ, String, ◌≡◌, ◌↔◌, ◌≢◌, refl, true, false, none, some, List, [], ◌∷◌, All, arith,
}
use actor_runtime.Base.Dict.{Dict, lookup}
use actor_runtime.Base.Results.{ok}
use actor_runtime.Jobs.Status
use actor_runtime.Jobs.Status.{is_terminal_job_status, running, allowed_next}
use actor_runtime.Jobs.Registry
use actor_runtime.Jobs.Registry.{Registry}
use actor_runtime.Jobs.Progress.{Request, writes}
use actor_runtime.Runs.World.{run_status}
use actor_runtime.Entities.Webhook.{
  run_succeeded, run_failed, actor_id, WebhookDispatchStatus, active, WebhookRecord,
  WebhookDispatchRecord,
}
use actor_runtime.Entities.Run.{RunRecord}
use actor_runtime.Webhooks.Records.{list_all_webhooks}
use actor_runtime.Webhooks.Events.{run, WebhookEvent}
use actor_runtime.Webhooks.Events.OneEnd.{events_of, OneEnd, events_of_live}
use actor_runtime.Webhooks.Delivery.{Attempt, Url, deliver, new_call}
use actor_runtime.Webhooks.Delivery.Success.{IsDelivered, IsReady, deliver_iff}
use actor_runtime.Webhooks.Dispatches.{Dispatcher, create_dispatches}
use actor_runtime.Webhooks.Dispatches.Created.{dispatch_of, From, IsMeant, create_dispatches_lem}
use actor_runtime.Webhooks.Attempts.{timer_fires}
use actor_runtime.Webhooks.Attempts.Settle.{attempts, Ended, attempts_end}
use actor_runtime.Webhooks.Attempts.Backoff.{Armed, timer_fires_arms}
use actor_runtime.Tests.Data.{run_1}

abbrev ends : List (Request {T = RunRecord ℕ} run_status)
ends = (Status.JobStatus.succeeded, λ r. r) ∷ (Status.JobStatus.failed, λ r. r) ∷ []

events_of_live_example :
    OneEnd run (writes run_status ends run_1).status (events_of run_status run ends run_1)
unfolding is_terminal_job_status
events_of_live_example = events_of_live run_status run ends run_1 refl

abbrev hook_1 : WebhookRecord
hook_1 = record {
  id = "hook1";
  user_id = "user1";
  created_at = 0;
  modified_at = 0;
  is_enabled = true;
  is_ad_hoc = false;
  event_types = run_succeeded ∷ run_failed ∷ [];
  condition = actor_id "actor1";
  request_url = "http://localhost/";
  payload_template = "{}";
  headers_template = none;
  ignore_ssl_errors = false;
  do_not_retry = false;
  should_interpolate_strings = false;
  title = none;
  description = none;
  idempotency_key = none;
  last_dispatch = none;
  total_dispatches = 0;
}

-- The same webhook of another user.
abbrev hook_2 : WebhookRecord
hook_2 = record hook_1 { id = "hook2"; user_id = "user2" }

abbrev dispatch_1 : WebhookDispatchRecord ℕ
dispatch_1 = record {
  id = "d1";
  user_id = "user1";
  webhook_id = "hook1";
  created_at = 0;
  finished_at = none;
  status = active;
  event_type = run_succeeded;
  event_data = none;
  webhook = hook_1;
  resource = 0;
  call_at = 0;
  calls = [];
}

abbrev dispatcher_1 : Dispatcher ℕ
dispatcher_1 = record {
  webhooks = record {
    store = ("hook1", hook_1) ∷ ("hook2", hook_2) ∷ [];
    listening = false;
    notices = [];
  };
  dispatches = record { store = ("d1", dispatch_1) ∷ []; listening = false; notices = [] };
  timers = ("d1", 0) ∷ [];
}

abbrev url_1 : Url
url_1 = record {
  protocol = "http:";
  hostname = "localhost";
  port = none;
  host = "localhost";
  token = none;
}

-- The endpoint answers 500.
abbrev refused : Attempt ℕ
refused = record {
  started_at = 1;
  finished_at = 2;
  decided_at = 3;
  scheduled_at = 4;
  random = 5;
  api_port = 3333;
  to_lower_case = λ s. s;
  parse_url = λ s. ok url_1;
  rendered_body = λ r. ok "{}";
  rendered_headers = λ r s. ok [];
  token_of = λ s. none;
  post = λ request. ok (record { status = 500; body = none });
  number_text = λ n. "500";
  meanwhile = λ hooks. hooks;
}

abbrev twelve : List (Attempt ℕ)
twelve =
    refused ∷ refused ∷ refused ∷ refused ∷ refused ∷ refused ∷ refused ∷ refused ∷ refused
    ∷ refused ∷ refused ∷ refused ∷ []

attempts_end_example :
    Ended dispatch_1 (Registry.get (attempts "d1" twelve dispatcher_1).dispatches "d1")
unfolding Registry.get lookup
attempts_end_example =
    attempts_end twelve dispatch_1 dispatcher_1 refl refl (omega arith) (omega arith)

timer_fires_arms_example :
    (r' : WebhookDispatchRecord ℕ) × (Registry.get
        (timer_fires refused "d1" dispatcher_1).dispatches
        "d1"
      ≡ some r')
    × Armed refused dispatch_1 r' (lookup "d1" (timer_fires refused "d1" dispatcher_1).timers)
unfolding Registry.get lookup
timer_fires_arms_example = timer_fires_arms refused dispatch_1 dispatcher_1 refl refl (omega arith)

deliver_iff_example :
    (((deliver refused dispatch_1 (new_call refused)).1 ≡ WebhookDispatchStatus.succeeded)
      ↔ IsDelivered refused dispatch_1)
    × (((deliver refused dispatch_1 (new_call refused)).1 ≡ WebhookDispatchStatus.failed)
        ↔ ((parts : Url × String × Dict String) → IsReady refused dispatch_1 parts → ⊥))
    × ((deliver refused dispatch_1 (new_call refused)).1 ≢ WebhookDispatchStatus.succeeded
        → (deliver refused dispatch_1 (new_call refused)).1 ≢ WebhookDispatchStatus.failed
        → (deliver refused dispatch_1 (new_call refused)).1 ≡ WebhookDispatchStatus.active)
deliver_iff_example = deliver_iff refused dispatch_1 (new_call refused)

abbrev event_1 : WebhookEvent ℕ
event_1 = record {
  user_id = "user1";
  event_type = run_failed;
  event_data = ("actorId", "actor1") ∷ ("actorRunId", "run1") ∷ [];
  resource = 0;
}

create_dispatches_lem_example :
    All
      (λ w.
        IsMeant (λ s. s) 7 event_1 w
        → Registry.get (create_dispatches (λ s. s) 7 event_1 dispatcher_1).dispatches w.id
          ≡ some (dispatch_of (λ s. s) 7 event_1 w))
      (list_all_webhooks dispatcher_1.webhooks)
    × ((j : String)
        → From
            (λ s. s)
            7
            event_1
            (IsMeant (λ s. s) 7 event_1)
            (Registry.get dispatcher_1.dispatches j)
            (Registry.get (create_dispatches (λ s. s) 7 event_1 dispatcher_1).dispatches j))
unfolding list_all_webhooks Registry.list
create_dispatches_lem_example =
    create_dispatches_lem (λ s. s) 7 event_1 dispatcher_1 ((refl, tt), (tt, tt))
