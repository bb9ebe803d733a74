-- ===== src/Webhooks/Events.antt =====
-- What a write to a run or build record means to webhooks: `jobEventTypes`, `runEventData`,
-- `buildEventData`, `runEventForDispatch`, `buildEventForDispatch`, `conditionMatches` and the two
-- listeners of src/services/webhook-dispatches.ts. `J` is the type of a resource.
pub mod OneEnd
use actor_runtime.Base.{
  String, Bool, true, false, not, ◌&&◌, Option, none, some, List, [], ◌∷◌, ◌++◌, map, ◌===◌,
  if◌then◌else◌,
}
use actor_runtime.Base.Dict.{Dict, lookup}
use actor_runtime.Jobs.Status
use actor_runtime.Jobs.Status.{JobStatus, is_terminal_job_status, same_status}
use actor_runtime.Entities.Run.{RunRecord}
use actor_runtime.Entities.Build.{BuildRecord}
use actor_runtime.Entities.Webhook.{
  EventType, run_created, run_succeeded, run_failed, run_timed_out, run_aborted, run_resurrected,
  build_created, build_succeeded, build_failed, build_timed_out, build_aborted, WebhookCondition,
  actor_id, actor_task_id, actor_run_id,
}

pub data JobGroup : Type 0 where
  run build : JobGroup

-- RUN_TERMINAL_EVENTS
unfoldable pub run_terminal_event : JobStatus → Option EventType
run_terminal_event JobStatus.succeeded = some run_succeeded
run_terminal_event JobStatus.failed = some run_failed
run_terminal_event JobStatus.timed_out = some run_timed_out
run_terminal_event JobStatus.aborted = some run_aborted
run_terminal_event _ = none

-- BUILD_TERMINAL_EVENTS
unfoldable pub build_terminal_event : JobStatus → Option EventType
build_terminal_event JobStatus.succeeded = some build_succeeded
build_terminal_event JobStatus.failed = some build_failed
build_terminal_event JobStatus.timed_out = some build_timed_out
build_terminal_event JobStatus.aborted = some build_aborted
build_terminal_event _ = none

abbrev pub created_event : JobGroup → EventType
created_event run = run_created
created_event build = build_created

-- RESURRECTED is for runs alone.
abbrev pub resurrected_events : JobGroup → JobStatus → JobStatus → List EventType
resurrected_events run previous next =
    if is_terminal_job_status previous && not (is_terminal_job_status next)
    then run_resurrected ∷ []
    else []
resurrected_events build previous next = []

abbrev pub changed : Option JobStatus → JobStatus → Bool
changed none next = true
changed (some previous) next = not (same_status previous next)

abbrev pub first_events : Option JobStatus → JobStatus → JobGroup → List EventType
first_events none next group = created_event group ∷ []
first_events (some previous) next group = resurrected_events group previous next

abbrev pub terminal_events : Bool → Option EventType → List EventType
terminal_events is_new none = []
terminal_events is_new (some terminal) = if is_new then terminal ∷ [] else []

-- The records of the source are here their statuses; `none` is a record that is being created.
unfoldable pub job_event_types :
    Option JobStatus → JobStatus → JobGroup → (JobStatus → Option EventType) → List EventType
job_event_types previous next group terminal_event =
    first_events previous next group
    ++ terminal_events (changed previous next) (terminal_event next)

pub record WebhookEvent (J : Type 0) : Type 0 where
  pub user_id : String
  pub event_type : EventType
  pub event_data : Dict String
  pub resource : J

module _ {U : Type 0} where
  unfoldable pub run_event_data : RunRecord U → Dict String
  run_event_data r = ("actorId", r.actor_id) ∷ (elim r.actor_task_id [
    | none ↦ ("actorRunId", r.id) ∷ []
    | some task ↦ ("actorTaskId", task) ∷ ("actorRunId", r.id) ∷ []
  ])

  -- `runEventForDispatch`
  unfoldable pub run_event_for_dispatch :
      {J : Type 0} → RunRecord U → EventType → J → WebhookEvent J
  run_event_for_dispatch r event_type resource = record {
    user_id = r.user_id;
    event_type = event_type;
    event_data = run_event_data r;
    resource = resource;
  }

  abbrev run_status_of : Option (RunRecord U) → Option JobStatus
  run_status_of none = none
  run_status_of (some r) = some r.status

  -- The listener on runs: the events of a write, in the order in which they are queued.
  unfoldable pub run_events :
      {J : Type 0}
      → (RunRecord U → J)
      → Option (RunRecord U)
      → Option (RunRecord U)
      → List (WebhookEvent J)
  run_events run_resource previous none = []
  run_events run_resource previous (some next) =
      map (λ event_type. run_event_for_dispatch next event_type (run_resource next))
        (job_event_types (run_status_of previous) next.status run run_terminal_event)

module _ {S : Type 0} where
  unfoldable pub build_event_data : BuildRecord S → Dict String
  build_event_data b = ("actorId", b.actor_id) ∷ ("actorBuildId", b.id) ∷ []

  unfoldable pub build_event_for_dispatch :
      {J : Type 0} → BuildRecord S → EventType → J → WebhookEvent J
  build_event_for_dispatch b event_type resource = record {
    user_id = b.user_id;
    event_type = event_type;
    event_data = build_event_data b;
    resource = resource;
  }

  abbrev build_status_of : Option (BuildRecord S) → Option JobStatus
  build_status_of none = none
  build_status_of (some b) = some b.status

  unfoldable pub build_events :
      {J : Type 0}
      → (BuildRecord S → J)
      → Option (BuildRecord S)
      → Option (BuildRecord S)
      → List (WebhookEvent J)
  build_events build_resource previous none = []
  build_events build_resource previous (some next) =
      map (λ event_type. build_event_for_dispatch next event_type (build_resource next))
        (job_event_types (build_status_of previous) next.status build build_terminal_event)

abbrev field_is : String → String → Dict String → Bool
field_is key id event_data = elim (lookup key event_data) [ none ↦ false | some v ↦ v === id ]

-- A condition has exactly one key.
unfoldable pub condition_matches : WebhookCondition → Dict String → Bool
condition_matches (actor_id id) event_data = field_is "actorId" id event_data
condition_matches (actor_task_id id) event_data = field_is "actorTaskId" id event_data
condition_matches (actor_run_id id) event_data = field_is "actorRunId" id event_data
