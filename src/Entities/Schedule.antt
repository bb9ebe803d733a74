-- ===== src/Entities/Schedule.antt =====
-- The schedule records of src/storage/entities.ts. `J` is the type of a task's input, passed on unread.
use actor_runtime.Base.{ℕ, String, Bool, Option, List}

pub record ScheduledActorRunOptions : Type 0 where
  pub build : Option String
  pub timeout_secs : Option ℕ
  pub memory_mbytes : Option ℕ
  pub restart_on_error : Option Bool

pub record ScheduledRunInput : Type 0 where
  pub body : String
  pub content_type : String

-- A field that is absent and one that is null are both `none`.
pub record ScheduledActorAction : Type 0 where
  pub id : String
  pub actor_id : String
  pub run_input : Option ScheduledRunInput
  pub run_options : Option ScheduledActorRunOptions

pub record ScheduledTaskAction (J : Type 0) : Type 0 where
  pub id : String
  pub actor_task_id : String
  pub input : Option J

pub data ScheduleAction (J : Type 0) : Type 0 where
  run_actor : ScheduledActorAction → ScheduleAction J
  run_actor_task : ScheduledTaskAction J → ScheduleAction J

pub data ScheduleLogLevel : Type 0 where
  info warning error : ScheduleLogLevel

pub record ScheduleLogMessage : Type 0 where
  pub message : String
  pub level : ScheduleLogLevel
  pub created_at : ℕ

-- `random_offset_coeff` counts the steps of `Math.random()`.
pub record ScheduleRecord (J : Type 0) : Type 0 where
  pub id : String
  pub user_id : String
  pub name : String
  pub title : String
  pub description : Option String
  pub cron_expression : String
  pub timezone : String
  pub is_enabled : Bool
  pub is_exclusive : Bool
  pub notifications_email : Bool
  pub random_offset_coeff : ℕ
  pub actions : List (ScheduleAction J)
  pub created_at : ℕ
  pub modified_at : ℕ
  pub next_run_at : Option ℕ
  pub last_run_at : Option ℕ
  pub log : List ScheduleLogMessage
