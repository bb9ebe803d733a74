-- ===== src/Schedules.antt =====
-- Schedules: their records (src/services/schedules.ts), when one runs next (src/services/schedule-cron.ts,
-- in Cron) and the timers that run them (src/services/scheduler.ts, in Timers). The lower-casing of names is a
-- parameter; ids and times are arguments.
pub mod Cron
pub mod Timers
use actor_runtime.Base.{
  ℕ, String, Bool, true, false, not, ◌&&◌, ◌||◌, Option, none, some, List, [], ◌∷◌, keep, ◌===◌,
  if◌then◌else◌,
}
use actor_runtime.Base.Results.{Result, ok, err}
use actor_runtime.Jobs.Registry
use actor_runtime.Jobs.Registry.{Registry, on_record}
use actor_runtime.Entities.Schedule.{ScheduleAction, run_actor, run_actor_task, ScheduleRecord}
use actor_runtime.ResourceReference.{normalize_name}
use actor_runtime.Actors.{any}
use actor_runtime.Schedules.Cron.{CronParser, compute_next_run_at}

pub data ScheduleRefusal : Type 0 where
  name_taken : String → ScheduleRefusal
  cron_expression_invalid : ScheduleRefusal

-- What a deleted Actor or task is to a schedule.
pub data ScheduleTarget : Type 0 where
  actor_target task_target : String → ScheduleTarget

abbrev pub or_throws : Option ℕ → Result ScheduleRefusal (Option ℕ)
or_throws none = err cron_expression_invalid
or_throws (some time) = ok (some time)

module _ {J : Type 0} where
  abbrev pub targets : ScheduleTarget → ScheduleAction J → Bool
  targets (actor_target id) (run_actor a) = a.actor_id === id
  targets (task_target id) (run_actor_task t) = t.actor_task_id === id
  targets (actor_target id) (run_actor_task t) = false
  targets (task_target id) (run_actor a) = false

  unfoldable pub list_owned_schedules :
      Registry (ScheduleRecord J) → String → List (ScheduleRecord J)
  list_owned_schedules schedules user_id =
      keep (λ s. s.user_id === user_id) (Registry.list schedules)

  pub list_all_schedules : Registry (ScheduleRecord J) → List (ScheduleRecord J)
  list_all_schedules schedules = Registry.list schedules

  pub get_schedule_by_id : Registry (ScheduleRecord J) → String → Option (ScheduleRecord J)
  get_schedule_by_id schedules id = Registry.get schedules id

  abbrev pub owned_schedule : String → Option (ScheduleRecord J) → Option (ScheduleRecord J)
  owned_schedule user_id none = none
  owned_schedule user_id (some s) = if s.user_id === user_id then some s else none

  unfoldable pub get_owned_schedule :
      Registry (ScheduleRecord J) → String → String → Option (ScheduleRecord J)
  get_owned_schedule schedules user_id id = owned_schedule user_id (Registry.get schedules id)

  pub delete_schedule : Registry (ScheduleRecord J) → String → Registry (ScheduleRecord J)
  delete_schedule schedules id = Registry.delete schedules id

  abbrev pub without_target : ScheduleTarget → ScheduleRecord J → ScheduleRecord J
  without_target target s = record s { actions = keep (λ a. not (targets target a)) s.actions }

  -- The loop of removeScheduleActionsFor, over the schedules it read.
  abbrev pub remove_actions :
      ScheduleTarget
      → List (ScheduleRecord J)
      → Registry (ScheduleRecord J)
      → Registry (ScheduleRecord J)
  remove_actions target [] schedules = schedules
  remove_actions target (s ∷ rest) schedules = remove_actions target rest (
      if any (targets target) s.actions
      then (Registry.update schedules s.id (on_record (without_target target))).0
      else schedules)

  unfoldable pub remove_schedule_actions_for :
      ScheduleTarget → Registry (ScheduleRecord J) → Registry (ScheduleRecord J)
  remove_schedule_actions_for target schedules =
      remove_actions target (list_all_schedules schedules) schedules

  unfoldable pub next_run_at_of :
      CronParser → ScheduleRecord J → ℕ → Result ScheduleRefusal (Option ℕ)
  next_run_at_of c s now =
      if s.is_enabled
      then or_throws (
          compute_next_run_at c (record {
            cron_expression = s.cron_expression;
            random_offset_coeff = some s.random_offset_coeff;
            current_date = now;
            last_run_date = s.last_run_at;
            timezone = some s.timezone;
          }))
      else ok none

  abbrev pub is_name_taken : (String → String) → List (ScheduleRecord J) → String → Bool
  is_name_taken to_lower_case others name =
      any (λ s. normalize_name to_lower_case s.name === normalize_name to_lower_case name) others

  abbrev pub write_schedule :
      Registry (ScheduleRecord J)
      → String
      → ScheduleRecord J
      → ℕ
      → Result ScheduleRefusal (Option ℕ)
      → Result ScheduleRefusal (Registry (ScheduleRecord J) × Option (ScheduleRecord J))
  write_schedule schedules id s now (err e) = err e
  write_schedule schedules id s now (ok time) = ok (
      Registry.update schedules id
        (λ current. some (record s { modified_at = now; next_run_at = time })))

  abbrev pub update_current :
      CronParser
      → (String → String)
      → Registry (ScheduleRecord J)
      → ScheduleRecord J
      → (ScheduleRecord J → ScheduleRecord J)
      → ℕ
      → Option (ScheduleRecord J)
      → Result ScheduleRefusal (Registry (ScheduleRecord J) × Option (ScheduleRecord J))
  update_current c to_lower_case schedules schedule mutator now none =
      ok (Registry.update schedules schedule.id (λ current. none))
  update_current c to_lower_case schedules schedule mutator now (some current) =
      let next = mutator current in
      let others =
        keep (λ s. not (s.id === schedule.id)) (list_owned_schedules schedules schedule.user_id) in
      if is_name_taken to_lower_case others next.name
      then err (name_taken next.name)
      else write_schedule schedules schedule.id next now (next_run_at_of c next now)

  -- updateSchedule, which holds the lock on the user's names.
  unfoldable pub update_schedule :
      CronParser
      → (String → String)
      → Registry (ScheduleRecord J)
      → ScheduleRecord J
      → (ScheduleRecord J → ScheduleRecord J)
      → ℕ
      → Result ScheduleRefusal (Registry (ScheduleRecord J) × Option (ScheduleRecord J))
  update_schedule c to_lower_case schedules schedule mutator now =
      update_current c to_lower_case schedules schedule mutator now
        (Registry.get schedules schedule.id)
