-- ===== src/Schedules/Timers.antt =====
-- src/services/scheduler.ts: the timer of each schedule and what happens when it fires. The start of the
-- runs is between the two steps of a firing, and what it logs is given to the second.
use actor_runtime.Base.{
  ℕ, ◌+◌, ◌-◌, ◌^◌, String, Bool, false, not, ◌&&◌, Option, none, some, List, [], ◌∷◌, ◌++◌, length,
  drop, leb, ltb, min, if◌then◌else◌,
}
use actor_runtime.Base.Dict.{Dict, insert, erase}
use actor_runtime.Base.Results.{Result, ok, err, ◌>>=◌}
use actor_runtime.Jobs.Status.{aborting, is_terminal_job_status, same_status}
use actor_runtime.Jobs.Registry
use actor_runtime.Jobs.Registry.{Registry, on_record}
use actor_runtime.Entities.Schedule.{
  ScheduleAction, run_actor, run_actor_task, ScheduleLogMessage, ScheduleRecord,
}
use actor_runtime.Entities.Run.{RunRecord}
use actor_runtime.Runs.Queries.{equals, list_owned_runs}
use actor_runtime.Actors.{any}
use actor_runtime.Schedules.{next_run_at_of, ScheduleRefusal}
use actor_runtime.Schedules.Cron.{CronParser}

abbrev pub max_timer_delay_millis : ℕ
max_timer_delay_millis = 2 ^ 31 - 1

abbrev pub max_log_messages : ℕ
max_log_messages = 250

-- `timers` holds the time at which each one fires.
pub record Scheduler (J : Type 0) : Type 0 where
  pub schedules : Registry (ScheduleRecord J)
  pub timers : Dict ℕ

-- `[...log, ...added].slice(-MAX_LOG_MESSAGES)`
unfoldable pub append_logs :
    List ScheduleLogMessage → List ScheduleLogMessage → List ScheduleLogMessage
append_logs log added = drop (length (log ++ added) - max_log_messages) (log ++ added)

-- What a look at a fired timer's schedule asks for.
pub data FireNext (J : Type 0) : Type 0 where
  invoke : ScheduleRecord J → ℕ → FireNext J
  nothing_due : FireNext J

module _ {J : Type 0} where
  abbrev pub set_timer : ScheduleRecord J → ℕ → Option ℕ → Dict ℕ → Dict ℕ
  set_timer s now none timers = timers
  set_timer s now (some time) timers =
      if s.is_enabled
      then insert s.id (now + min (time - now) max_timer_delay_millis) timers
      else timers

  unfoldable pub arm : ℕ → Option (ScheduleRecord J) → Scheduler J → Scheduler J
  arm now none s = s
  arm now (some schedule) s = record s {
    timers = set_timer schedule now schedule.next_run_at (erase schedule.id s.timers);
  }

  -- A write of a schedule, which the scheduler listens to.
  abbrev pub write_armed :
      ℕ
      → String
      → (Option (ScheduleRecord J) → Option (ScheduleRecord J))
      → Scheduler J
      → Scheduler J
  write_armed now id mutator s =
      let (schedules, next) = Registry.update s.schedules id mutator in
      arm now next (record s { schedules = schedules })

  abbrev pub is_overdue : ℕ → ScheduleRecord J → Bool
  is_overdue now schedule = elim schedule.next_run_at [
    | none ↦ false
    | some time ↦ schedule.is_enabled && leb time now
  ]

  abbrev pub start_one :
      ℕ
      → ScheduleRecord J
      → Result ScheduleRefusal (Option ℕ)
      → Scheduler J
      → Result ScheduleRefusal (Scheduler J)
  start_one now schedule next s =
      if is_overdue now schedule
      then next >>= (λ time. ok (
          write_armed now schedule.id (on_record (λ current. record current { next_run_at = time }))
            s))
      else ok (arm now (some schedule) s)

  -- The loop of startScheduler, over the schedules it read. No one else writes them at the start.
  abbrev pub start_all :
      CronParser → ℕ → List (ScheduleRecord J) → Scheduler J → Result ScheduleRefusal (Scheduler J)
  start_all c now [] s = ok s
  start_all c now (x ∷ xs) s = start_one now x (next_run_at_of c x now) s >>= start_all c now xs

  unfoldable pub start_scheduler :
      CronParser → ℕ → Registry (ScheduleRecord J) → Result ScheduleRefusal (Scheduler J)
  start_scheduler c now schedules =
      start_all c now (Registry.list schedules)
        (record { schedules = Registry.on_change schedules; timers = [] })

  abbrev pub fire_at : ℕ → ScheduleRecord J → Option ℕ → Scheduler J → Scheduler J × FireNext J
  fire_at now schedule none s = (s, nothing_due)
  fire_at now schedule (some time) s =
      if not schedule.is_enabled
      then (s, nothing_due)
      else (if ltb now time
          then (arm now (some schedule) s, nothing_due)
          else (s, invoke schedule time))

  abbrev pub fire_found : ℕ → Option (ScheduleRecord J) → Scheduler J → Scheduler J × FireNext J
  fire_found now none s = (s, nothing_due)
  fire_found now (some schedule) s = fire_at now schedule schedule.next_run_at s

  -- The timer's callback and `fire`, up to the actions.
  unfoldable pub fire : ℕ → String → Scheduler J → Scheduler J × FireNext J
  fire now id s =
      fire_found now (Registry.get s.schedules id) (record s { timers = erase id s.timers })

  abbrev pub after_run : ℕ → List ScheduleLogMessage → ScheduleRecord J → ScheduleRecord J
  after_run started_at logs current = record current {
    last_run_at = some started_at;
    log = append_logs current.log logs;
  }

  -- The write after the actions; one that throws writes nothing.
  abbrev pub write_run :
      ℕ → String → ScheduleRecord J → Result ScheduleRefusal (Option ℕ) → Scheduler J → Scheduler J
  write_run now id next (err e) s = s
  write_run now id next (ok time) s =
      write_armed now id (λ current. some (record next { next_run_at = time })) s

  abbrev pub fired_on :
      CronParser
      → ℕ
      → ℕ
      → String
      → List ScheduleLogMessage
      → Option (ScheduleRecord J)
      → Scheduler J
      → Scheduler J
  fired_on c now started_at id logs none s = write_armed now id (λ current. none) s
  fired_on c now started_at id logs (some current) s =
      let next = after_run started_at logs current in
      write_run now id next (next_run_at_of c next now) s

  unfoldable pub finish_firing :
      CronParser → ℕ → ℕ → String → List ScheduleLogMessage → Scheduler J → Scheduler J
  finish_firing c now started_at id logs s =
      fired_on c now started_at id logs (Registry.get s.schedules id) s

  -- invokeScheduleManually, after its actions.
  unfoldable pub finish_manual_invocation :
      ℕ → String → List ScheduleLogMessage → Scheduler J → Scheduler J
  finish_manual_invocation now id logs s =
      write_armed now id (on_record (λ r. record r { log = append_logs r.log logs })) s

  abbrev pub is_run_of : {U : Type 0} → ScheduleAction J → RunRecord U → Bool
  is_run_of (run_actor a) run = equals run.meta.scheduled_act2_id a.id
  is_run_of (run_actor_task t) run = equals run.meta.scheduled_actor_task_id t.id

  unfoldable pub has_unfinished_run :
      {U : Type 0} → Registry (RunRecord U) → String → ScheduleAction J → Bool
  has_unfinished_run runs user_id action =
      any
        (λ run.
          not (is_terminal_job_status run.status)
          && not (same_status run.status aborting)
          && is_run_of action run)
        (list_owned_runs runs user_id none)
