-- ===== src/Runs/Resurrect.antt =====
-- `resurrectRun` of src/services/runs.ts. Before its wait for the previous incarnation the function only
-- reads builds and what the caller passed, so the part after the wait is where it meets the runs. The
-- texts that other functions compose for the log are the argument `other_lines`, by memory and charge.
pub mod OnlyOne
use Prim.Native.String
use actor_runtime.Base.{
  ℕ, ◌+◌, ◌*◌, String, ◌≡◌, Bool, true, false, not, ◌&&◌, Option, none, some, List, [], ◌∷◌, ltb,
  or_else, or_option, if◌then◌else◌,
}
use actor_runtime.Base.Dict.{Dict}
use actor_runtime.Double.{Doubles}
use actor_runtime.Jobs.Status.{JobStatus, ready, is_terminal_job_status, same_status}
use actor_runtime.Jobs.Registry
use actor_runtime.Jobs.Registry.{Registry}
use actor_runtime.Entities.Build.{BuildRecord, MemoryDefault}
use actor_runtime.Entities.Run.{RunRecord, RunOptions}
use actor_runtime.Actors.{default_build_tag}
use actor_runtime.ActorMemory.{RunMemory, RunMemoryContext, MemoryLine, resolve_run_memory}
use actor_runtime.Builds.{
  TaggedBuildLookup, no_such_tag, build_deleted, found, resolve_tagged_build,
}
use actor_runtime.Charging.{add_to_count, prices_event, register_default_dataset_for_charging}
use actor_runtime.Pricing.{actor_start_event_name, actor_start_event_count}
use actor_runtime.Runs.Queries.{status_text}
use actor_runtime.Runs.Restart.{stats_of}
use actor_runtime.Runs.World.{
  World, reopen_log, reopen_events, runtime_log, resurrecting_from, line, memory_line,
  launch_in_background, emit, with_runs,
}
use actor_runtime.Usage.{run_duration_millis}

pub record ResurrectRunOptions (U : Type 0) : Type 0 where
  pub build : Option String
  pub memory_mbytes : Option ℕ
  pub timeout_secs : Option ℕ
  pub max_total_charge_usd : Option U
  pub restart_on_error : Option Bool

pub data ResurrectRunResult (U : Type 0) : Type 0 where
  resurrected : RunRecord U → ResurrectRunResult U
  not_finished : JobStatus → ResurrectRunResult U
  gone no_such_build cost_limit_decreased : ResurrectRunResult U

abbrev pub memory_mbytes_to_disk : ℕ → ℕ
memory_mbytes_to_disk memory_mbytes = memory_mbytes * 2

-- What the checks settle on: the build, the options and the start events to charge.
pub record Plan (U S : Type 0) : Type 0 where
  pub build : BuildRecord S
  pub options : RunOptions U → RunOptions U
  pub memory : RunMemory
  pub start_event_count : ℕ

-- `The Actor has been resurrected from ${current.status} status.`
abbrev pub resurrected_message : JobStatus → String
resurrected_message status =
    String.◌++◌ "The Actor has been resurrected from " (String.◌++◌ (status_text status) " status.")

module _ {U : Type 0} where
  abbrev pub with_start_charge : ℕ → RunRecord U → Option (Dict ℕ)
  with_start_charge count r =
      if ltb 0 count
      then some (add_to_count actor_start_event_name count r.charged_event_counts)
      else r.charged_event_counts

  unfoldable pub resurrected_record : {S : Type 0} → ℕ → Plan U S → RunRecord U → RunRecord U
  resurrected_record now plan r = record r {
    status = ready;
    finished_at = none;
    exit_code = none;
    status_message = some (resurrected_message r.status);
    is_status_message_terminal = none;
    is_status_message_from_runtime = none;
    charging_stopped_at = none;
    resurrected_at = some now;
    build_id = plan.build.id;
    build_number = plan.build.build_number;
    options = plan.options r.options;
    stats = some (record (stats_of r) {
      resurrect_count = some (or_else (stats_of r).resurrect_count 0 + 1);
      duration_millis_before_resurrect = some (run_duration_millis r now);
    });
    charged_event_counts = with_start_charge plan.start_event_count r;
    local_debug = none;
    local_browser_view = none;
  }

  -- The mutator: the record is resurrected only in the status in which the caller saw it.
  abbrev pub resurrect_mutator :
      {S : Type 0} → ℕ → JobStatus → Plan U S → Option (RunRecord U) → Option (RunRecord U)
  resurrect_mutator now seen plan none = none
  resurrect_mutator now seen plan (some r) =
      if same_status r.status seen then some (resurrected_record now plan r) else some r

  abbrev log_memory : String → List MemoryLine → World U → World U
  log_memory id [] w = w
  log_memory id (l ∷ ls) w = log_memory id ls (emit (runtime_log id (memory_line l)) w)

  abbrev log_lines : String → List String → World U → World U
  log_lines id [] w = w
  log_lines id (l ∷ ls) w = log_lines id ls (emit (runtime_log id (line l)) w)

  -- What follows the write.
  abbrev pub start_again :
      {S : Type 0} → List String → JobStatus → Plan U S → RunRecord U → World U → World U
  start_again others seen plan updated w = emit (launch_in_background updated.id) (
      log_lines updated.id others (
        log_memory updated.id plan.memory.log_lines (
          emit (runtime_log updated.id (resurrecting_from seen)) (
            register_default_dataset_for_charging updated
              (emit (reopen_events updated.id) (emit (reopen_log updated.id) w))))))

  abbrev pub after_write :
      {S : Type 0}
      → List String
      → ℕ
      → JobStatus
      → Plan U S
      → Option (RunRecord U)
      → World U
      → World U × ResurrectRunResult U
  after_write others now seen plan none w = (w, gone)
  after_write others now seen plan (some r) w =
      if same_status r.status seen
      then (
        start_again others seen plan (resurrected_record now plan r) w,
        resurrected (resurrected_record now plan r),
      )
      else (w, not_finished r.status)

  -- From the wait on: the conditional write and what follows it.
  unfoldable pub resurrect_write :
      {S : Type 0}
      → List String
      → ℕ
      → RunRecord U
      → Plan U S
      → World U
      → World U × ResurrectRunResult U
  resurrect_write others now run plan w =
      let current = Registry.get w.runs run.id in
      after_write others now run.status plan current
        (with_runs (Registry.update w.runs run.id (resurrect_mutator now run.status plan)).0 w)

-- The limit that the caller asks for may not be below the run's; `0` lifts it.
module _ (d : Doubles) where
  open d use {Num, nought, less, equal}

  abbrev pub lowers_cap : Option Num → Option Num → Bool
  lowers_cap none current = false
  lowers_cap (some requested) none = false
  lowers_cap (some requested) (some current) =
      not (equal requested nought) && less requested current

  abbrev pub start_events : RunRecord Num → ℕ → ℕ
  start_events run memory_mbytes =
      if prices_event actor_start_event_name run then actor_start_event_count memory_mbytes else 0

  abbrev pub resurrected_options :
      RunRecord Num → ResurrectRunOptions Num → ℕ → RunOptions Num → RunOptions Num
  resurrected_options run o memory_mbytes current = record current {
    build = some (or_else o.build (or_else run.options.build default_build_tag));
    memory_mbytes = memory_mbytes;
    timeout_secs = or_else o.timeout_secs run.options.timeout_secs;
    disk_mbytes = some (memory_mbytes_to_disk memory_mbytes);
    max_total_charge_usd = or_option o.max_total_charge_usd run.options.max_total_charge_usd;
    restart_on_error =
        or_option (or_option o.restart_on_error run.options.restart_on_error)
          current.restart_on_error;
  }

  module _ {S Input : Type 0} (evaluate : MemoryDefault → RunMemoryContext Input → Option ℕ)
      (builds : Registry (BuildRecord S)) (tagged_builds : Dict String) where
    -- The build of the tag that the caller names, or else the run's own.
    abbrev pub build_for : RunRecord Num → Option String → Option (BuildRecord S)
    build_for run none = Registry.get builds run.build_id
    build_for run (some tag) = elim (resolve_tagged_build builds tagged_builds tag) [
      | found build ↦ some build
      | _ ↦ none
    ]

    abbrev pub plan_for :
        Input → RunRecord Num → ResurrectRunOptions Num → BuildRecord S → Plan Num S
    plan_for input run o build =
        let memory = resolve_run_memory evaluate build.memory_settings (record {
          requested_memory_mbytes = some (or_else o.memory_mbytes run.options.memory_mbytes);
          fallback_memory_mbytes = run.options.memory_mbytes;
          input = input;
        }) in
        record {
          build = build;
          options = resurrected_options run o memory.memory_mbytes;
          memory = memory;
          start_event_count = start_events run memory.memory_mbytes;
        }

    abbrev pub planned :
        (ℕ → ℕ → List String)
        → Input
        → ℕ
        → RunRecord Num
        → ResurrectRunOptions Num
        → Option (BuildRecord S)
        → (World Num → World Num)
        → World Num
        → World Num × ResurrectRunResult Num
    planned other_lines input now run o none meanwhile w = (w, no_such_build)
    planned other_lines input now run o (some build) meanwhile w =
        let plan = plan_for input run o build in
        resurrect_write (other_lines plan.memory.memory_mbytes plan.start_event_count) now run plan
          (meanwhile w)

    -- `input` stands for the context of the Actor's memory expression, which is not evaluated here.
    -- `meanwhile` is what others do while the call waits, the last time for the run's own background work
    -- to end; `now` is the time after it.
    unfoldable pub resurrect_run :
        (ℕ → ℕ → List String)
        → Input
        → ℕ
        → RunRecord Num
        → ResurrectRunOptions Num
        → (World Num → World Num)
        → World Num
        → World Num × ResurrectRunResult Num
    resurrect_run other_lines input now run o meanwhile w =
        if not (is_terminal_job_status run.status)
        then (w, not_finished run.status)
        else (if lowers_cap o.max_total_charge_usd run.options.max_total_charge_usd
            then (w, cost_limit_decreased)
            else planned other_lines input now run o (build_for run o.build) meanwhile w)
