-- ===== src/Runs/Restart.antt =====
-- Restart on error, migration and reboot of a run: `restartAfterError` of src/services/runs.ts and
-- src/services/migrations.ts. Times are milliseconds.
mod Window
pub mod Bound
pub use Window.{in_window, window_step}
use actor_runtime.Base.{
  ℕ, ◌+◌, ◌-◌, String, ◌≡◌, Bool, true, false, not, ◌&&◌, ◌||◌, Option, none, some, List, [], ◌∷◌,
  ◌++◌, ltb, leb, length, keep, or_else, if◌then◌else◌,
}
use actor_runtime.Base.Dict.{Dict, lookup, insert, erase, has}
use actor_runtime.Jobs.Status.{JobStatus, ready, running, aborting, same_status}
use actor_runtime.Jobs.Registry
use actor_runtime.Jobs.Registry.{Registry, on_record}
use actor_runtime.Entities.Run.{RunRecord, RunStats, Telemetry}
use actor_runtime.Runs.World.{
  World, RunRestartKind, migration, reboot, Effect, driver_abort_run, publish_migrating,
  runtime_log, restarting_on_error, restart_limit_reached, emit, with_runs,
}
use actor_runtime.Runs.Abort.{status_is}

abbrev pub restart_on_error_max_restarts : ℕ
restart_on_error_max_restarts = 3

abbrev pub restart_on_error_interval_ms : ℕ
restart_on_error_interval_ms = 60000

pub data Decision : Type 0 where
  undecided limit_reached restart : Decision

pub data MigrateRunResult : Type 0 where
  migrating joined not_running : MigrateRunResult

-- restartTimes.filter((time) => now - time < RESTART_ON_ERROR_INTERVAL_MS)
abbrev pub recent : ℕ → List ℕ → List ℕ
recent now = keep (λ time. ltb (now - time) restart_on_error_interval_ms)

module _ {U : Type 0} where
  -- `{}`, what the spread of an absent `stats` gives.
  abbrev pub no_stats : RunStats U
  no_stats = record {
    migration_count = none;
    reboot_count = none;
    restart_count = none;
    resurrect_count = none;
    input_body_len = none;
    duration_millis_before_resurrect = none;
    telemetry = none;
  }

  abbrev pub stats_of : RunRecord U → RunStats U
  stats_of r = or_else r.stats no_stats

  abbrev pub bump_restart_count : RunRecord U → RunRecord U
  bump_restart_count r = record r {
    stats =
        some
          (record (stats_of r) { restart_count = some (or_else (stats_of r).restart_count 0 + 1) });
  }

  abbrev pub bump_migration_count : RunRecord U → RunRecord U
  bump_migration_count r = record r {
    stats = some (record (stats_of r) {
      migration_count = some (or_else (stats_of r).migration_count 0 + 1);
    });
  }

  abbrev pub bump_reboot_count : RunRecord U → RunRecord U
  bump_reboot_count r = record r {
    stats =
        some
          (record (stats_of r) { reboot_count = some (or_else (stats_of r).reboot_count 0 + 1) });
  }

  -- The decision that is taken inside the serialised write.
  unfoldable pub decide_restart : ℕ → Option (RunRecord U) → Decision
  decide_restart recent_restarts none = undecided
  decide_restart recent_restarts (some r) =
      if not (same_status r.status running) || not (or_else r.options.restart_on_error false)
      then undecided
      else (if leb restart_on_error_max_restarts recent_restarts then limit_reached else restart)

  abbrev pub restart_mutator : Decision → Option (RunRecord U) → Option (RunRecord U)
  restart_mutator restart = on_record bump_restart_count
  restart_mutator limit_reached = λ o. o
  restart_mutator undecided = λ o. o

  abbrev pub after_decision : String → ℕ → ℕ → List ℕ → Decision → World U → World U × Bool × List ℕ
  after_decision id exit_code now times restart w =
      (emit (runtime_log id (restarting_on_error exit_code)) w, true, times ++ now ∷ [])
  after_decision id exit_code now times limit_reached w =
      (emit (runtime_log id restart_limit_reached) w, false, times)
  after_decision id exit_code now times undecided w = (w, false, times)

  -- The list is the history of this incarnation's restarts, oldest first.
  unfoldable pub restart_after_error : World U → String → ℕ → ℕ → List ℕ → World U × Bool × List ℕ
  restart_after_error w id exit_code now times =
      let decision = decide_restart (length (recent now times)) (Registry.get w.runs id) in
      after_decision id exit_code now times decision
        (with_runs (Registry.update w.runs id (restart_mutator decision)).0 w)

  -- services/migrations.ts
  unfoldable pub migrate_run : World U → RunRecord U → World U × MigrateRunResult
  migrate_run w run =
      if not (status_is running (Registry.get w.runs run.id))
      then (w, not_running)
      else (if has run.id w.pending_migration_stops then (w, joined) else (
        emit (publish_migrating run.id)
            (record w { pending_migration_stops = insert run.id tt w.pending_migration_stops }),
        migrating,
      ))

  abbrev set_pending_restart : String → RunRestartKind → World U → World U
  set_pending_restart id kind w =
      emit (driver_abort_run id) (record w { pending_restarts = insert id kind w.pending_restarts })

  abbrev pub if_running : (RunRecord U → RunRecord U) → Option (RunRecord U) → Option (RunRecord U)
  if_running f none = none
  if_running f (some r) = if same_status r.status running then some (f r) else some r

  -- The migration window's timer: `pendingMigrationStops.delete` and `stopForMigration`.
  unfoldable pub stop_for_migration : World U → String → World U
  stop_for_migration w id =
      let was_running = status_is running (Registry.get w.runs id) in
      let w' : World U = record w {
        pending_migration_stops = erase id w.pending_migration_stops;
        runs = (Registry.update w.runs id (if_running bump_migration_count)).0;
      } in
      if was_running then set_pending_restart id migration w' else w'

  abbrev pub if_live : (RunRecord U → RunRecord U) → Option (RunRecord U) → Option (RunRecord U)
  if_live f none = none
  if_live f (some r) =
      if same_status r.status running || same_status r.status ready || same_status r.status aborting
      then some (f r)
      else some r

  unfoldable pub reboot_run : World U → RunRecord U → World U × Option (RunRecord U)
  reboot_run w run =
      let was_running = status_is running (Registry.get w.runs run.id) in
      let (runs', updated) = Registry.update w.runs run.id (if_live bump_reboot_count) in
      let w' : World U = record w {
        pending_migration_stops = erase run.id w.pending_migration_stops;
        runs = runs';
      } in
      if was_running then (set_pending_restart run.id reboot w', updated) else (w', updated)

  unfoldable pub consume_run_restart : World U → String → World U × Option RunRestartKind
  consume_run_restart w id =
      (record w { pending_restarts = erase id w.pending_restarts }, lookup id w.pending_restarts)

  unfoldable pub clear_run_restart_state : World U → String → World U
  clear_run_restart_state w id = record w {
    pending_restarts = erase id w.pending_restarts;
    pending_migration_stops = erase id w.pending_migration_stops;
  }
