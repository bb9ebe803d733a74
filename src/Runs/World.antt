-- ===== src/Runs/World.antt =====
-- The state that src/services/runs.ts, migrations.ts, standby-finish.ts and charging.ts share: the
-- registry of runs, the in-memory maps keyed by run id, and what has been asked of the driver and of
-- the log and event channels, newest first.
use actor_runtime.Base.{ℕ, String, ◌≡◌, refl, Bool, some, List, ◌∷◌}
use actor_runtime.Base.Dict.{Dict}
use actor_runtime.Jobs.Status.{JobStatus}
use actor_runtime.Jobs.Registry.{Registry}
use actor_runtime.Jobs.Gate.{HasStatus}
use actor_runtime.Entities.Run.{RunRecord}
use actor_runtime.ActorMemory.{MemoryLine}

-- services/migrations.ts
pub data RunRestartKind : Type 0 where
  migration reboot : RunRestartKind

-- The lines of the run log that these modules compose: a constructor for each template, with what the
-- template prints; `line` is a text composed elsewhere.
pub data LogMessage : Type 0 where
  restarting_on_error : ℕ → LogMessage
  restart_limit_reached : LogMessage
  migrating_to_new_container : LogMessage
  rebooting_container : LogMessage
  cannot_start_run : String → LogMessage
  resurrecting_from : JobStatus → LogMessage
  cost_limit_reached : LogMessage
  memory_line : MemoryLine → LogMessage
  line : String → LogMessage

pub data Effect : Type 0 where
  driver_abort_run : String → Effect
  publish_aborting : String → Effect
  publish_persist_state : String → Bool → Effect
  publish_migrating : String → Effect
  runtime_log : String → LogMessage → Effect
  flush_log : String → Effect
  mark_log_terminal : String → Effect
  mark_events_terminal : String → Effect
  reopen_log : String → Effect
  reopen_events : String → Effect
  arm_graceful_abort : String → Effect
  launch_in_background : String → Effect

pub record World (U : Type 0) : Type 0 where
  pub runs : Registry (RunRecord U)
  pub pending_graceful_aborts : Dict (Unit {0})
  pub pending_restarts : Dict RunRestartKind
  pub pending_migration_stops : Dict (Unit {0})
  pub finishing_runs : Dict (Unit {0})
  pub default_dataset_runs : Dict String
  pub effects : List Effect

module _ {U : Type 0} where
  unfoldable pub status-with_run_status :
      (s : JobStatus) (r : RunRecord U) → (record r { status = s }).status ≡ s
  status-with_run_status s r = refl

  abbrev pub run_status : HasStatus (RunRecord U)
  run_status = record {
    status = λ r. r.status;
    with_status = λ s r. record r { status = s };
    status-with_status = status-with_run_status;
  }

  abbrev pub emit : Effect → World U → World U
  emit e w = record w { effects = e ∷ w.effects }

  abbrev pub with_runs : Registry (RunRecord U) → World U → World U
  with_runs rs w = record w { runs = rs }

  -- `{ finishedAt: new Date().toISOString() }` as a patch.
  abbrev pub finished_at_patch : ℕ → RunRecord U → RunRecord U
  finished_at_patch now r = record r { finished_at = some now }
