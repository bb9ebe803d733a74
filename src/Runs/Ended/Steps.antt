-- ===== src/Runs/Ended/Steps.antt =====
-- The handlers of src/services/runs.ts, migrations.ts and charging.ts as one step relation. A step is
-- a stretch of a handler between its long waits, for the driver, a timer or a grace window. What comes
-- at the exit of a container, after a failed start and before one that fails is one step each, over the
-- short waits in it for the log, the event channel and each write of the registry. The deletion and the resurrection of a run are
-- no steps of it: they are what may follow a run's end.
use actor_runtime.Base.{ℕ, String, ◌≡◌, Bool, true, Option, some, List}
use actor_runtime.Double.{Doubles}
use actor_runtime.Jobs.Status.{is_terminal_job_status}
use actor_runtime.Jobs.Registry
use actor_runtime.Entities.Run.{RunRecord, Telemetry}
use actor_runtime.Charging.{ChargeRequest, Ledger, charge_event, record_default_dataset_items}
use actor_runtime.Runs.World.{with_runs}
use actor_runtime.Runs.Abort.{abort_run_begin, abort_run_end, graceful_abort_fires}
use actor_runtime.Runs.Background.{
  Outcome, begin_run, finalize_aborting, fail_before_container, container_exited, run_failed,
}
use actor_runtime.Runs.Message.{set_run_status_message}
use actor_runtime.Runs.Restart.{migrate_run, stop_for_migration, reboot_run}
use actor_runtime.Runs.Ended.{KeepsEnded, KeepsEnded-refl, KeepsEnded-trans, SameEnd}
use actor_runtime.Runs.Ended.Charges.{
  charge_event-KeepsEnded, record_default_dataset_items-KeepsEnded,
}
use actor_runtime.Runs.Ended.Exit.{container_exited-KeepsEnded, run_failed-KeepsEnded}
use actor_runtime.Runs.Ended.Parts.{
  abort_run_begin-KeepsEnded, abort_run_end-KeepsEnded, begin_run-KeepsEnded,
  finalize_aborting-KeepsEnded, fail_before_container-KeepsEnded, set_run_status_message-KeepsEnded,
  stop_for_migration-KeepsEnded, reboot_run-KeepsEnded, migrate_run-KeepsEnded,
}

module _ (d : Doubles) where
  open d use {Num}

  pub data Step : Ledger Num → Ledger Num → Type 0 where
    begins : (l : Ledger Num) (id : String) → Step l (record l { world = (begin_run l.world id).0 })
    finalizes :
        (l : Ledger Num) (id : String) → Step l (record l { world = finalize_aborting l.world id })
    fails_early :
        (l : Ledger Num) (id log_message : String) (message : Option String) (now : ℕ)
        → Step l (record l { world = fail_before_container l.world id log_message message now })
    exits :
        (l : Ledger Num) (telemetry : Option (Telemetry Num)) (run : RunRecord Num) (o : Outcome)
        (now : ℕ) (times : List ℕ)
        → Step l (record l { world = (container_exited telemetry run o now times l.world).0 })
    breaks :
        (l : Ledger Num) (telemetry : Option (Telemetry Num)) (run : RunRecord Num)
        (message : String) (now : ℕ)
        → Step l (record l { world = run_failed telemetry run message now l.world })
    aborts :
        (l : Ledger Num) (run : RunRecord Num) (gracefully : Bool) (message : Option String)
        → Step l (record l { world = (abort_run_begin l.world run gracefully message).0 })
    ends_abort :
        (l : Ledger Num) (id : String) (now : ℕ)
        → Step l (record l { world = (abort_run_end l.world id now).0 })
    window_closes :
        (l : Ledger Num) (id : String)
        → Step l (record l { world = graceful_abort_fires l.world id })
    migrates :
        (l : Ledger Num) (run : RunRecord Num)
        → Step l (record l { world = (migrate_run l.world run).0 })
    stops_for_migration :
        (l : Ledger Num) (id : String) → Step l (record l { world = stop_for_migration l.world id })
    reboots :
        (l : Ledger Num) (run : RunRecord Num)
        → Step l (record l { world = (reboot_run l.world run).0 })
    says :
        (l : Ledger Num) (id : String) (message : Option String) (is_terminal : Bool)
        → Step l (record l {
          world = with_runs (set_run_status_message l.world.runs id message is_terminal).0 l.world;
        })
    charges :
        (l : Ledger Num) (now : ℕ) (run : RunRecord Num) (request : ChargeRequest)
        → Step l (charge_event d now run request l).0
    pushes_items :
        (l : Ledger Num) (now : ℕ) (dataset_id : String) (count : ℕ)
        → Step l (record l { world = record_default_dataset_items d now dataset_id count l.world })

  -- Any number of steps, of any handlers in any order.
  pub data Reaches (l : Ledger Num) : Ledger Num → Type 0 where
    here : Reaches l l
    then_step : (m n : Ledger Num) → Reaches l m → Step m n → Reaches l n

  Step-KeepsEnded : (l m : Ledger Num) → Step l m → KeepsEnded l.world.runs m.world.runs
  unfolding graceful_abort_fires
  Step-KeepsEnded l _ (begins _ id) = begin_run-KeepsEnded l.world id
  Step-KeepsEnded l _ (finalizes _ id) = finalize_aborting-KeepsEnded l.world id
  Step-KeepsEnded l _ (fails_early _ id t m now) =
      fail_before_container-KeepsEnded l.world id t m now
  Step-KeepsEnded l _ (exits _ telemetry run o now ts) =
      container_exited-KeepsEnded telemetry run o now ts l.world
  Step-KeepsEnded l _ (breaks _ telemetry run m now) =
      run_failed-KeepsEnded telemetry run m now l.world
  Step-KeepsEnded l _ (aborts _ run g m) = abort_run_begin-KeepsEnded l.world run g m
  Step-KeepsEnded l _ (ends_abort _ id now) = abort_run_end-KeepsEnded l.world id now
  Step-KeepsEnded l _ (window_closes _ id) = KeepsEnded-refl l.world.runs
  Step-KeepsEnded l _ (migrates _ run) = migrate_run-KeepsEnded l.world run
  Step-KeepsEnded l _ (stops_for_migration _ id) = stop_for_migration-KeepsEnded l.world id
  Step-KeepsEnded l _ (reboots _ run) = reboot_run-KeepsEnded l.world run
  Step-KeepsEnded l _ (says _ id m b) = set_run_status_message-KeepsEnded l.world.runs id m b
  Step-KeepsEnded l _ (charges _ now run request) = charge_event-KeepsEnded d now run request l
  Step-KeepsEnded l _ (pushes_items _ now id count) =
      record_default_dataset_items-KeepsEnded d now id count l.world

  Reaches-KeepsEnded : (l m : Ledger Num) → Reaches l m → KeepsEnded l.world.runs m.world.runs
  Reaches-KeepsEnded l _ here = KeepsEnded-refl l.world.runs
  Reaches-KeepsEnded l n (then_step m _ before step) =
      KeepsEnded-trans l.world.runs m.world.runs n.world.runs (Reaches-KeepsEnded l m before)
        (Step-KeepsEnded m n step)

  -- A run that has ended keeps its status, its end and its exit code whatever handlers run afterwards, on
  -- this run or another and in any order, until it is deleted or resurrected.
  pub Reaches-SameEnd :
      (l m : Ledger Num) (id : String) (r : RunRecord Num)
      → Reaches l m
      → Registry.get l.world.runs id ≡ some r
      → is_terminal_job_status r.status ≡ true
      → (r' : RunRecord Num) × (Registry.get m.world.runs id ≡ some r') × SameEnd r r'
  Reaches-SameEnd l m id r path = (Reaches-KeepsEnded l m path).at id r
