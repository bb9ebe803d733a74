-- ===== src/Standby/Finish/Exit.antt =====
-- The end of a standby run that is wound down: finishRun of src/services/standby.ts together with the
-- end of a container in src/services/runs.ts.
use actor_runtime.Base.{◌≡◌, Option, some}
use actor_runtime.Jobs.Status.{JobStatus}
use actor_runtime.Jobs.Registry
use actor_runtime.Jobs.Registry.{Registry}
use actor_runtime.Entities.Run.{RunRecord, Telemetry}
use actor_runtime.Runs.World.{World}

module _ {U : Type 0} (telemetry : Option (Telemetry U)) (run : RunRecord U) where
  -- What stands under the run's id has this status.
  abbrev Has : JobStatus → World U → Type 0
  Has s w = (r : RunRecord U) × (Registry.get w.runs run.id ≡ some r) × (r.status ≡ s)
