-- ===== src/Runs/Message.antt =====
-- `setRunStatusMessage` of src/services/runs.ts.
use actor_runtime.Base.{String, Bool, true, false, Option, none, some, or_else, if◌then◌else◌}
use actor_runtime.Jobs.Registry
use actor_runtime.Jobs.Registry.{Registry}
use actor_runtime.Entities.Run.{RunRecord}

module _ {U : Type 0} where
  -- An absent message clears the field, and so does a `false` flag.
  abbrev pub message_mutator : Option String → Bool → Option (RunRecord U) → Option (RunRecord U)
  message_mutator message is_terminal none = none
  message_mutator message is_terminal (some r) =
      if or_else r.is_status_message_from_runtime false
      then some r
      else some (record r {
        status_message = message;
        is_status_message_terminal = if is_terminal then some true else none;
      })

  unfoldable pub set_run_status_message :
      Registry (RunRecord U)
      → String
      → Option String
      → Bool
      → Registry (RunRecord U) × Option (RunRecord U)
  set_run_status_message runs id message is_terminal =
      Registry.update runs id (message_mutator message is_terminal)
