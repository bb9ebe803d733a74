-- ===== src/Standby/Config.antt =====
-- src/services/standby-config.ts: how an `actorStandby` update is merged and checked, and the settings of
-- a task's standby runs. `String.prototype.trim` is a parameter. The fields of a body stand in the order
-- of `Object.entries`.
pub mod Valid
use actor_runtime.Base.{
  ℕ, String, Bool, true, false, not, ◌&&◌, ◌||◌, Option, none, some, List, [], ◌∷◌, includes,
  is_some, ◌===◌, if◌then◌else◌,
}
use actor_runtime.Base.Results.{Result, ok, err, ◌>>=◌, ◌>>◌, guard}
use actor_runtime.Base.Json.{
  ℤ, pos, pos_part, below, less, Json, null, boolean, integer, fractional, string, array, object,
  Fields, end, field, get_field,
}
use actor_runtime.Entities.Actor.{ActorStandbyRecord, TaskStandbyRecord}
use actor_runtime.Standby.Pool.{PoolSettings}

-- `DEFAULT_BUILD_TAG` is `latest`.
abbrev pub standby_defaults : ActorStandbyRecord
standby_defaults = record {
  is_enabled = false;
  disable_standby_fields_override = false;
  desired_requests_per_actor_run = pos 3;
  max_requests_per_actor_run = pos 4;
  idle_timeout_secs = pos 300;
  build = "latest";
  memory_mbytes = pos 1024;
  should_pass_actor_input = false;
}

abbrev pub min_idle_timeout_secs : ℕ
min_idle_timeout_secs = 5

-- The messages, by their template.
pub data StandbyRefusal : Type 0 where
  not_an_object max_below_desired build_expected single_tenant_only : StandbyRefusal
  boolean_expected integer_expected unknown_field : String → StandbyRefusal
  at_least : String → ℕ → StandbyRefusal

abbrev pub boolean_fields : List String
boolean_fields = "isEnabled" ∷ "disableStandbyFieldsOverride" ∷ "shouldPassActorInput" ∷ []

abbrev pub integer_fields : List String
integer_fields =
    "desiredRequestsPerActorRun" ∷ "maxRequestsPerActorRun" ∷ "idleTimeoutSecs" ∷ "memoryMbytes"
    ∷ []

abbrev pub admin_only_fields : List String
admin_only_fields = "isConsoleAuthEnabled" ∷ "isTokenlessEnabled" ∷ []

-- merged[key] = value, for a Boolean field.
abbrev pub set_boolean : String → Bool → ActorStandbyRecord → ActorStandbyRecord
set_boolean key b m =
    if key === "isEnabled"
    then record m { is_enabled = b }
    else (if key === "disableStandbyFieldsOverride"
        then record m { disable_standby_fields_override = b }
        else record m { should_pass_actor_input = b })

-- merged[key] = value, for an integer field.
abbrev pub set_integer : String → ℤ → ActorStandbyRecord → ActorStandbyRecord
set_integer key z m =
    if key === "desiredRequestsPerActorRun"
    then record m { desired_requests_per_actor_run = z }
    else (if key === "maxRequestsPerActorRun"
        then record m { max_requests_per_actor_run = z }
        else (if key === "idleTimeoutSecs"
            then record m { idle_timeout_secs = z }
            else record m { memory_mbytes = z }))

abbrev pub boolean_field :
    String → Json → ActorStandbyRecord → Result StandbyRefusal ActorStandbyRecord
boolean_field key (boolean b) m = ok (set_boolean key b m)
boolean_field key _ m = err (boolean_expected key)

abbrev pub integer_field :
    String → Json → ActorStandbyRecord → Result StandbyRefusal ActorStandbyRecord
integer_field key (integer z) m = ok (set_integer key z m)
integer_field key _ m = err (integer_expected key)

abbrev pub is_null : Json → Bool
is_null null = true
is_null _ = false

module _ (trim : String → String) where
  abbrev pub build_field : Json → ActorStandbyRecord → Result StandbyRefusal ActorStandbyRecord
  build_field (string s) m =
      if trim s === "" then err build_expected else ok (record m { build = s })
  build_field _ m = err build_expected

abbrev pub tenancy_field : Json → ActorStandbyRecord → Result StandbyRefusal ActorStandbyRecord
tenancy_field (string s) m = if s === "SINGLE_TENANT" then ok m else err single_tenant_only
tenancy_field _ m = err single_tenant_only

module _ (trim : String → String) where
  -- One round of the loop over the body.
  abbrev pub merge_field :
      String → Json → ActorStandbyRecord → Result StandbyRefusal ActorStandbyRecord
  merge_field key value m =
      if is_null value
      then ok m
      else (if includes boolean_fields key
          then boolean_field key value m
          else (if includes integer_fields key
              then integer_field key value m
              else (if key === "build"
                  then build_field trim value m
                  else (if key === "tenancy"
                      then tenancy_field value m
                      else (if includes admin_only_fields key
                          then ok m
                          else err (unknown_field key))))))

  unfoldable pub merge_fields :
      Fields → ActorStandbyRecord → Result StandbyRefusal ActorStandbyRecord
  merge_fields end m = ok m
  merge_fields (field key value rest) m = merge_field key value m >>= λ m'. merge_fields rest m'

-- The checks after the loop.
unfoldable pub checked : ActorStandbyRecord → Result StandbyRefusal ActorStandbyRecord
checked m = do
  guard (not (below m.desired_requests_per_actor_run 1)) (at_least "desiredRequestsPerActorRun" 1)
  guard (not (below m.max_requests_per_actor_run 1)) (at_least "maxRequestsPerActorRun" 1)
  guard (not (less m.max_requests_per_actor_run m.desired_requests_per_actor_run)) max_below_desired
  guard (not (below m.idle_timeout_secs min_idle_timeout_secs))
      (at_least "idleTimeoutSecs" min_idle_timeout_secs)
  guard (not (below m.memory_mbytes 1)) (at_least "memoryMbytes" 1)
  ok m

abbrev pub current_or_default : Option ActorStandbyRecord → ActorStandbyRecord
current_or_default none = standby_defaults
current_or_default (some c) = c

module _ (trim : String → String) where
  unfoldable pub merge_standby_update :
      Json → Option ActorStandbyRecord → Result StandbyRefusal ActorStandbyRecord
  merge_standby_update (object body) current =
      merge_fields trim body (current_or_default current) >>= λ m. checked m
  merge_standby_update raw current = err not_an_object

abbrev pub has_field : String → Fields → Bool
has_field key body = is_some (get_field key body)

-- `key in raw` on an array is false for these two keys.
abbrev pub actor_only_field : Json → Option String
actor_only_field (object body) =
    if has_field "isEnabled" body
    then some "isEnabled"
    else (if has_field "disableStandbyFieldsOverride" body
        then some "disableStandbyFieldsOverride"
        else none)
actor_only_field raw = none

-- `{ ...config, ...task.actorStandby }`
abbrev pub over : ActorStandbyRecord → TaskStandbyRecord → ActorStandbyRecord
over config t = record config {
  desired_requests_per_actor_run = t.desired_requests_per_actor_run;
  max_requests_per_actor_run = t.max_requests_per_actor_run;
  idle_timeout_secs = t.idle_timeout_secs;
  build = t.build;
  memory_mbytes = t.memory_mbytes;
  should_pass_actor_input = t.should_pass_actor_input;
}

abbrev pub task_fields : ActorStandbyRecord → TaskStandbyRecord
task_fields c = record {
  desired_requests_per_actor_run = c.desired_requests_per_actor_run;
  max_requests_per_actor_run = c.max_requests_per_actor_run;
  idle_timeout_secs = c.idle_timeout_secs;
  build = c.build;
  memory_mbytes = c.memory_mbytes;
  should_pass_actor_input = c.should_pass_actor_input;
}

abbrev pub over_defaults : Option TaskStandbyRecord → Option ActorStandbyRecord
over_defaults none = none
over_defaults (some t) = some (over standby_defaults t)

module _ (trim : String → String) where
  unfoldable pub merge_task_standby_update :
      Json → Option TaskStandbyRecord → Result StandbyRefusal TaskStandbyRecord
  merge_task_standby_update raw current = elim (actor_only_field raw) [
    | some key ↦ err (unknown_field key)
    | none ↦ merge_standby_update trim raw (over_defaults current) >>= λ c. ok (task_fields c)
  ]

-- The Actor's settings and the task's.
unfoldable pub task_standby_config :
    Option ActorStandbyRecord → Option TaskStandbyRecord → Option ActorStandbyRecord
task_standby_config none task = none
task_standby_config (some config) task =
    if not config.is_enabled
    then none
    else (if config.disable_standby_fields_override
        then some config
        else (elim task [ none ↦ some config | some t ↦ some (over config t) ]))

-- What the pool reads of the settings.
abbrev pub pool_settings : ActorStandbyRecord → PoolSettings
pool_settings c = record {
  desired_requests = pos_part c.desired_requests_per_actor_run;
  max_requests = pos_part c.max_requests_per_actor_run;
  idle_timeout_secs = pos_part c.idle_timeout_secs;
}
