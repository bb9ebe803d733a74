-- ===== src/Entities/Run.antt =====
-- The run and build records of src/storage/entities.ts.
use actor_runtime.Base.{ℕ, String, Bool, Option}
use actor_runtime.Base.Dict.{Dict}
use actor_runtime.Jobs.Status.{JobStatus}
use actor_runtime.Entities.Pricing.{RunPricingInfoRecord}

pub data RunGeneralAccess : Type 0 where
  follow_user_setting restricted anyone_with_id_can_read : RunGeneralAccess

pub data DebugLanguage : Type 0 where
  node python : DebugLanguage

pub record LocalDebug : Type 0 where
  pub language : DebugLanguage
  pub port : ℕ

pub record LocalBrowserView : Type 0 where
  pub interactive : Bool
  pub vnc_host : String
  pub vnc_port : ℕ

pub record RunMeta : Type 0 where
  pub origin : String
  pub schedule_id : Option String
  pub scheduled_act2_id : Option String
  pub scheduled_actor_task_id : Option String
  pub scheduled_at : Option ℕ

pub record RunOptions (U : Type 0) : Type 0 where
  pub memory_mbytes : ℕ
  pub timeout_secs : ℕ
  pub build : Option String
  pub disk_mbytes : Option ℕ
  pub max_total_charge_usd : Option U
  pub restart_on_error : Option Bool

-- `RunTelemetrySnapshot` of src/services/events-channel.ts.
pub record Telemetry (U : Type 0) : Type 0 where
  pub mem_avg_bytes : U
  pub mem_max_bytes : U
  pub mem_current_bytes : U
  pub cpu_avg_usage : U
  pub cpu_max_usage : U
  pub cpu_current_usage : U

-- The six sampled figures are only ever written together, so they are one optional field.
pub record RunStats (U : Type 0) : Type 0 where
  pub migration_count : Option ℕ
  pub reboot_count : Option ℕ
  pub restart_count : Option ℕ
  pub resurrect_count : Option ℕ
  pub input_body_len : Option ℕ
  pub duration_millis_before_resurrect : Option ℕ
  pub telemetry : Option (Telemetry U)

pub record StorageIds : Type 0 where
  pub datasets : Dict String
  pub key_value_stores : Dict String
  pub request_queues : Dict String

pub record RunRecord (U : Type 0) : Type 0 where
  pub id : String
  pub user_id : String
  pub actor_id : String
  pub actor_task_id : Option String
  pub build_id : String
  pub build_number : String
  pub status : JobStatus
  pub started_at : ℕ
  pub finished_at : Option ℕ
  pub default_dataset_id : String
  pub default_key_value_store_id : String
  pub default_request_queue_id : String
  pub storage_ids : Option StorageIds
  pub options : RunOptions U
  pub exit_code : Option ℕ
  pub status_message : Option String
  pub is_status_message_terminal : Option Bool
  pub is_status_message_from_runtime : Option Bool
  pub meta : RunMeta
  pub resurrected_at : Option ℕ
  pub stats : Option (RunStats U)
  pub pricing_info : Option (RunPricingInfoRecord U)
  pub charged_event_counts : Option (Dict ℕ)
  pub charging_stopped_at : Option ℕ
  pub general_access : Option RunGeneralAccess
  pub local_debug : Option LocalDebug
  pub local_browser_view : Option LocalBrowserView
