-- ===== src/Entities/Actor.antt =====
-- The Actor, version and standby records of src/storage/entities.ts. `U` is the type of amounts in USD.
-- The `local*` toggles are not modelled.
use actor_runtime.Base.{ℕ, String, Bool, Option, List}
use actor_runtime.Base.Dict.{Dict}
use actor_runtime.Base.Json.{ℤ}
use actor_runtime.Entities.Pricing.{ActorPricingInfoRecord}

pub data SourceFormat : Type 0 where
  plain base64 : SourceFormat

pub record SourceFile : Type 0 where
  pub name : String
  pub format : SourceFormat
  pub content : String
  pub link_target : Option String

pub record ActorEnvVarRecord : Type 0 where
  pub name : String
  pub value : String
  pub is_secret : Option Bool
  pub encrypted_aes256_password : Option String

pub record ActorSecretKeys : Type 0 where
  pub public_key : String
  pub private_key : String
  pub passphrase : String

pub record LocalSourceContextGit : Type 0 where
  pub remote_url : Option String
  pub branch : Option String
  pub commit : Option String
  pub dirty : Option Bool

pub record LocalSourceContext : Type 0 where
  pub file_id : String
  pub actor_path : String
  pub file_count : ℕ
  pub size_bytes : ℕ
  pub uploaded_at : ℕ
  pub git : Option LocalSourceContextGit

-- `sourceType` has the one value SOURCE_FILES.
pub record ActorVersionRecord : Type 0 where
  pub version_number : String
  pub build_tag : String
  pub source_files : List SourceFile
  pub env_vars : Option (List ActorEnvVarRecord)
  pub apply_env_vars_to_build : Option Bool
  pub local_source_context : Option LocalSourceContext

-- `tenancy` has the one value SINGLE_TENANT.
pub record ActorStandbyRecord : Type 0 where
  pub is_enabled : Bool
  pub disable_standby_fields_override : Bool
  pub desired_requests_per_actor_run : ℤ
  pub max_requests_per_actor_run : ℤ
  pub idle_timeout_secs : ℤ
  pub build : String
  pub memory_mbytes : ℤ
  pub should_pass_actor_input : Bool

pub record TaskStandbyRecord : Type 0 where
  pub desired_requests_per_actor_run : ℤ
  pub max_requests_per_actor_run : ℤ
  pub idle_timeout_secs : ℤ
  pub build : String
  pub memory_mbytes : ℤ
  pub should_pass_actor_input : Bool

pub record ActorDefaultRunOptionsRecord (U : Type 0) : Type 0 where
  pub build : String
  pub timeout_secs : ℕ
  pub memory_mbytes : ℕ
  pub max_total_charge_usd : Option U
  pub restart_on_error : Option Bool
  pub max_items : Option ℕ
  pub force_permission_level : Option String

pub record TaggedBuild : Type 0 where
  pub build_id : String
  pub build_number : String

pub record ActorRecord (U : Type 0) : Type 0 where
  pub id : String
  pub user_id : String
  pub name : String
  pub title : Option String
  pub created_at : ℕ
  pub modified_at : ℕ
  pub versions : List ActorVersionRecord
  pub pricing_infos : Option (List (ActorPricingInfoRecord U))
  pub actor_standby : Option ActorStandbyRecord
  pub default_run_options : Option (ActorDefaultRunOptionsRecord U)
  pub tagged_builds : Dict TaggedBuild
  pub secret_keys : Option ActorSecretKeys
