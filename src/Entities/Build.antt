-- ===== src/Entities/Build.antt =====
-- The build record of src/storage/entities.ts. `S` is the type of the schemas, passed on unread.
use actor_runtime.Base.{ℕ, String, Option, List}
use actor_runtime.Base.Dict.{Dict}
use actor_runtime.Jobs.Status.{JobStatus}

-- `string | number`
pub data MemoryDefault : Type 0 where
  expression : String → MemoryDefault
  mbytes : ℕ → MemoryDefault

pub record ActorMemorySettings : Type 0 where
  pub default_memory_mbytes : Option MemoryDefault
  pub min_memory_mbytes : Option ℕ
  pub max_memory_mbytes : Option ℕ

pub record BuildRecord (S : Type 0) : Type 0 where
  pub id : String
  pub user_id : String
  pub actor_id : String
  pub version_number : String
  pub build_number : String
  pub tag : String
  pub status : JobStatus
  pub started_at : ℕ
  pub finished_at : Option ℕ
  pub image_id : Option String
  pub image_working_directory : Option String
  pub input_schema : Option S
  pub dataset_schemas : Option (Dict S)
  pub memory_settings : Option ActorMemorySettings
  pub extra_dataset_aliases : Option (List String)
  pub exit_code : Option ℕ
  pub status_message : Option String
