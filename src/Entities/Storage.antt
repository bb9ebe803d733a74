-- ===== src/Entities/Storage.antt =====
-- The storage and user records of src/storage/entities.ts. `S` is the type of a dataset schema, which
-- these modules pass on unread.
use actor_runtime.Base.{ℕ, String, Option, List}

pub data StorageType : Type 0 where
  dataset key_value_store request_queue : StorageType

pub record StorageRecord (S : Type 0) : Type 0 where
  pub id : String
  pub kind : StorageType
  pub user_id : String
  pub name : Option String
  pub created_at : ℕ
  pub modified_at : ℕ
  pub accessed_at : ℕ
  pub schema : Option S
  pub act_id : Option String
  pub act_run_id : Option String

pub record UserRecord : Type 0 where
  pub id : String
  pub username : String
  pub token : String
  pub tokens : Option (List String)
  pub created_at : ℕ
  pub proxy_password : Option String
