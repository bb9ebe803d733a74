-- ===== src/Storages.antt =====
-- src/services/storages.ts: the records of user-facing storages. The Crawlee storages themselves are
-- third-party; which of them are opened and dropped is a list, newest first. The ids that `generateId`
-- gives and the time are arguments.
pub mod Ownership
use actor_runtime.Base.{
  ℕ, String, ◌≡◌, Bool, true, false, not, ◌&&◌, ◌||◌, Option, none, some, List, [], ◌∷◌, keep,
  find_first, is_some, ◌===◌, if◌then◌else◌,
}
use actor_runtime.Jobs.Registry
use actor_runtime.Jobs.Registry.{Registry, on_record}
use actor_runtime.Entities.Storage.{
  StorageType, dataset, key_value_store, request_queue, StorageRecord, UserRecord,
}
use actor_runtime.ResourceReference.{
  ResourceReference, ResourceOwnerReference, id, named, empty_name, is_caller_owner, normalize_name,
}

pub data Backend : Type 0 where
  opened dropped : StorageType → String → Backend
  buffer_closed : String → Backend

pub record StorageOwner : Type 0 where
  pub act_id : String
  pub act_run_id : String

pub record Storages (S : Type 0) : Type 0 where
  pub registry : Registry (StorageRecord S)
  pub backend : List Backend

unfoldable pub same_type : StorageType → StorageType → Bool
same_type dataset dataset = true
same_type key_value_store key_value_store = true
same_type request_queue request_queue = true
same_type _ _ = false

abbrev act_of : Option StorageOwner → Option String
act_of none = none
act_of (some o) = some o.act_id

abbrev run_of : Option StorageOwner → Option String
run_of none = none
run_of (some o) = some o.act_run_id

abbrev drops : StorageType → String → List Backend → List Backend
drops dataset storage_id b = dropped dataset storage_id ∷ b
drops key_value_store storage_id b = dropped key_value_store storage_id ∷ b
drops request_queue storage_id b = dropped request_queue storage_id ∷ buffer_closed storage_id ∷ b

module _ {S : Type 0} where
  unfoldable pub get_owned_storage :
      Storages S → String → String → StorageType → Option (StorageRecord S)
  get_owned_storage s owner storage_id kind = elim (Registry.get s.registry storage_id) [
    | none ↦ none
    | some r ↦ if not (r.user_id === owner) || not (same_type r.kind kind) then none else some r
  ]

  -- The filter of `listOwnedStorages`.
  abbrev pub is_listed : String → StorageType → Bool → StorageRecord S → Bool
  is_listed owner kind include_unnamed r =
      (r.user_id === owner) && same_type r.kind kind && (include_unnamed || is_some r.name)

  unfoldable pub list_owned_storages :
      Storages S → String → StorageType → Bool → List (StorageRecord S)
  list_owned_storages s owner kind include_unnamed =
      keep (is_listed owner kind include_unnamed) (Registry.list s.registry)

  unfoldable pub list_all_storages : Storages S → StorageType → List (StorageRecord S)
  list_all_storages s kind = keep (λ r. same_type r.kind kind) (Registry.list s.registry)

  unfoldable pub get_storage_by_id : Storages S → String → StorageType → Option (StorageRecord S)
  get_storage_by_id s storage_id kind = elim (Registry.get s.registry storage_id) [
    | none ↦ none
    | some r ↦ if not (same_type r.kind kind) then none else some r
  ]

  unfoldable pub touch_storage : ℕ → String → Storages S → Storages S
  touch_storage now storage_id s = record s {
    registry =
        (Registry.update s.registry storage_id (on_record (λ r. record r { accessed_at = now }))).0;
  }

  unfoldable pub rename_storage :
      ℕ → String → String → Storages S → Storages S × Option (StorageRecord S)
  rename_storage now storage_id name s =
      let (registry', renamed) =
        Registry.update s.registry storage_id
          (on_record (λ r. record r { name = some name; modified_at = now })) in
      (record s { registry = registry' }, renamed)

  unfoldable pub drop_storage : StorageRecord S → Storages S → Storages S
  drop_storage r s = record {
    registry = Registry.delete s.registry r.id;
    backend = drops r.kind r.id s.backend;
  }

  abbrev schema_for : StorageType → Option S → Option S
  schema_for dataset schema = schema
  schema_for key_value_store schema = none
  schema_for request_queue schema = none

  unfoldable pub new_storage :
      ℕ
      → String
      → String
      → StorageType
      → Option String
      → Option S
      → Option StorageOwner
      → StorageRecord S
  new_storage now fresh owner kind name schema made_by = record {
    id = fresh;
    kind = kind;
    user_id = owner;
    name = name;
    created_at = now;
    modified_at = now;
    accessed_at = now;
    schema = schema_for kind schema;
    act_id = act_of made_by;
    act_run_id = run_of made_by;
  }

  unfoldable pub add_storage :
      ℕ
      → String
      → String
      → StorageType
      → Option String
      → Option S
      → Option StorageOwner
      → Storages S
      → Storages S × StorageRecord S
  unfolding new_storage
  add_storage now fresh owner kind name schema made_by s =
      let r = new_storage now fresh owner kind name schema made_by in
      (
        record {
          registry = Registry.set s.registry fresh r;
          backend = opened kind fresh ∷ s.backend;
        },
        r,
      )

module _ {S : Type 0} (to_lower_case : String → String) where
  abbrev pub is_named : String → StorageRecord S → Bool
  is_named wanted r = elim r.name [
    | none ↦ false
    | some n ↦ normalize_name to_lower_case n === wanted
  ]

  unfoldable pub find_owned_storage_by_name :
      Storages S → String → StorageType → String → Option (StorageRecord S)
  find_owned_storage_by_name s owner kind name =
      find_first (is_named (normalize_name to_lower_case name))
        (list_owned_storages s owner kind false)

  -- An empty name is no name. The per-name mutex makes the look-up and the write one step.
  unfoldable pub create_storage :
      ℕ
      → String
      → String
      → StorageType
      → Option String
      → Option S
      → Option StorageOwner
      → Storages S
      → Storages S × StorageRecord S
  create_storage now fresh owner kind none schema made_by s =
      add_storage now fresh owner kind none schema made_by s
  create_storage now fresh owner kind (some name) schema made_by s =
      if name === ""
      then add_storage now fresh owner kind none schema made_by s
      else elim (find_owned_storage_by_name s owner kind name) [
        | some existing ↦ (s, existing)
        | none ↦ add_storage now fresh owner kind (some name) schema made_by s
      ]

  unfoldable pub resolve_owned_storage :
      Storages S → UserRecord → ResourceReference → StorageType → Option (StorageRecord S)
  resolve_owned_storage s user (id storage_id) kind = get_owned_storage s user.id storage_id kind
  resolve_owned_storage s user (named owner name) kind =
      if is_caller_owner to_lower_case user owner
      then find_owned_storage_by_name s user.id kind name
      else none
  resolve_owned_storage s user empty_name kind = none
