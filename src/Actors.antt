-- ===== src/Actors.antt =====
-- src/services/actors.ts, with the sealing of secrets in src/services/secrets.ts. The key generator, the
-- encryption and the lower-casing are parameters; ids and times are arguments.
pub mod Sealed
pub mod Tags
use actor_runtime.Base.{
  ℕ, String, Bool, true, false, not, ◌&&◌, ◌||◌, Option, none, some, List, [], ◌∷◌, ◌++◌, map, keep,
  find_first, or_else, is_some, ◌===◌, if◌then◌else◌,
}
use actor_runtime.Base.Dict.{Dict, insert}
use actor_runtime.Jobs.Registry
use actor_runtime.Jobs.Registry.{Registry}
use actor_runtime.Entities.Storage.{UserRecord}
use actor_runtime.Entities.Pricing.{ActorPricingInfoRecord}
use actor_runtime.Entities.Actor.{
  ActorEnvVarRecord, ActorSecretKeys, ActorVersionRecord, ActorStandbyRecord,
  ActorDefaultRunOptionsRecord, TaggedBuild, ActorRecord,
}
use actor_runtime.ResourceReference.{
  ResourceReference, ResourceOwnerReference, id, named, empty_name, is_caller_owner, normalize_name,
}
use actor_runtime.Pricing.{UpdateRefusal}

abbrev pub default_build_tag : String
default_build_tag = "latest"

-- Secret, and not encrypted yet.
abbrev pub needs_sealing : ActorEnvVarRecord → Bool
needs_sealing v = or_else v.is_secret false && not (is_some v.encrypted_aes256_password)

abbrev pub any : {A : Type 0} → (A → Bool) → List A → Bool
any p [] = false
any p (x ∷ xs) = p x || any p xs

abbrev pub version_needs_sealing : ActorVersionRecord → Bool
version_needs_sealing v = elim v.env_vars [ none ↦ false | some vars ↦ any needs_sealing vars ]

-- `publicEncrypt` of the text for an Actor id, a name and a value: the encrypted value and its password.
abbrev pub Encrypt : Type 0
Encrypt = ActorSecretKeys → String → String → String → String × String

module _ (encrypt : Encrypt) where
  abbrev pub seal : ActorSecretKeys → String → ActorEnvVarRecord → ActorEnvVarRecord
  seal keys actor_id v =
      let (value, password) = encrypt keys actor_id v.name v.value in
      if needs_sealing v
      then record v { value = value; encrypted_aes256_password = some password }
      else v

  abbrev pub seal_version : ActorSecretKeys → String → ActorVersionRecord → ActorVersionRecord
  seal_version keys actor_id v = elim v.env_vars [
    | none ↦ v
    | some vars ↦
        if any needs_sealing vars
        then record v { env_vars = some (map (seal keys actor_id) vars) }
        else v
  ]

  module _ {U : Type 0} where
    -- `none` where there is a secret to seal and no key pair, for which the source throws.
    unfoldable pub seal_actor_secrets : ActorRecord U → Option (ActorRecord U)
    seal_actor_secrets a =
        if any version_needs_sealing a.versions
        then (elim a.secret_keys [
          | none ↦ none
          | some keys ↦ some (record a { versions = map (seal_version keys a.id) a.versions })
        ])
        else some a

pub record CreateActorInput (U : Type 0) : Type 0 where
  pub name : String
  pub title : Option String
  pub versions : Option (List ActorVersionRecord)
  pub actor_standby : Option ActorStandbyRecord
  pub default_run_options : Option (ActorDefaultRunOptionsRecord U)

module _ {U : Type 0} where
  abbrev pub give_keys : ActorSecretKeys → Option (ActorRecord U) → Option (ActorRecord U)
  give_keys keys none = none
  give_keys keys (some a) =
      if is_some a.secret_keys then some a else some (record a { secret_keys = some keys })

  abbrev pub lacks_keys : Option (ActorRecord U) → Bool
  lacks_keys none = false
  lacks_keys (some a) = not (is_some a.secret_keys)

  -- ensureSecretKeys, where the Actor was read without a key pair.
  unfoldable pub ensure_secret_keys :
      ActorSecretKeys → String → Registry (ActorRecord U) → Registry (ActorRecord U)
  ensure_secret_keys keys actor_id actors =
      if lacks_keys (Registry.get actors actor_id)
      then (Registry.update actors actor_id (give_keys keys)).0
      else actors

  abbrev pub new_actor : String → ActorSecretKeys → ℕ → String → CreateActorInput U → ActorRecord U
  new_actor generated keys now user_id input = record {
    id = generated;
    user_id = user_id;
    name = input.name;
    title = input.title;
    created_at = now;
    modified_at = now;
    versions = or_else input.versions [];
    pricing_infos = none;
    actor_standby = input.actor_standby;
    default_run_options = input.default_run_options;
    tagged_builds = [];
    secret_keys = some keys;
  }

  unfoldable pub create_actor :
      Encrypt
      → Registry (ActorRecord U)
      → String
      → ActorSecretKeys
      → ℕ
      → String
      → CreateActorInput U
      → Registry (ActorRecord U) × Option (ActorRecord U)
  create_actor encrypt actors generated keys now user_id input =
      elim (seal_actor_secrets encrypt (new_actor generated keys now user_id input)) [
        | none ↦ (actors, none)
        | some a ↦ (Registry.set actors a.id a, some a)
      ]

  unfoldable pub list_owned_actors : Registry (ActorRecord U) → String → List (ActorRecord U)
  list_owned_actors actors user_id = keep (λ a. a.user_id === user_id) (Registry.list actors)

  abbrev owned_actor : String → Option (ActorRecord U) → Option (ActorRecord U)
  owned_actor user_id none = none
  owned_actor user_id (some a) = if a.user_id === user_id then some a else none

  unfoldable pub get_owned_actor :
      Registry (ActorRecord U) → String → String → Option (ActorRecord U)
  get_owned_actor actors user_id actor_id = owned_actor user_id (Registry.get actors actor_id)

  unfoldable pub find_owned_actor_by_name :
      (String → String) → Registry (ActorRecord U) → String → String → Option (ActorRecord U)
  find_owned_actor_by_name to_lower_case actors user_id wanted =
      find_first (λ a. normalize_name to_lower_case a.name === normalize_name to_lower_case wanted)
        (list_owned_actors actors user_id)

  -- A bare segment is tried as an id and then as a name.
  unfoldable pub resolve_owned_actor :
      (String → String)
      → Registry (ActorRecord U)
      → UserRecord
      → ResourceReference
      → Option (ActorRecord U)
  resolve_owned_actor to_lower_case actors user (id i) = elim (get_owned_actor actors user.id i) [
    | some a ↦ some a
    | none ↦ find_owned_actor_by_name to_lower_case actors user.id i
  ]
  resolve_owned_actor to_lower_case actors user (named owner name) =
      if is_caller_owner to_lower_case user owner
      then find_owned_actor_by_name to_lower_case actors user.id name
      else none
  resolve_owned_actor to_lower_case actors user empty_name = none

  -- What updateActor writes; `none` where the sealing throws, and then nothing is written.
  abbrev pub updated_actor :
      Encrypt → (ActorRecord U → ActorRecord U) → ℕ → ActorRecord U → Option (ActorRecord U)
  updated_actor encrypt mutator now current =
      seal_actor_secrets encrypt (record (mutator current) { modified_at = now })

  abbrev pub write_actor :
      Registry (ActorRecord U)
      → String
      → Option (ActorRecord U)
      → Registry (ActorRecord U) × Option (ActorRecord U)
  write_actor actors actor_id none = (actors, none)
  write_actor actors actor_id (some a) = Registry.update actors actor_id (λ current. some a)

  abbrev pub update_found :
      Encrypt
      → Registry (ActorRecord U)
      → String
      → (ActorRecord U → ActorRecord U)
      → ℕ
      → Option (ActorRecord U)
      → Registry (ActorRecord U) × Option (ActorRecord U)
  update_found encrypt actors actor_id mutator now none = (actors, none)
  update_found encrypt actors actor_id mutator now (some current) =
      write_actor actors actor_id (updated_actor encrypt mutator now current)

  -- updateActor; `keys` is the pair that is generated where there is none.
  unfoldable pub update_actor :
      Encrypt
      → ActorSecretKeys
      → Registry (ActorRecord U)
      → String
      → (ActorRecord U → ActorRecord U)
      → ℕ
      → Registry (ActorRecord U) × Option (ActorRecord U)
  update_actor encrypt keys actors actor_id mutator now =
      let keyed = ensure_secret_keys keys actor_id actors in
      update_found encrypt keyed actor_id mutator now (Registry.get keyed actor_id)

  unfoldable pub delete_actor : Registry (ActorRecord U) → String → Registry (ActorRecord U)
  delete_actor actors actor_id = Registry.delete actors actor_id

  unfoldable pub add_or_replace_version : ActorVersionRecord → ActorRecord U → ActorRecord U
  add_or_replace_version version a = record a {
    versions =
        keep (λ v. not (v.version_number === version.version_number)) a.versions ++ version ∷ [];
  }

  unfoldable pub find_version : ActorRecord U → String → Option ActorVersionRecord
  find_version a number = find_first (λ v. v.version_number === number) a.versions

  unfoldable pub record_tagged_build : String → String → String → ActorRecord U → ActorRecord U
  record_tagged_build tag build_id build_number a = record a {
    tagged_builds =
        insert tag (record { build_id = build_id; build_number = build_number }) a.tagged_builds;
  }
