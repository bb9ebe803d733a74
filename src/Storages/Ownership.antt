-- ===== src/Storages/Ownership.antt =====
-- Who is given which storage (src/services/storages.ts).
use actor_runtime.Base.{
  ℕ, String, ◌≡◌, ◌≢◌, refl, Bool, true, false, not, ◌||◌, Option, none, some, List, [], ◌∷◌, ◌++◌,
  arith, keep, find_first, ◌===◌, if◌then◌else◌, eq_iff, eq_refl, Bool-cases, Option-cases, inl,
  inr, ap, ◌∙◌,
}
use actor_runtime.Base.Dict.{Dict, lookup, insert, values}
use actor_runtime.Jobs.Registry
use actor_runtime.Jobs.Registry.{Registry}
use actor_runtime.Entities.Storage.{
  StorageType, StorageRecord, UserRecord, dataset, key_value_store, request_queue,
}
use actor_runtime.ResourceReference.{
  ResourceReference, id, named, empty_name, is_caller_owner, normalize_name,
}
use actor_runtime.Storages.{
  Storages, StorageOwner, same_type, get_owned_storage, list_owned_storages, is_listed, is_named,
  find_owned_storage_by_name, create_storage, add_storage, new_storage, resolve_owned_storage,
}

module _ {ℓ} {A : Type ℓ} where
  -- What is found in a filtered list passes both tests.
  found_passes :
      (p q : A → Bool) (xs : List A) (a : A) → find_first p (keep q xs) ≡ some a → q a ≡ true
  found_passes p q [] a h = cc
  found_passes p q (x ∷ xs) a h = elim (Bool-cases (q x)) [
    | inl kept ↦ elim (Bool-cases (p x)) [
      | inl hit ↦ ground (arith, rw (kept, hit) at h, kept)
      | inr miss ↦ found_passes p q xs a (rw (kept, miss) at h)
    ]
    | inr dropped ↦ found_passes p q xs a (rw dropped at h)
  ]

  find-keep-append :
      (p q : A → Bool) (xs : List A) (a : A)
      → find_first p (keep q xs) ≡ none
      → q a ≡ true
      → p a ≡ true
      → find_first p (keep q (xs ++ a ∷ [])) ≡ some a
  find-keep-append p q [] a h k l = rw (k, l)
  find-keep-append p q (x ∷ xs) a h k l = elim (Bool-cases (q x)) [
    | inl kept ↦ elim (Bool-cases (p x)) [
      | inl hit ↦ absurd (clash (rw (kept, hit) at h))
      | inr miss ↦ rw (kept, miss) (find-keep-append p q xs a (rw (kept, miss) at h) k l)
    ]
    | inr dropped ↦ rw dropped (find-keep-append p q xs a (rw dropped at h) k l)
  ]
    where
      clash : some x ≡ none → ⊥
      clash e = cc

  values-insert :
      (k : String) (v : A) (m : Dict A)
      → lookup k m ≡ none
      → values (insert k v m) ≡ values m ++ v ∷ []
  unfolding lookup insert
  values-insert k v [] h = refl
  values-insert k v ((j, w) ∷ m) h = elim (Bool-cases (j === k)) [
    | inl same ↦ absurd (clash (rw same at h))
    | inr other ↦ rw other (ap (λ t. w ∷ t) (values-insert k v m (rw other at h)))
  ]
    where
      clash : some w ≡ none → ⊥
      clash e = cc

same_type_refl : (k : StorageType) → same_type k k ≡ true
unfolding same_type
same_type_refl dataset = refl
same_type_refl key_value_store = refl
same_type_refl request_queue = refl

named_test : (name : String) → name ≢ "" → (name === "") ≡ false
named_test name h = ground (arith, eq_iff name "")

some_inj : {A : Type 0} {a b : A} → some a ≡ some b → a ≡ b
some_inj h = cc

module _ {S : Type 0} (to_lower_case : String → String) where
  listed_owner :
      (owner : String) (kind : StorageType) (unnamed : Bool) (r : StorageRecord S)
      → is_listed owner kind unnamed r ≡ true
      → (r.user_id ≡ owner) × (same_type r.kind kind ≡ true)
  listed_owner owner kind unnamed r h = ground (arith, eq_iff r.user_id owner)

  owned_found :
      (s : Storages S) (owner storage_id : String) (kind : StorageType) (r : StorageRecord S)
      → get_owned_storage s owner storage_id kind ≡ some r
      → (r.user_id ≡ owner) × (same_type r.kind kind ≡ true)
  unfolding get_owned_storage
  owned_found s owner storage_id kind r h =
      elim (Option-cases (Registry.get s.registry storage_id)) [
        | inl missing ↦ absurd (clash (rw (missing, get_owned_storage) at h))
        | inr (t, there) ↦ checked t (rw (there, get_owned_storage) at h)
      ]
    where
      clash : none ≡ some r → ⊥
      clash e = cc

      checked :
          (t : StorageRecord S)
          → (if not (t.user_id === owner) || not (same_type t.kind kind) then none else some t)
            ≡ some r
          → (r.user_id ≡ owner) × (same_type r.kind kind ≡ true)
      checked t k = elim (Bool-cases (t.user_id === owner)) [
        | inl mine ↦ elim (Bool-cases (same_type t.kind kind)) [
          | inl alike ↦
              let same : t ≡ r = some_inj (rw (mine, alike) at k) in
              (rw same at ((eq_iff t.user_id owner).0 mine), rw same at alike)
          | inr unlike ↦ absurd (clash (rw (mine, unlike) at k))
        ]
        | inr other ↦ absurd (clash (rw other at k))
      ]

  -- However a caller refers to a storage, what is found is the caller's own and of the type asked for.
  pub resolve_owned_storage_owned :
      (s : Storages S) (user : UserRecord) (reference : ResourceReference) (kind : StorageType)
      (r : StorageRecord S)
      → resolve_owned_storage to_lower_case s user reference kind ≡ some r
      → (r.user_id ≡ user.id) × (same_type r.kind kind ≡ true)
  unfolding resolve_owned_storage
  resolve_owned_storage_owned s user (id i) kind r h = owned_found s user.id i kind r h
  resolve_owned_storage_owned s user (named owner name) kind r h =
      elim (Bool-cases (is_caller_owner to_lower_case user owner)) [
        | inl mine ↦ listed_owner user.id kind false r (
            found_passes (is_named to_lower_case (normalize_name to_lower_case name))
              (is_listed user.id kind false) (Registry.list s.registry) r
              (unfold find_owned_storage_by_name list_owned_storages in (rw mine at h)))
        | inr other ↦ absurd (clash (rw other at h))
      ]
    where
      clash : none ≡ some r → ⊥
      clash e = cc
  resolve_owned_storage_owned s user empty_name kind r h = cc

  find-same :
      (s : Storages S) (owner : String) (kind : StorageType) (name name' : String)
      → to_lower_case name ≡ to_lower_case name'
      → find_owned_storage_by_name to_lower_case s owner kind name'
        ≡ find_owned_storage_by_name to_lower_case s owner kind name
  unfolding find_owned_storage_by_name
  find-same s owner kind name name' h = rw h

  create_storage_found :
      (now : ℕ) (fresh owner : String) (kind : StorageType) (name : String) (schema : Option S)
      (made_by : Option StorageOwner) (s : Storages S) (r : StorageRecord S)
      → name ≢ ""
      → find_owned_storage_by_name to_lower_case s owner kind name ≡ some r
      → create_storage to_lower_case now fresh owner kind (some name) schema made_by s ≡ (s, r)
  unfolding create_storage
  create_storage_found now fresh owner kind name schema made_by s r nonempty found =
      rw (named_test name nonempty, found)

  create_storage_missing :
      (now : ℕ) (fresh owner : String) (kind : StorageType) (name : String) (schema : Option S)
      (made_by : Option StorageOwner) (s : Storages S)
      → name ≢ ""
      → find_owned_storage_by_name to_lower_case s owner kind name ≡ none
      → create_storage to_lower_case now fresh owner kind (some name) schema made_by s
        ≡ add_storage now fresh owner kind (some name) schema made_by s
  unfolding create_storage
  create_storage_missing now fresh owner kind name schema made_by s nonempty missing =
      rw (named_test name nonempty, missing)

  values-set :
      (r : Registry (StorageRecord S)) (k : String) (v : StorageRecord S)
      → Registry.get r k ≡ none
      → Registry.list (Registry.set r k v) ≡ Registry.list r ++ v ∷ []
  unfolding Registry.set Registry.get Registry.list
  values-set r k v h = elim (Bool-cases r.listening) [
    | inl on ↦ rw on (values-insert k v r.store h)
    | inr off ↦ rw off (values-insert k v r.store h)
  ]

  find_added :
      (now : ℕ) (fresh owner : String) (kind : StorageType) (name : String) (schema : Option S)
      (made_by : Option StorageOwner) (s : Storages S)
      → Registry.get s.registry fresh ≡ none
      → find_owned_storage_by_name to_lower_case s owner kind name ≡ none
      → find_owned_storage_by_name to_lower_case
          (add_storage now fresh owner kind (some name) schema made_by s).0
          owner
          kind
          name
        ≡ some (new_storage now fresh owner kind (some name) schema made_by)
  unfolding find_owned_storage_by_name list_owned_storages add_storage
  find_added now fresh owner kind name schema made_by s unused missing =
      let r = new_storage now fresh owner kind (some name) schema made_by in
      rw (values-set s.registry fresh r unused) (
        find-keep-append (is_named to_lower_case (normalize_name to_lower_case name))
          (is_listed owner kind false) (Registry.list s.registry) r missing
          (rw (eq_refl owner, same_type_refl kind)) (eq_refl (to_lower_case name)))

  -- Creating a storage by name is idempotent: a second creation under a name that is the same but
  -- for case, by the same user for the same type, changes nothing and gives the storage of the
  -- first, if neither name is empty and no storage has the id generated for the first.
  pub create_storage_idempotent :
      (now later : ℕ) (fresh fresh' owner : String) (kind : StorageType) (name name' : String)
      (schema schema' : Option S) (made_by made_by' : Option StorageOwner) (s : Storages S)
      → name ≢ ""
      → name' ≢ ""
      → to_lower_case name ≡ to_lower_case name'
      → Registry.get s.registry fresh ≡ none
      → let first =
          create_storage to_lower_case now fresh owner kind (some name) schema made_by s in
        create_storage to_lower_case later fresh' owner kind (some name') schema' made_by' first.0
        ≡ first
  unfolding add_storage
  create_storage_idempotent now later fresh fresh' owner kind name name' schema schema' made_by
        made_by' s nonempty nonempty' alike unused =
      elim (Option-cases (find_owned_storage_by_name to_lower_case s owner kind name)) [
        | inl missing ↦
            rw (create_storage_missing now fresh owner kind name schema made_by s nonempty missing)
              (create_storage_found later fresh' owner kind name' schema' made_by'
                (add_storage now fresh owner kind (some name) schema made_by s).0
                (new_storage now fresh owner kind (some name) schema made_by) nonempty'
                (find-same _ owner kind name name' alike
                  ∙ find_added now fresh owner kind name schema made_by s unused missing))
        | inr (r, found) ↦
            rw (create_storage_found now fresh owner kind name schema made_by s r nonempty found) (
              create_storage_found later fresh' owner kind name' schema' made_by' s r nonempty'
                (find-same s owner kind name name' alike ∙ found))
      ]
