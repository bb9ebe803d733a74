-- ===== src/Actors/Tags.antt =====
-- What a write of src/services/actors.ts does to the tags of an Actor.
use actor_runtime.Base.{
  ℕ, String, ◌≡◌, refl, sym, ◌∙◌, true, false, Option, none, some, map, is_some, if◌then◌else◌,
  Bool-cases, Option-cases, inl, inr, eq_refl,
}
use actor_runtime.Base.Dict.{Dict}
use actor_runtime.Jobs.Registry
use actor_runtime.Jobs.Registry.{Registry, get-update, on_record}
use actor_runtime.Entities.Actor.{ActorSecretKeys, TaggedBuild, ActorRecord}
use actor_runtime.Actors.{
  Encrypt, any, version_needs_sealing, seal_version, seal_actor_secrets, give_keys, lacks_keys,
  ensure_secret_keys, update_actor,
}

module _ {U : Type 0} where
  abbrev pub tags_in : Option (ActorRecord U) → Option (Dict TaggedBuild)
  tags_in none = none
  tags_in (some a) = some a.tagged_builds

  -- The tags of an Actor, if it is there.
  abbrev pub tags_of : Registry (ActorRecord U) → String → Option (Dict TaggedBuild)
  tags_of actors actor_id = tags_in (Registry.get actors actor_id)

  -- A mutator that does `f` to the tags and leaves the key pair.
  pub record Retags (f : Dict TaggedBuild → Dict TaggedBuild) (m : ActorRecord U → ActorRecord U)
      : Type 0 where
    pub tags : (a : ActorRecord U) → (m a).tagged_builds ≡ f a.tagged_builds
    pub keys : (a : ActorRecord U) → (m a).secret_keys ≡ a.secret_keys

  abbrev Keyed : Option (ActorRecord U) → Option (ActorRecord U) → Type 0
  Keyed none o = o ≡ none
  Keyed (some a) o =
      (b : ActorRecord U) × (o ≡ some b)
      × (b.tagged_builds ≡ a.tagged_builds)
      × (is_some b.secret_keys ≡ true)

  ensured :
      (keys : ActorSecretKeys) (actors : Registry (ActorRecord U)) (actor_id : String)
      → Keyed
          (Registry.get actors actor_id)
          (Registry.get (ensure_secret_keys keys actor_id actors) actor_id)
  unfolding ensure_secret_keys
  ensured keys actors actor_id = go (Registry.get actors actor_id) refl
    where
      go :
          (o : Option (ActorRecord U))
          → Registry.get actors actor_id ≡ o
          → Keyed o (
              Registry.get
                (if lacks_keys o
                  then (Registry.update actors actor_id (give_keys keys)).0
                  else actors)
                actor_id)
      go none e = e
      go (some a) e = elim (Bool-cases (is_some a.secret_keys)) [
        | inl there ↦ rw there (a, e, refl, there)
        | inr absent ↦ rw absent (
          record a { secret_keys = some keys },
          rw (get-update actors actor_id actor_id (give_keys keys), eq_refl actor_id, e, absent)
              refl,
          refl,
          refl,
        )
      ]

  -- With a key pair the sealing does not throw, and it leaves the tags.
  sealed_tags :
      (encrypt : Encrypt) (a : ActorRecord U)
      → is_some a.secret_keys ≡ true
      → (b : ActorRecord U) × (seal_actor_secrets encrypt a ≡ some b)
        × (b.tagged_builds ≡ a.tagged_builds)
  unfolding seal_actor_secrets
  sealed_tags encrypt a keyed = elim (Bool-cases (any version_needs_sealing a.versions)) [
    | inr done ↦ rw done (a, refl, refl)
    | inl plain ↦ elim (Option-cases a.secret_keys) [
      | inl none' ↦ absurd (clash (sym keyed ∙ rw none' refl))
      | inr (k, has_keys) ↦
          rw (plain, has_keys)
            (record a { versions = map (seal_version encrypt k a.id) a.versions }, refl, refl)
    ]
  ]
    where
      clash : (true ≡ false) → ⊥
      clash e = cc

  -- An update of an Actor that is there changes its tags as the mutator does.
  pub tags_of-update_actor :
      (f : Dict TaggedBuild → Dict TaggedBuild) (m : ActorRecord U → ActorRecord U)
      (encrypt : Encrypt) (keys : ActorSecretKeys) (actors : Registry (ActorRecord U))
      (actor_id : String) (now : ℕ) (tags : Dict TaggedBuild)
      → Retags f m
      → tags_of actors actor_id ≡ some tags
      → tags_of (update_actor encrypt keys actors actor_id m now).0 actor_id ≡ some (f tags)
  unfolding update_actor
  tags_of-update_actor f m encrypt keys actors actor_id now tags retags e =
      go (Registry.get actors actor_id) refl (ensured keys actors actor_id)
    where
      keyed : Registry (ActorRecord U)
      keyed = ensure_secret_keys keys actor_id actors

      go :
          (o : Option (ActorRecord U))
          → Registry.get actors actor_id ≡ o
          → Keyed o (Registry.get keyed actor_id)
          → tags_of (update_actor encrypt keys actors actor_id m now).0 actor_id ≡ some (f tags)
      go none found k = absurd (cc (e, found))
      go (some a) found (b, e', same, has_keys) =
          let after : ActorRecord U = record (m b) { modified_at = now } in
          let (c, sealed, kept) = sealed_tags encrypt after (rw (retags.keys b) has_keys) in
          let before : some a.tagged_builds ≡ some tags = rw found at e in
          let there : a.tagged_builds ≡ tags = cc (before) in
          rw
            (
              e',
              sealed,
              get-update keyed actor_id actor_id (λ current. some c),
              eq_refl actor_id,
              kept,
              retags.tags b,
              same,
              there,
            )
            refl
