-- ===== src/Actors/Sealed.antt =====
-- A secret of an Actor is never stored in plain text: src/services/actors.ts and secrets.ts.
use actor_runtime.Base.{String, ◌≡◌, true, Option, none, some, List, [], ◌∷◌}
use actor_runtime.Jobs.Registry
use actor_runtime.Jobs.Registry.{Registry}
use actor_runtime.Entities.Actor.{
  ActorEnvVarRecord, ActorSecretKeys, ActorVersionRecord, ActorRecord,
}
use actor_runtime.Actors.{Encrypt}

-- Secret, and without the password that an encrypted one has.
abbrev pub IsPlainSecret : ActorEnvVarRecord → Type 0
IsPlainSecret v = (v.is_secret ≡ some true) × (v.encrypted_aes256_password ≡ none)

-- Two lists of one length, related element by element.
abbrev pub Pairwise : {A : Type 0} → (A → A → Type 0) → List A → List A → Type 0
Pairwise R [] [] = Unit {0}
Pairwise R (x ∷ xs) (y ∷ ys) = R x y × Pairwise R xs ys
Pairwise R [] (y ∷ ys) = ⊥
Pairwise R (x ∷ xs) [] = ⊥

module _ (encrypt : Encrypt) (keys : Option ActorSecretKeys) (actor_id : String) where
  -- A plain secret is replaced by its encryption under the Actor's key, id and the variable's name; any
  -- other variable is left as it is.
  abbrev pub SealedVar : ActorEnvVarRecord → ActorEnvVarRecord → Type 0
  SealedVar v v' =
      (IsPlainSecret v
        → (k : ActorSecretKeys) × (keys ≡ some k)
          × (v' ≡ record v {
            value = (encrypt k actor_id v.name v.value).0;
            encrypted_aes256_password = some (encrypt k actor_id v.name v.value).1;
          }))
      × ((IsPlainSecret v → ⊥) → v' ≡ v)

  abbrev pub SealedVars : Option (List ActorEnvVarRecord) → Option (List ActorEnvVarRecord) → Type 0
  SealedVars none none = Unit {0}
  SealedVars (some vars) (some vars') = Pairwise SealedVar vars vars'
  SealedVars none (some vars') = ⊥
  SealedVars (some vars) none = ⊥

  abbrev pub SealedVersion : ActorVersionRecord → ActorVersionRecord → Type 0
  SealedVersion v v' = SealedVars v.env_vars v'.env_vars × (record v' { env_vars = v.env_vars } ≡ v)

module _ (encrypt : Encrypt) {U : Type 0} where
  -- The variables of one Actor are those of another, sealed.
  abbrev pub Sealed : ActorRecord U → ActorRecord U → Type 0
  Sealed a b = Pairwise (SealedVersion encrypt a.secret_keys a.id) a.versions b.versions
