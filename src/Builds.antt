-- ===== src/Builds.antt =====
-- src/services/builds.ts: the look-ups, the number of a build and deletion. Background has the writes around
-- the build of an image, Tag is about the tag that they record.
pub mod Background
pub mod Tag
use Prim.Native.String
use actor_runtime.Base.{
  ℕ, ◌+◌, String, Bool, true, false, ◌&&◌, ◌||◌, not, Option, none, some, List, [], ◌∷◌, keep,
  length, ◌===◌, if◌then◌else◌,
}
use actor_runtime.Base.Dict.{Dict, lookup}
use actor_runtime.Jobs.Registry
use actor_runtime.Jobs.Registry.{Registry}
use actor_runtime.Entities.Build.{BuildRecord}

pub data TaggedBuildLookup (S : Type 0) : Type 0 where
  no_such_tag build_deleted : TaggedBuildLookup S
  found : BuildRecord S → TaggedBuildLookup S

module _ {S : Type 0} where
  -- `actor.taggedBuilds` is a build's id for each tag.
  unfoldable pub resolve_tagged_build :
      Registry (BuildRecord S) → Dict String → String → TaggedBuildLookup S
  resolve_tagged_build builds tagged_builds tag = elim (lookup tag tagged_builds) [
    | none ↦ no_such_tag
    | some build_id ↦ elim (Registry.get builds build_id) [
      | none ↦ build_deleted
      | some build ↦ found build
    ]
  ]

  pub delete_build : Registry (BuildRecord S) → String → Registry (BuildRecord S)
  delete_build builds build_id = Registry.delete builds build_id

  unfoldable pub list_owned_builds :
      Registry (BuildRecord S) → String → Option String → List (BuildRecord S)
  list_owned_builds builds user_id actor_id =
      keep
        (λ b.
          b.user_id === user_id
          && (elim actor_id [ none ↦ true | some i ↦ i === "" || b.actor_id === i ]))
        (Registry.list builds)

  abbrev owned_build : String → Option (BuildRecord S) → Option (BuildRecord S)
  owned_build user_id none = none
  owned_build user_id (some b) = if b.user_id === user_id then some b else none

  unfoldable pub get_owned_build :
      Registry (BuildRecord S) → String → String → Option (BuildRecord S)
  get_owned_build builds user_id id = owned_build user_id (Registry.get builds id)

  -- The builds of a version that are there now; one more is the next number.
  abbrev pub version_builds : Registry (BuildRecord S) → String → String → List (BuildRecord S)
  version_builds builds actor_id version_number =
      keep (λ b. b.actor_id === actor_id && b.version_number === version_number)
        (Registry.list builds)

  -- `number_text` prints a number.
  unfoldable pub next_build_number :
      (ℕ → String) → Registry (BuildRecord S) → String → String → String
  next_build_number number_text builds actor_id version_number =
      String.◌++◌ version_number
        (String.◌++◌ "." (number_text (length (version_builds builds actor_id version_number) + 1)))
