-- ===== src/Tests/Builds.antt =====
-- An Actor, its tag, and two builds of that tag.
use actor_runtime.Base.{ℕ, String, ◌≡◌, refl, true, false, none, some, [], ◌∷◌}
use actor_runtime.Base.Dict.{Dict, lookup}
use actor_runtime.Jobs.Status.{running, aborted}
use actor_runtime.Jobs.Registry
use actor_runtime.Jobs.Registry.{Registry}
use actor_runtime.Entities.Build.{BuildRecord}
use actor_runtime.Entities.Actor.{ActorSecretKeys, TaggedBuild, ActorRecord}
use actor_runtime.Actors.Sealed.{Sealed}
use actor_runtime.Actors.Tags.{tags_of}
use actor_runtime.Builds.Background.{
  BuildWorld, BuildOutcome, has_build_status, record_tag, finish_build,
}
use actor_runtime.Builds.Tag.{tagged, TagSettled, finish_build-TagSettled}
use actor_runtime.Builds.Tag.Overlap.{overlapping_builds_leave_tag}

abbrev keys : ActorSecretKeys
keys = record { public_key = "p"; private_key = "q"; passphrase = "r" }

abbrev actor_1 : ActorRecord ℕ
actor_1 = record {
  id = "actor1";
  user_id = "user1";
  name = "one";
  title = none;
  created_at = 0;
  modified_at = 0;
  versions = [];
  pricing_infos = none;
  actor_standby = none;
  default_run_options = none;
  tagged_builds = [];
  secret_keys = some keys;
}

abbrev build_1 : BuildRecord ℕ
build_1 = record {
  id = "build1";
  user_id = "user1";
  actor_id = "actor1";
  version_number = "0.0";
  build_number = "0.0.1";
  tag = "latest";
  status = running;
  started_at = 0;
  finished_at = none;
  image_id = none;
  image_working_directory = none;
  input_schema = none;
  dataset_schemas = none;
  memory_settings = none;
  extra_dataset_aliases = none;
  exit_code = none;
  status_message = none;
}

abbrev build_2 : BuildRecord ℕ
build_2 = record build_1 { id = "build2"; build_number = "0.0.2" }

abbrev world : BuildWorld ℕ ℕ
world = record {
  builds = record {
    store = ("build1", build_1) ∷ ("build2", build_2) ∷ [];
    listening = false;
    notices = [];
  };
  actors = record { store = ("actor1", actor_1) ∷ []; listening = false; notices = [] };
  effects = [];
}

-- Both builds are aborted.
abbrev aborted_1 : BuildRecord ℕ
aborted_1 = record build_1 { status = aborted }

abbrev aborted_2 : BuildRecord ℕ
aborted_2 = record build_2 { status = aborted }

abbrev both_aborted : Registry (BuildRecord ℕ)
both_aborted = record {
  store = ("build1", aborted_1) ∷ ("build2", aborted_2) ∷ [];
  listening = false;
  notices = [];
}

abbrev outcome : BuildOutcome ℕ
outcome = record {
  image_id = "image";
  image_working_directory = none;
  input_schema = none;
  dataset_schemas = none;
  memory_settings = none;
  extra_dataset_aliases = none;
}

abbrev encrypt : ActorSecretKeys → String → String → String → String × String
encrypt k actor_id name value = ("sealed", "password")

finish_build-TagSettled_example : TagSettled encrypt keys "actor1" "latest" build_1 none (
    finish_build encrypt keys "actor1" "build1" "latest"
      (record_tag encrypt keys "actor1" build_1 "latest" 1 world).1
      outcome
      2
      (record (record_tag encrypt keys "actor1" build_1 "latest" 1 world).0 {
        builds = both_aborted;
      }))
unfolding Registry.get lookup
finish_build-TagSettled_example =
    finish_build-TagSettled encrypt keys "actor1" "latest" build_1 outcome 1 2 world
      (λ builds. both_aborted) [] refl

overlapping_builds_leave_tag_example :
    let (w1, before) = record_tag encrypt keys "actor1" build_1 "latest" 1 world in
    let (w2, between) = record_tag encrypt keys "actor1" build_2 "latest" 2 w1 in
    let w3 : BuildWorld ℕ ℕ = record w2 { builds = both_aborted } in
    let w4 = finish_build encrypt keys "actor1" "build1" "latest" before outcome 3 w3 in
    let w5 = finish_build encrypt keys "actor1" "build2" "latest" between outcome 4 w4 in
    (tags' : Dict TaggedBuild) × (tags_of w5.actors "actor1" ≡ some tags')
    × (lookup "latest" tags' ≡ some (tagged build_1))
    × (has_build_status aborted (Registry.get w5.builds "build1") ≡ true)
unfolding Registry.get lookup
overlapping_builds_leave_tag_example =
    overlapping_builds_leave_tag encrypt keys "actor1" "latest" build_1 build_2 aborted_1 aborted_2
      outcome outcome 1 2 3 4 world both_aborted [] refl refl refl refl refl refl

-- A version with a secret.
abbrev with_secret : ActorRecord ℕ → ActorRecord ℕ
with_secret a = record a {
  versions =
      record {
        version_number = "0.0";
        build_tag = "latest";
        source_files = [];
        env_vars = some (
            record {
              name = "TOKEN";
              value = "secret";
              is_secret = some true;
              encrypted_aes256_password = none;
            }
            ∷ []);
        apply_env_vars_to_build = none;
        local_source_context = none;
      }
      ∷ [];
}

abbrev sealed_1 : ActorRecord ℕ
sealed_1 = record actor_1 {
  modified_at = 5;
  versions =
      record {
        version_number = "0.0";
        build_tag = "latest";
        source_files = [];
        env_vars = some (
            record {
              name = "TOKEN";
              value = "sealed";
              is_secret = some true;
              encrypted_aes256_password = some "password";
            }
            ∷ []);
        apply_env_vars_to_build = none;
        local_source_context = none;
      }
      ∷ [];
}
