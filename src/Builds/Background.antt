-- ===== src/Builds/Background.antt =====
-- startBuild, runBuildInBackground, failBuild, abortBuild and waitForBuildFinish of
-- src/services/builds.ts, cut where they wait. What the driver answers, the schemas that are read from
-- the sources, ids and times are arguments. `S` is the type of the schemas, `U` that of amounts.
use actor_runtime.Base.{
  ℕ, String, ◌≡◌, refl, Bool, false, ◌||◌, Option, none, some, List, [], ◌∷◌, leb, or_option, ◌===◌,
  if◌then◌else◌,
}
use actor_runtime.Base.Dict.{Dict, lookup, insert, erase}
use actor_runtime.Jobs.Status.{
  JobStatus, ready, running, succeeded, failed, aborting, aborted, timed_out,
  is_terminal_job_status, same_status,
}
use actor_runtime.Jobs.Registry
use actor_runtime.Jobs.Registry.{Registry}
use actor_runtime.Jobs.Gate.{HasStatus, transition_job_status}
use actor_runtime.Entities.Build.{BuildRecord, ActorMemorySettings}
use actor_runtime.Entities.Actor.{ActorSecretKeys, ActorVersionRecord, TaggedBuild, ActorRecord}
use actor_runtime.Builds.{next_build_number}
use actor_runtime.Actors.{Encrypt, update_actor, record_tagged_build}

pub data BuildEffect : Type 0 where
  driver_abort_build flush_build_log mark_build_log_terminal : String → BuildEffect
  build_log : String → String → BuildEffect

pub record BuildWorld (S U : Type 0) : Type 0 where
  pub builds : Registry (BuildRecord S)
  pub actors : Registry (ActorRecord U)
  pub effects : List BuildEffect

-- What the first looks at the record ask for.
pub data BuildNext : Type 0 where
  proceed finalizing nothing_left : BuildNext

-- What `driver.startBuild` and the reading of the sources gave; an absent field is left as it is.
pub record BuildOutcome (S : Type 0) : Type 0 where
  pub image_id : String
  pub image_working_directory : Option String
  pub input_schema : Option S
  pub dataset_schemas : Option (Dict S)
  pub memory_settings : Option ActorMemorySettings
  pub extra_dataset_aliases : Option (List String)

module _ {S : Type 0} where
  unfoldable pub status-with_build_status :
      (s : JobStatus) (b : BuildRecord S) → (record b { status = s }).status ≡ s
  status-with_build_status s b = refl

  abbrev pub build_status : HasStatus (BuildRecord S)
  build_status = record {
    status = λ b. b.status;
    with_status = λ s b. record b { status = s };
    status-with_status = status-with_build_status;
  }

  abbrev pub finished_patch : ℕ → BuildRecord S → BuildRecord S
  finished_patch now b = record b { finished_at = some now }

  abbrev pub build_failed_patch : ℕ → Option String → BuildRecord S → BuildRecord S
  build_failed_patch now message b = record b { finished_at = some now; status_message = message }

  abbrev pub succeeded_patch : ℕ → BuildOutcome S → BuildRecord S → BuildRecord S
  succeeded_patch now o b = record b {
    finished_at = some now;
    image_id = some o.image_id;
    exit_code = some 0;
    image_working_directory = or_option o.image_working_directory b.image_working_directory;
    input_schema = or_option o.input_schema b.input_schema;
    dataset_schemas = or_option o.dataset_schemas b.dataset_schemas;
    memory_settings = or_option o.memory_settings b.memory_settings;
    extra_dataset_aliases = or_option o.extra_dataset_aliases b.extra_dataset_aliases;
  }

  abbrev pub build_next : Option (BuildRecord S) → BuildNext
  build_next none = nothing_left
  build_next (some b) =
      if same_status b.status running
      then proceed
      else (if same_status b.status aborting then finalizing else nothing_left)

  abbrev pub has_build_status : JobStatus → Option (BuildRecord S) → Bool
  has_build_status s none = false
  has_build_status s (some b) = same_status b.status s

  -- waitForBuildFinish, over what its polls read and the time of each.
  unfoldable pub wait_for_build_finish :
      ℕ → List (Option (BuildRecord S) × ℕ) → Option (Option (BuildRecord S))
  wait_for_build_finish deadline [] = none
  wait_for_build_finish deadline ((none, now) ∷ polls) = some none
  wait_for_build_finish deadline ((some b, now) ∷ polls) =
      let rest = wait_for_build_finish deadline polls in
      if is_terminal_job_status b.status || leb deadline now then some (some b) else rest

abbrev pub put_back : String → Option TaggedBuild → Dict TaggedBuild → Dict TaggedBuild
put_back tag none tags = erase tag tags
put_back tag (some previous) tags = insert tag previous tags

abbrev pub names_build : String → Option TaggedBuild → Bool
names_build id none = false
names_build id (some t) = t.build_id === id

-- Only if the tag still names this build.
abbrev pub restored : String → String → Option TaggedBuild → Dict TaggedBuild → Dict TaggedBuild
restored id tag previous tags =
    if names_build id (lookup tag tags) then put_back tag previous tags else tags

module _ {U : Type 0} where
  abbrev pub tag_in : String → Option (ActorRecord U) → Option TaggedBuild
  tag_in tag none = none
  tag_in tag (some a) = lookup tag a.tagged_builds

  -- `current.taggedBuilds[options.tag]`
  abbrev pub tag_of : Registry (ActorRecord U) → String → String → Option TaggedBuild
  tag_of actors actor_id tag = tag_in tag (Registry.get actors actor_id)

  abbrev pub restore_tag : String → String → Option TaggedBuild → ActorRecord U → ActorRecord U
  restore_tag id tag previous a = record a {
    tagged_builds = restored id tag previous a.tagged_builds;
  }

module _ {S U : Type 0} where
  abbrev pub emit_build : BuildEffect → BuildWorld S U → BuildWorld S U
  emit_build e w = record w { effects = e ∷ w.effects }

  abbrev pub set_build_status :
      String → JobStatus → (BuildRecord S → BuildRecord S) → BuildWorld S U → BuildWorld S U
  set_build_status id next patch w = record w {
    builds = (transition_job_status build_status w.builds id next patch).0;
  }

  unfoldable pub start_build :
      (ℕ → String)
      → String
      → ℕ
      → ActorRecord U
      → ActorVersionRecord
      → String
      → BuildWorld S U
      → BuildWorld S U × BuildRecord S
  start_build number_text generated now actor version tag w =
      let b : BuildRecord S = record {
        id = generated;
        user_id = actor.user_id;
        actor_id = actor.id;
        version_number = version.version_number;
        build_number = next_build_number number_text w.builds actor.id version.version_number;
        tag = tag;
        status = ready;
        started_at = now;
        finished_at = none;
        image_id = none;
        image_working_directory = none;
        input_schema = none;
        dataset_schemas = none;
        memory_settings = none;
        extra_dataset_aliases = none;
        exit_code = none;
        status_message = none;
      } in
      (record w { builds = Registry.set w.builds generated b }, b)

  -- Without a message of its own the status has the log's.
  unfoldable pub fail_build : String → String → Option String → ℕ → BuildWorld S U → BuildWorld S U
  fail_build id log_message message now w =
      set_build_status id failed (build_failed_patch now (or_option message (some log_message))) (
        emit_build (mark_build_log_terminal id)
          (emit_build (flush_build_log id) (emit_build (build_log id log_message) w)))

  -- The first write, to RUNNING.
  unfoldable pub begin_build : String → BuildWorld S U → BuildWorld S U × BuildNext
  begin_build id w =
      let (builds, after_start) = transition_job_status build_status w.builds id running (λ b. b) in
      (record w { builds = builds }, build_next after_start)

  -- The look right before the image is built.
  unfoldable pub build_pre_start : String → BuildWorld S U → BuildNext
  build_pre_start id w = build_next (Registry.get w.builds id)

  -- An abort landed first: stop what there is, and then write ABORTED.
  unfoldable pub finalize_aborting_build : String → BuildWorld S U → BuildWorld S U
  finalize_aborting_build id w = emit_build (driver_abort_build id) w

  unfoldable pub write_build_aborted : String → ℕ → BuildWorld S U → BuildWorld S U
  write_build_aborted id now w = set_build_status id aborted (finished_patch now) w

  -- The tag is recorded before the success is; what it named before is kept for the way back.
  unfoldable pub record_tag :
      Encrypt
      → ActorSecretKeys
      → String
      → BuildRecord S
      → String
      → ℕ
      → BuildWorld S U
      → BuildWorld S U × Option TaggedBuild
  record_tag encrypt keys actor_id b tag now w = (
    record w {
      actors =
          (update_actor encrypt keys w.actors actor_id (record_tagged_build tag b.id b.build_number)
            now).0;
    },
    tag_of w.actors actor_id tag,
  )

  -- The SUCCEEDED write, and the way back of the tag where it is refused.
  unfoldable pub finish_build :
      Encrypt
      → ActorSecretKeys
      → String
      → String
      → String
      → Option TaggedBuild
      → BuildOutcome S
      → ℕ
      → BuildWorld S U
      → BuildWorld S U
  finish_build encrypt keys actor_id id tag previous o now w =
      let (builds, answer) =
        transition_job_status build_status w.builds id succeeded (succeeded_patch now o) in
      if has_build_status succeeded answer then record w { builds = builds } else record w {
        builds = builds;
        actors = (update_actor encrypt keys w.actors actor_id (restore_tag id tag previous) now).0;
      }

  -- The `catch` block.
  unfoldable pub build_threw : String → Bool → String → ℕ → BuildWorld S U → BuildWorld S U
  build_threw id was_timeout message now w =
      set_build_status id (if was_timeout then timed_out else failed)
        (build_failed_patch now (some message)) (emit_build (flush_build_log id) w)

  -- The `finally` block.
  unfoldable pub build_finally : String → BuildWorld S U → BuildWorld S U
  build_finally id w = emit_build (mark_build_log_terminal id) w

  -- abortBuild up to its wait for the driver; `none` where it goes on to the second write.
  unfoldable pub abort_build_begin :
      BuildRecord S → BuildWorld S U → BuildWorld S U × Option (Option (BuildRecord S))
  abort_build_begin b w =
      let (builds, answer) = transition_job_status build_status w.builds b.id aborting (λ r. r) in
      if is_terminal_job_status b.status
      then (w, some (some b))
      else (if has_build_status aborting answer
          then (emit_build (driver_abort_build b.id) (record w { builds = builds }), none)
          else (record w { builds = builds }, some answer))

  -- The rest of abortBuild.
  unfoldable pub abort_build_end :
      String → ℕ → BuildWorld S U → BuildWorld S U × Option (BuildRecord S)
  abort_build_end id now w =
      let (builds, answer) =
        transition_job_status build_status w.builds id aborted (finished_patch now) in
      (record w { builds = builds }, answer)
