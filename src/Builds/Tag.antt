-- ===== src/Builds/Tag.antt =====
-- Which build a tag names: the writes of runBuildInBackground in src/services/builds.ts around its
-- SUCCEEDED write.
pub mod Overlap
use actor_runtime.Base.{
  ℕ, String, ◌≡◌, ◌⊎◌, inl, inr, refl, sym, ap, ◌∙◌, Bool, true, false, Option, none, some, List,
  [], ◌∷◌, arith, ◌===◌, if◌then◌else◌, Bool-cases, eq_refl, eq_iff,
}
use actor_runtime.Base.Dict.{
  Dict, lookup, insert, erase, lookup-insert, lookup-insert_self, lookup-erase_self,
}
use actor_runtime.Jobs.Status.{succeeded, aborted, is_terminal_job_status, same_status}
use actor_runtime.Jobs.Registry
use actor_runtime.Jobs.Registry.{Registry, on_record}
use actor_runtime.Jobs.Gate.{gate, transition_job_status}
use actor_runtime.Jobs.Progress.{
  get-transition_job_status, result-transition_job_status, writes_of_terminal,
}
use actor_runtime.Entities.Build.{BuildRecord}
use actor_runtime.Entities.Actor.{ActorSecretKeys, TaggedBuild, ActorRecord}
use actor_runtime.Actors.{Encrypt, update_actor, record_tagged_build}
use actor_runtime.Actors.Tags.{tags_of, tags_in, Retags, tags_of-update_actor}
use actor_runtime.Builds.Background.{
  BuildWorld, BuildOutcome, build_status, succeeded_patch, has_build_status, tag_of, tag_in,
  record_tag, put_back, names_build, restored, restore_tag, finish_build,
}

-- What a tag says of a build.
abbrev pub tagged : {S : Type 0} → BuildRecord S → TaggedBuild
tagged b = record { build_id = b.id; build_number = b.build_number }

module _ {S : Type 0} (tag : String) where
  -- A build's tag, where no other build of the tag is under way, is put back as it was.
  pub lookup-restored :
      (b : BuildRecord S) (tags : Dict TaggedBuild)
      → lookup tag (restored b.id tag (lookup tag tags) (insert tag (tagged b) tags))
        ≡ lookup tag tags
  lookup-restored b tags =
      rw (lookup-insert_self tag (tagged b) tags, eq_refl b.id) (back (lookup tag tags))
    where
      back :
          (previous : Option TaggedBuild)
          → lookup tag (put_back tag previous (insert tag (tagged b) tags)) ≡ previous
      back none = lookup-erase_self tag (insert tag (tagged b) tags)
      back (some p) = lookup-insert_self tag p (insert tag (tagged b) tags)

module _ {U : Type 0} where
  restores-Retags :
      (id tag : String) (previous : Option TaggedBuild)
      → Retags {U = U} (restored id tag previous) (restore_tag id tag previous)
  restores-Retags id tag previous = record { tags = λ a. refl; keys = λ a. refl }

  tag_of-tags :
      (actor_id tag : String) (actors : Registry (ActorRecord U)) (tags : Dict TaggedBuild)
      → tags_of actors actor_id ≡ some tags
      → tag_of actors actor_id tag ≡ lookup tag tags
  tag_of-tags actor_id tag actors tags h = go (Registry.get actors actor_id) h
    where
      some_inj : (x y : Dict TaggedBuild) → some x ≡ some y → x ≡ y
      some_inj x y e = cc

      go : (o : Option (ActorRecord U)) → tags_in o ≡ some tags → tag_in tag o ≡ lookup tag tags
      go none e = absurd (cc)
      go (some a) e = rw (some_inj a.tagged_builds tags e) refl

module _ {S U : Type 0} (encrypt : Encrypt) (keys : ActorSecretKeys) (actor_id tag : String) where
  records-Retags :
      (b : BuildRecord S)
      → Retags {U = U} (insert tag (tagged b)) (record_tagged_build tag b.id b.build_number)
  unfolding record_tagged_build
  records-Retags b = record { tags = λ a. refl; keys = λ a. refl }

  pub recorded :
      (b : BuildRecord S) (now : ℕ) (w : BuildWorld S U) (tags : Dict TaggedBuild)
      → tags_of w.actors actor_id ≡ some tags
      → tags_of (record_tag encrypt keys actor_id b tag now w).0.actors actor_id
        ≡ some (insert tag (tagged b) tags)
  unfolding record_tag
  recorded b now w tags h =
      tags_of-update_actor (insert tag (tagged b)) (record_tagged_build tag b.id b.build_number)
        encrypt keys w.actors actor_id now tags (records-Retags b) h

  -- The record after the attempt to write SUCCEEDED is the one that the write returned.
  answered :
      (id : String) (o : BuildOutcome S) (now : ℕ) (w : BuildWorld S U)
      → (transition_job_status build_status w.builds id succeeded (succeeded_patch now o)).1
        ≡ Registry.get
            (transition_job_status build_status w.builds id succeeded (succeeded_patch now o)).0
            id
  answered id o now w =
      rw
        (
          result-transition_job_status build_status w.builds id succeeded (succeeded_patch now o),
          get-transition_job_status build_status w.builds id id succeeded (succeeded_patch now o),
          eq_refl id,
        )
        refl

  -- The builds and the tags after the end of a build.
  pub finished :
      (id : String) (previous : Option TaggedBuild) (o : BuildOutcome S) (now : ℕ)
      (w : BuildWorld S U) (tags : Dict TaggedBuild)
      → tags_of w.actors actor_id ≡ some tags
      → tags_of (finish_build encrypt keys actor_id id tag previous o now w).actors actor_id
        ≡ some (
            if has_build_status succeeded
              (Registry.get (finish_build encrypt keys actor_id id tag previous o now w).builds id)
            then tags
            else restored id tag previous tags)
  unfolding finish_build
  finished id previous o now w tags h = elim (Bool-cases (has_build_status succeeded tried.1)) [
    | inl done ↦
        let there : has_build_status succeeded (Registry.get tried.0 id) ≡ true =
          rw (← answered id o now w) done in
        rw (done, finish_build) (rw there h)
    | inr refused ↦
        let there : has_build_status succeeded (Registry.get tried.0 id) ≡ false =
          rw (← answered id o now w) refused in
        rw (refused, finish_build)
          (rw there (
            tags_of-update_actor (restored id tag previous) (restore_tag id tag previous) encrypt
              keys w.actors actor_id now tags (restores-Retags id tag previous) h))
  ]
    where
      tried : Registry (BuildRecord S) × Option (BuildRecord S)
      tried = transition_job_status build_status w.builds id succeeded (succeeded_patch now o)

  -- What a finished build leaves of its tag.
  abbrev pub TagSettled : BuildRecord S → Option TaggedBuild → BuildWorld S U → Type 0
  TagSettled b previous w =
      (tags : Dict TaggedBuild) × (tags_of w.actors actor_id ≡ some tags)
      × (((has_build_status succeeded (Registry.get w.builds b.id) ≡ true)
            × (lookup tag tags ≡ some (tagged b)))
          ⊎ ((has_build_status succeeded (Registry.get w.builds b.id) ≡ false)
              × (lookup tag tags ≡ previous)))

  settle_from :
      (b : BuildRecord S) (previous : Option TaggedBuild) (o : BuildOutcome S) (now : ℕ)
      (w : BuildWorld S U) (tags : Dict TaggedBuild)
      → tags_of w.actors actor_id ≡ some (insert tag (tagged b) tags)
      → previous ≡ lookup tag tags
      → TagSettled b
          (lookup tag tags)
          (finish_build encrypt keys actor_id b.id tag previous o now w)
  settle_from b previous o now w tags h same =
      elim (Bool-cases (has_build_status succeeded (Registry.get after.builds b.id))) [
        | inl done ↦ (
          insert tag (tagged b) tags,
          rw done at all,
          inl (done, lookup-insert_self tag (tagged b) tags),
        )
        | inr refused ↦ (
          restored b.id tag previous (insert tag (tagged b) tags),
          rw refused at all,
          inr (refused, rw same (lookup-restored tag b tags)),
        )
      ]
    where
      after : BuildWorld S U
      after = finish_build encrypt keys actor_id b.id tag previous o now w

      all :
          tags_of after.actors actor_id
          ≡ some (
              if has_build_status succeeded (Registry.get after.builds b.id)
              then insert tag (tagged b) tags
              else restored b.id tag previous (insert tag (tagged b) tags))
      all = finished b.id previous o now w (insert tag (tagged b) tags) h

  pub previous_of :
      (b : BuildRecord S) (now : ℕ) (w : BuildWorld S U) (tags : Dict TaggedBuild)
      → tags_of w.actors actor_id ≡ some tags
      → (record_tag encrypt keys actor_id b tag now w).1 ≡ lookup tag tags
  unfolding record_tag
  previous_of b now w tags h = tag_of-tags actor_id tag w.actors tags h

  -- Whatever other handlers do to the builds while a build is finishing, at its end its tag names it if it
  -- is SUCCEEDED, and names what it named before if it is not, if no one else writes the Actor meanwhile.
  pub finish_build-TagSettled :
      (b : BuildRecord S) (o : BuildOutcome S) (recorded_at now : ℕ) (w : BuildWorld S U)
      (meanwhile : Registry (BuildRecord S) → Registry (BuildRecord S)) (tags : Dict TaggedBuild)
      → tags_of w.actors actor_id ≡ some tags
      → TagSettled b (lookup tag tags) (
          finish_build encrypt keys actor_id b.id tag
            (record_tag encrypt keys actor_id b tag recorded_at w).1
            o
            now
            (record (record_tag encrypt keys actor_id b tag recorded_at w).0 {
              builds = meanwhile w.builds;
            }))
  finish_build-TagSettled b o recorded_at now w meanwhile tags h =
      settle_from b (record_tag encrypt keys actor_id b tag recorded_at w).1 o now _ tags
        (recorded b recorded_at w tags h) (previous_of b recorded_at w tags h)
