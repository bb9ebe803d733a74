-- ===== src/Builds/Tag/Overlap.antt =====
-- Two builds of one tag that overlap: the tag's way back in runBuildInBackground of
-- src/services/builds.ts.
use actor_runtime.Base.{
  ℕ, String, ◌≡◌, ◌⊎◌, inl, inr, refl, sym, ap, ◌∙◌, true, false, Option, some, [], ◌∷◌, ◌===◌,
  if◌then◌else◌, Bool-cases, eq_iff,
}
use actor_runtime.Base.Dict.{Dict, lookup, insert, lookup-insert_self}
use actor_runtime.Jobs.Status.{succeeded, aborted, is_terminal_job_status, same_status}
use actor_runtime.Jobs.Registry
use actor_runtime.Jobs.Registry.{Registry, on_record}
use actor_runtime.Jobs.Gate.{gate, transition_job_status}
use actor_runtime.Jobs.Progress.{get-transition_job_status, writes_of_terminal}
use actor_runtime.Entities.Build.{BuildRecord}
use actor_runtime.Entities.Actor.{ActorSecretKeys, TaggedBuild}
use actor_runtime.Actors.{Encrypt}
use actor_runtime.Actors.Tags.{tags_of}
use actor_runtime.Builds.Background.{
  BuildWorld, BuildOutcome, build_status, succeeded_patch, has_build_status, record_tag, restored,
  finish_build,
}
use actor_runtime.Builds.Tag.{tagged, recorded, finished, previous_of, lookup-restored}

module _ {S U : Type 0} (encrypt : Encrypt) (keys : ActorSecretKeys) (actor_id tag : String) where
  builds_of :
      (id : String) (previous : Option TaggedBuild) (o : BuildOutcome S) (now : ℕ)
      (w : BuildWorld S U)
      → (finish_build encrypt keys actor_id id tag previous o now w).builds
        ≡ (transition_job_status build_status w.builds id succeeded (succeeded_patch now o)).0
  unfolding finish_build
  builds_of id previous o now w =
      elim (Bool-cases (
        has_build_status succeeded
          (transition_job_status build_status w.builds id succeeded (succeeded_patch now o)).1)) [
            | inl done ↦ rw done refl
            | inr refused ↦ rw refused refl
          ]

  -- The end of a build that was aborted writes no build.
  refused_builds :
      (id : String) (previous : Option TaggedBuild) (o : BuildOutcome S) (now : ℕ)
      (w : BuildWorld S U) (r : BuildRecord S)
      → Registry.get w.builds id ≡ some r
      → r.status ≡ aborted
      → (j : String)
      → Registry.get (finish_build encrypt keys actor_id id tag previous o now w).builds j
        ≡ Registry.get w.builds j
  refused_builds id previous o now w r found over j =
      rw
        (
          builds_of id previous o now w,
          get-transition_job_status build_status w.builds id j succeeded (succeeded_patch now o),
        )
        (same (Bool-cases (id === j)))
    where
      frozen : gate build_status succeeded (succeeded_patch now o) r ≡ r
      frozen =
          writes_of_terminal build_status ((succeeded, succeeded_patch now o) ∷ []) r
            (rw over (unfold is_terminal_job_status in refl))

      same :
          ((id === j) ≡ true) ⊎ ((id === j) ≡ false)
          → (if id === j
              then on_record
                  (gate build_status succeeded (succeeded_patch now o))
                  (Registry.get w.builds j)
              else Registry.get w.builds j)
            ≡ Registry.get w.builds j
      same (inr other) = rw other refl
      same (inl e) =
          let there : Registry.get w.builds j ≡ some r =
            sym (ap (Registry.get w.builds) ((eq_iff id j).0 e)) ∙ found in
          rw (e, there, frozen) refl

  refused_tags :
      (id : String) (previous : Option TaggedBuild) (o : BuildOutcome S) (now : ℕ)
      (w : BuildWorld S U) (r : BuildRecord S) (tags : Dict TaggedBuild)
      → tags_of w.actors actor_id ≡ some tags
      → Registry.get w.builds id ≡ some r
      → r.status ≡ aborted
      → tags_of (finish_build encrypt keys actor_id id tag previous o now w).actors actor_id
        ≡ some (restored id tag previous tags)
  unfolding same_status
  refused_tags id previous o now w r tags h found over =
      let not_done : has_build_status succeeded
            (Registry.get (finish_build encrypt keys actor_id id tag previous o now w).builds id)
          ≡ false =
        rw (refused_builds id previous o now w r found over id, found, over) refl in
      rw not_done at (finished encrypt keys actor_id tag id previous o now w tags h)

  -- Where a build records its tag, another build of the tag records it after that, both are then aborted,
  -- and the first to record is the first to go on and put the tag back, the tag is left on the first
  -- build, although that is ABORTED: the second takes it for the state to go back to.
  pub overlapping_builds_leave_tag :
      (first second ra rb : BuildRecord S) (o o' : BuildOutcome S) (t1 t2 t3 t4 : ℕ)
      (w : BuildWorld S U) (meanwhile : Registry (BuildRecord S)) (tags : Dict TaggedBuild)
      → tags_of w.actors actor_id ≡ some tags
      → (second.id === first.id) ≡ false
      → Registry.get meanwhile first.id ≡ some ra
      → ra.status ≡ aborted
      → Registry.get meanwhile second.id ≡ some rb
      → rb.status ≡ aborted
      → let (w1, before) = record_tag encrypt keys actor_id first tag t1 w in
        let (w2, between) = record_tag encrypt keys actor_id second tag t2 w1 in
        let w3 : BuildWorld S U = record w2 { builds = meanwhile } in
        let w4 = finish_build encrypt keys actor_id first.id tag before o t3 w3 in
        let w5 = finish_build encrypt keys actor_id second.id tag between o' t4 w4 in
        (tags' : Dict TaggedBuild) × (tags_of w5.actors actor_id ≡ some tags')
        × (lookup tag tags' ≡ some (tagged first))
        × (has_build_status aborted (Registry.get w5.builds first.id) ≡ true)
  overlapping_builds_leave_tag first second ra rb o o' t1 t2 t3 t4 w meanwhile tags h differ found_a
        aborted_a found_b aborted_b =
      (
        restored second.id tag (lookup tag tags1) tags2,
        rw (← previous_of encrypt keys actor_id tag second t2 w1 tags1 at1)
            (refused_tags second.id between o' t4 w4 rb tags2 at4 still_b aborted_b),
        rw (lookup-restored tag second tags1) (lookup-insert_self tag (tagged first) tags),
        rw
            (
              refused_builds second.id between o' t4 w4 rb still_b aborted_b first.id,
              still_a,
              aborted_a,
            )
            (unfold same_status in refl),
      )
    where
      w1 : BuildWorld S U
      w1 = (record_tag encrypt keys actor_id first tag t1 w).0

      between : Option TaggedBuild
      between = (record_tag encrypt keys actor_id second tag t2 w1).1

      w3 : BuildWorld S U
      w3 = record (record_tag encrypt keys actor_id second tag t2 w1).0 { builds = meanwhile }

      before : Option TaggedBuild
      before = (record_tag encrypt keys actor_id first tag t1 w).1

      w4 : BuildWorld S U
      w4 = finish_build encrypt keys actor_id first.id tag before o t3 w3

      tags1 : Dict TaggedBuild
      tags1 = insert tag (tagged first) tags

      tags2 : Dict TaggedBuild
      tags2 = insert tag (tagged second) tags1

      at1 : tags_of w1.actors actor_id ≡ some tags1
      at1 = recorded encrypt keys actor_id tag first t1 w tags h

      at3 : tags_of w3.actors actor_id ≡ some tags2
      at3 = recorded encrypt keys actor_id tag second t2 w1 tags1 at1

      kept : restored first.id tag before tags2 ≡ tags2
      kept = rw (lookup-insert_self tag (tagged second) tags1, differ) refl

      at4 : tags_of w4.actors actor_id ≡ some tags2
      at4 = refused_tags first.id before o t3 w3 ra tags2 at3 found_a aborted_a ∙ ap some kept

      still_a : Registry.get w4.builds first.id ≡ some ra
      still_a = refused_builds first.id before o t3 w3 ra found_a aborted_a first.id ∙ found_a

      still_b : Registry.get w4.builds second.id ≡ some rb
      still_b = refused_builds first.id before o t3 w3 ra found_a aborted_a second.id ∙ found_b
