-- ===== src/Runs/Resurrect/OnlyOne.antt =====
-- Two resurrections of one run (src/services/runs.ts).
use actor_runtime.Base.{
  ℕ, String, ◌≡◌, ◌≢◌, refl, sym, ◌∙◌, true, false, Option, none, some, List, [], ◌∷◌, arith, ◌===◌,
  eq_iff, eq_refl, if◌then◌else◌, Bool-cases, Option-cases, inl, inr, ◌⊎◌,
}
use actor_runtime.Base.Dict.{Dict}
use actor_runtime.Double.{Doubles}
use actor_runtime.Jobs.Status.{JobStatus, ready, is_terminal_job_status, same_status}
use actor_runtime.Jobs.Registry
use actor_runtime.Jobs.Registry.{Registry, get-update}
use actor_runtime.Entities.Build.{BuildRecord, MemoryDefault}
use actor_runtime.Entities.Run.{RunRecord}
use actor_runtime.ActorMemory.{RunMemoryContext, MemoryLine}
use actor_runtime.Charging.{register_default_dataset_for_charging, prices_event}
use actor_runtime.Pricing.{default_dataset_item_event_name}
use actor_runtime.Runs.World.{World, with_runs}
use actor_runtime.Runs.Resurrect.{
  ResurrectRunOptions, ResurrectRunResult, resurrected, not_finished, gone, no_such_build,
  cost_limit_decreased, Plan, resurrected_record, resurrect_mutator, start_again, after_write,
  resurrect_write, resurrect_run, plan_for, build_for, lowers_cap, log_memory, log_lines,
}

live_differs :
    (s seen : JobStatus)
    → is_terminal_job_status s ≡ false
    → is_terminal_job_status seen ≡ true
    → same_status s seen ≡ false
unfolding is_terminal_job_status same_status
live_differs s seen live h = ground arith

module _ {U : Type 0} where
  -- The call gives another answer than a resurrected run, asks for no effect (no second container among
  -- them) and leaves every record as it was.
  pub record IsRefused (w : World U) (out : World U × ResurrectRunResult U) : Type 0 where
    pub answer : (r : RunRecord U) → out.1 ≢ resurrected r
    pub effects : out.0.effects ≡ w.effects
    pub records : (j : String) → Registry.get out.0.runs j ≡ Registry.get w.runs j

  runs-log_memory :
      (id : String) (ls : List MemoryLine) (w : World U) → (log_memory id ls w).runs ≡ w.runs
  runs-log_memory id [] w = refl
  runs-log_memory id (l ∷ ls) w = runs-log_memory id ls _

  runs-log_lines :
      (id : String) (ls : List String) (w : World U) → (log_lines id ls w).runs ≡ w.runs
  runs-log_lines id [] w = refl
  runs-log_lines id (l ∷ ls) w = runs-log_lines id ls _

  runs-register :
      (r : RunRecord U) (w : World U) → (register_default_dataset_for_charging r w).runs ≡ w.runs
  unfolding register_default_dataset_for_charging
  runs-register r w = elim (Bool-cases (prices_event default_dataset_item_event_name r)) [
    | inl priced ↦ rw (priced, register_default_dataset_for_charging) refl
    | inr other ↦ rw (other, register_default_dataset_for_charging) refl
  ]

  module _ {S : Type 0} where
    runs-start_again :
        (others : List String) (seen : JobStatus) (plan : Plan U S) (r : RunRecord U) (w : World U)
        → (start_again others seen plan r w).runs ≡ w.runs
    runs-start_again others seen plan r w =
        runs-log_lines r.id others _
        ∙ runs-log_memory r.id plan.memory.log_lines _
        ∙ runs-register r _

    runs-after_write :
        (others : List String) (now : ℕ) (seen : JobStatus) (plan : Plan U S)
        (o : Option (RunRecord U)) (w : World U)
        → (after_write others now seen plan o w).0.runs ≡ w.runs
    runs-after_write others now seen plan none w = refl
    runs-after_write others now seen plan (some r) w =
        elim (Bool-cases (same_status r.status seen)) [
          | inl same ↦ rw same (runs-start_again others seen plan (resurrected_record now plan r) w)
          | inr moved ↦ rw moved refl
        ]

    get-resurrect_write :
        (others : List String) (now : ℕ) (run : RunRecord U) (plan : Plan U S) (w : World U)
        (j : String)
        → Registry.get (resurrect_write others now run plan w).0.runs j ≡ (
            if run.id === j
            then resurrect_mutator now run.status plan (Registry.get w.runs run.id)
            else Registry.get w.runs j)
    unfolding resurrect_write
    get-resurrect_write others now run plan w j =
        rw
          (runs-after_write others now run.status plan (Registry.get w.runs run.id)
            (with_runs (Registry.update w.runs run.id (resurrect_mutator now run.status plan)).0 w))
          (get-update w.runs run.id j (resurrect_mutator now run.status plan))

    status-resurrected_record :
        (now : ℕ) (plan : Plan U S) (r : RunRecord U)
        → (resurrected_record now plan r).status ≡ ready
    unfolding resurrected_record
    status-resurrected_record now plan r = refl

    -- The record of a run that a call has resurrected is READY.
    resurrect_write_ready :
        (others : List String) (now : ℕ) (run : RunRecord U) (plan : Plan U S) (w : World U)
        (r : RunRecord U)
        → (resurrect_write others now run plan w).1 ≡ resurrected r
        → (r' : RunRecord U) × (Registry.get (resurrect_write others now run plan w).0.runs run.id
            ≡ some r')
          × (r'.status ≡ ready)
    unfolding resurrect_write
    resurrect_write_ready others now run plan w r h =
        elim (Option-cases (Registry.get w.runs run.id)) [
          | inl missing ↦ absurd (clash_gone (rw (missing, resurrect_write) at h))
          | inr (c, there) ↦ elim (Bool-cases (same_status c.status run.status)) [
            | inr moved ↦ absurd (clash c.status (rw (there, moved, resurrect_write) at h))
            | inl same ↦ (
              resurrected_record now plan c,
              stored c there same,
              status-resurrected_record now plan c,
            )
          ]
        ]
      where
        clash_gone : gone ≡ resurrected r → ⊥
        clash_gone e = cc

        clash : (s : JobStatus) → not_finished s ≡ resurrected r → ⊥
        clash s e = cc

        stored :
            (c : RunRecord U)
            → Registry.get w.runs run.id ≡ some c
            → same_status c.status run.status ≡ true
            → Registry.get (resurrect_write others now run plan w).0.runs run.id
              ≡ some (resurrected_record now plan c)
        stored c there same =
            rw (get-resurrect_write others now run plan w run.id, eq_refl run.id, there, same) refl

    resurrect_write-IsRefused :
        (others : List String) (now : ℕ) (run : RunRecord U) (plan : Plan U S) (w : World U)
        (r : RunRecord U)
        → Registry.get w.runs run.id ≡ some r
        → same_status r.status run.status ≡ false
        → IsRefused w (resurrect_write others now run plan w)
    unfolding resurrect_write
    resurrect_write-IsRefused others now run plan w r there moved = record {
      answer = λ r' e. clash r' (rw (there, moved, resurrect_write) at e);
      effects = rw (there, moved, resurrect_write) refl;
      records = λ j.
          rw (get-resurrect_write others now run plan w j) (elim (Bool-cases (run.id === j)) [
            | inl here ↦ rw (here, there, moved) (sym (rw ((eq_iff run.id j).0 here) at there))
            | inr other ↦ rw other refl
          ]);
    }
      where
        clash : (r' : RunRecord U) → not_finished r.status ≡ resurrected r' → ⊥
        clash r' e = cc

  unchanged :
      (w : World U) (a : ResurrectRunResult U)
      → ((r : RunRecord U) → a ≢ resurrected r)
      → IsRefused w (w, a)
  unchanged w a h = record { answer = h; effects = refl; records = λ j. refl }

module _ (d : Doubles) {S Input : Type 0}
    (evaluate : MemoryDefault → RunMemoryContext Input → Option ℕ)
    (other_lines : ℕ → ℕ → List String) (input : Input) where
  open d use {Num}

  -- A call either gives its answer at once or comes to the conditional write.
  resurrect_run_cases :
      (builds : Registry (BuildRecord S)) (tags : Dict String) (now : ℕ) (run : RunRecord Num)
      (o : ResurrectRunOptions Num) (meanwhile : World Num → World Num) (w : World Num)
      → ((a : ResurrectRunResult Num) × ((r : RunRecord Num) → a ≢ resurrected r)
          × (resurrect_run d evaluate builds tags other_lines input now run o meanwhile w ≡ (w, a)))
        ⊎ ((is_terminal_job_status run.status ≡ true)
            × (others : List String) × (plan : Plan Num S) × (resurrect_run d evaluate builds tags
                  other_lines input now run o meanwhile w
                ≡ resurrect_write others now run plan (meanwhile w)))
  unfolding resurrect_run
  resurrect_run_cases builds tags now run o meanwhile w =
      elim (Bool-cases (is_terminal_job_status run.status)) [
        | inr live ↦ inl (not_finished run.status, (λ r e. cc e), rw (live, resurrect_run) refl)
        | inl ended ↦
            elim (Bool-cases
              (lowers_cap d o.max_total_charge_usd run.options.max_total_charge_usd)) [
                | inl lower ↦
                    inl (cost_limit_decreased, (λ r e. cc e), rw (ended, lower, resurrect_run) refl)
                | inr fine ↦ elim (Option-cases (build_for d evaluate builds tags run o.build)) [
                  | inl missing ↦
                      inl (
                        no_such_build,
                        (λ r e. cc e),
                        rw (ended, fine, missing, resurrect_run) refl,
                      )
                  | inr (b, there) ↦
                      let plan = plan_for d evaluate builds tags input run o b in
                      inr (
                        ended,
                        other_lines plan.memory.memory_mbytes plan.start_event_count,
                        plan,
                        rw (ended, fine, there, resurrect_run) refl,
                      )
                ]
              ]
      ]

  -- A call that resurrects a run leaves it READY. As long as a run is live at the moment of a call's
  -- write, however the call came to it and whatever others did before and while it waited, a call with a
  -- copy of the run gives another answer, asks for no effect (so that no second container starts) and
  -- leaves every record as it was when the call began or when its wait ended.
  pub resurrect_run_only_one :
      (builds builds' : Registry (BuildRecord S)) (tags tags' : Dict String) (now later : ℕ)
      (run : RunRecord Num) (o o' : ResurrectRunOptions Num)
      (meanwhile meanwhile' : World Num → World Num) (w w' : World Num) (r live : RunRecord Num)
      → (resurrect_run d evaluate builds tags other_lines input now run o meanwhile w).1
        ≡ resurrected r
      → Registry.get (meanwhile' w').runs run.id ≡ some live
      → is_terminal_job_status live.status ≡ false
      → ((r' : RunRecord Num) × (Registry.get
              (resurrect_run d evaluate builds tags other_lines input now run o meanwhile w).0.runs
              run.id
            ≡ some r')
          × (r'.status ≡ ready))
        × (let again =
              resurrect_run d evaluate builds' tags' other_lines input later run o' meanwhile' w' in
            IsRefused w' again ⊎ IsRefused (meanwhile' w') again)
  resurrect_run_only_one builds builds' tags tags' now later run o o' meanwhile meanwhile' w w' r
        live done there still =
      (
        first (resurrect_run_cases builds tags now run o meanwhile w),
        second (resurrect_run_cases builds' tags' later run o' meanwhile' w'),
      )
    where
      call : World Num × ResurrectRunResult Num
      call = resurrect_run d evaluate builds tags other_lines input now run o meanwhile w

      again : World Num × ResurrectRunResult Num
      again = resurrect_run d evaluate builds' tags' other_lines input later run o' meanwhile' w'

      first :
          ((a : ResurrectRunResult Num) × ((r : RunRecord Num) → a ≢ resurrected r)
              × (call ≡ (w, a)))
            ⊎ ((is_terminal_job_status run.status ≡ true)
                × (others : List String) × (plan : Plan Num S) × (call
                    ≡ resurrect_write others now run plan (meanwhile w)))
          → (r' : RunRecord Num) × (Registry.get call.0.runs run.id ≡ some r') × (r'.status ≡ ready)
      first (inl (a, other, is)) = absurd (other r (rw is at done))
      first (inr (ended, others, plan, is)) =
          rw is (resurrect_write_ready others now run plan (meanwhile w) r (rw is at done))

      second :
          ((a : ResurrectRunResult Num) × ((r : RunRecord Num) → a ≢ resurrected r)
              × (again ≡ (w', a)))
            ⊎ ((is_terminal_job_status run.status ≡ true)
                × (others : List String) × (plan : Plan Num S) × (again
                    ≡ resurrect_write others later run plan (meanwhile' w')))
          → IsRefused w' again ⊎ IsRefused (meanwhile' w') again
      second (inl (a, other, is)) = inl (rw is (unchanged w' a other))
      second (inr (ended, others, plan, is)) = inr (
          rw is (
            resurrect_write-IsRefused others later run plan (meanwhile' w') live there
              (live_differs live.status run.status still ended)))
