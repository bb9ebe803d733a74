-- ===== src/Runs/Queries.antt =====
-- The reads of runs in src/services/runs.ts, and `deleteRun`.
pub mod Newest
use actor_runtime.Base.{
  ℕ, ◌≤◌, ◌<◌, String, ◌≡◌, refl, Bool, true, false, not, ◌&&◌, Option, none, some, List, [], ◌∷◌,
  ◌++◌, arith, ltb, keep, All, All-append, ◌===◌, if◌then◌else◌, Bool-cases, Option-cases, inl, inr,
  ap,
}
use actor_runtime.Jobs.Status.{
  JobStatus, ready, running, succeeded, failed, aborting, aborted, timed_out,
}
use actor_runtime.Jobs.Registry
use actor_runtime.Jobs.Registry.{Registry}
use actor_runtime.Entities.Run.{RunRecord}

pub data RunScope : Type 0 where
  of_actor of_task : String → RunScope

pub record RunFilter : Type 0 where
  pub status : Option String
  pub origin : Option String

-- The status as the text that it is in the program.
abbrev pub status_text : JobStatus → String
status_text ready = "READY"
status_text running = "RUNNING"
status_text succeeded = "SUCCEEDED"
status_text failed = "FAILED"
status_text aborting = "ABORTING"
status_text aborted = "ABORTED"
status_text timed_out = "TIMED-OUT"

abbrev pub equals : Option String → String → Bool
equals none text = false
equals (some t) text = t === text

abbrev pub passes : Option String → String → Bool
passes none text = true
passes (some t) text = text === t

module _ {U : Type 0} where
  abbrev pub in_scope : RunRecord U → Option RunScope → Bool
  in_scope run none = true
  in_scope run (some (of_actor actor_id)) = run.actor_id === actor_id
  in_scope run (some (of_task task_id)) = equals run.actor_task_id task_id

  unfoldable pub list_owned_runs :
      Registry (RunRecord U) → String → Option RunScope → List (RunRecord U)
  list_owned_runs runs user scope =
      keep (λ run. (run.user_id === user) && in_scope run scope) (Registry.list runs)

  unfoldable pub get_owned_run : Registry (RunRecord U) → String → String → Option (RunRecord U)
  get_owned_run runs user id = elim (Registry.get runs id) [
    | none ↦ none
    | some r ↦ if r.user_id === user then some r else none
  ]

  abbrev pub is_candidate : RunFilter → RunRecord U → Bool
  is_candidate filter run =
      passes filter.status (status_text run.status) && passes filter.origin run.meta.origin

  abbrev pub newer : Option (RunRecord U) → RunRecord U → Option (RunRecord U)
  newer none run = some run
  newer (some newest) run = if ltb newest.started_at run.started_at then some run else some newest

  unfoldable pub last_from :
      RunFilter → Option (RunRecord U) → List (RunRecord U) → Option (RunRecord U)
  last_from filter newest [] = newest
  last_from filter newest (run ∷ runs) =
      last_from filter (if is_candidate filter run then newer newest run else newest) runs

  unfoldable pub find_last_owned_run :
      Registry (RunRecord U) → String → RunScope → RunFilter → Option (RunRecord U)
  unfolding last_from
  find_last_owned_run runs user scope filter =
      last_from filter none (list_owned_runs runs user (some scope))

  pub list_all_runs : Registry (RunRecord U) → List (RunRecord U)
  list_all_runs runs = Registry.list runs

  pub get_run_by_id : Registry (RunRecord U) → String → Option (RunRecord U)
  get_run_by_id runs id = Registry.get runs id

  pub delete_run : Registry (RunRecord U) → String → Registry (RunRecord U)
  delete_run runs id = Registry.delete runs id
