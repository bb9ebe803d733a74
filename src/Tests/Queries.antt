-- ===== src/Tests/Queries.antt =====
-- Queries, a resurrection and its repetition, and the projection of an item.
use actor_runtime.Base.{
  ℕ, String, ◌≡◌, refl, ◌⊎◌, ◌↔◌, true, false, Option, none, some, List, [], ◌∷◌,
}
use actor_runtime.Base.Dict.{Dict, lookup, insert}
use actor_runtime.Double.{micros}
use actor_runtime.Jobs.Status.{succeeded, ready, is_terminal_job_status, same_status}
use actor_runtime.Jobs.Registry
use actor_runtime.Jobs.Registry.{Registry}
use actor_runtime.Entities.Build.{BuildRecord, MemoryDefault}
use actor_runtime.Entities.Run.{RunRecord}
use actor_runtime.ActorMemory.{RunMemoryContext, resolve_run_memory, unclamped_memory, clamp_memory}
use actor_runtime.Charging.{register_default_dataset_for_charging}
use actor_runtime.Runs.World.{World}
use actor_runtime.Runs.Queries.{RunFilter, of_actor, find_last_owned_run}
use actor_runtime.Runs.Queries.Newest.{IsWanted, IsLast, find_last_owned_run_lem}
use actor_runtime.Runs.Resurrect.{
  ResurrectRunOptions, ResurrectRunResult, resurrected, resurrected_record, resurrect_run,
  resurrect_write, plan_for,
}
use actor_runtime.Runs.Resurrect.OnlyOne.{IsRefused, resurrect_run_only_one}
use actor_runtime.Datasets.{Value, string, null, DatasetProjectionOptions, project_item}
use actor_runtime.Datasets.Selection.{Stays, lookup-project_item}
use actor_runtime.Tests.Data.{run_2, both_runs, world_1}

abbrev ended_well : RunFilter
ended_well = record { status = some "SUCCEEDED"; origin = none }

find_last_owned_run_lem_example :
    IsLast
      (IsWanted "user1" (of_actor "actor1") ended_well)
      (Registry.list both_runs)
      (find_last_owned_run both_runs "user1" (of_actor "actor1") ended_well)
find_last_owned_run_lem_example =
    find_last_owned_run_lem "user1" (of_actor "actor1") ended_well both_runs

abbrev build_1 : BuildRecord ℕ
build_1 = record {
  id = "build1";
  user_id = "user1";
  actor_id = "actor1";
  version_number = "0.0";
  build_number = "0.0.1";
  tag = "latest";
  status = succeeded;
  started_at = 0;
  finished_at = some 1;
  image_id = some "image1";
  image_working_directory = none;
  input_schema = none;
  dataset_schemas = none;
  memory_settings = none;
  extra_dataset_aliases = none;
  exit_code = some 0;
  status_message = none;
}

abbrev builds : Registry (BuildRecord ℕ)
builds = record { store = ("build1", build_1) ∷ []; listening = false; notices = [] }

abbrev as_before : ResurrectRunOptions ℕ
as_before = record {
  build = none;
  memory_mbytes = none;
  timeout_secs = none;
  max_total_charge_usd = none;
  restart_on_error = none;
}

abbrev no_expression : MemoryDefault → RunMemoryContext ℕ → Option ℕ
no_expression e c = none

abbrev no_lines : ℕ → ℕ → List String
no_lines memory count = []

abbrev run_2_again : RunRecord ℕ
run_2_again =
    resurrected_record 50 (plan_for micros no_expression builds [] 0 run_2 as_before build_1) run_2

-- The first of two calls, in which nothing happens while it waits.
abbrev first_call : World ℕ × ResurrectRunResult ℕ
first_call =
    resurrect_run micros no_expression builds [] no_lines 0 50 run_2 as_before (λ w. w) world_1

resurrects : first_call.1 ≡ resurrected run_2_again
unfolding resurrect_run resurrect_write Registry.get lookup is_terminal_job_status same_status
resurrects = refl

-- The other call began before the first one and is still waiting when that writes.
resurrect_run_only_one_example :
    ((r' : RunRecord ℕ) × (Registry.get first_call.0.runs run_2.id ≡ some r') × (r'.status ≡ ready))
    × (let again =
          resurrect_run micros no_expression builds [] no_lines 0 60 run_2 as_before
            (λ w. first_call.0)
            world_1 in
        IsRefused world_1 again ⊎ IsRefused first_call.0 again)
unfolding resurrect_run resurrect_write resurrected_record Registry.get lookup insert
    is_terminal_job_status same_status resolve_run_memory unclamped_memory clamp_memory
    register_default_dataset_for_charging Registry.update
resurrect_run_only_one_example =
    resurrect_run_only_one micros no_expression no_lines 0 builds builds [] [] 50 60 run_2 as_before
      as_before (λ w. w) (λ w. first_call.0) world_1 world_1 run_2_again run_2_again resurrects refl
      refl

abbrev cleaned : DatasetProjectionOptions
cleaned = record {
  fields = [];
  omit = "url" ∷ [];
  unwind = none;
  clean = true;
  skip_hidden = false;
  skip_empty = false;
}

abbrev item : Dict Value
item = ("url", string "u") ∷ ("title", string "t") ∷ ("#debug", string "d") ∷ ("note", null) ∷ []

lookup-project_item_example :
    (lookup "title" (project_item cleaned item) ≡ some (string "t"))
    ↔ ((lookup "title" item ≡ some (string "t")) × Stays cleaned "title" (string "t"))
lookup-project_item_example = lookup-project_item cleaned item "title" (string "t")
