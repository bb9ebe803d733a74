-- ===== src/Tests/Data.antt =====
-- The records that the tests share. Prices are whole millionths of a dollar.
use actor_runtime.Base.{ℕ, true, none, some, [], ◌∷◌}
use actor_runtime.Jobs.Status.{running, succeeded}
use actor_runtime.Jobs.Registry.{Registry}
use actor_runtime.Entities.Pricing.{RunPricingInfoRecord, pay_per_event}
use actor_runtime.Entities.Run.{RunMeta, RunOptions, RunRecord}
use actor_runtime.Runs.World.{World}

abbrev pub api_meta : RunMeta
api_meta = record {
  origin = "API";
  schedule_id = none;
  scheduled_act2_id = none;
  scheduled_actor_task_id = none;
  scheduled_at = none;
}

abbrev pub options : RunOptions ℕ
options = record {
  memory_mbytes = 1024;
  timeout_secs = 300;
  build = none;
  disk_mbytes = none;
  max_total_charge_usd = some 10;
  restart_on_error = some true;
}

-- Two micro-dollars for an item.
abbrev pub item_pricing : RunPricingInfoRecord ℕ
item_pricing = record {
  pricing_model = pay_per_event;
  created_at = 0;
  started_at = 0;
  apify_margin_percentage = 0;
  pricing_per_event = some (
      (
        "item",
        record {
          event_title = "Item";
          event_description = "One item";
          event_price_usd = 2;
          is_one_time_event = none;
          is_primary_event = none;
        },
      )
      ∷ []);
}

abbrev pub run_1 : RunRecord ℕ
run_1 = record {
  id = "run1";
  user_id = "user1";
  actor_id = "actor1";
  actor_task_id = none;
  build_id = "build1";
  build_number = "0.0.1";
  status = running;
  started_at = 0;
  finished_at = none;
  default_dataset_id = "dataset1";
  default_key_value_store_id = "store1";
  default_request_queue_id = "queue1";
  storage_ids = none;
  options = options;
  exit_code = none;
  status_message = none;
  is_status_message_terminal = none;
  is_status_message_from_runtime = none;
  meta = api_meta;
  resurrected_at = none;
  stats = none;
  pricing_info = some item_pricing;
  charged_event_counts = none;
  charging_stopped_at = none;
  general_access = none;
  local_debug = none;
  local_browser_view = none;
}

-- A run that has ended well.
abbrev pub run_2 : RunRecord ℕ
run_2 = record run_1 { id = "run2"; status = succeeded; finished_at = some 5; exit_code = some 0 }

abbrev pub both_runs : Registry (RunRecord ℕ)
both_runs = record {
  store = ("run1", run_1) ∷ ("run2", run_2) ∷ [];
  listening = true;
  notices = [];
}

abbrev pub world_1 : World ℕ
world_1 = record {
  runs = both_runs;
  pending_graceful_aborts = [];
  pending_restarts = [];
  pending_migration_stops = [];
  finishing_runs = [];
  default_dataset_runs = [];
  effects = [];
}
