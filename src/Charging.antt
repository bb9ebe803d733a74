-- ===== src/Charging.antt =====
-- src/services/charging.ts: pay-per-event charging of a run, its idempotency keys and its cost cap.
-- No event is named like what every JavaScript object has, such as `constructor`: the `in` of the source
-- holds for these as well.
pub mod Once
use Prim.Native.String
use text.Mathlib.Text.{starts_with}
use actor_runtime.Base.{
  ℕ, ◌+◌, ◌*◌, String, ◌≡◌, Bool, true, false, not, ◌||◌, Option, none, some, List, [], ◌∷◌, leb,
  ◌==◌, or_else, is_some, if◌then◌else◌,
}
use actor_runtime.Base.Dict.{Dict, lookup, insert, erase, has}
use actor_runtime.Double.{Doubles}
use actor_runtime.Jobs.Status.{JobStatus, running, is_terminal_job_status, same_status}
use actor_runtime.Jobs.Registry
use actor_runtime.Jobs.Registry.{Registry, on_record}
use actor_runtime.Entities.Run.{RunRecord}
use actor_runtime.Pricing.{charge_events, apify_events_prefix, default_dataset_item_event_name}
use actor_runtime.Usage.{event_usage_for, sum_event_usage_usd, count_of}
use actor_runtime.Runs.World.{World, runtime_log, line, emit, with_runs}
use actor_runtime.Runs.Abort.{abort_run_begin}

-- 3 * 60 * 1000
abbrev pub idempotency_ttl_ms : ℕ
idempotency_ttl_ms = 180000

pub record IdempotencyEntry : Type 0 where
  pub status : ℕ
  pub expires_at : ℕ

pub record ChargeRequest : Type 0 where
  pub event_name : String
  pub count : ℕ
  pub idempotency_key : String

pub data ChargeResult (U : Type 0) : Type 0 where
  charged : ℕ → RunRecord U → ChargeResult U
  replayed : ℕ → ChargeResult U
  not_pay_per_event apify_event unknown_event : ChargeResult U

-- The runs and `idempotencyRecords`.
pub record Ledger (U : Type 0) : Type 0 where
  pub world : World U
  pub idempotency_records : Dict IdempotencyEntry

unfoldable pub prune_idempotency_records : ℕ → Dict IdempotencyEntry → Dict IdempotencyEntry
prune_idempotency_records now [] = []
prune_idempotency_records now ((key, entry) ∷ m) =
    let rest = prune_idempotency_records now m in
    if leb entry.expires_at now then rest else (key, entry) ∷ rest

-- `${run.id}:${request.idempotencyKey}`
abbrev pub record_key : String → String → String
record_key run_id key = String.◌++◌ run_id (String.◌++◌ ":" key)

abbrev pub add_to_count : String → ℕ → Option (Dict ℕ) → Dict ℕ
add_to_count name count counts = insert name (count_of counts name + count) (or_else counts [])

module _ {U : Type 0} where
  abbrev pub add_charges : String → ℕ → RunRecord U → RunRecord U
  add_charges name count r = record r {
    charged_event_counts = some (add_to_count name count r.charged_event_counts);
  }

  unfoldable pub increment_charged_event_count :
      World U → String → String → ℕ → World U × Option (RunRecord U)
  increment_charged_event_count w run_id name count =
      let (runs', updated) = Registry.update w.runs run_id (on_record (add_charges name count)) in
      (with_runs runs' w, updated)

  abbrev pub prices_event : String → RunRecord U → Bool
  prices_event name run = elim (charge_events run.pricing_info) [
    | none ↦ false
    | some events ↦ has name events
  ]

  unfoldable pub register_default_dataset_for_charging : RunRecord U → World U → World U
  register_default_dataset_for_charging run w =
      if prices_event default_dataset_item_event_name run
      then record w {
        default_dataset_runs = insert run.default_dataset_id run.id w.default_dataset_runs;
      }
      else w

  unfoldable pub unregister_default_dataset_for_charging : RunRecord U → World U → World U
  unregister_default_dataset_for_charging run w = record w {
    default_dataset_runs = erase run.default_dataset_id w.default_dataset_runs;
  }

  -- Stamps a run once.
  abbrev pub stamp : ℕ → RunRecord U → RunRecord U
  stamp now r =
      if is_some r.charging_stopped_at then r else record r { charging_stopped_at = some now }

module _ (d : Doubles) where
  open d use {Num, nought, less, show}

  abbrev pub cost_limit_reached_message : Num → Num → String
  cost_limit_reached_message cap total = String.◌++◌ "Run aborted: the maximum total charge of $" (
      String.◌++◌ (show cap) (
        String.◌++◌ " was reached (charged $" (
          String.◌++◌ (show total)
            " so far). Raise maxTotalChargeUsd to let the run charge more.")))

  unfoldable pub charged_total : RunRecord Num → Num
  charged_total run = sum_event_usage_usd d (event_usage_for d run)

  -- Whether the run's charges have reached its cap and it has not been stopped before.
  unfoldable pub reaches_cap : RunRecord Num → Bool
  reaches_cap run = elim run.options.max_total_charge_usd [
    | none ↦ false
    | some cap ↦
        not
          (not (less nought cap) || is_some run.charging_stopped_at || less (charged_total run) cap)
  ]

  abbrev pub limit_message : RunRecord Num → String
  limit_message run =
      cost_limit_reached_message (or_else run.options.max_total_charge_usd nought)
        (charged_total run)

  -- What follows the write, on the record that it stamped.
  abbrev pub stop_charged : String → RunRecord Num → World Num → World Num
  stop_charged message stamped w =
      if is_terminal_job_status stamped.status
      then w
      else (let w' = emit (runtime_log stamped.id (line message)) w in
          if same_status stamped.status running
          then (abort_run_begin w' stamped true (some message)).0
          else w')

  abbrev pub stamp_and_stop : ℕ → String → Option (RunRecord Num) → World Num → String → World Num
  stamp_and_stop now message none w id = w
  stamp_and_stop now message (some current) w id =
      if is_some current.charging_stopped_at
      then with_runs (Registry.update w.runs id (on_record (stamp now))).0 w
      else stop_charged message (stamp now current)
          (with_runs (Registry.update w.runs id (on_record (stamp now))).0 w)

  -- A graceful abort of a RUNNING run does not wait for the driver: its first part is all of it.
  unfoldable pub enforce_cost_limit : ℕ → RunRecord Num → World Num → World Num
  enforce_cost_limit now run w =
      if reaches_cap run
      then stamp_and_stop now (limit_message run) (Registry.get w.runs run.id) w run.id
      else w

  -- The charge itself, once the checks and the idempotency key have let it through.
  unfoldable pub charge_reserved :
      ℕ → RunRecord Num → ChargeRequest → World Num → World Num × ChargeResult Num
  charge_reserved now run request w =
      let (w', updated) = increment_charged_event_count w run.id request.event_name request.count in
      let current = or_else updated run in (enforce_cost_limit now current w', charged 201 current)

  unfoldable pub charge_keyed :
      ℕ → RunRecord Num → ChargeRequest → Ledger Num → Ledger Num × ChargeResult Num
  charge_keyed now run request l =
      let records = prune_idempotency_records now l.idempotency_records in
      let key = record_key run.id request.idempotency_key in
      elim (lookup key records) [
        | some entry ↦ (record l { idempotency_records = records }, replayed entry.status)
        | none ↦
            let (w, result) = charge_reserved now run request l.world in
            (
              record {
                world = w;
                idempotency_records =
                    insert key (record { status = 201; expires_at = now + idempotency_ttl_ms })
                      records;
              },
              result,
            )
      ]

  unfoldable pub charge_event :
      ℕ → RunRecord Num → ChargeRequest → Ledger Num → Ledger Num × ChargeResult Num
  charge_event now run request l =
      if starts_with request.event_name apify_events_prefix
      then (l, apify_event)
      else elim (charge_events run.pricing_info) [
        | none ↦ (l, not_pay_per_event)
        | some events ↦
            if has request.event_name events
            then charge_keyed now run request l
            else (l, unknown_event)
      ]

  -- After a push of `item_count` items to a dataset.
  unfoldable pub record_default_dataset_items : ℕ → String → ℕ → World Num → World Num
  record_default_dataset_items now dataset_id item_count w =
      if item_count == 0 then w else elim (lookup dataset_id w.default_dataset_runs) [
        | none ↦ w
        | some run_id ↦
            let (w', updated) =
              increment_charged_event_count w run_id default_dataset_item_event_name item_count in
            elim updated [ none ↦ w' | some run ↦ enforce_cost_limit now run w' ]
      ]
