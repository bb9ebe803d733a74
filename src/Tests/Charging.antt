-- ===== src/Tests/Charging.antt =====
-- A charge and its repetition, updates of an Actor's pricing, and the memory of a run.
use actor_runtime.Base.{
  ℕ, ◌≤◌, ◌≡◌, ◌<◌, ◌⊎◌, refl, Bool, true, false, Option, none, some, List, [], ◌∷◌, ◌++◌, arith,
  ◌==◌, ltb, if◌then◌else◌, not, ◌&&◌, is_some,
}
use actor_runtime.Base.Dict.{lookup, insert}
use actor_runtime.Double.{micros}
use actor_runtime.Jobs.Registry
use actor_runtime.Jobs.Registry.{Registry}
use actor_runtime.Entities.Pricing.{
  ActorPricingModel, ActorPricingInfoRecord, free, flat_price_per_month, price_per_dataset_item,
  pay_per_event,
}
use actor_runtime.Entities.Build.{ActorMemorySettings, MemoryDefault}
use actor_runtime.Entities.Run.{RunRecord}
use actor_runtime.Charging.{
  ChargeRequest, Ledger, charged, replayed, charge_event, charge_keyed, charge_reserved,
  prune_idempotency_records, increment_charged_event_count,
}
use actor_runtime.Charging.Once.{charge_once, charges}
use actor_runtime.Pricing.{validate_pricing_infos_update, effective_pricing_info}
use actor_runtime.Pricing.History.{
  Accepted, validate_pricing_infos_update-Accepted, accepted_keeps_past,
}
use actor_runtime.ActorMemory.{RunMemoryContext, resolve_run_memory}
use actor_runtime.ActorMemory.Bounds.{
  resolve_run_memory_bounds, resolve_run_memory_contradiction, AtLeast, AtMost,
}
use actor_runtime.Tests.Data.{run_1, world_1}

abbrev ledger_1 : Ledger ℕ
ledger_1 = record { world = world_1; idempotency_records = [] }

abbrev two_items : ChargeRequest
two_items = record { event_name = "item"; count = 2; idempotency_key = "k1" }

abbrev nine_items : ChargeRequest
nine_items = record { event_name = "item"; count = 9; idempotency_key = "k1" }

abbrev other_key : ChargeRequest
other_key = record { event_name = "item"; count = 1; idempotency_key = "k2" }

abbrev charged_run : RunRecord ℕ
charged_run = record run_1 { charged_event_counts = some (("item", 2) ∷ []) }

abbrev between : List (ℕ × RunRecord ℕ × ChargeRequest)
between = (2000, run_1, other_key) ∷ []

first_charge : (charge_event micros 1000 run_1 two_items ledger_1).1 ≡ charged 201 charged_run
unfolding charge_event charge_keyed charge_reserved increment_charged_event_count
    prune_idempotency_records Registry.update lookup insert
first_charge = refl

charge_once_example :
    ((charge_event micros 3000 run_1 nine_items
        (charges micros between (charge_event micros 1000 run_1 two_items ledger_1).0)).0.world
      ≡ (charges micros between (charge_event micros 1000 run_1 two_items ledger_1).0).world)
    × ((charge_event micros 3000 run_1 nine_items
          (charges micros between (charge_event micros 1000 run_1 two_items ledger_1).0)).1
        ≡ replayed 201)
unfolding lookup
charge_once_example =
    charge_once micros 1000 3000 run_1 run_1 two_items nine_items ledger_1 201 charged_run between
      first_charge refl refl refl (omega arith, tt) (omega arith)

abbrev priced_from : ℕ → ActorPricingInfoRecord ℕ
priced_from start = record {
  pricing_model = free;
  created_at = 0;
  started_at = start;
  apify_margin_percentage = 0;
  reason_for_change = none;
  pricing_per_event = none;
}

abbrev same_model : ActorPricingModel → ActorPricingModel → Bool
same_model free free = true
same_model flat_price_per_month flat_price_per_month = true
same_model price_per_dataset_item price_per_dataset_item = true
same_model pay_per_event pay_per_event = true
same_model _ _ = false

-- A test of two entries that is right about those without a reason and without events, and gives
-- `false` on the others.
abbrev same_entry : ActorPricingInfoRecord ℕ → ActorPricingInfoRecord ℕ → Bool
same_entry a b =
    same_model a.pricing_model b.pricing_model
    && (a.created_at == b.created_at)
    && (a.started_at == b.started_at)
    && (a.apify_margin_percentage == b.apify_margin_percentage)
    && not (is_some a.reason_for_change)
    && not (is_some b.reason_for_change)
    && not (is_some a.pricing_per_event)
    && not (is_some b.pricing_per_event)

fields→≡ :
    (a b : ActorPricingInfoRecord ℕ)
    → a.pricing_model ≡ b.pricing_model
    → a.created_at ≡ b.created_at
    → a.started_at ≡ b.started_at
    → a.apify_margin_percentage ≡ b.apify_margin_percentage
    → a.reason_for_change ≡ b.reason_for_change
    → a.pricing_per_event ≡ b.pricing_per_event
    → a ≡ b
fields→≡ a b p q r s t u = λ i. record {
  pricing_model = p i;
  created_at = q i;
  started_at = r i;
  apify_margin_percentage = s i;
  reason_for_change = t i;
  pricing_per_event = u i;
}

same_entry→≡ : (a b : ActorPricingInfoRecord ℕ) → same_entry a b ≡ true → a ≡ b
same_entry→≡ a b h =
    fields→≡ a b (ground arith) (ground arith) (ground arith) (ground arith) (ground arith)
      (ground arith)

abbrev in_force : List (ActorPricingInfoRecord ℕ)
in_force = priced_from 10 ∷ []

abbrev with_future : List (ActorPricingInfoRecord ℕ)
with_future = priced_from 10 ∷ priced_from 50 ∷ []

accepts : validate_pricing_infos_update same_entry 20 in_force with_future ≡ none
unfolding validate_pricing_infos_update
accepts = refl

validate_pricing_infos_update-Accepted_example : Accepted 20 in_force with_future
validate_pricing_infos_update-Accepted_example =
    validate_pricing_infos_update-Accepted same_entry same_entry→≡ 20 in_force with_future accepts

accepted_keeps_past_example :
    (with_future ≡ in_force)
    ⊎ ((added : ActorPricingInfoRecord ℕ) × (with_future ≡ in_force ++ added ∷ [])
        × (30 < added.started_at
            → effective_pricing_info (some with_future) 30
              ≡ effective_pricing_info (some in_force) 30)
        × (added.started_at ≤ 30 → effective_pricing_info (some with_future) 30 ≡ some added))
accepted_keeps_past_example =
    accepted_keeps_past same_entry same_entry→≡ 20 30 in_force with_future accepts

abbrev memory_between : ℕ → ℕ → ActorMemorySettings
memory_between lo hi = record {
  default_memory_mbytes = none;
  min_memory_mbytes = some lo;
  max_memory_mbytes = some hi;
}

abbrev asking : ℕ → RunMemoryContext ℕ
asking m = record { requested_memory_mbytes = some m; fallback_memory_mbytes = 1024; input = 0 }

abbrev no_expression : MemoryDefault → RunMemoryContext ℕ → Option ℕ
no_expression e c = none

resolve_run_memory_bounds_example :
    AtLeast
      (some 512)
      (resolve_run_memory no_expression
        (some (memory_between 512 2048))
        (asking 4096)).memory_mbytes
    × AtMost
        (some 2048)
        (resolve_run_memory no_expression
          (some (memory_between 512 2048))
          (asking 4096)).memory_mbytes
resolve_run_memory_bounds_example =
    resolve_run_memory_bounds no_expression (some (memory_between 512 2048)) (asking 4096)
      (omega arith)

resolve_run_memory_contradiction_example :
    (resolve_run_memory no_expression (some (memory_between 2048 512)) (asking 4096)).memory_mbytes
    ≡ (if ltb 4096 2048 then 2048 else 512)
resolve_run_memory_contradiction_example =
    resolve_run_memory_contradiction no_expression (memory_between 2048 512) (asking 4096) 2048 512
      4096 refl refl (omega arith) refl
