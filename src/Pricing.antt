-- ===== src/Pricing.antt =====
-- src/services/pricing.ts: which of an Actor's pricing entries is in force, what of it a run takes, and
-- the append-only rule of an update. The validation of the raw JSON before that rule is not modelled.
pub mod History
use actor_runtime.Base.{
  ℕ, ◌+◌, ◌-◌, ◌/◌, String, ◌≡◌, Bool, true, false, not, ◌&&◌, ◌||◌, Option, none, some, List, [],
  ◌∷◌, ltb, leb, ◌==◌, length, max, map, or_else, is_some, last?, if◌then◌else◌,
}
use actor_runtime.Base.Dict.{Dict, lookup, insert, has}
use actor_runtime.Double.{Doubles}
use actor_runtime.Entities.Pricing.{
  ActorPricingModel, free, flat_price_per_month, price_per_dataset_item, pay_per_event,
  ActorChargeEventRecord, ActorPricingInfoRecord, RunChargeEventRecord, RunPricingInfoRecord,
}

abbrev pub apify_events_prefix : String
apify_events_prefix = "apify-"

abbrev pub actor_start_event_name : String
actor_start_event_name = "apify-actor-start"

abbrev pub default_dataset_item_event_name : String
default_dataset_item_event_name = "apify-default-dataset-item"

abbrev pub resolved_pricing_tier : String
resolved_pricing_tier = "BRONZE"

abbrev pub is_pay_per_event_model : ActorPricingModel → Bool
is_pay_per_event_model pay_per_event = true
is_pay_per_event_model free = false
is_pay_per_event_model flat_price_per_month = false
is_pay_per_event_model price_per_dataset_item = false

-- The reasons for which an update is refused, by the platform's error types.
pub data UpdateRefusal : Type 0 where
  cannot_remove_pricing_info cannot_add_multiple_pricing_infos : UpdateRefusal
  incorrect_pricing_modifier_prefix : ℕ → UpdateRefusal
  alters_past second_future_pricing_info : UpdateRefusal

module _ {U : Type 0} where
  -- One round of the loop of `effectivePricingInfo`.
  abbrev pub better :
      ℕ
      → Option (ActorPricingInfoRecord U)
      → ActorPricingInfoRecord U
      → Option (ActorPricingInfoRecord U)
  better date none info = if ltb date info.started_at then none else some info
  better date (some best) info =
      if ltb date info.started_at
      then some best
      else (if ltb best.started_at info.started_at then some info else some best)

  unfoldable pub effective_from :
      ℕ
      → Option (ActorPricingInfoRecord U)
      → List (ActorPricingInfoRecord U)
      → Option (ActorPricingInfoRecord U)
  effective_from date best [] = best
  effective_from date best (info ∷ infos) = effective_from date (better date best info) infos

  -- The entry with the latest `startedAt` not after `date`.
  unfoldable pub effective_pricing_info :
      Option (List (ActorPricingInfoRecord U)) → ℕ → Option (ActorPricingInfoRecord U)
  unfolding effective_from
  effective_pricing_info infos date = effective_from date none (or_else infos [])

  unfoldable pub is_pay_per_event : Option (RunPricingInfoRecord U) → Bool
  is_pay_per_event none = false
  is_pay_per_event (some p) = is_pay_per_event_model p.pricing_model && is_some p.pricing_per_event

  -- `isPayPerEvent` as the type guard that it is: the events of a pay-per-event pricing.
  abbrev pub charge_events :
      Option (RunPricingInfoRecord U) → Option (Dict (RunChargeEventRecord U))
  charge_events none = none
  charge_events (some p) =
      if is_pay_per_event_model p.pricing_model then p.pricing_per_event else none

  zeros : Dict (RunChargeEventRecord U) → Dict ℕ
  zeros [] = []
  zeros ((name, e) ∷ es) = (name, 0) ∷ zeros es

-- One start event per whole gigabyte, at least one.
unfoldable pub actor_start_event_count : ℕ → ℕ
actor_start_event_count memory_mbytes = max 1 (memory_mbytes / 1024)

module _ {U : Type 0} where
  unfoldable pub initial_charged_event_counts :
      Option (RunPricingInfoRecord U) → ℕ → Option (Dict ℕ)
  unfolding zeros
  initial_charged_event_counts pricing memory_mbytes = elim (charge_events pricing) [
    | none ↦ none
    | some events ↦
        let counts = zeros events in
        some (
          if has actor_start_event_name counts
          then insert actor_start_event_name (actor_start_event_count memory_mbytes) counts
          else counts)
  ]

module _ (d : Doubles) where
  open d use {Num, nought}

  abbrev pub tier_price : Option (Dict Num) → Option Num
  tier_price none = none
  tier_price (some tiers) = lookup resolved_pricing_tier tiers

  -- event.eventPriceUsd ?? event.eventTieredPricingUsd?.[tier]?.tieredEventPriceUsd ?? 0
  unfoldable pub resolve_event : ActorChargeEventRecord Num → RunChargeEventRecord Num
  resolve_event e = record {
    event_title = e.event_title;
    event_description = e.event_description;
    event_price_usd =
        or_else e.event_price_usd (or_else (tier_price e.event_tiered_pricing_usd) nought);
    is_one_time_event = e.is_one_time_event;
    is_primary_event = e.is_primary_event;
  }

  resolve_events : Dict (ActorChargeEventRecord Num) → Dict (RunChargeEventRecord Num)
  unfolding resolve_event
  resolve_events [] = []
  resolve_events ((name, e) ∷ es) = (name, resolve_event e) ∷ resolve_events es

  resolve_per_event : ActorPricingInfoRecord Num → Option (Dict (RunChargeEventRecord Num))
  unfolding resolve_events
  resolve_per_event info =
      if is_pay_per_event_model info.pricing_model
      then (elim info.pricing_per_event [
        | none ↦ none
        | some events ↦ some (resolve_events events)
      ])
      else none

  unfoldable pub resolve_run_pricing_info :
      Option (List (ActorPricingInfoRecord Num)) → ℕ → Option (RunPricingInfoRecord Num)
  unfolding effective_pricing_info resolve_per_event
  resolve_run_pricing_info infos date = elim (effective_pricing_info infos date) [
    | none ↦ none
    | some effective ↦ some (record {
      pricing_model = effective.pricing_model;
      created_at = effective.created_at;
      started_at = effective.started_at;
      apify_margin_percentage = effective.apify_margin_percentage;
      pricing_per_event = resolve_per_event effective;
    })
  ]

module _ {U : Type 0} where
  any_at_least : ℕ → List (ActorPricingInfoRecord U) → Bool
  any_at_least time [] = false
  any_at_least time (entry ∷ es) = leb time entry.started_at || any_at_least time es

  any_after : ℕ → List (ActorPricingInfoRecord U) → Bool
  any_after time [] = false
  any_after time (entry ∷ es) = ltb time entry.started_at || any_after time es

  check_added :
      ℕ → List (ActorPricingInfoRecord U) → Option (ActorPricingInfoRecord U) → Option UpdateRefusal
  unfolding any_at_least any_after
  check_added now current none = none
  check_added now current (some added) =
      if any_at_least added.started_at current
      then some alters_past
      else (if ltb now added.started_at && any_after now current
          then some second_future_pricing_info
          else none)

-- `validatePricingInfosUpdate` once the submitted entries have been validated. `same` is Node's
-- `isDeepStrictEqual` on two entries.
module _ {U : Type 0} (same : ActorPricingInfoRecord U → ActorPricingInfoRecord U → Bool) where
  -- The first submitted entry that differs from the existing one at its place.
  unfoldable pub differing :
      ℕ → List (ActorPricingInfoRecord U) → List (ActorPricingInfoRecord U) → Option ℕ
  differing index submitted [] = none
  differing index [] (entry ∷ current) = some index
  differing index (s ∷ submitted) (entry ∷ current) =
      let rest = differing (index + 1) submitted current in
      if same s entry then rest else some index

  -- `none` where the update is accepted.
  unfoldable pub validate_pricing_infos_update :
      ℕ → List (ActorPricingInfoRecord U) → List (ActorPricingInfoRecord U) → Option UpdateRefusal
  unfolding differing check_added
  validate_pricing_infos_update now current submitted =
      if ltb (length submitted) (length current)
      then some cannot_remove_pricing_info
      else (if ltb 1 (length submitted - length current)
          then some cannot_add_multiple_pricing_infos
          else elim (differing 0 submitted current) [
            | some index ↦ some (incorrect_pricing_modifier_prefix index)
            | none ↦
                if length submitted == length current
                then none
                else check_added now current (last? submitted)
          ])
