-- ===== src/Entities/Pricing.antt =====
-- The pricing records of src/storage/entities.ts.
use actor_runtime.Base.{ℕ, String, Bool, Option}
use actor_runtime.Base.Dict.{Dict}

pub data ActorPricingModel : Type 0 where
  free flat_price_per_month price_per_dataset_item pay_per_event : ActorPricingModel

pub record ActorChargeEventRecord (U : Type 0) : Type 0 where
  pub event_title : String
  pub event_description : String
  pub event_price_usd : Option U
  pub event_tiered_pricing_usd : Option (Dict U)
  pub is_one_time_event : Option Bool
  pub is_primary_event : Option Bool

pub record ActorPricingInfoRecord (U : Type 0) : Type 0 where
  pub pricing_model : ActorPricingModel
  pub created_at : ℕ
  pub started_at : ℕ
  pub apify_margin_percentage : U
  pub reason_for_change : Option String
  pub pricing_per_event : Option (Dict (ActorChargeEventRecord U))

pub record RunChargeEventRecord (U : Type 0) : Type 0 where
  pub event_title : String
  pub event_description : String
  pub event_price_usd : U
  pub is_one_time_event : Option Bool
  pub is_primary_event : Option Bool

pub record RunPricingInfoRecord (U : Type 0) : Type 0 where
  pub pricing_model : ActorPricingModel
  pub created_at : ℕ
  pub started_at : ℕ
  pub apify_margin_percentage : U
  pub pricing_per_event : Option (Dict (RunChargeEventRecord U))
