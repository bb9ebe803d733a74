-- ===== src/Usage.antt =====
-- src/services/run-usage.ts: the cost of a run.
use actor_runtime.Base.{ℕ, ◌+◌, ◌-◌, String, Option, none, some, [], ◌∷◌, or_else, if◌then◌else◌}
use actor_runtime.Base.Dict.{Dict, lookup}
use actor_runtime.Double.{Doubles}
use actor_runtime.Jobs.Status.{ready, same_status}
use actor_runtime.Entities.Pricing.{RunChargeEventRecord}
use actor_runtime.Entities.Run.{RunRecord}
use actor_runtime.Pricing.{charge_events}
use actor_runtime.Runs.Restart.{stats_of}

-- Math.max(0, end - begin) is the truncated difference. A READY run has consumed nothing new.
unfoldable pub run_duration_millis : {U : Type 0} → RunRecord U → ℕ → ℕ
run_duration_millis run now =
    let before = or_else (stats_of run).duration_millis_before_resurrect 0 in
    if same_status run.status ready
    then before
    else before + (or_else run.finished_at now - or_else run.resurrected_at run.started_at)

abbrev pub count_of : Option (Dict ℕ) → String → ℕ
count_of none name = 0
count_of (some counts) name = or_else (lookup name counts) 0

module _ (d : Doubles) where
  open d use {Num, nought, of_ℕ, plus, times, to_fixed_6}

  pub record EventUsage : Type 0 where
    pub event_title : String
    pub event_total_usd : Num

  unfoldable pub usage_of : Option (Dict ℕ) → Dict (RunChargeEventRecord Num) → Dict EventUsage
  usage_of counts [] = []
  usage_of counts ((name, event) ∷ events) =
      (
        name,
        record {
          event_title = event.event_title;
          event_total_usd = to_fixed_6 (times (of_ℕ (count_of counts name)) event.event_price_usd);
        },
      )
      ∷ usage_of counts events

  unfoldable pub event_usage_for : RunRecord Num → Option (Dict EventUsage)
  unfolding usage_of
  event_usage_for run = elim (charge_events run.pricing_info) [
    | none ↦ none
    | some events ↦ some (usage_of run.charged_event_counts events)
  ]

  unfoldable pub total_from : Num → Dict EventUsage → Num
  total_from total [] = total
  total_from total ((name, u) ∷ us) = total_from (plus total u.event_total_usd) us

  unfoldable pub sum_event_usage_usd : Option (Dict EventUsage) → Num
  unfolding total_from
  sum_event_usage_usd usage = to_fixed_6 (total_from nought (or_else usage []))
