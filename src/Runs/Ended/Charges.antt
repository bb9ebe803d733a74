-- ===== src/Runs/Ended/Charges.antt =====
-- The writes of src/services/charging.ts on runs that have ended.
use text.Mathlib.Text.{starts_with}
use actor_runtime.Base.{
  ℕ, String, refl, Bool, true, false, Option, none, some, Bool-cases, Option-cases, inl, inr,
  is_some, or_else, ◌==◌, if◌then◌else◌,
}
use actor_runtime.Base.Dict.{lookup, has}
use actor_runtime.Double.{Doubles}
use actor_runtime.Jobs.Status.{running, is_terminal_job_status, same_status}
use actor_runtime.Jobs.Registry
use actor_runtime.Jobs.Registry.{Registry, on_record}
use actor_runtime.Entities.Run.{RunRecord}
use actor_runtime.Pricing.{charge_events, apify_events_prefix, default_dataset_item_event_name}
use actor_runtime.Runs.World.{World, emit, runtime_log, line, with_runs}
use actor_runtime.Runs.Ended.{
  KeepsEnded, KeepsEnded-refl, KeepsEnded-trans, SameEnd, SameEnd-refl, update-KeepsEnded,
}
use actor_runtime.Runs.Ended.Parts.{abort_run_begin-KeepsEnded, on_record-Freezes}
use actor_runtime.Charging.{
  ChargeRequest, Ledger, add_charges, increment_charged_event_count, stamp, stop_charged,
  stamp_and_stop, reaches_cap, limit_message, enforce_cost_limit, charge_reserved, charge_keyed,
  charge_event, record_default_dataset_items, prune_idempotency_records, record_key,
}

module _ {U : Type 0} where
  increment-KeepsEnded :
      (w : World U) (id name : String) (count : ℕ)
      → KeepsEnded w.runs (increment_charged_event_count w id name count).0.runs
  unfolding increment_charged_event_count
  increment-KeepsEnded w id name count = update-KeepsEnded w.runs id _ (
      on_record-Freezes (add_charges name count)
        (λ r. record { status = refl; finished_at = refl; exit_code = refl }))

  SameEnd-stamp : (now : ℕ) (r : RunRecord U) → SameEnd r (stamp now r)
  SameEnd-stamp now r = elim (Bool-cases (is_some r.charging_stopped_at)) [
    | inl stopped ↦ rw stopped (SameEnd-refl r)
    | inr fresh ↦ rw fresh (record { status = refl; finished_at = refl; exit_code = refl })
  ]

  stamped-KeepsEnded :
      (w : World U) (id : String) (now : ℕ)
      → KeepsEnded w.runs (Registry.update w.runs id (on_record (stamp now))).0
  stamped-KeepsEnded w id now =
      update-KeepsEnded w.runs id _ (on_record-Freezes (stamp now) (SameEnd-stamp now))

module _ (d : Doubles) where
  open d use {Num}

  stop_charged-KeepsEnded :
      (message : String) (r : RunRecord Num) (w : World Num)
      → KeepsEnded w.runs (stop_charged d message r w).runs
  stop_charged-KeepsEnded message r w = elim (Bool-cases (is_terminal_job_status r.status)) [
    | inl over ↦ rw over (KeepsEnded-refl w.runs)
    | inr live ↦ elim (Bool-cases (same_status r.status running)) [
      | inl now' ↦
          rw (live, now')
            (abort_run_begin-KeepsEnded (emit (runtime_log r.id (line message)) w) r true
              (some message))
      | inr other ↦ rw (live, other) (KeepsEnded-refl w.runs)
    ]
  ]

  stamp_and_stop-KeepsEnded :
      (now : ℕ) (message : String) (o : Option (RunRecord Num)) (w : World Num) (id : String)
      → KeepsEnded w.runs (stamp_and_stop d now message o w id).runs
  stamp_and_stop-KeepsEnded now message none w id = KeepsEnded-refl w.runs
  stamp_and_stop-KeepsEnded now message (some r) w id =
      KeepsEnded-trans w.runs w1.runs _ (stamped-KeepsEnded w id now)
        (stops (is_some r.charging_stopped_at) (stamp now r))
    where
      w1 : World Num
      w1 = with_runs (Registry.update w.runs id (on_record (stamp now))).0 w

      stops :
          (b : Bool) (s : RunRecord Num)
          → KeepsEnded w1.runs (if b then w1 else stop_charged d message s w1).runs
      stops true s = KeepsEnded-refl w1.runs
      stops false s = stop_charged-KeepsEnded message s w1

  enforce_cost_limit-KeepsEnded :
      (now : ℕ) (run : RunRecord Num) (w : World Num)
      → KeepsEnded w.runs (enforce_cost_limit d now run w).runs
  unfolding enforce_cost_limit
  enforce_cost_limit-KeepsEnded now run w = elim (Bool-cases (reaches_cap d run)) [
    | inl reached ↦
        rw (reached, enforce_cost_limit)
          (stamp_and_stop-KeepsEnded now (limit_message d run) (Registry.get w.runs run.id) w
            run.id)
    | inr below ↦ rw (below, enforce_cost_limit) (KeepsEnded-refl w.runs)
  ]

  charge_reserved-KeepsEnded :
      (now : ℕ) (run : RunRecord Num) (request : ChargeRequest) (w : World Num)
      → KeepsEnded w.runs (charge_reserved d now run request w).0.runs
  unfolding charge_reserved
  charge_reserved-KeepsEnded now run request w =
      let more = increment_charged_event_count w run.id request.event_name request.count in
      KeepsEnded-trans w.runs more.0.runs _
        (increment-KeepsEnded w run.id request.event_name request.count)
        (enforce_cost_limit-KeepsEnded now (or_else more.1 run) more.0)

  charge_keyed-KeepsEnded :
      (now : ℕ) (run : RunRecord Num) (request : ChargeRequest) (l : Ledger Num)
      → KeepsEnded l.world.runs (charge_keyed d now run request l).0.world.runs
  unfolding charge_keyed
  charge_keyed-KeepsEnded now run request l =
      elim (Option-cases (
        lookup (record_key run.id request.idempotency_key)
          (prune_idempotency_records now l.idempotency_records))) [
            | inl free' ↦
                rw (free', charge_keyed) (charge_reserved-KeepsEnded now run request l.world)
            | inr (e, used) ↦ rw (used, charge_keyed) (KeepsEnded-refl l.world.runs)
          ]

  pub charge_event-KeepsEnded :
      (now : ℕ) (run : RunRecord Num) (request : ChargeRequest) (l : Ledger Num)
      → KeepsEnded l.world.runs (charge_event d now run request l).0.world.runs
  unfolding charge_event
  charge_event-KeepsEnded now run request l =
      elim (Bool-cases (starts_with request.event_name apify_events_prefix)) [
        | inl reserved ↦ rw (reserved, charge_event) (KeepsEnded-refl l.world.runs)
        | inr other ↦ elim (Option-cases (charge_events run.pricing_info)) [
          | inl free' ↦ rw (other, free', charge_event) (KeepsEnded-refl l.world.runs)
          | inr (events, priced) ↦ elim (Bool-cases (has request.event_name events)) [
            | inl known ↦
                rw (other, priced, known, charge_event) (charge_keyed-KeepsEnded now run request l)
            | inr unknown ↦ rw (other, priced, unknown, charge_event) (KeepsEnded-refl l.world.runs)
          ]
        ]
      ]

  pub record_default_dataset_items-KeepsEnded :
      (now : ℕ) (dataset_id : String) (count : ℕ) (w : World Num)
      → KeepsEnded w.runs (record_default_dataset_items d now dataset_id count w).runs
  unfolding record_default_dataset_items
  record_default_dataset_items-KeepsEnded now dataset_id count w = elim (Bool-cases (count == 0)) [
    | inl nothing ↦ rw (nothing, record_default_dataset_items) (KeepsEnded-refl w.runs)
    | inr some' ↦ elim (Option-cases (lookup dataset_id w.default_dataset_runs)) [
      | inl unpriced ↦ rw (some', unpriced, record_default_dataset_items) (KeepsEnded-refl w.runs)
      | inr (id, priced) ↦
          rw (some', priced, record_default_dataset_items)
            (KeepsEnded-trans w.runs (more id).0.runs _
              (increment-KeepsEnded w id default_dataset_item_event_name count)
              (then_enforced (more id).1 (more id).0))
    ]
  ]
    where
      more : String → World Num × Option (RunRecord Num)
      more id = increment_charged_event_count w id default_dataset_item_event_name count

      then_enforced :
          (o : Option (RunRecord Num)) (w1 : World Num)
          → KeepsEnded w1.runs
              (elim o as (λ x. World Num) [
                | none ↦ w1
                | some run ↦ enforce_cost_limit d now run w1
              ]).runs
      then_enforced none w1 = KeepsEnded-refl w1.runs
      then_enforced (some run) w1 = enforce_cost_limit-KeepsEnded now run w1
