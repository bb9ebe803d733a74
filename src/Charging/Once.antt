-- ===== src/Charging/Once.antt =====
-- The idempotency keys of src/services/charging.ts: a key charges a run at most once while it lives.
use text.Mathlib.Text.{starts_with}
use actor_runtime.Base.{
  ℕ, ◌+◌, ◌<◌, String, ◌≡◌, refl, inl, inr, Bool, true, false, Option, none, some, List, [], ◌∷◌,
  arith, ◌===◌, if◌then◌else◌, eq_iff, Bool-cases, Option-cases, All, not, ◌&&◌, ap, sym,
}
use actor_runtime.Base.Dict.{Dict, lookup, insert, has, lookup-insert, lookup-insert_self}
use actor_runtime.Double.{Doubles}
use actor_runtime.Entities.Pricing.{RunChargeEventRecord}
use actor_runtime.Entities.Run.{RunRecord}
use actor_runtime.Pricing.{charge_events, apify_events_prefix}
use actor_runtime.Charging.{
  IdempotencyEntry, ChargeRequest, ChargeResult, charged, replayed, Ledger,
  prune_idempotency_records, record_key, idempotency_ttl_ms, charge_reserved, charge_keyed,
  charge_event, prices_event, apify_event, not_pay_per_event, unknown_event,
}

-- An entry that has not expired survives the pruning.
lookup-prune :
    (now : ℕ) (key : String) (m : Dict IdempotencyEntry) (e : IdempotencyEntry)
    → lookup key m ≡ some e
    → now < e.expires_at
    → lookup key (prune_idempotency_records now m) ≡ some e
unfolding lookup prune_idempotency_records
lookup-prune now key [] e h k = cc
lookup-prune now key ((j, x) ∷ m) e h k = ground (arith, lookup-prune now key m e)

-- The test of `chargeEvent` on the event's name passes.
abbrev pub chargeable : {U : Type 0} → RunRecord U → ChargeRequest → Bool
chargeable run request =
    not (starts_with request.event_name apify_events_prefix) && prices_event request.event_name run

module _ (d : Doubles) where
  open d use {Num}

  lookup-insert_ne :
      (key j : String) (x e : IdempotencyEntry) (m : Dict IdempotencyEntry)
      → lookup j m ≡ none
      → lookup key m ≡ some e
      → lookup key (insert j x m) ≡ some e
  lookup-insert_ne key j x e m absent here =
      rw (lookup-insert j key x m) (elim (Bool-cases (j === key)) [
        | inl same ↦ absurd (clash ((eq_iff j key).0 same))
        | inr other ↦ rw other here
      ])
    where
      clash : j ≡ key → ⊥
      clash p = cc (ap (λ (k : String). lookup k m) p)

  -- `charge_event` over the two values that its checks read.
  abbrev checked :
      ℕ
      → RunRecord Num
      → ChargeRequest
      → Ledger Num
      → Bool
      → Option (Dict (RunChargeEventRecord Num))
      → Ledger Num × ChargeResult Num
  checked now run request l b o = if b then (l, apify_event) else elim o [
    | none ↦ (l, not_pay_per_event)
    | some events ↦
        if has request.event_name events
        then charge_keyed d now run request l
        else (l, unknown_event)
  ]

  abbrev passes : ChargeRequest → Bool → Option (Dict (RunChargeEventRecord Num)) → Bool
  passes request b o =
      not b && (elim o [ none ↦ false | some events ↦ has request.event_name events ])

  charge_event_of_chargeable :
      (now : ℕ) (run : RunRecord Num) (request : ChargeRequest) (l : Ledger Num)
      → chargeable run request ≡ true
      → charge_event d now run request l ≡ charge_keyed d now run request l
  unfolding charge_event
  charge_event_of_chargeable now run request l h =
      split (starts_with request.event_name apify_events_prefix) (charge_events run.pricing_info) h
    where
      split :
          (b : Bool) (o : Option (Dict (RunChargeEventRecord Num)))
          → passes request b o ≡ true
          → checked now run request l b o ≡ charge_keyed d now run request l
      split true o k = cc
      split false none k = cc
      split false (some events) k = rw k

  abbrev is_charged : ChargeResult Num → Bool
  is_charged (charged status r) = true
  is_charged (replayed status) = false
  is_charged not_pay_per_event = false
  is_charged apify_event = false
  is_charged unknown_event = false

  charge_event_of_refused :
      (now : ℕ) (run : RunRecord Num) (request : ChargeRequest) (l : Ledger Num)
      → chargeable run request ≡ false
      → ((charge_event d now run request l).0 ≡ l)
        × (is_charged (charge_event d now run request l).1 ≡ false)
  unfolding charge_event
  charge_event_of_refused now run request l h =
      split (starts_with request.event_name apify_events_prefix) (charge_events run.pricing_info) h
    where
      split :
          (b : Bool) (o : Option (Dict (RunChargeEventRecord Num)))
          → passes request b o ≡ false
          → ((checked now run request l b o).0 ≡ l)
            × (is_charged (checked now run request l b o).1 ≡ false)
      split true o k = (refl, refl)
      split false none k = (refl, refl)
      split false (some events) k = rw k (refl, refl)

  chargeable_of_charged :
      (now : ℕ) (run : RunRecord Num) (request : ChargeRequest) (l : Ledger Num) (status : ℕ)
      (r : RunRecord Num)
      → (charge_event d now run request l).1 ≡ charged status r
      → chargeable run request ≡ true
  chargeable_of_charged now run request l status r h = elim (Bool-cases (chargeable run request)) [
    | inl yes' ↦ yes'
    | inr no' ↦ absurd (clash (rw h at (charge_event_of_refused now run request l no').1))
  ]
    where
      clash : ◌≡◌ {A = Bool} true false → ⊥
      clash e = cc

  abbrev records_after : ℕ → Ledger Num → Dict IdempotencyEntry
  records_after now l = prune_idempotency_records now l.idempotency_records

  charge_keyed_keeps :
      (now : ℕ) (run : RunRecord Num) (request : ChargeRequest) (l : Ledger Num) (key : String)
      (e : IdempotencyEntry)
      → lookup key l.idempotency_records ≡ some e
      → now < e.expires_at
      → lookup key (charge_keyed d now run request l).0.idempotency_records ≡ some e
  unfolding charge_keyed
  charge_keyed_keeps now run request l key e h k =
      elim (Option-cases (lookup mine (records_after now l))) [
        | inl free' ↦
            rw (free', charge_keyed)
              (lookup-insert_ne key mine _ e (records_after now l) free' pruned)
        | inr (x, used) ↦ rw (used, charge_keyed) pruned
      ]
    where
      mine : String
      mine = record_key run.id request.idempotency_key

      pruned : lookup key (records_after now l) ≡ some e
      pruned = lookup-prune now key l.idempotency_records e h k

  -- A call keeps every key that has not expired.
  charge_event_keeps :
      (now : ℕ) (run : RunRecord Num) (request : ChargeRequest) (l : Ledger Num) (key : String)
      (e : IdempotencyEntry)
      → lookup key l.idempotency_records ≡ some e
      → now < e.expires_at
      → lookup key (charge_event d now run request l).0.idempotency_records ≡ some e
  charge_event_keeps now run request l key e h k = elim (Bool-cases (chargeable run request)) [
    | inl yes' ↦
        rw (charge_event_of_chargeable now run request l yes')
          (charge_keyed_keeps now run request l key e h k)
    | inr no' ↦ rw (charge_event_of_refused now run request l no').0 h
  ]

  -- Any charges, of any runs, each at its time.
  pub charges : List (ℕ × RunRecord Num × ChargeRequest) → Ledger Num → Ledger Num
  charges [] l = l
  charges ((now, run, request) ∷ cs) l = charges cs (charge_event d now run request l).0

  abbrev pub Before : ℕ → List (ℕ × RunRecord Num × ChargeRequest) → Type 0
  Before time = All (λ c. c.0 < time)

  charges_keep :
      (cs : List (ℕ × RunRecord Num × ChargeRequest)) (l : Ledger Num) (key : String)
      (e : IdempotencyEntry)
      → lookup key l.idempotency_records ≡ some e
      → Before e.expires_at cs
      → lookup key (charges cs l).idempotency_records ≡ some e
  unfolding charges
  charges_keep [] l key e h b = h
  charges_keep ((now, run, request) ∷ cs) l key e h b =
      charges_keep cs (charge_event d now run request l).0 key e
        (charge_event_keeps now run request l key e h b.0) b.1

  charge_keyed_replays :
      (now : ℕ) (run : RunRecord Num) (request : ChargeRequest) (l : Ledger Num)
      (e : IdempotencyEntry)
      → lookup (record_key run.id request.idempotency_key) l.idempotency_records ≡ some e
      → now < e.expires_at
      → ((charge_keyed d now run request l).0.world ≡ l.world)
        × ((charge_keyed d now run request l).1 ≡ replayed e.status)
  unfolding charge_keyed
  charge_keyed_replays now run request l e h k =
      rw
        (
          lookup-prune now (record_key run.id request.idempotency_key) l.idempotency_records e h k,
          charge_keyed,
        )
        (refl, refl)

  charge_keyed_reserves :
      (now : ℕ) (run : RunRecord Num) (request : ChargeRequest) (l : Ledger Num) (status : ℕ)
      (r : RunRecord Num)
      → (charge_keyed d now run request l).1 ≡ charged status r
      → lookup
          (record_key run.id request.idempotency_key)
          (charge_keyed d now run request l).0.idempotency_records
        ≡ some (record { status = 201; expires_at = now + idempotency_ttl_ms })
  unfolding charge_keyed
  charge_keyed_reserves now run request l status r h =
      elim (Option-cases (lookup mine (records_after now l))) [
        | inl free' ↦ rw (free', charge_keyed) (lookup-insert_self mine _ (records_after now l))
        | inr (x, used) ↦ absurd (clash x (rw (used, charge_keyed) at h))
      ]
    where
      mine : String
      mine = record_key run.id request.idempotency_key

      clash : (x : IdempotencyEntry) → replayed x.status ≡ charged status r → ⊥
      clash x e = cc

  status-charge_keyed :
      (now : ℕ) (run : RunRecord Num) (request : ChargeRequest) (l : Ledger Num) (status : ℕ)
      (r : RunRecord Num)
      → (charge_keyed d now run request l).1 ≡ charged status r
      → status ≡ 201
  unfolding charge_keyed charge_reserved
  status-charge_keyed now run request l status r h =
      elim (Option-cases (lookup mine (records_after now l))) [
        | inl free' ↦ sym (ap status_of (rw (free', charge_keyed) at h))
        | inr (x, used) ↦ absurd (clash x (rw (used, charge_keyed) at h))
      ]
    where
      mine : String
      mine = record_key run.id request.idempotency_key

      status_of : ChargeResult Num → ℕ
      status_of (charged s r) = s
      status_of _ = 0

      clash : (x : IdempotencyEntry) → replayed x.status ≡ charged status r → ⊥
      clash x e = cc

  -- Once a request has charged a run, the same key on that run, for whatever event that the run
  -- prices and whatever count, is answered for three minutes with the first answer's status and
  -- charges nothing, whatever is charged between.
  pub charge_once :
      (now later : ℕ) (run run' : RunRecord Num) (request again : ChargeRequest) (l : Ledger Num)
      (status : ℕ) (r : RunRecord Num) (between : List (ℕ × RunRecord Num × ChargeRequest))
      → (charge_event d now run request l).1 ≡ charged status r
      → chargeable run' again ≡ true
      → run'.id ≡ run.id
      → again.idempotency_key ≡ request.idempotency_key
      → Before (now + idempotency_ttl_ms) between
      → later < now + idempotency_ttl_ms
      → let before : Ledger Num = charges between (charge_event d now run request l).0 in
        ((charge_event d later run' again before).0.world ≡ before.world)
        × ((charge_event d later run' again before).1 ≡ replayed status)
  charge_once now later run run' request again l status r between done ok same_run same_key early
        soon =
      rw
        (
          charge_event_of_chargeable later run' again before ok,
          status-charge_keyed now run request l status r (rw keyed at done),
        )
        (charge_keyed_replays later run' again before reserved
          (rw (same_run, same_key) (charges_keep between first.0 key reserved at_first early)) soon)
    where
      first : Ledger Num × ChargeResult Num
      first = charge_event d now run request l

      before : Ledger Num
      before = charges between first.0

      key : String
      key = record_key run.id request.idempotency_key

      reserved : IdempotencyEntry
      reserved = record { status = 201; expires_at = now + idempotency_ttl_ms }

      keyed : charge_event d now run request l ≡ charge_keyed d now run request l
      keyed =
          charge_event_of_chargeable now run request l
            (chargeable_of_charged now run request l status r done)

      at_first : lookup key first.0.idempotency_records ≡ some reserved
      at_first = rw keyed (charge_keyed_reserves now run request l status r (rw keyed at done))
