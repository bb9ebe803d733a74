-- ===== src/Webhooks/Attempts/Backoff.antt =====
-- When a dispatch is attempted next: `finishAttempt` and `scheduleAttempt` of
-- src/services/webhook-dispatches.ts.
use actor_runtime.Base.{
  ℕ, zero, suc, ◌+◌, ◌-◌, ◌*◌, ◌/◌, ◌^◌, ◌≤◌, ◌<◌, ◌≡◌, ◌⊎◌, inl, inr, true, false, Option, none,
  some, length, arith, Bool-cases,
}
use actor_runtime.Base.Dict.{lookup, erase, lookup-insert_self, lookup-erase_self}
use actor_runtime.Jobs.Registry
use actor_runtime.Entities.Webhook.{
  WebhookDispatchStatus, active, WebhookDispatchCall, WebhookDispatchRecord,
}
use actor_runtime.Webhooks.Delivery.{Attempt}
use actor_runtime.Webhooks.Dispatches.{Dispatcher, random_unit, same_delivery, schedule_attempt}
use actor_runtime.Webhooks.Attempts.{randomized_delay, next_call, finish_attempt, timer_fires}
use actor_runtime.Webhooks.Attempts.Settle.{written, attempt-Finishes, finish_get}

scale : (p r : ℕ) → r ≤ random_unit → p * r ≤ p * random_unit
scale zero r h = omega arith
scale (suc p) r h = grind (arith, scale p r h)

spread :
    (p r : ℕ)
    → r ≤ random_unit
    → (45000 * p ≤ 60000 * p * (3 * random_unit + 2 * r) / (4 * random_unit))
      × (60000 * p * (3 * random_unit + 2 * r) / (4 * random_unit) ≤ 75000 * p)
spread p r h =
    let expand : 60000 * p * (3 * random_unit + 2 * r)
        ≡ 180000 * (p * random_unit) + 120000 * (p * r) =
      grind arith in
    rw expand (omega (arith, scale p r h), omega (arith, scale p r h))

randomized_delay_bounds :
    (n r : ℕ)
    → r < random_unit
    → (45000 * 2 ^ n ≤ randomized_delay n r) × (randomized_delay n r ≤ 75000 * 2 ^ n)
unfolding randomized_delay
randomized_delay_bounds n r h = spread (2 ^ n) r (omega arith)

module _ {J : Type 0} where
  -- What stands in the registry and among the timers after a call.
  abbrev pub Armed :
      Attempt J → WebhookDispatchRecord J → WebhookDispatchRecord J → Option ℕ → Type 0
  Armed a r r' timer =
      ((same_delivery r'.status active ≡ false) × (timer ≡ none))
      ⊎ ((same_delivery r'.status active ≡ true)
          × (timer ≡ some (a.scheduled_at + (r'.call_at - a.scheduled_at)))
          × (a.decided_at + 45000 * 2 ^ length r.calls ≤ r'.call_at)
          × (r'.call_at ≤ a.decided_at + 75000 * 2 ^ length r.calls))

  next_call_again :
      (a : Attempt J) (r : WebhookDispatchRecord J) (outcome : WebhookDispatchStatus)
      → same_delivery (next_call a r outcome).0 active ≡ true
      → (next_call a r outcome).1 ≡ a.decided_at + randomized_delay (length r.calls) a.random
  unfolding next_call
  next_call_again a r outcome h = ground arith

  armed :
      (a : Attempt J) (r : WebhookDispatchRecord J) (call : WebhookDispatchCall)
      (outcome : WebhookDispatchStatus) (d : Dispatcher J)
      → a.random < random_unit
      → lookup r.id d.timers ≡ none
      → Armed a r
          (written a r call outcome r)
          (lookup r.id (finish_attempt a r call outcome d).timers)
  unfolding finish_attempt schedule_attempt
  armed a r call outcome d h quiet =
      elim (Bool-cases (same_delivery (next_call a r outcome).0 active)) [
        | inr over ↦ inl (over, rw over quiet)
        | inl again ↦
            let due = next_call_again a r outcome again in
            let delay = randomized_delay_bounds (length r.calls) a.random h in
            inr (
              again,
              rw again (lookup-insert_self r.id _ d.timers),
              rw due (omega (arith, delay.0)),
              rw due (omega (arith, delay.1)),
            )
      ]

  -- When the timer of a dispatch fires that is stored and ACTIVE, the record is written, and it ends
  -- without a timer exactly if it is no longer ACTIVE. If it is, a timer is set for the next call's
  -- time, or for the present if that has passed, and that time is 60 seconds doubled for each call
  -- made before, less or more by at most a quarter, from the moment of the decision.
  pub timer_fires_arms :
      (a : Attempt J) (r : WebhookDispatchRecord J) (d : Dispatcher J)
      → Registry.get d.dispatches r.id ≡ some r
      → same_delivery r.status active ≡ true
      → a.random < random_unit
      → (r' : WebhookDispatchRecord J) × (Registry.get (timer_fires a r.id d).dispatches r.id
          ≡ some r')
        × Armed a r r' (lookup r.id (timer_fires a r.id d).timers)
  unfolding timer_fires
  timer_fires_arms a r d found live h =
      let fired : Dispatcher J = record d { timers = erase r.id d.timers } in
      let (call, outcome, hooks, e) = attempt-Finishes a r fired found live in
      let started : Dispatcher J = record fired { webhooks = hooks } in
      (
        written a r call outcome r,
        rw e (finish_get a r call outcome started found),
        rw e (armed a r call outcome started h (lookup-erase_self r.id d.timers)),
      )
