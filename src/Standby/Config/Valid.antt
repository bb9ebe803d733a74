-- ===== src/Standby/Config/Valid.antt =====
-- What the merge of an `actorStandby` update in src/services/standby-config.ts accepts.
use actor_runtime.Base.{ℕ, ◌≤◌, String, ◌≡◌, refl, Bool, true, false, not, Option, ◌===◌, arith}
use actor_runtime.Base.Results.{Result, ok, err, ◌>>=◌, ◌>>◌, guard}
use actor_runtime.Base.Json.{
  ℤ, pos, negsuc, pos_part, below, less, Json, boolean, integer, string, object, null, fractional,
  array, end, field,
}
use actor_runtime.Entities.Actor.{ActorStandbyRecord}
use actor_runtime.Standby.Config.{
  StandbyRefusal, at_least, max_below_desired, checked, current_or_default, merge_fields,
  merge_standby_update,
}

-- At least one desired request, no fewer at most, five seconds of idleness, and some memory.
abbrev pub IsValid : ActorStandbyRecord → Type 0
IsValid c =
    (1 ≤ pos_part c.desired_requests_per_actor_run)
    × (pos_part c.desired_requests_per_actor_run ≤ pos_part c.max_requests_per_actor_run)
    × (5 ≤ pos_part c.idle_timeout_secs)
    × (1 ≤ pos_part c.memory_mbytes)

below_part : (z : ℤ) (n : ℕ) → 1 ≤ n → below z n ≡ false → n ≤ pos_part z
below_part (pos m) n h e = ground arith
below_part (negsuc m) n h e = cc

less_part : (y z : ℤ) → less y z ≡ false → pos_part z ≤ pos_part y
less_part (pos m) (pos n) e = ground arith
less_part (negsuc m) (pos n) e = cc
less_part (pos m) (negsuc n) e = omega arith
less_part (negsuc m) (negsuc n) e = omega arith

part_below : (z : ℤ) (n : ℕ) → 1 ≤ n → n ≤ pos_part z → below z n ≡ false
part_below (pos m) n h e = ground arith
part_below (negsuc m) n h e = absurd (omega arith)

part_less : (y z : ℤ) → 1 ≤ pos_part z → pos_part z ≤ pos_part y → less y z ≡ false
part_less (pos m) (pos n) h e = ground arith
part_less (negsuc m) (pos n) h e = absurd (omega arith)
part_less y (negsuc n) h e = absurd (omega arith)

-- What passes five checks passed each and comes out as it was.
guards_ok :
    {E A : Type 0} (b1 b2 b3 b4 b5 : Bool) (e1 e2 e3 e4 e5 : E) (m c : A)
    → (guard b1 e1 >> (guard b2 e2 >> (guard b3 e3 >> (guard b4 e4 >> (guard b5 e5 >> ok m)))))
      ≡ ok c
    → (m ≡ c) × (b1 ≡ true) × (b3 ≡ true) × (b4 ≡ true) × (b5 ≡ true)
guards_ok true true true true true e1 e2 e3 e4 e5 m c h = (cc, refl, refl, refl, refl)
guards_ok false b2 b3 b4 b5 e1 e2 e3 e4 e5 m c h = absurd (cc)
guards_ok true false b3 b4 b5 e1 e2 e3 e4 e5 m c h = absurd (cc)
guards_ok true true false b4 b5 e1 e2 e3 e4 e5 m c h = absurd (cc)
guards_ok true true true false b5 e1 e2 e3 e4 e5 m c h = absurd (cc)
guards_ok true true true true false e1 e2 e3 e4 e5 m c h = absurd (cc)

not-true : (b : Bool) → not b ≡ true → b ≡ false
not-true b h = ground arith

checked_ok : (m c : ActorStandbyRecord) → checked m ≡ ok c → (m ≡ c) × IsValid m
unfolding checked
checked_ok m c h =
    let passed =
      guards_ok (not (below m.desired_requests_per_actor_run 1))
        (not (below m.max_requests_per_actor_run 1))
        (not (less m.max_requests_per_actor_run m.desired_requests_per_actor_run))
        (not (below m.idle_timeout_secs 5)) (not (below m.memory_mbytes 1))
        (at_least "desiredRequestsPerActorRun" 1) (at_least "maxRequestsPerActorRun" 1)
        max_below_desired (at_least "idleTimeoutSecs" 5) (at_least "memoryMbytes" 1) m c h in
    (
      passed.0,
      (
        below_part m.desired_requests_per_actor_run 1 (omega arith) (not-true _ passed.1),
        less_part m.max_requests_per_actor_run m.desired_requests_per_actor_run
            (not-true _ passed.2),
        below_part m.idle_timeout_secs 5 (omega arith) (not-true _ passed.3),
        below_part m.memory_mbytes 1 (omega arith) (not-true _ passed.4),
      ),
    )

valid_checked : (c : ActorStandbyRecord) → IsValid c → checked c ≡ ok c
unfolding checked
valid_checked c (desired, most, idle, memory) =
    rw
      (
        part_below c.desired_requests_per_actor_run 1 (omega arith) desired,
        part_below c.max_requests_per_actor_run 1 (omega arith) (omega arith),
        part_less c.max_requests_per_actor_run c.desired_requests_per_actor_run desired most,
        part_below c.idle_timeout_secs 5 (omega arith) idle,
        part_below c.memory_mbytes 1 (omega arith) memory,
      )
      refl

-- The body that states all settings.
abbrev pub body_of : ActorStandbyRecord → Json
body_of c = object (
    field "isEnabled" (boolean c.is_enabled) (
      field "disableStandbyFieldsOverride" (boolean c.disable_standby_fields_override) (
        field "tenancy" (string "SINGLE_TENANT") (
          field "desiredRequestsPerActorRun" (integer c.desired_requests_per_actor_run) (
            field "maxRequestsPerActorRun" (integer c.max_requests_per_actor_run) (
              field "idleTimeoutSecs" (integer c.idle_timeout_secs) (
                field "build" (string c.build) (
                  field "memoryMbytes" (integer c.memory_mbytes)
                    (field "shouldPassActorInput" (boolean c.should_pass_actor_input) end)))))))))

module _ (trim : String → String) where
  merged_checked :
      (o : Result StandbyRefusal ActorStandbyRecord) (c : ActorStandbyRecord)
      → (o >>= λ m. checked m) ≡ ok c
      → IsValid c
  merged_checked (ok m) c h = let (same, valid) = checked_ok m c h in rw (← same) valid
  merged_checked (err e) c h = absurd (cc)

  -- Whatever body is merged over whatever settings, an accepted update leaves settings that the pool
  -- can work with: at least one desired request for a run, no fewer at most, an idle time-out of at
  -- least five seconds, and at least one megabyte of memory.
  pub merge_standby_update-IsValid :
      (raw : Json) (current : Option ActorStandbyRecord) (c : ActorStandbyRecord)
      → merge_standby_update trim raw current ≡ ok c
      → IsValid c
  unfolding merge_standby_update
  merge_standby_update-IsValid (object body) current c h =
      merged_checked (merge_fields trim body (current_or_default current)) c h
  merge_standby_update-IsValid null current c h = absurd (cc)
  merge_standby_update-IsValid (boolean b) current c h = absurd (cc)
  merge_standby_update-IsValid (integer z) current c h = absurd (cc)
  merge_standby_update-IsValid (fractional s) current c h = absurd (cc)
  merge_standby_update-IsValid (string s) current c h = absurd (cc)
  merge_standby_update-IsValid (array xs) current c h = absurd (cc)

  -- Valid settings whose build is not blank, sent back as a full update over whatever settings, are
  -- accepted and come out as they were sent.
  pub merge_standby_update-body_of :
      (c : ActorStandbyRecord) (current : Option ActorStandbyRecord)
      → IsValid c
      → (trim c.build === "") ≡ false
      → merge_standby_update trim (body_of c) current ≡ ok c
  unfolding merge_standby_update merge_fields
  merge_standby_update-body_of c current valid named = rw named (valid_checked c valid)
