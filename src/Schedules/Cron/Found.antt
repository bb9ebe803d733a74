-- ===== src/Schedules/Cron/Found.antt =====
-- What computeNextRunAt of src/services/schedule-cron.ts finds.
use actor_runtime.Base.{
  ℕ, zero, suc, ◌+◌, ◌*◌, ◌<◌, ◌≤◌, ◌≡◌, refl, sym, ap, ◌∙◌, Bool, true, false, ◌&&◌, Option, none,
  some, inl, inr, leb, ltb, is_some, leb→le, ltb→lt, or_else, arith, Bool-cases, Option-cases,
}
use actor_runtime.Schedules.Cron.{
  CronParser, IsCron, NextRunOptions, offset_secs, is_apart, accepted_or, tries,
  compute_next_run_at,
}

-- At least ten seconds after the last run, if there was one.
abbrev Apart : Option ℕ → ℕ → Type 0
Apart none time = Unit {0}
Apart (some last) time = last + 10000 ≤ time

is_apart-Apart : (last : Option ℕ) (time : ℕ) → is_apart last time ≡ true → Apart last time
is_apart-Apart none time h = tt
is_apart-Apart (some last) time h = ground (arith, h)

is_apart_if : (last : Option ℕ) (time : ℕ) → Apart last time → is_apart last time ≡ true
is_apart_if none time h = refl
is_apart_if (some last) time h = ground (arith, h)

Apart-later : (last : Option ℕ) (time later : ℕ) → time ≤ later → Apart last time → Apart last later
Apart-later none time later h apart = tt
Apart-later (some last) time later h apart = omega (arith, h, apart)

both : (a b : Bool) → (a && b) ≡ true → (a ≡ true) × (b ≡ true)
both true b h = (refl, h)
both false b h = absurd (cc (h))

same_secs :
    {A : Type 0} (secs secs' : ℕ) (j j' : A)
    → ◌≡◌ {A = Option (ℕ × A)} (some (secs * 1000, j)) (some (secs' * 1000, j'))
    → secs ≡ secs'
same_secs secs secs' j j' e = omega (arith, ap time_of e)
  where
    time_of : {A : Type 0} → Option (ℕ × A) → ℕ
    time_of none = 0
    time_of (some (time, a)) = time

-- The intervals that steps forward from one, or from the one before it, lead to.
pub data Reached (c : CronParser) (i : c.Interval) : c.Interval → Type 0 where
  start : Reached c i i
  forth : (time : ℕ) (j k : c.Interval) → Reached c i j → c.next j ≡ some (time, k) → Reached c i k
  back : (time : ℕ) (k : c.Interval) → c.prev i ≡ some (time, k) → Reached c i k

-- The parser does not throw on the way: there is a previous time, and always a next one.
abbrev pub Endless : (c : CronParser) → c.Interval → Type 0
Endless c i =
    (is_some (c.prev i) ≡ true) × ((j : c.Interval) → Reached c i j → is_some (c.next j) ≡ true)

-- The parser's behaviour on the intervals that are reached from one where it never throws.
record Ticks (c : CronParser) (i : c.Interval) : Type 0 where
  place : c.Interval → ℕ
  ahead :
      (j : c.Interval)
      → Reached c i j
      → (secs : ℕ) × (k : c.Interval) × (c.next j ≡ some (secs * 1000, k))
        × (place j < secs * 1000)
        × (place k ≡ secs * 1000)
  behind :
      (time : ℕ) × (k : c.Interval) × (c.prev i ≡ some (time, k))
      × ((later : ℕ) (l : c.Interval) → c.next k ≡ some (later, l) → place i ≤ later)

there_is : {A : Type 0} (o : Option A) → is_some o ≡ true → (a : A) × (o ≡ some a)
there_is none h = absurd (cc h)
there_is (some a) h = (a, refl)

ticks : (c : CronParser) (i : c.Interval) → IsCron c → Endless c i → Ticks c i
ticks c i cron endless = record {
  place = cron.place;
  ahead = λ j live.
      let ((time, k), found) = there_is (c.next j) (endless.1 j live) in
      let (secs, whole, after, at) = cron.ahead j time k found in
      (secs, k, rw (← whole) found, rw (← whole) after, rw (← whole) at);
  behind =
      let ((time, k), found) = there_is (c.prev i) (endless.0) in
      (time, k, found, cron.behind i time k found);
}

module _ (c : CronParser) (from : c.Interval) (now : ℕ) (last : Option ℕ) (offset : ℕ) where
  -- A time that may be given.
  abbrev Fits : Option ℕ → Type 0
  Fits o = (time : ℕ) × (o ≡ some time) × (now ≤ time) × Apart last time

  may_be : ℕ → Bool
  may_be time = leb now time && is_apart last time

  accept :
      (rest : c.Interval → Option ℕ) (time : ℕ) (i : c.Interval)
      → (may_be (time + offset * 1000) ≡ false → Fits (rest i))
      → Fits (accepted_or c now last offset rest (some (time, i)))
  unfolding may_be
  accept rest time i otherwise = elim (Bool-cases (may_be (time + offset * 1000))) [
    | inl yes' ↦ rw yes' (
      time + offset * 1000,
      refl,
      leb→le now (time + offset * 1000) ((both _ _ yes').0),
      is_apart-Apart last (time + offset * 1000) ((both _ _ yes').1),
    )
    | inr no' ↦ rw no' (otherwise no')
  ]

  may_be_if : (time : ℕ) → now ≤ time → Apart last time → may_be time ≡ true
  unfolding may_be
  may_be_if time late apart = rw (is_apart_if last time apart) (ground (arith, late))

  -- Rounds that are left to a search, and the place it goes on from.
  abbrev Enough : ℕ → c.Interval → Type 0
  Enough n i =
      (secs : ℕ) (j : c.Interval)
      → c.next i ≡ some (secs * 1000, j)
      → (now ≤ secs * 1000) × Apart last (secs * 1000 + offset * 1000 + n * 1000)

  further :
      (cron : Ticks c from) (n secs secs' : ℕ) (j j' : c.Interval)
      → cron.place j ≡ secs * 1000
      → cron.place j < secs' * 1000
      → (now ≤ secs * 1000) × Apart last (secs * 1000 + offset * 1000 + suc n * 1000)
      → (now ≤ secs' * 1000) × Apart last (secs' * 1000 + offset * 1000 + n * 1000)
  further cron n secs secs' j j' at after (late, apart) = (
    omega (arith, at, after, late),
    Apart-later last (secs * 1000 + offset * 1000 + suc n * 1000)
        (secs' * 1000 + offset * 1000 + n * 1000) (omega (arith, at, after)) apart,
  )

  -- What a search finds from a place where it has rounds enough.
  abbrev Finds : ℕ → Type 0
  Finds n =
      (i : c.Interval)
      → Reached c from i
      → Enough n i
      → Fits (tries c now last offset (suc n) false i)

  abbrev Before : ℕ → Type 0
  Before zero = Unit {0}
  Before (suc m) = Finds m

  otherwise :
      (cron : Ticks c from) (n secs : ℕ) (j : c.Interval)
      → Reached c from j
      → cron.place j ≡ secs * 1000
      → (now ≤ secs * 1000) × Apart last (secs * 1000 + offset * 1000 + n * 1000)
      → Before n
      → may_be (secs * 1000 + offset * 1000) ≡ false
      → Fits (tries c now last offset n false j)
  otherwise cron zero secs j live at (late, apart) again no' =
      let sure = may_be_if (secs * 1000 + offset * 1000) (omega (arith, late)) (
        Apart-later last (secs * 1000 + offset * 1000 + 0 * 1000) (secs * 1000 + offset * 1000)
          (omega arith) apart) in
      absurd (cc (sure, no'))
  otherwise cron (suc m) secs j live at enough again no' = again j live (λ secs' j' found'.
      let (secs2, j2, found2, after, at2) = cron.ahead j live in
      further cron m secs secs' j j' at
        (rw (← same_secs secs2 secs' j2 j' (sym found2 ∙ found')) after) enough)

  forward : Ticks c from → (n : ℕ) → Finds n
  forward cron zero i live enough =
      let (secs, j, found, after, at) = cron.ahead i live in
      rw found (
        accept (tries c now last offset zero false) (secs * 1000) j (
          otherwise cron zero secs j (forth (secs * 1000) i j live found) at (enough secs j found)
            tt))
  forward cron (suc m) i live enough =
      let (secs, j, found, after, at) = cron.ahead i live in
      rw found (
        accept (tries c now last offset (suc m) false) (secs * 1000) j (
          otherwise cron (suc m) secs j (forth (secs * 1000) i j live found) at
            (enough secs j found) (forward cron m)))

  -- A last run that is past lets the search end in its rounds, from the current date.
  abbrev Past : Type 0
  Past = (l : ℕ) → last ≡ some l → l ≤ now

  Apart-past : Past → (time : ℕ) → now + 10000 ≤ time → Apart last time
  Apart-past past time h = elim (Option-cases last) [
    | inl e ↦ rw e tt
    | inr (l, e) ↦ rw e (omega (arith, past l e, h))
  ]

  -- The first round goes forward where there is no offset.
  onward :
      (cron : Ticks c from)
      → cron.place from ≡ now
      → Past
      → Fits (tries c now last offset 11 false from)
  onward cron at past = forward cron 10 from start (λ secs j found.
      let (secs2, j2, found2, after, at2) = cron.ahead from start in
      let same = same_secs secs2 secs j2 j (sym found2 ∙ found) in
      (
        omega (arith, at, after, same),
        Apart-past past (secs * 1000 + offset * 1000 + 10 * 1000) (omega (arith, at, after, same)),
      ))

  -- The first round goes back where there is one.
  backward :
      (cron : Ticks c from)
      → cron.place from ≡ now
      → 0 < offset
      → Past
      → Fits (tries c now last offset 11 true from)
  backward cron at some_offset past =
      let (time, j, found, next_is) = cron.behind in
      rw found (
        accept (tries c now last offset 10 false) time j (λ no'.
          forward cron 9 j (back time j found) (λ secs k found'.
            let ahead = next_is (secs * 1000) k found' in
            (
              omega (arith, at, ahead),
              Apart-past past (secs * 1000 + offset * 1000 + 9 * 1000)
                  (omega (arith, at, ahead, some_offset)),
            ))))

-- A supported time zone (UTC if none is given) and an expression that the parser takes are given a time,
-- so the eleven rounds are always enough, if the last run is not after the current date and the parser,
-- which throws for an expression that it finds no time of, has a time before the current date and a next
-- one after every time on the way. What is given is not before the current date, and at least ten
-- seconds after the last run.
pub compute_next_run_at_finds :
    (c : CronParser) (o : NextRunOptions) (i : c.Interval)
    → IsCron c
    → c.is_supported_timezone (or_else o.timezone "UTC") ≡ true
    → c.parse o.cron_expression o.current_date (or_else o.timezone "UTC") ≡ some i
    → Endless c i
    → ((l : ℕ) → o.last_run_date ≡ some l → l ≤ o.current_date)
    → (time : ℕ) × (compute_next_run_at c o ≡ some time)
      × (o.current_date ≤ time)
      × Apart o.last_run_date time
unfolding compute_next_run_at ticks
compute_next_run_at_finds c o i cron supported parsed endless past =
    rw (supported, parsed)
      (elim (Bool-cases (ltb 0 offset)) [
        | inl there ↦
            rw there (
              backward c i o.current_date o.last_run_date offset all at (ltb→lt 0 offset there)
                past)
        | inr absent ↦ rw absent (onward c i o.current_date o.last_run_date offset all at past)
      ])
  where
    offset : ℕ
    offset = offset_secs o.cron_expression (or_else o.random_offset_coeff 0)

    all : Ticks c i
    all = ticks c i cron endless

    at : cron.place i ≡ o.current_date
    at = cron.starts o.cron_expression o.current_date (or_else o.timezone "UTC") i parsed
