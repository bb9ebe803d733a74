-- ===== src/Tests/Schedules.antt =====
-- The theorems about src/services/schedule-cron.ts on an expression that runs every minute.
use actor_runtime.Base.{
  ℕ, ◌+◌, ◌-◌, ◌*◌, ◌/◌, ◌≤◌, ◌≡◌, refl, sym, ap, ◌∙◌, true, Option, none, some, arith,
}
use actor_runtime.Base.Dict.{lookup}
use actor_runtime.Schedules.Cron.{
  CronParser, IsCron, NextRunOptions, offset_secs, compute_next_run_at, cron_random_offset_bounds,
  bounds_of,
}
use actor_runtime.Schedules.Cron.Found.{compute_next_run_at_finds}
use actor_runtime.Schedules.Cron.Offset.{offset_secs_bounds}

abbrev every_minute : CronParser
every_minute = record {
  Interval = ℕ;
  is_supported_timezone = λ timezone. true;
  parse = λ expression now timezone. some now;
  next = λ p. some ((p / 60000 + 1) * 60 * 1000, (p / 60000 + 1) * 60 * 1000);
  prev = λ p. some ((p - 1) / 60000 * 60000, (p - 1) / 60000 * 60000);
}

some_inj : {A : Type 0} (x y : A) → some x ≡ some y → x ≡ y
some_inj x y e = cc

abbrev time_of : Option (ℕ × ℕ) → ℕ
time_of none = 0
time_of (some (time, p)) = time

abbrev place_of : Option (ℕ × ℕ) → ℕ
place_of none = 0
place_of (some (time, p)) = p

every_minute-IsCron : IsCron every_minute
every_minute-IsCron = record {
  place = λ p. p;
  starts = λ expression now timezone i h. sym (some_inj now i h);
  ahead = λ p time j h.
      let e : (p / 60000 + 1) * 60 * 1000 ≡ time = ap time_of h in
      let e' : (p / 60000 + 1) * 60 * 1000 ≡ j = ap place_of h in
      ((p / 60000 + 1) * 60, sym e, omega (arith, e), sym e' ∙ e);
  behind = λ p time j h later k h'.
      let e : (p - 1) / 60000 * 60000 ≡ j = ap place_of h in
      let e' : (j / 60000 + 1) * 60 * 1000 ≡ later = ap time_of h' in omega (arith, e, e');
}

abbrev due : NextRunOptions
due = record {
  cron_expression = "@daily";
  random_offset_coeff = some 1;
  current_date = 1000;
  last_run_date = some 500;
  timezone = none;
}

compute_next_run_at_finds_example :
    (time : ℕ) × (compute_next_run_at every_minute due ≡ some time)
    × (1000 ≤ time)
    × (500 + 10000 ≤ time)
compute_next_run_at_finds_example =
    compute_next_run_at_finds every_minute due 1000 every_minute-IsCron refl refl
      (refl, λ j live. refl) (λ l h. omega (arith, some_inj 500 l h))

daily : lookup "@daily" cron_random_offset_bounds ≡ some (bounds_of 300 21600 30)
unfolding lookup
daily = refl

offset_secs_bounds_example : (300 ≤ offset_secs "@daily" 1) × (offset_secs "@daily" 1 ≤ 21600)
offset_secs_bounds_example =
    offset_secs_bounds "@daily" 1 (bounds_of 300 21600 30) daily (omega arith) (omega arith)
