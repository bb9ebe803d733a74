-- ===== src/Schedules/Cron.antt =====
-- src/services/schedule-cron.ts. The cron parser and the time zones are third-party: the interface
-- CronParser. Times are in milliseconds; what throws is `none`.
pub mod Found
pub mod Offset
use Prim.Native.String
use actor_runtime.Base.{
  ℕ, zero, suc, ◌+◌, ◌-◌, ◌*◌, ◌/◌, ◌<◌, ◌≤◌, ◌≡◌, String, Bool, true, false, ◌&&◌, Option, none,
  some, List, [], ◌∷◌, leb, ltb, or_else, if◌then◌else◌,
}
use actor_runtime.Base.Dict.{Dict, lookup}
use actor_runtime.Webhooks.Dispatches.{random_unit}

-- An interval of the parser: the times of an expression, seen from a place among them.
pub record CronParser : Type 1 where
  pub Interval : Type 0
  pub is_supported_timezone : String → Bool
  pub parse : String → ℕ → String → Option Interval
  pub next : Interval → Option (ℕ × Interval)
  pub prev : Interval → Option (ℕ × Interval)

-- The parser's documented behaviour: an interval starts at the current date, goes on to the next or
-- back to the previous time of the expression and stands there then. Times are whole seconds. Nothing
-- is said of an interval for which the parser throws.
pub record IsCron (c : CronParser) : Type 0 where
  pub place : c.Interval → ℕ
  pub starts :
      (expression : String) (now : ℕ) (timezone : String) (i : c.Interval)
      → c.parse expression now timezone ≡ some i
      → place i ≡ now
  pub ahead :
      (i : c.Interval) (time : ℕ) (j : c.Interval)
      → c.next i ≡ some (time, j)
      → (secs : ℕ) × (time ≡ secs * 1000) × (place i < time) × (place j ≡ time)
  pub behind :
      (i : c.Interval) (time : ℕ) (j : c.Interval)
      → c.prev i ≡ some (time, j)
      → (later : ℕ) (k : c.Interval) → c.next j ≡ some (later, k)
      → place i ≤ later

pub record RandomOffsetBounds : Type 0 where
  pub min_secs : ℕ
  pub max_secs : ℕ
  pub round_secs : ℕ

abbrev pub bounds_of : ℕ → ℕ → ℕ → RandomOffsetBounds
bounds_of low high step = record { min_secs = low; max_secs = high; round_secs = step }

abbrev pub cron_random_offset_bounds : Dict RandomOffsetBounds
cron_random_offset_bounds =
    ("@hourly", bounds_of 60 1800 10)
    ∷ ("@daily", bounds_of 300 21600 30)
    ∷ ("@weekly", bounds_of 300 43200 60)
    ∷ ("@monthly", bounds_of 300 86400 600)
    ∷ ("@yearly", bounds_of 300 86400 600)
    ∷ []

abbrev pub min_interval_between_runs_secs : ℕ
min_interval_between_runs_secs = 10

pub record NextRunOptions : Type 0 where
  pub cron_expression : String
  pub random_offset_coeff : Option ℕ
  pub current_date : ℕ
  pub last_run_date : Option ℕ
  pub timezone : Option String

-- `Math.round(a / b)`
abbrev pub rounded : ℕ → ℕ → ℕ
rounded a b = (2 * a + b) / (2 * b)

abbrev pub offset_within : RandomOffsetBounds → ℕ → ℕ
offset_within bound coeff =
    rounded
      (rounded (bound.min_secs * random_unit + coeff * (bound.max_secs - bound.min_secs))
        random_unit)
      bound.round_secs
    * bound.round_secs

abbrev offset_by : ℕ → Option RandomOffsetBounds → ℕ
offset_by coeff none = 0
offset_by coeff (some bound) = if ltb 0 coeff then offset_within bound coeff else 0

unfoldable pub offset_secs : String → ℕ → ℕ
offset_secs expression coeff = offset_by coeff (lookup expression cron_random_offset_bounds)

-- Far enough from the last run.
abbrev pub is_apart : Option ℕ → ℕ → Bool
is_apart none time = true
is_apart (some last) time = leb (last + min_interval_between_runs_secs * 1000) time

module _ (c : CronParser) (now : ℕ) (last : Option ℕ) (offset : ℕ) where
  abbrev pub accepted_or : (c.Interval → Option ℕ) → Option (ℕ × c.Interval) → Option ℕ
  accepted_or rest none = none
  accepted_or rest (some (time, i)) =
      let at = time + offset * 1000 in
      let later = rest i in if leb now at && is_apart last at then some at else later

  -- The loop; `back` is true in the first round where there is an offset.
  abbrev pub tries : ℕ → Bool → c.Interval → Option ℕ
  tries zero back i = none
  tries (suc n) back i = accepted_or (tries n false) (if back then c.prev i else c.next i)

unfoldable pub compute_next_run_at : CronParser → NextRunOptions → Option ℕ
compute_next_run_at c o =
    let timezone = or_else o.timezone "UTC" in
    let offset = offset_secs o.cron_expression (or_else o.random_offset_coeff 0) in
    if c.is_supported_timezone timezone
    then (elim (c.parse o.cron_expression o.current_date timezone) [
      | none ↦ none
      | some i ↦
          tries c o.current_date o.last_run_date offset (suc min_interval_between_runs_secs)
            (ltb 0 offset) i
    ])
    else none
