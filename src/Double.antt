-- ===== src/Double.antt =====
-- JavaScript's fractional numbers (IEEE doubles) as far as src/services/pricing.ts, run-usage.ts and
-- charging.ts use them: what the program relies on is the language's, so it is a parameter here.
use actor_runtime.Base.{ℕ, String, ◌+◌, ◌*◌, Bool, ltb, ◌==◌}

pub record Doubles : Type 1 where
  pub Num : Type 0
  pub nought : Num
  pub of_ℕ : ℕ → Num
  pub plus : Num → Num → Num
  pub times : Num → Num → Num
  -- a < b; a comparison with NaN is false.
  pub less : Num → Num → Bool
  -- a === b
  pub equal : Num → Num → Bool
  -- String(value)
  pub show : Num → String
  -- Number(value.toFixed(6))
  pub to_fixed_6 : Num → Num

-- The whole numbers of a millionth, with which the model runs in tests.
abbrev pub micros : Doubles
micros = record {
  Num = ℕ;
  nought = 0;
  of_ℕ = λ n. n;
  plus = λ a b. a + b;
  times = λ a b. a * b;
  less = λ a b. ltb a b;
  equal = λ a b. a == b;
  show = λ a. "n";
  to_fixed_6 = λ a. a;
}
