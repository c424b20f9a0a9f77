-- ===== src/Floats.antt =====
-- The IEEE arithmetic that the program relies on, as a parameter: `f32` in the eviction scores and
-- the Morris counter, `f64` in INCRBYFLOAT. antt has no floats, so the types and their operations
-- are the fields of a record that the definitions take; the theorems hold for every such record.
use ferrum_kv.Prelude.{ℕ, ◌+◌, ◌-◌, ◌*◌, ◌/◌, min, max, ltb, Bool, true, Option, none, [], Bytes}

pub record Floats : Type 1 where
  pub F32 : Type 0
  -- `n as f32`
  pub f32_of : ℕ → F32
  -- the literal m / 10^k
  pub f32_decimal : ℕ → ℕ → F32
  pub f32_add : F32 → F32 → F32
  pub f32_sub : F32 → F32 → F32
  pub f32_mul : F32 → F32 → F32
  pub f32_div : F32 → F32 → F32
  pub f32_neg : F32 → F32
  pub f32_min : F32 → F32 → F32
  pub f32_clamp : F32 → F32 → F32 → F32
  -- `a < b`, which is false at NaN
  pub f32_lt : F32 → F32 → Bool
  -- `Duration::as_secs_f32` of a duration in nanoseconds
  pub f32_secs : ℕ → F32
  pub F64 : Type 0
  pub f64_zero : F64
  pub f64_add : F64 → F64 → F64
  pub f64_is_finite : F64 → Bool
  -- `str::parse::<f64>` and `f64::to_string`
  pub f64_parse : Bytes → Option F64
  pub f64_print : F64 → Bytes
  -- `format!("{v:.17}")` of an f64 and `format!("{:.3}")` of an f32
  pub f64_print_17 : F64 → Bytes
  pub f32_print_3 : F32 → Bytes

-- An instance for the tests: whole numbers, where a decimal literal is its numerator.
abbrev pub exact : Floats
exact = record {
  F32 = ℕ;
  f32_of = λ n. n;
  f32_decimal = λ m k. m;
  f32_add = λ a b. a + b;
  f32_sub = λ a b. a - b;
  f32_mul = λ a b. a * b;
  f32_div = λ a b. a / b;
  f32_neg = λ a. a;
  f32_min = λ a b. min a b;
  f32_clamp = λ a lo hi. min (max a lo) hi;
  f32_lt = λ a b. ltb a b;
  f32_secs = λ ns. ns / 1_000_000_000;
  F64 = ℕ;
  f64_zero = 0;
  f64_add = λ a b. a + b;
  f64_is_finite = λ a. true;
  f64_parse = λ text. none;
  f64_print = λ a. [];
  f64_print_17 = λ a. [];
  f32_print_3 = λ a. [];
}
