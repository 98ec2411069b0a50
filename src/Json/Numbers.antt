-- ===== src/Json/Numbers.antt =====
-- Python's `float`, as the code uses it: a type with the operations and no laws.
use delayed_order_sms_flink.Base.{Text, Bool, ℤ, Result}

pub record Floats : Type 1 where
  pub Float : Type 0
  -- `float(text)`
  pub of_text : Text → Result Float
  -- `bool(x)`: whether `x` differs from zero
  pub is_true : Float → Bool
  -- `int(x)`, which rounds to zero and raises at an infinity and at a NaN
  pub to_int : Float → Result ℤ
  -- `n * x` and `n / m` for ints; both convert and round, and may overflow
  pub scale : ℤ → Float → Result Float
  pub divide : ℤ → ℤ → Result Float
  -- `x - n` for an int
  pub minus_int : Float → ℤ → Result Float
  -- `x < y`
  pub lt : Float → Float → Bool
  -- `repr(x)`, which `json.dumps` writes
  pub repr : Float → Text
