-- ===== src/Time/Expression.antt =====
-- `_TIME_EXPRESSION_PATTERN`, the regular expression of the times that scenarios write:
-- `^now(?P<sign>[+-])?(?P<amount>\d+)?(?P<unit>ms|s|m|h|d)?$`.
pub mod Grammar
pub mod Spells
use delayed_order_sms_flink.Base.{
  Bool, true, false, Option, none, some, List, [], ◌∷◌, Text, codes, strip_prefix, if◌then◌else◌,
  ◌==◌,
}
use delayed_order_sms_flink.Time.Digits.{is_decimal}

pub data Sign : Type 0 where
  plus minus : Sign

pub data TimeUnit : Type 0 where
  milliseconds seconds minutes hours days : TimeUnit

abbrev pub sign_text : Sign → Text
sign_text plus = codes "+"
sign_text minus = codes "-"

abbrev pub unit_text : TimeUnit → Text
unit_text milliseconds = codes "ms"
unit_text seconds = codes "s"
unit_text minutes = codes "m"
unit_text hours = codes "h"
unit_text days = codes "d"

-- The three groups of a match.
pub record TimeMatch : Type 0 where
  pub sign : Option Sign
  pub amount : Option Text
  pub unit : Option TimeUnit

-- `[+-]?`, with the rest of the text
unfoldable pub take_sign : Text → Option Sign × Text
take_sign [] = (none, [])
take_sign (c ∷ s) =
    if c == b'+' then (some plus, s) else if c == b'-' then (some minus, s) else (none, c ∷ s)

-- The longest run of digits in front, and the rest.
unfoldable pub span_digits : Text → Text × Text
span_digits [] = ([], [])
span_digits (c ∷ s) =
    let (ds, rest) = span_digits s in if is_decimal c then (c ∷ ds, rest) else ([], c ∷ s)

-- `(\d+)?`: the group is absent where it would be empty.
abbrev pub amount_group : Text → Option Text
amount_group [] = none
amount_group (c ∷ s) = some (c ∷ s)

-- `$` holds at the end and before a line break that ends the text.
unfoldable pub at_end : Text → Bool
at_end [] = true
at_end (c ∷ []) = c == 10
at_end (c ∷ d ∷ s) = false

-- The alternatives of the unit in the order in which the engine tries them, each with the `$`
-- behind it, and the absent group last.
try_units : List TimeUnit → Text → Option (Option TimeUnit)
unfolding at_end
try_units [] s = if at_end s then some none else none
try_units (u ∷ us) s =
    let later = try_units us s in
    elim (strip_prefix (unit_text u) s) [
      | none ↦ later
      | some rest ↦ if at_end rest then some (some u) else later
    ]

abbrev units : List TimeUnit
units = milliseconds ∷ seconds ∷ minutes ∷ hours ∷ days ∷ []

unfoldable pub take_unit : Text → Option (Option TimeUnit)
unfolding try_units strip_prefix
take_unit = try_units units

abbrev pub groups : Option Sign → Text → Option (Option TimeUnit) → Option TimeMatch
groups sign amount none = none
groups sign amount (some unit) =
    some (record { sign = sign; amount = amount_group amount; unit = unit })

unfoldable pub match_behind_now : Option Text → Option TimeMatch
match_behind_now none = none
match_behind_now (some s) =
    let (sign, s') = take_sign s in
    let (amount, s'') = span_digits s' in groups sign amount (take_unit s'')

-- `_TIME_EXPRESSION_PATTERN.match(s)`
unfoldable pub match_time : Text → Option TimeMatch
match_time s = match_behind_now (strip_prefix (codes "now") s)
