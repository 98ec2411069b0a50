-- ===== src/Time/Resolve.antt =====
-- `parse_dynamic_time`, `parse_offset` and `resolve_dynamic_times` of time_utils.py.
pub mod Agreement
pub mod Shape
use delayed_order_sms_flink.Base.{
  ℕ, ◌+◌, ◌*◌, Bool, true, false, Option, none, some, Text, codes, ◌++◌, strip_prefix, ℤ, pos,
  Result, ok, err, ◌>>=◌, value_error, attribute_error, if◌then◌else◌,
}
use delayed_order_sms_flink.Json.{
  Json, Items, Fields, null, bool, int, float, str, arr, obj, nil, cons, end, field, is_true,
}
use delayed_order_sms_flink.Time.Digits.{int_of_digits}
use delayed_order_sms_flink.Time.Expression.{
  Sign, plus, minus, TimeUnit, milliseconds, seconds, minutes, hours, days, TimeMatch, match_time,
}
use delayed_order_sms_flink.Time.Clock.{second, day, timedelta, negate, add_time, sub_time}
use delayed_order_sms_flink.Time.Calendar.{to_iso_z}

-- The microseconds of a unit. Seconds are meant where none is written.
abbrev pub unit_us : Option TimeUnit → ℕ
unit_us none = second
unit_us (some milliseconds) = 1000
unit_us (some seconds) = second
unit_us (some minutes) = 60 * second
unit_us (some hours) = 3600 * second
unit_us (some days) = day

-- `amount or "0"`
abbrev pub amount_or_zero : Option Text → Text
amount_or_zero none = codes "0"
amount_or_zero (some t) = t

-- `delta`, that both functions compute from the groups
unfoldable pub span : TimeMatch → Result ℤ
span m = do n ← int_of_digits (amount_or_zero m.amount); timedelta (n * unit_us m.unit)

unfoldable pub resolve_match : Option Sign → TimeMatch → ℕ → Result Text
resolve_match none m base = ok (to_iso_z base)
resolve_match (some plus) m base = do delta ← span m; t ← add_time base delta; ok (to_iso_z t)
resolve_match (some minus) m base = do delta ← span m; t ← sub_time base delta; ok (to_iso_z t)

unfoldable pub dynamic_time : Option TimeMatch → Text → ℕ → Result Text
dynamic_time none value base = ok value
dynamic_time (some m) value base = resolve_match m.sign m base

unfoldable pub parse_dynamic_time : Text → ℕ → Result Text
parse_dynamic_time value base = dynamic_time (match_time value) value base

unfoldable pub offset_of : Option Sign → TimeMatch → Result ℤ
offset_of none m = ok (pos 0)
offset_of (some plus) m = span m
offset_of (some minus) m = do delta ← span m; negate delta

unfoldable pub offset_match : Option TimeMatch → Result ℤ
offset_match none = err value_error
offset_match (some m) = offset_of m.sign m

-- `offset_str[3:]` where the text starts with `now`
abbrev pub behind_now : Text → Text
behind_now s = elim (strip_prefix (codes "now") s) [ none ↦ s | some rest ↦ rest ]

-- `parse_offset` at a text that is not empty
unfoldable pub parse_offset_text : Text → Result ℤ
parse_offset_text s = offset_match (match_time (codes "now" ++ behind_now s))

module _ {F : Type 0} (float_true : F → Bool) where
  unfoldable pub offset_value : Json F → Result ℤ
  offset_value (str s) = parse_offset_text s
  offset_value _ = err attribute_error

  -- What is false gives no offset, and what is no text has no `startswith`.
  unfoldable pub parse_offset : Json F → Result ℤ
  parse_offset v = if is_true float_true v then offset_value v else ok (pos 0)

module _ {F : Type 0} (base : ℕ) where
  unfoldable mutual
    pub resolve_dynamic_times : Json F → Result (Json F)
    resolve_dynamic_times null = ok null
    resolve_dynamic_times (bool b) = ok (bool b)
    resolve_dynamic_times (int n) = ok (int n)
    resolve_dynamic_times (float x) = ok (float x)
    resolve_dynamic_times (str s) = do t ← parse_dynamic_time s base; ok (str t)
    resolve_dynamic_times (arr xs) = do ys ← resolve_items xs; ok (arr ys)
    resolve_dynamic_times (obj fs) = do gs ← resolve_fields fs; ok (obj gs)

    pub resolve_items : Items F → Result (Items F)
    resolve_items nil = ok nil
    resolve_items (cons x xs) = do
      y ← resolve_dynamic_times x
      ys ← resolve_items xs
      ok (cons y ys)

    pub resolve_fields : Fields F → Result (Fields F)
    resolve_fields end = ok end
    resolve_fields (field k v fs) = do
      w ← resolve_dynamic_times v
      gs ← resolve_fields fs
      ok (field k w gs)
