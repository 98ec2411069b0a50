-- ===== src/Time/Resolve/Agreement.antt =====
-- The two readers of a time expression, the one that gives a time and the one that gives a time
-- span, agree.
use delayed_order_sms_flink.Base.{
  ℕ, ◌<◌, ◌*◌, ◌≡◌, refl, none, some, Option, Text, codes, ◌++◌, strip_prefix, ℤ, pos, Result, ok,
  ◌>>=◌, arith, Result-cases, inl, inr,
}
use delayed_order_sms_flink.Time.Expression.{Sign, plus, minus, TimeMatch, match_time}
use delayed_order_sms_flink.Time.Expression.Spells.{match_time-Spells}
use delayed_order_sms_flink.Time.Digits.{int_of_digits}
use delayed_order_sms_flink.Time.Clock.{max_time, timedelta, negate, add_time, sub_time}
use delayed_order_sms_flink.Time.Calendar.{to_iso_z}
use delayed_order_sms_flink.Time.Resolve.{
  span, amount_or_zero, unit_us, resolve_match, parse_dynamic_time, offset_of, offset_match,
  dynamic_time, behind_now, parse_offset_text,
}

now-behind_now :
    (s : Text) (m : TimeMatch) → match_time s ≡ some m → codes "now" ++ behind_now s ≡ s
unfolding strip_prefix
now-behind_now s m h = let (t, _, _, eq) = match_time-Spells s m h in rw eq refl

-- The time span that is taken from a time is subtracted by adding its negative.
sub_time-negate :
    (t us : ℕ) → t < max_time → sub_time t (pos us) ≡ (do d ← negate (pos us); add_time t d)
unfolding sub_time add_time negate
sub_time-negate t us h = ground arith

-- `delta` is not negative.
span-pos : (m : TimeMatch) {d : ℤ} → span m ≡ ok d → (us : ℕ) × (d ≡ pos us)
unfolding span timedelta
span-pos m {d} h = elim (Result-cases (int_of_digits (amount_or_zero m.amount))) [
  | inl (n, e) ↦ (n * unit_us m.unit, ground arith)
  | inr (x, e) ↦ absurd (ground arith)
]

add_time-zero : (t : ℕ) → t < max_time → add_time t (pos 0) ≡ ok t
unfolding add_time
add_time-zero t h = ground arith

-- The time that an offset leads to.
abbrev pub shifted : ℕ → Result ℤ → Result Text
shifted base r = do delta ← r; t ← add_time base delta; ok (to_iso_z t)

minus_agrees :
    (m : TimeMatch) (base : ℕ)
    → base < max_time
    → resolve_match (some minus) m base ≡ shifted base (offset_of (some minus) m)
unfolding resolve_match offset_of
minus_agrees m base h = elim (Result-cases (span m)) [
  | inl (d, e) ↦
      let (us, eq) = span-pos m e in
      rw e (
        rw eq (
          rw (sub_time-negate base us h)
            (elim (Result-cases (negate (pos us))) [ inl (x, k) ↦ rw k | inr (x, k) ↦ rw k ])))
  | inr (x, e) ↦ rw e
]

sign_agrees :
    (s : Option Sign) (m : TimeMatch) (base : ℕ)
    → base < max_time
    → resolve_match s m base ≡ shifted base (offset_of s m)
unfolding resolve_match offset_of
sign_agrees none m base h = rw (add_time-zero base h)
sign_agrees (some plus) m base h = elim (Result-cases (span m)) [
  | inl (x, k) ↦ rw k
  | inr (x, k) ↦ rw k
]
sign_agrees (some minus) m base h = minus_agrees m base h

-- A text that the pattern matches is resolved to the time that its offset, as `parse_offset` reads
-- it, leads to from the base; where one of the two raises, the other does too.
pub parse_dynamic_time-parse_offset_text :
    (s : Text) (m : TimeMatch) (base : ℕ)
    → match_time s ≡ some m
    → base < max_time
    → parse_dynamic_time s base ≡ shifted base (parse_offset_text s)
unfolding parse_dynamic_time dynamic_time parse_offset_text offset_match
parse_dynamic_time-parse_offset_text s m base h k =
    rw (now-behind_now s m h) (rw h (sign_agrees m.sign m base k))
