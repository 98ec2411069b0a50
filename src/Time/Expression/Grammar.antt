-- ===== src/Time/Expression/Grammar.antt =====
-- The matcher of the time expressions against the pattern read as a grammar: what is written
-- behind `now`.
use delayed_order_sms_flink.Base.{
  ℕ, ◌≡◌, refl, ap, ◌≢◌, inl, inr, true, false, Option, none, some, [], ◌∷◌, ◌++◌, append_assoc,
  Text, codes, strip_prefix, arith, ◌==◌, ==_iff, Bool-cases,
}
use delayed_order_sms_flink.Time.Digits.{is_decimal, AllDecimal}
use delayed_order_sms_flink.Time.Expression.{
  Sign, plus, minus, TimeUnit, milliseconds, seconds, minutes, hours, days, sign_text, unit_text,
  TimeMatch, take_sign, span_digits, amount_group, take_unit, match_behind_now, match_time,
}

-- The text of a group: nothing, where the group is absent.
abbrev pub written {ℓ} : {A : Type ℓ} → (A → Text) → Option A → Text
written f none = []
written f (some a) = f a

-- What a match spells behind `now`, in front of the end.
abbrev pub spelling : TimeMatch → Text
spelling m = written sign_text m.sign ++ (written (λ t. t) m.amount ++ written unit_text m.unit)

-- The end of the text, which may be a line break.
pub data IsTail : Text → Type 0 where
  nothing : IsTail []
  line_break : IsTail (10 ∷ [])

-- The amount is one or more digits, if it is there.
abbrev pub IsAmount : Option Text → Type 0
IsAmount none = Unit
IsAmount (some t) = (t ≢ []) × AllDecimal t

-- What stands in front of the text is no digit; it is no sign.
abbrev NoDigit : Text → Type 0
NoDigit [] = Unit
NoDigit (c ∷ s) = is_decimal c ≡ false

abbrev NoSign : Text → Type 0
NoSign [] = Unit
NoSign (c ∷ s) = ((c == b'+') ≡ false) × ((c == b'-') ≡ false)

take_sign-written :
    (o : Option Sign) (s : Text) → NoSign s → take_sign (written sign_text o ++ s) ≡ (o, s)
unfolding take_sign
take_sign-written none [] h = refl
take_sign-written none (c ∷ s) h = ground arith
take_sign-written (some plus) s h = refl
take_sign-written (some minus) s h = refl

span_digits-append : (ds s : Text) → AllDecimal ds → NoDigit s → span_digits (ds ++ s) ≡ (ds, s)
unfolding span_digits
span_digits-append [] [] hd h = refl
span_digits-append [] (c ∷ s) hd h = ground arith
span_digits-append (d ∷ ds) s (hd, hds) h = ground (arith, span_digits-append ds s hds h)

take_unit-written :
    (o : Option TimeUnit) {t : Text} → IsTail t → take_unit (written unit_text o ++ t) ≡ some o
unfolding take_unit
take_unit-written none nothing = refl
take_unit-written none line_break = refl
take_unit-written (some milliseconds) nothing = refl
take_unit-written (some milliseconds) line_break = refl
take_unit-written (some seconds) nothing = refl
take_unit-written (some seconds) line_break = refl
take_unit-written (some minutes) nothing = refl
take_unit-written (some minutes) line_break = refl
take_unit-written (some hours) nothing = refl
take_unit-written (some hours) line_break = refl
take_unit-written (some days) nothing = refl
take_unit-written (some days) line_break = refl

NoDigit-unit : (o : Option TimeUnit) {t : Text} → IsTail t → NoDigit (written unit_text o ++ t)
unfolding is_decimal
NoDigit-unit none nothing = tt
NoDigit-unit none line_break = refl
NoDigit-unit (some milliseconds) h = refl
NoDigit-unit (some seconds) h = refl
NoDigit-unit (some minutes) h = refl
NoDigit-unit (some hours) h = refl
NoDigit-unit (some days) h = refl

NoSign-unit : (o : Option TimeUnit) {t : Text} → IsTail t → NoSign (written unit_text o ++ t)
NoSign-unit none nothing = tt
NoSign-unit none line_break = (refl, refl)
NoSign-unit (some milliseconds) h = (refl, refl)
NoSign-unit (some seconds) h = (refl, refl)
NoSign-unit (some minutes) h = (refl, refl)
NoSign-unit (some hours) h = (refl, refl)
NoSign-unit (some days) h = (refl, refl)

plus_no_digit : is_decimal b'+' ≡ false
unfolding is_decimal
plus_no_digit = refl

minus_no_digit : is_decimal b'-' ≡ false
unfolding is_decimal
minus_no_digit = refl

digit_no_sign : (c b : ℕ) → is_decimal c ≡ true → is_decimal b ≡ false → (c == b) ≡ false
digit_no_sign c b h k = elim (Bool-cases (c == b)) [
  | inl e ↦ cc (ap is_decimal ((==_iff c b).0 e))
  | inr e ↦ e
]

NoSign-amount :
    (o : Option Text) (s : Text) → IsAmount o → NoSign s → NoSign (written (λ t. t) o ++ s)
NoSign-amount none s h k = k
NoSign-amount (some []) s h k = absurd (h.0 refl)
NoSign-amount (some (c ∷ t)) s h k =
    (digit_no_sign c b'+' h.1.0 plus_no_digit, digit_no_sign c b'-' h.1.0 minus_no_digit)

amount_group-written : (o : Option Text) → IsAmount o → amount_group (written (λ t. t) o) ≡ o
amount_group-written none h = refl
amount_group-written (some []) h = absurd (h.0 refl)
amount_group-written (some (c ∷ t)) h = refl

AllDecimal-written : (o : Option Text) → IsAmount o → AllDecimal (written (λ t. t) o)
AllDecimal-written none h = tt
AllDecimal-written (some t) h = h.1

-- Every way to write a sign, an amount and a unit behind `now` is matched, and the groups of the
-- match are those that were written. The amount is digits, and each of the three may be absent.
pub match_time-spelling :
    (m : TimeMatch) {t : Text}
    → IsAmount m.amount
    → IsTail t
    → match_time (codes "now" ++ (spelling m ++ t)) ≡ some m
unfolding match_time match_behind_now strip_prefix
match_time-spelling m {t} h k = rw (append_assoc) (
    rw (append_assoc) (
      rw (
        take_sign-written m.sign _ (NoSign-amount m.amount _ h (NoSign-unit m.unit k)),
        span_digits-append _ _ (AllDecimal-written m.amount h) (NoDigit-unit m.unit k),
        take_unit-written m.unit k,
        amount_group-written m.amount h,
      )))
