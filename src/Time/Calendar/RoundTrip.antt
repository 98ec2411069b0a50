-- ===== src/Time/Calendar/RoundTrip.antt =====
-- A reader of the ISO texts, and that it takes every text of `to_iso_z` back to its time.
use delayed_order_sms_flink.Base.{
  ℕ, zero, suc, ◌+◌, ◌-◌, ◌*◌, ◌/◌, ◌%◌, ◌<◌, ◌==◌, ◌≡◌, refl, sym, ◌∙◌, ap, false, Option, none,
  some, [], ◌∷◌, ◌++◌, append_assoc, Text, codes, replace, replace_from, starts_with,
  starts_with-ne, replace-cons, strip_prefix, arith, if◌then◌else◌, Bool-cases, inl, inr, All,
  ==_iff,
}
use delayed_order_sms_flink.Time.Clock.{second, day, max_time}
use delayed_order_sms_flink.Time.Calendar.{
  Date, date_of, padded, date_text, clock_text, isoformat, to_iso_z,
}
use delayed_order_sms_flink.Time.Calendar.Dates.{day_number, day_number-date_of, date_of-year}

infixl 5 ◌>>=◌
abbrev ◌>>=◌ : {A B : Type 0} → Option A → (A → Option B) → Option B
none >>= f = none
some a >>= f = f a

-- `w` digits behind the number `n`, and what follows them.
unfoldable pub read_number : ℕ → ℕ → Text → Option (ℕ × Text)
read_number zero n s = some (n, s)
read_number (suc w) n [] = none
read_number (suc w) n (c ∷ s) = read_number w (n * 10 + (c - b'0')) s

unfoldable pub read_char : ℕ → Text → Option Text
read_char b [] = none
read_char b (c ∷ s) = if c == b then some s else none

read_date : Text → Option (ℕ × Text)
read_date s = do
  (y, s) ← read_number 4 0 s
  s ← read_char b'-' s
  (m, s) ← read_number 2 0 s
  s ← read_char b'-' s
  (d, s) ← read_number 2 0 s
  some (day_number (record { year = y; month = m; dom = d }), s)

-- No fraction stands in front of the `Z`.
read_fraction : Text → Option ℕ
read_fraction [] = none
read_fraction (c ∷ s) =
    if c == b'Z' then some 0 else elim (read_number 6 0 s) [ none ↦ none | some (n, _) ↦ some n ]

read_clock : Text → Option ℕ
read_clock s = do
  (h, s) ← read_number 2 0 s
  s ← read_char b':' s
  (m, s) ← read_number 2 0 s
  s ← read_char b':' s
  (x, s) ← read_number 2 0 s
  f ← read_fraction s
  some ((h * 3600 + m * 60 + x) * second + f)

unfoldable pub read_iso : Text → Option ℕ
unfolding read_date read_clock read_fraction
read_iso s = do (n, s) ← read_date s; s ← read_char b'T' s; us ← read_clock s; some (n * day + us)

module _ (n : ℕ) where
  read_two : n < 100 → (s : Text) → read_number 2 0 (padded 2 n ++ s) ≡ some (n, s)
  unfolding read_number padded
  read_two h s = ground arith

  read_four : n < 10000 → (s : Text) → read_number 4 0 (padded 4 n ++ s) ≡ some (n, s)
  unfolding read_number padded
  read_four h s = ground arith

  read_six : n < 1000000 → (s : Text) → read_number 6 0 (padded 6 n ++ s) ≡ some (n, s)
  unfolding read_number padded
  read_six h s = ground arith

read_char-cons : (c : ℕ) (s : Text) → read_char c (c ∷ s) ≡ some s
unfolding read_char
read_char-cons c s = ground arith

read_date-date_text :
    (d : Date) (s : Text)
    → d.year < 10000
    → d.month < 100
    → d.dom < 100
    → read_date (date_text d ++ s) ≡ some (day_number d, s)
unfolding read_date date_text
read_date-date_text d s hy hm hd =
    simp (append_assoc, read_four d.year hy, read_two d.month hm, read_two d.dom hd, read_char-cons)

read_fraction-none : (s : Text) → read_fraction (codes "Z" ++ s) ≡ some 0
unfolding read_fraction
read_fraction-none s = refl

read_fraction-some :
    (n : ℕ) (s : Text) → n < 1000000 → read_fraction (b'.' ∷ (padded 6 n ++ s)) ≡ some n
unfolding read_fraction
read_fraction-some n s h = rw (read_six n h s)

-- The parts of the clock make up the time of the day.
clock_parts :
    (us : ℕ)
    → (us / second / 3600 * 3600 + us / second / 60 % 60 * 60 + us / second % 60) * second
        + us % second
      ≡ us
clock_parts us = omega arith

abbrev fraction_text : ℕ → Text
fraction_text n = if n == 0 then [] else b'.' ∷ padded 6 n

read_fraction_lem : (n : ℕ) → n < 1000000 → read_fraction (fraction_text n ++ codes "Z") ≡ some n
read_fraction_lem n h = elim (Bool-cases (n == 0)) [
  | inl e ↦ rw e (read_fraction-none [] ∙ ap some (sym ((==_iff n 0).0 e)))
  | inr e ↦ rw e (read_fraction-some n (codes "Z") h)
]

read_clock-clock_text : (us : ℕ) → us < day → read_clock (clock_text us ++ codes "Z") ≡ some us
unfolding read_clock clock_text
read_clock-clock_text us h =
    simp
      (
        append_assoc,
        read_two (us / second / 3600) (omega arith),
        read_two (us / second / 60 % 60) (omega arith),
        read_two (us / second % 60) (omega arith),
        read_char-cons,
      )
      (rw (read_fraction_lem (us % second) (omega arith)) (ap some (clock_parts us)))

-- No `+` stands in the text.
abbrev NoPlus : Text → Type 0
NoPlus = All (λ c. (c == b'+') ≡ false)

NoPlus-append : (s t : Text) → NoPlus s → NoPlus t → NoPlus (s ++ t)
NoPlus-append [] t hs ht = ht
NoPlus-append (c ∷ s) t (hc, hs) ht = (hc, NoPlus-append s t hs ht)

NoPlus-padded : (w n : ℕ) → NoPlus (padded w n)
unfolding padded
NoPlus-padded zero n = tt
NoPlus-padded (suc w) n =
    NoPlus-append (padded w (n / 10)) _ (NoPlus-padded w (n / 10)) (ground arith, tt)

NoPlus-date_text : (d : Date) → NoPlus (date_text d)
unfolding date_text
NoPlus-date_text d =
    NoPlus-append (padded 4 d.year ++ b'-' ∷ padded 2 d.month) _
      (NoPlus-append (padded 4 d.year) _ (NoPlus-padded 4 d.year) (refl, NoPlus-padded 2 d.month))
      (refl, NoPlus-padded 2 d.dom)

NoPlus-fraction_text : (n : ℕ) → NoPlus (fraction_text n)
NoPlus-fraction_text n = elim (Bool-cases (n == 0)) [
  | inl e ↦ rw e tt
  | inr e ↦ rw e (refl, NoPlus-padded 6 n)
]

NoPlus-clock_text : (us : ℕ) → NoPlus (clock_text us)
unfolding clock_text
NoPlus-clock_text us =
    NoPlus-append _ (fraction_text (us % second))
      (NoPlus-append _ (b':' ∷ padded 2 (us / second % 60))
        (NoPlus-append (padded 2 (us / second / 3600)) _ (NoPlus-padded 2 (us / second / 3600))
          (refl, NoPlus-padded 2 (us / second / 60 % 60)))
        (refl, NoPlus-padded 2 (us / second % 60)))
      (NoPlus-fraction_text (us % second))

replace_utc :
    (s : Text)
    → NoPlus s
    → replace (codes "+00:00") (codes "Z") (s ++ codes "+00:00") ≡ s ++ codes "Z"
unfolding replace replace_from starts_with strip_prefix
replace_utc [] h = refl
replace_utc (c ∷ s) (hc, hs) =
    replace-cons (codes "+00:00") (codes "Z") c (s ++ codes "+00:00")
      (starts_with-ne b'+' c (codes "00:00") (s ++ codes "+00:00") hc)
    ∙ ap (λ x. c ∷ x) (replace_utc s hs)

-- The offset at the end is the only one that is replaced.
pub to_iso_z_lem :
    (t : ℕ)
    → to_iso_z t ≡ date_text (date_of (t / day)) ++ b'T' ∷ (clock_text (t % day) ++ codes "Z")
unfolding to_iso_z isoformat
to_iso_z_lem t =
    replace_utc (date_text (date_of (t / day)) ++ b'T' ∷ clock_text (t % day)) (
      NoPlus-append (date_text (date_of (t / day))) _ (NoPlus-date_text _)
        (refl, NoPlus-clock_text (t % day)))
    ∙ simp append_assoc

-- The text of a time, up to the end of the year 9999, is read back as this time, to the
-- microsecond.
pub read_iso-to_iso_z : (t : ℕ) → t < max_time → read_iso (to_iso_z t) ≡ some t
unfolding read_iso
read_iso-to_iso_z t h =
    let n = t / day in
    let (exact, range) = day_number-date_of n in
    rw to_iso_z_lem (
      rw
        (
          read_date-date_text (date_of n) _ (omega (arith, date_of-year n (omega arith)))
              (omega arith) (omega arith),
          read_char-cons b'T' _,
          read_clock-clock_text (t % day) (omega arith),
          exact,
        )
        (ap some (omega arith)))
