-- ===== src/Time/Calendar/Dates.antt =====
-- The calendar date of a day is counted back to the day.
use delayed_order_sms_flink.Base.{
  ℕ, zero, suc, ◌+◌, ◌-◌, ◌*◌, ◌/◌, ◌≤◌, ◌<◌, ltb, ◌≡◌, ◌∙◌, ap, Bool, true, false, List, [], ◌∷◌,
  length, All, arith, if◌then◌else◌, Bool-cases, inl, inr,
}
use delayed_order_sms_flink.Time.Calendar.{
  is_leap, month_lengths, Date, find_month, find_year, date_of,
}

-- The days in front of the month with `k` months before it.
unfoldable pub days_before_month : List ℕ → ℕ → ℕ
days_before_month [] k = 0
days_before_month (len ∷ lens) zero = 0
days_before_month (len ∷ lens) (suc k) = len + days_before_month lens k

-- The days in front of the year with `y` years before it.
unfoldable pub days_before_year : ℕ → ℕ
days_before_year y = 365 * y + y / 4 + y / 400 - y / 100

unfoldable pub day_number : Date → ℕ
day_number d =
    days_before_year (d.year - 1)
    + days_before_month (month_lengths (is_leap d.year)) (d.month - 1)
    + (d.dom - 1)

abbrev total : List ℕ → ℕ
total [] = 0
total (n ∷ ns) = n + total ns

-- `k` months and `e` days lie in front.
find_month_lem :
    (lens : List ℕ) (m d : ℕ)
    → All (λ len. len ≤ 31) lens
    → d < total lens
    → (k e : ℕ) × (find_month lens m d ≡ (m + k, e + 1))
      × (days_before_month lens k + e ≡ d)
      × (k < length lens)
      × (e < 31)
unfolding find_month days_before_month
find_month_lem [] m d _ h = absurd (omega arith)
find_month_lem (len ∷ lens) m d (small, smalls) h = elim (Bool-cases (ltb d len)) [
  | inl here ↦ (0, d, ground arith, omega arith, omega arith, ground arith)
  | inr there ↦
      let (k, e, eq, count, few, days) =
        find_month_lem lens (m + 1) (d - len) smalls (ground arith) in
      (
        suc k,
        e,
        rw there (eq ∙ ap {B = ℕ × ℕ} (λ x. (x, e + 1)) (omega arith)),
        ground arith,
        omega arith,
        days,
      )
]

year_length : ℕ → ℕ
year_length y = if is_leap (y + 1) then 366 else 365

find_year_lem :
    (n : ℕ)
    → (days_before_year (find_year n).0 + (find_year n).1 ≡ n)
      × ((find_year n).1 < year_length (find_year n).0)
unfolding days_before_year find_year year_length
find_year_lem n = ground arith

month_lengths-small : (leap : Bool) → All (λ len. len ≤ 31) (month_lengths leap)
month_lengths-small true = omega arith
month_lengths-small false = omega arith

total-month_lengths : (y : ℕ) → total (month_lengths (is_leap (y + 1))) ≡ year_length y
unfolding year_length
total-month_lengths y = ground arith

-- A date of the calendar, with the ranges that its text has room for.
abbrev pub IsDate : Date → Type 0
IsDate d = (0 < d.year) × (d.month ≤ 12) × (d.dom ≤ 31)

-- A date of the year with `y` years before it.
date_counted :
    (y k e n : ℕ)
    → days_before_year y + (days_before_month (month_lengths (is_leap (y + 1))) k + e) ≡ n
    → day_number (record { year = y + 1; month = 1 + k; dom = e + 1 }) ≡ n
unfolding day_number
date_counted y k e n h =
    let year : y + 1 - 1 ≡ y = omega arith in
    let month : 1 + k - 1 ≡ k = omega arith in rw (year, month) (omega arith)

-- Every day is counted back from its date, which lies in the ranges.
pub day_number-date_of : (n : ℕ) → (day_number (date_of n) ≡ n) × IsDate (date_of n)
unfolding date_of
day_number-date_of n =
    let (y, d) = find_year n in
    let (exact, short) = find_year_lem n in
    let (k, e, eq, count, few, days) =
      find_month_lem (month_lengths (is_leap (y + 1))) 1 d (month_lengths-small _)
        (rw (total-month_lengths y) short) in
    rw eq (date_counted y k e n (omega arith), omega arith)

find_year-bound : (n : ℕ) → n < 3652059 → (find_year n).0 < 9999
unfolding find_year
find_year-bound n h = ground arith

pub date_of-year : (n : ℕ) → n < 3652059 → (date_of n).year ≤ 9999
unfolding date_of
date_of-year n h = omega (arith, find_year-bound n h)
