-- ===== src/Time/Calendar.antt =====
pub mod Dates
pub mod RoundTrip
-- `to_iso_z` of time_utils.py, with the `isoformat` of a UTC time that it calls: the Gregorian
-- calendar, as Python's library counts it, and the text.
use delayed_order_sms_flink.Base.{
  ℕ, zero, suc, ◌≡◌, refl, ◌+◌, ◌-◌, ◌*◌, ◌/◌, ◌%◌, ◌==◌, ltb, if◌then◌else◌, Bool, not, ◌&&◌, ◌||◌,
  List, [], ◌∷◌, ◌++◌, Text, codes, replace,
}
use delayed_order_sms_flink.Time.Clock.{second, day}

abbrev pub is_leap : ℕ → Bool
is_leap y = y % 4 == 0 && (not (y % 100 == 0) || y % 400 == 0)

abbrev pub month_lengths : Bool → List ℕ
month_lengths leap =
    31 ∷ (if leap then 29 else 28) ∷ 31 ∷ 30 ∷ 31 ∷ 30 ∷ 31 ∷ 31 ∷ 30 ∷ 31 ∷ 30 ∷ 31 ∷ []

pub record Date : Type 0 where
  pub year : ℕ
  pub month : ℕ
  pub dom : ℕ

-- The month, from `m` on, and the day in it, of the day `d` behind the first.
unfoldable pub find_month : List ℕ → ℕ → ℕ → ℕ × ℕ
find_month [] m d = (m, d + 1)
find_month (len ∷ lens) m d =
    let later = find_month lens (m + 1) (d - len) in if ltb d len then (m, d + 1) else later

-- The year, less one, and the day in it, of the day `n` behind the first of the year 1: cycles of
-- 400, 100, 4 years and single ones. The last day of a cycle is taken for the first of one more.
unfoldable pub find_year : ℕ → ℕ × ℕ
find_year n =
    let n400 = n / 146097 in
    let r400 = n % 146097 in
    let n100 = r400 / 36524 in
    let r100 = r400 % 36524 in
    let n4 = r100 / 1461 in
    let r4 = r100 % 1461 in
    let n1 = r4 / 365 in
    let r1 = r4 % 365 in
    let y = 400 * n400 + 100 * n100 + 4 * n4 + n1 in
    if n1 == 4 || n100 == 4 then (y - 1, 365) else (y, r1)

unfoldable pub date_of : ℕ → Date
date_of n =
    let (y, d) = find_year n in
    let (month, dom) = find_month (month_lengths (is_leap (y + 1))) 1 d in
    record { year = y + 1; month = month; dom = dom }

-- A number in `w` digits.
unfoldable pub padded : ℕ → ℕ → Text
padded zero n = []
padded (suc w) n = padded w (n / 10) ++ (b'0' + n % 10) ∷ []

unfoldable pub date_text : Date → Text
date_text d = padded 4 d.year ++ b'-' ∷ padded 2 d.month ++ b'-' ∷ padded 2 d.dom

-- `HH:MM:SS`, and the microseconds if there are any
unfoldable pub clock_text : ℕ → Text
clock_text us =
    let s = us / second in
    let fraction = us % second in
    padded 2 (s / 3600)
    ++ b':' ∷ padded 2 (s / 60 % 60)
    ++ b':' ∷ padded 2 (s % 60)
    ++ (if fraction == 0 then [] else b'.' ∷ padded 6 fraction)

-- `dt.astimezone(timezone.utc).isoformat()`
unfoldable pub isoformat : ℕ → Text
isoformat t = date_text (date_of (t / day)) ++ b'T' ∷ clock_text (t % day) ++ codes "+00:00"

unfoldable pub to_iso_z : ℕ → Text
to_iso_z t = replace (codes "+00:00") (codes "Z") (isoformat t)
