-- ===== src/Number.antt =====
-- Python's `int(x)` at a text and at the values of a JSON document.
use mathlib.Core.List.{reverse}
use delayed_order_sms_flink.Base.{
  ℕ, ◌==◌, leb, if◌then◌else◌, Bool, true, false, ◌&&◌, ◌||◌, Option, none, some, [], ◌∷◌, Text, ℤ,
  pos, neg, Result, ok, err, ◌>>=◌, value_error, type_error,
}
use delayed_order_sms_flink.Json.{Json, null, bool, int, float, str, arr, obj}
use delayed_order_sms_flink.Json.Numbers.{Floats}
use delayed_order_sms_flink.Time.Digits.{is_decimal, int_of_digits}

-- `c.isspace()`
unfoldable pub is_space : ℕ → Bool
is_space c =
    (leb 9 c && leb c 13)
    || (leb 0x1c c && leb c 0x20)
    || (c == 0x85)
    || (c == 0xa0)
    || (c == 0x1680)
    || (leb 0x2000 c && leb c 0x200a)
    || (c == 0x2028)
    || (c == 0x2029)
    || (c == 0x202f)
    || (c == 0x205f)
    || (c == 0x3000)

unfoldable pub strip_spaces_front : Text → Text
unfolding is_space
strip_spaces_front [] = []
strip_spaces_front (c ∷ s) = let rest = strip_spaces_front s in if is_space c then rest else c ∷ s

-- `s.strip()`
unfoldable pub strip : Text → Text
unfolding strip_spaces_front
strip s = reverse (strip_spaces_front (reverse (strip_spaces_front s)))

-- The digits of a number, without the single underscores that may stand between two of them. The
-- flag is set behind a digit.
unfoldable pub digits_of : Bool → Text → Option Text
unfolding is_decimal
digits_of behind [] = if behind then some [] else none
digits_of behind (c ∷ s) = elim (is_decimal c) [
  | true ↦ elim (digits_of true s) [ none ↦ none | some ds ↦ some (c ∷ ds) ]
  | false ↦ elim (c == b'_' && behind) [ true ↦ digits_of false s | false ↦ none ]
]

natural : Option Text → Result ℕ
natural none = err value_error
natural (some ds) = int_of_digits ds

signed : Text → Result ℤ
unfolding natural digits_of
signed [] = err value_error
signed (c ∷ s) =
    if c == b'-'
    then (do n ← natural (digits_of false s); ok (neg (pos n)))
    else if c == b'+'
    then (do n ← natural (digits_of false s); ok (pos n))
    else (do n ← natural (digits_of false (c ∷ s)); ok (pos n))

-- `int(text)`
unfoldable pub int_of_text : Text → Result ℤ
unfolding signed strip
int_of_text s = signed (strip s)

-- `int(v)`
module _ (fl : Floats) where
  unfoldable pub int_of : Json fl.Float → Result ℤ
  int_of null = err type_error
  int_of (bool true) = ok (pos 1)
  int_of (bool false) = ok (pos 0)
  int_of (int n) = ok n
  int_of (float x) = fl.to_int x
  int_of (str s) = int_of_text s
  int_of (arr xs) = err type_error
  int_of (obj fs) = err type_error
