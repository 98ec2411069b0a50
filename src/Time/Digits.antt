-- ===== src/Time/Digits.antt =====
-- What `\d` matches and `int` reads: the decimal digits of Unicode 14.0.0, which Python 3.11 has.
use delayed_order_sms_flink.Base.{
  ℕ, ◌+◌, ◌-◌, ◌*◌, ◌≡◌, Bool, true, false, ◌&&◌, Option, none, some, List, [], ◌∷◌, Text, All, leb,
  ltb, if◌then◌else◌, length, Result, ok, err, value_error,
}

-- The code points of the zeros. Each stands before the nine other digits of its script.
abbrev decimal_zeros : List ℕ
decimal_zeros =
    0x30 ∷ 0x660 ∷ 0x6f0 ∷ 0x7c0 ∷ 0x966 ∷ 0x9e6 ∷ 0xa66 ∷ 0xae6 ∷ 0xb66 ∷ 0xbe6 ∷ 0xc66 ∷ 0xce6
    ∷ 0xd66 ∷ 0xde6 ∷ 0xe50 ∷ 0xed0 ∷ 0xf20 ∷ 0x1040 ∷ 0x1090 ∷ 0x17e0 ∷ 0x1810 ∷ 0x1946 ∷ 0x19d0
    ∷ 0x1a80 ∷ 0x1a90 ∷ 0x1b50 ∷ 0x1bb0 ∷ 0x1c40 ∷ 0x1c50 ∷ 0xa620 ∷ 0xa8d0 ∷ 0xa900 ∷ 0xa9d0
    ∷ 0xa9f0 ∷ 0xaa50 ∷ 0xabf0 ∷ 0xff10 ∷ 0x104a0 ∷ 0x10d30 ∷ 0x11066 ∷ 0x110f0 ∷ 0x11136 ∷ 0x111d0
    ∷ 0x112f0 ∷ 0x11450 ∷ 0x114d0 ∷ 0x11650 ∷ 0x116c0 ∷ 0x11730 ∷ 0x118e0 ∷ 0x11950 ∷ 0x11c50
    ∷ 0x11d50 ∷ 0x11da0 ∷ 0x16a60 ∷ 0x16ac0 ∷ 0x16b50 ∷ 0x1d7ce ∷ 0x1d7d8 ∷ 0x1d7e2 ∷ 0x1d7ec
    ∷ 0x1d7f6 ∷ 0x1e140 ∷ 0x1e2f0 ∷ 0x1e950 ∷ 0x1fbf0 ∷ []

find_zero : List ℕ → ℕ → Option ℕ
find_zero [] c = none
find_zero (z ∷ zs) c = if leb z c && ltb c (z + 10) then some z else find_zero zs c

unfoldable pub digit_value : ℕ → Option ℕ
unfolding find_zero
digit_value c = elim (find_zero decimal_zeros c) [ none ↦ none | some z ↦ some (c - z) ]

unfoldable pub is_decimal : ℕ → Bool
unfolding digit_value
is_decimal c = elim (digit_value c) [ none ↦ false | some _ ↦ true ]

abbrev pub AllDecimal : Text → Type 0
AllDecimal = All (λ c. is_decimal c ≡ true)

-- The number that digits spell behind `n`.
unfoldable pub decimal : ℕ → Text → ℕ
decimal n [] = n
decimal n (c ∷ s) = decimal (n * 10 + (elim (digit_value c) [ none ↦ 0 | some d ↦ d ])) s

-- Python refuses to convert longer texts (`sys.set_int_max_str_digits`).
abbrev pub max_str_digits : ℕ
max_str_digits = 4300

-- `int(s)` at a text of one or more digits
unfoldable pub int_of_digits : Text → Result ℕ
unfolding decimal
int_of_digits s = if ltb max_str_digits (length s) then err value_error else ok (decimal 0 s)
