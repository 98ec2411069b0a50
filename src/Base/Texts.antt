-- ===== src/Base/Texts.antt =====
-- Python's `str` as a list of code points, with the methods that the code calls.
use Prim.Native.Nat.{ℕ, zero, suc, ◌-◌}
use Prim.Native.Char.{code}
use Prim.Native.String.{String}
use mathlib.Core.Path.{◌≡◌, refl, ap, ◌∙◌}
use mathlib.Core.Logic.{◌↔◌}
use mathlib.Core.Bool.{Bool, true, false, ◌&&◌}
use mathlib.Core.Option.{Option, none, some}
use mathlib.Core.List.{List, [], ◌∷◌, ◌++◌, reverse}
use native.Mathlib.Omega.{arith}
use delayed_order_sms_flink.Base.Tests.{◌==◌, if◌then◌else◌}
use delayed_order_sms_flink.Base.Lists.{length, All}

abbrev pub Text : Type 0
Text = List ℕ

-- The code points of a literal.
abbrev pub codes : String → Text
codes String.[] = []
codes (String.◌∷◌ c s) = code c ∷ codes s

-- `s == t`
unfoldable pub text_eq : Text → Text → Bool
text_eq [] [] = true
text_eq [] (d ∷ t) = false
text_eq (c ∷ s) [] = false
text_eq (c ∷ s) (d ∷ t) = c == d && text_eq s t

pub text_eq_iff : (s t : Text) → (text_eq s t ≡ true) ↔ (s ≡ t)
unfolding text_eq
text_eq_iff [] [] = (λ h. refl, λ h. refl)
text_eq_iff [] (d ∷ t) = ground arith
text_eq_iff (c ∷ s) [] = ground arith
text_eq_iff (c ∷ s) (d ∷ t) = ground (arith, text_eq_iff s t)

pub text_eq_refl : (s : Text) → text_eq s s ≡ true
text_eq_refl s = (text_eq_iff s s).1 refl

-- What is left of a text behind a prefix, if it has the prefix.
unfoldable pub strip_prefix : Text → Text → Option Text
strip_prefix [] s = some s
strip_prefix (p ∷ ps) [] = none
strip_prefix (p ∷ ps) (c ∷ s) = if p == c then strip_prefix ps s else none

-- `s.startswith(p)`
unfoldable pub starts_with : Text → Text → Bool
unfolding strip_prefix
starts_with p s = elim (strip_prefix p s) [ none ↦ false | some _ ↦ true ]

pub strip_prefix-append : (p s : Text) → strip_prefix p (p ++ s) ≡ some s
unfolding strip_prefix
strip_prefix-append [] s = refl
strip_prefix-append (c ∷ p) s = ground (arith, strip_prefix-append p s)

pub strip_prefix-eq-some : (p s : Text) {r : Text} → strip_prefix p s ≡ some r → s ≡ p ++ r
unfolding strip_prefix
strip_prefix-eq-some [] s h = ground arith
strip_prefix-eq-some (c ∷ p) [] h = ground arith
strip_prefix-eq-some (c ∷ p) (d ∷ s) {r} h = ground (arith, strip_prefix-eq-some p s {r = r})

-- `s.removesuffix(x)`, and whether there was such a suffix.
unfoldable pub ends_with : Text → Text → Bool
unfolding starts_with
ends_with x s = starts_with (reverse x) (reverse s)

unfoldable pub remove_suffix : Text → Text → Text
unfolding strip_prefix
remove_suffix x s = elim (strip_prefix (reverse x) (reverse s)) [ none ↦ s | some r ↦ reverse r ]

-- `s.replace(x, y)` at an `x` that is not empty: from the left, without overlaps. The number is
-- that of the characters of a match that are still to be passed over.
unfoldable pub replace_from : ℕ → Text → Text → Text → Text
replace_from k x y [] = []
replace_from (suc k) x y (c ∷ s) = replace_from k x y s
replace_from zero x y (c ∷ s) = elim (starts_with x (c ∷ s)) [
  | true ↦ y ++ replace_from (length x - 1) x y s
  | false ↦ c ∷ replace_from zero x y s
]

unfoldable pub replace : Text → Text → Text → Text
replace = replace_from 0

pub replace-cons :
    (x y : Text) (c : ℕ) (s : Text)
    → starts_with x (c ∷ s) ≡ false
    → replace x y (c ∷ s) ≡ c ∷ replace x y s
unfolding replace replace_from
replace-cons x y c s h = ground arith

pub replace-nil : (x y : Text) → replace x y [] ≡ []
unfolding replace replace_from
replace-nil x y = refl

pub starts_with-ne :
    (p c : ℕ) (ps s : Text) → (c == p) ≡ false → starts_with (p ∷ ps) (c ∷ s) ≡ false
unfolding starts_with strip_prefix
starts_with-ne p c ps s h = ground arith

pub starts_with-append : (x s : Text) → starts_with x (x ++ s) ≡ true
unfolding starts_with
starts_with-append x s = rw (strip_prefix-append x s, starts_with)

-- A match of `x` is replaced as a whole.
replace_from-length : (x y m s : Text) → replace_from (length m) x y (m ++ s) ≡ replace_from 0 x y s
unfolding replace_from
replace_from-length x y [] s = refl
replace_from-length x y (c ∷ m) s = replace_from-length x y m s

replace-match :
    (x y : Text) (c : ℕ) (s : Text)
    → starts_with x (c ∷ s) ≡ true
    → replace x y (c ∷ s) ≡ y ++ replace_from (length x - 1) x y s
unfolding replace replace_from
replace-match x y c s h = ground arith

pub replace-append_self :
    (b : ℕ) (x y s : Text) → replace (b ∷ x) y ((b ∷ x) ++ s) ≡ y ++ replace (b ∷ x) y s
unfolding replace
replace-append_self b x y s =
    let one : length (b ∷ x) - 1 ≡ length x = omega arith in
    replace-match (b ∷ x) y b (x ++ s) (starts_with-append (b ∷ x) s)
    ∙ rw one (ap (λ r. y ++ r) (replace_from-length (b ∷ x) y x s))

-- Text without the first character of `x` is passed over.
pub replace-append_of_no :
    (b : ℕ) (x y t s : Text)
    → All (λ c. (c == b) ≡ false) t
    → replace (b ∷ x) y (t ++ s) ≡ t ++ replace (b ∷ x) y s
replace-append_of_no b x y [] s h = refl
replace-append_of_no b x y (c ∷ t) s (hc, ht) =
    replace-cons (b ∷ x) y c (t ++ s) (starts_with-ne b c x (t ++ s) hc)
    ∙ ap (λ r. c ∷ r) (replace-append_of_no b x y t s ht)

-- `t in s`
unfoldable pub contains : Text → Text → Bool
contains t [] = starts_with t []
contains t (c ∷ s) = let rest = contains t s in if starts_with t (c ∷ s) then true else rest
