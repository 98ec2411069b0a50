-- ===== src/Base/Occurs.antt =====
-- How often a text stands in a list.
use Prim.Native.Nat.{ℕ, ◌+◌}
use mathlib.Core.Path.{◌≡◌}
use mathlib.Core.List.{List, [], ◌∷◌, ◌++◌}
use native.Mathlib.Omega.{arith}
use delayed_order_sms_flink.Base.Tests.{if◌then◌else◌}
use delayed_order_sms_flink.Base.Texts.{Text, text_eq}

-- How often a name is listed.
unfoldable pub occurs : Text → List Text → ℕ
occurs x [] = 0
occurs x (y ∷ ys) = (if text_eq y x then 1 else 0) + occurs x ys

-- No name is listed twice.
abbrev pub Distinct : List Text → Type 0
Distinct [] = Unit
Distinct (x ∷ xs) = (occurs x xs ≡ 0) × Distinct xs

pub occurs-append : (x : Text) (ys zs : List Text) → occurs x (ys ++ zs) ≡ occurs x ys + occurs x zs
unfolding occurs
occurs-append x [] zs = omega arith
occurs-append x (y ∷ ys) zs = omega (arith, occurs-append x ys zs)
