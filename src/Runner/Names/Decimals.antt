-- ===== src/Runner/Names/Decimals.antt =====
-- Decimal texts of numbers are read back, also behind the zeros that fill them up.
use delayed_order_sms_flink.Base.{
  ℕ, zero, suc, ◌+◌, ◌-◌, ◌*◌, ◌/◌, ◌<◌, ltb, ◌≡◌, refl, ◌∙◌, [], ◌∷◌, ◌++◌, Text, length,
  replicate, arith, Bool-cases, inl, inr,
}
use delayed_order_sms_flink.Json.Dumps.{show_fuel, show}
use delayed_order_sms_flink.Runner.Names.{zero_filled}

-- The number that ASCII digits spell behind `n`.
unfoldable pub spelled : ℕ → Text → ℕ
spelled n [] = n
spelled n (c ∷ s) = spelled (n * 10 + (c - b'0')) s

spelled-append : (n : ℕ) (s t : Text) → spelled n (s ++ t) ≡ spelled (spelled n s) t
unfolding spelled
spelled-append n [] t = refl
spelled-append n (c ∷ s) t = spelled-append (n * 10 + (c - b'0')) s t

spelled-show_fuel : (f n : ℕ) → n < f → spelled 0 (show_fuel f n) ≡ n
unfolding show_fuel spelled
spelled-show_fuel zero n h = absurd (omega arith)
spelled-show_fuel (suc f) n h = elim (Bool-cases (ltb n 10)) [
  | inl e ↦ rw e (ground arith)
  | inr e ↦ rw e (
      spelled-append 0 (show_fuel f (n / 10)) _
      ∙ omega (arith, spelled-show_fuel f (n / 10) (ground arith)))
]

spelled-zeros : (k : ℕ) (s : Text) → spelled 0 (replicate k b'0' ++ s) ≡ spelled 0 s
unfolding spelled
spelled-zeros zero s = refl
spelled-zeros (suc k) s = spelled-zeros k s

-- A number that is filled up with zeros to any width is read back.
pub spelled-zero_filled : (w n : ℕ) → spelled 0 (zero_filled w n) ≡ n
unfolding zero_filled show
spelled-zero_filled w n =
    spelled-zeros (w - length (show n)) (show n) ∙ spelled-show_fuel (n + 1) n (omega arith)
