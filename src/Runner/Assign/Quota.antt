-- ===== src/Runner/Assign/Quota.antt =====
-- The largest remainders: a distribution gives every order a scenario, and each scenario its exact
-- share of the orders, rounded down or up.
use native.Mathlib.Nat.{div-add-mod, mod-lt, le_of_mul-le-mul_right}
use delayed_order_sms_flink.Base.{
  ◌%◌, ◌==◌, ==_iff, Bool, true, false, not, Bool-cases, inl, inr, ℕ, ◌+◌, ◌*◌, ◌/◌, ◌^◌, ◌≤◌, ◌<◌,
  ◌≡◌, refl, ap, ap₂, List, [], ◌∷◌, map, sum_over, All, Text, ℤ, pos, ◌+ℤ◌, ◌*ℤ◌, ok, arith,
}
use delayed_order_sms_flink.Json.Numbers.{Floats}
use delayed_order_sms_flink.Runner.Assign.{
  Share, Counts, set_count, total_weight, share, shares, sum_floors,
}

-- The division of two ints rounds to the nearest `float`. Up to 2 ^ 53 a quotient that is not whole
-- stays between the whole numbers next to it, so that `int` of it is the quotient rounded down and
-- what is left is positive; what is left of a whole quotient is 0.0, which is less.
pub record DividesExactly (fl : Floats) : Type 0 where
  pub is_zero : fl.Float → Bool
  pub is_positive : fl.Float → Bool
  pub lt_positive : (f g : fl.Float) → is_zero f ≡ true → is_positive g ≡ true → fl.lt f g ≡ true
  pub lt_zero : (f g : fl.Float) → is_zero f ≡ true → is_positive g ≡ true → fl.lt g f ≡ false
  pub quotient :
      (a b : ℕ)
      → 0 < b
      → a + b ≤ 2 ^ 53
      → (x : fl.Float) × (f : fl.Float) × (fl.divide (pos a) (pos b) ≡ ok x)
        × (fl.to_int x ≡ ok (pos (a / b)))
        × (fl.minus_int x (pos (a / b)) ≡ ok f)
        × (is_zero f ≡ (a % b == 0))
        × (is_positive f ≡ not (a % b == 0))

-- Positive weights, as `weighted_scenarios` lists them.
abbrev pub weights : List (Text × ℕ) → List (Text × ℤ)
weights = map (λ (x, w). (x, pos w))

unfoldable pub total : List (Text × ℕ) → ℕ
total = sum_over (λ (x, w). w)

-- The exact share, rounded down.
abbrev pub quota : ℕ → ℕ → ℕ → ℕ
quota n t w = n * w / t

pub total_weight-weights :
    (fl : Floats) (ws : List (Text × ℕ)) → total_weight fl (weights ws) ≡ pos (total ws)
unfolding total_weight total sum_over ◌+ℤ◌
total_weight-weights fl [] = refl
total_weight-weights fl ((x, w) ∷ ws) = rw (total_weight-weights fl ws) (ground arith)

pub pos-mul : (n w : ℕ) → pos n *ℤ pos w ≡ pos (n * w)
unfolding ◌*ℤ◌
pos-mul n w = ground arith

-- Whether the exact share is whole
abbrev pub is_whole : ℕ → ℕ → ℕ → Bool
is_whole n t w = n * w % t == 0

-- What rounding up adds to the exact share rounded down
abbrev pub up : Bool → ℕ
up true = 0
up false = 1

-- What a share is to be for a weight: its scenario, its count, and of what kind its fraction is.
abbrev pub want : ℕ → ℕ → Text × ℕ → Text × ℤ × Bool × Bool
want n t (x, w) = (x, pos (quota n t w), is_whole n t w, not (is_whole n t w))

module _ (fl : Floats) (exact : DividesExactly fl) where
  abbrev pub view : Share fl.Float → Text × ℤ × Bool × Bool
  view s = (s.scenario, s.floor_count, exact.is_zero s.fraction, exact.is_positive s.fraction)

module _ (fl : Floats) (exact : DividesExactly fl) (n t : ℕ) (pos_t : 0 < t) where
  share-ok :
      (x : Text) (w : ℕ)
      → n * w + t ≤ 2 ^ 53
      → (s : Share fl.Float) × (share fl (pos n) (pos t) (x, pos w) ≡ ok s)
        × (view fl exact s ≡ want n t (x, w))
  unfolding share
  share-ok x w h =
      let (q, f, eq_q, eq_n, eq_f, zero, positive) = exact.quotient (n * w) t pos_t h in
      (
        record { scenario = x; floor_count = pos (quota n t w); fraction = f },
        rw (pos-mul n w, eq_q, eq_n, eq_f),
        ap₂ (λ z p. (x, pos (quota n t w), z, p)) zero positive,
      )

  pub shares-ok :
      (ws : List (Text × ℕ)) (counts : Counts)
      → All (λ (x, w). n * w + t ≤ 2 ^ 53) ws
      → (r : List (Share fl.Float) × Counts) × (shares fl (pos n) (pos t) (weights ws) counts
          ≡ ok r)
        × (map (view fl exact) r.0 ≡ map (want n t) ws)
  unfolding shares
  shares-ok [] counts h = (([], counts), refl, refl)
  shares-ok ((x, w) ∷ ws) counts (hw, h) =
      let (s, eq_s, eq_v) = share-ok x w hw in
      let (r, eq_r, eq_vs) = shares-ok ws (set_count s.scenario s.floor_count counts) h in
      ((s ∷ r.0, r.1), rw (eq_s, eq_r), ap₂ (λ v vs. v ∷ vs) eq_v eq_vs)

-- The sum of the rounded shares.
unfoldable pub floors : ℕ → ℕ → List (Text × ℕ) → ℕ
floors n t = sum_over (λ (x, w). quota n t w)

-- The number of the scenarios whose exact share is not whole.
unfoldable pub ups : ℕ → ℕ → List (Text × ℕ) → ℕ
ups n t = sum_over (λ (x, w). up (is_whole n t w))

module _ (n t : ℕ) (pos_t : 0 < t) where
  quota_bounds : (w : ℕ) → (quota n t w * t ≤ n * w) × (n * w + 1 ≤ (quota n t w + 1) * t)
  quota_bounds w = (
    omega (arith, div-add-mod (n * w) t),
    omega (arith, div-add-mod (n * w) t, mod-lt (n * w) pos_t),
  )

  floors_low : (ws : List (Text × ℕ)) → floors n t ws * t ≤ n * total ws
  unfolding floors total sum_over
  floors_low [] = omega arith
  floors_low ((x, w) ∷ ws) = omega (arith, (quota_bounds w).0, floors_low ws)

  quota-up : (w : ℕ) → n * w ≤ (quota n t w + up (is_whole n t w)) * t
  quota-up w = elim (Bool-cases (is_whole n t w)) [
    | inl e ↦
        let whole : n * w % t ≡ 0 = (==_iff (n * w % t) 0).0 e in
        rw e (omega (arith, div-add-mod (n * w) t, whole))
    | inr e ↦ rw e (omega (arith, div-add-mod (n * w) t, mod-lt (n * w) pos_t))
  ]

  floors_high : (ws : List (Text × ℕ)) → n * total ws ≤ (floors n t ws + ups n t ws) * t
  unfolding floors total sum_over ups
  floors_high [] = omega arith
  floors_high ((x, w) ∷ ws) = omega (arith, quota-up w, floors_high ws)

-- The orders that the rounding leaves over: none, or one for each scenario with a share that is not
-- whole at most.
pub left_over :
    (n : ℕ) (ws : List (Text × ℕ)) (h : 0 < total ws)
    → (floors n (total ws) ws ≤ n) × (n ≤ floors n (total ws) ws + ups n (total ws) ws)
left_over n ws h =
    let t = total ws in
    (
      le_of_mul-le-mul_right (floors_low n t h ws) h,
      le_of_mul-le-mul_right (omega (arith, floors_high n t h ws)) h,
    )

-- The sum of what the shares are to be
abbrev pub whole_part : Text × ℤ × Bool × Bool → Text × ℤ
whole_part v = (v.0, v.1)

pub total_weight-want :
    (fl : Floats) (n t : ℕ) (ws : List (Text × ℕ))
    → total_weight fl (map whole_part (map (want n t) ws)) ≡ pos (floors n t ws)
unfolding total_weight floors sum_over ◌+ℤ◌
total_weight-want fl n t [] = refl
total_weight-want fl n t ((x, w) ∷ ws) = rw (total_weight-want fl n t ws) (ground arith)

pub sum_floors-view :
    (fl : Floats) (exact : DividesExactly fl) (ss : List (Share fl.Float))
    → sum_floors fl ss ≡ total_weight fl (map whole_part (map (view fl exact) ss))
unfolding sum_floors total_weight
sum_floors-view fl exact [] = refl
sum_floors-view fl exact (s ∷ ss) = ap (λ k. s.floor_count +ℤ k) (sum_floors-view fl exact ss)
