-- ===== src/Runner/Assign/Distinct.antt =====
-- Counting names in lists in which no name stands twice.
use delayed_order_sms_flink.Base.{
  occurs, Distinct, ℕ, zero, suc, ◌+◌, ◌≤◌, ◌≡◌, refl, ◌∙◌, ap, List, [], ◌∷◌, take, length,
  sum_over, sum_over-ones, All, All-take, All-map, Text, text_eq, text_eq_iff, text_eq_refl,
  if◌then◌else◌, Bool-cases, arith, inl, inr,
}
use delayed_order_sms_flink.Runner.Assign.{Share}
use delayed_order_sms_flink.Runner.Assign.Tally.{names}

once-cons :
    (x y : Text) (xs : List Text) → occurs x xs ≡ 0 → occurs y xs ≡ 1 → occurs y (x ∷ xs) ≡ 1
unfolding occurs
once-cons x y xs h k = elim (Bool-cases (text_eq x y)) [
  | inl e ↦ absurd (omega (arith, ap (λ z. occurs z xs) ((text_eq_iff x y).0 e)))
  | inr e ↦ rw e (omega arith)
]

-- Names that are listed once each.
pub Distinct-once : (xs : List Text) → Distinct xs → All (λ x. occurs x xs ≡ 1) xs
unfolding occurs
Distinct-once [] h = tt
Distinct-once (x ∷ xs) (fresh, h) = (
  rw (text_eq_refl x) (omega (arith, fresh)),
  All-map _ _ (λ y once. once-cons x y xs fresh once) xs (Distinct-once xs h),
)

occurs-pair :
    (x : Text) (xs ys : List Text)
    → sum_over (λ y. occurs y (x ∷ xs)) ys ≡ occurs x ys + sum_over (λ y. occurs y xs) ys
unfolding occurs sum_over
occurs-pair x xs [] = refl
occurs-pair x xs (y ∷ ys) = ground (arith, occurs-pair x xs ys, text_eq_iff x y, text_eq_iff y x)

sum_over-none : (ys : List Text) → sum_over (λ y. occurs y []) ys ≡ 0
unfolding sum_over occurs
sum_over-none [] = refl
sum_over-none (y ∷ ys) = omega (arith, sum_over-none ys)

-- Counting the pairs of equal names in one order or in the other.
occurs_swap : (xs ys : List Text) → sum_over (λ y. occurs y xs) ys ≡ sum_over (λ x. occurs x ys) xs
unfolding sum_over
occurs_swap [] ys = sum_over-none ys
occurs_swap (x ∷ xs) ys = occurs-pair x xs ys ∙ ap (λ k. occurs x ys + k) (occurs_swap xs ys)

-- The first names of a list, each of which is listed once, counted over the whole list.
pub sum_over-occurs-take :
    (r : ℕ) (xs : List Text)
    → All (λ x. occurs x xs ≡ 1) xs
    → sum_over (λ x. occurs x (take r xs)) xs ≡ length (take r xs)
sum_over-occurs-take r xs once =
    occurs_swap (take r xs) xs ∙ sum_over-ones (λ x. occurs x xs) (take r xs) (All-take _ r xs once)

pub occurs-take-le : (x : Text) (r : ℕ) (xs : List Text) → occurs x (take r xs) ≤ occurs x xs
unfolding occurs
occurs-take-le x zero xs = omega arith
occurs-take-le x (suc r) [] = omega arith
occurs-take-le x (suc r) (y ∷ ys) = omega (arith, occurs-take-le x r ys)

pub occurs-names :
    {F : Type 0} (x : Text) (ss : List (Share F))
    → occurs x (names ss) ≡ sum_over (λ s. if text_eq s.scenario x then 1 else 0) ss
unfolding occurs sum_over
occurs-names x [] = refl
occurs-names x (s ∷ ss) = ap (λ k. (if text_eq s.scenario x then 1 else 0) + k) (occurs-names x ss)
