-- ===== src/Tests/Orders.antt =====
-- The names and the scenarios of orders at concrete runs.
use delayed_order_sms_flink.Base.{
  occurs, ℕ, zero, suc, ◌+◌, ◌/◌, ◌<◌, ◌≡◌, refl, List, [], ◌∷◌, ◌++◌, map, remove_suffix,
  replicate, sum_over, Text, codes, text_eq, strip_prefix, ltb, ℤ, pos, negsuc, pos_part, neg_part,
  neg, ltb_ℤ, ◌-ℤ◌, ◌*ℤ◌, ◌+ℤ◌, Result, ok, err, value_error, zero_division_error, arith,
  if◌then◌else◌, inr, ◌%◌, ◌==◌, Bool, true, false, not, ◌&&◌, ap, ◌∙◌, pos-sub, ◌*◌,
}
use native.Mathlib.Nat.{div-add-mod}
use delayed_order_sms_flink.Json.Numbers.{Floats}
use delayed_order_sms_flink.Json.Dumps.{show_fuel, show}
use delayed_order_sms_flink.Runner.Names.{
  dash_runs, strip_front, strip_dashes, to_lower, normalize_name, zero_filled, create_order_context,
  create_order_contexts,
}
use delayed_order_sms_flink.Runner.Names.Unique.{index_of_id, index-create_order_contexts}
use delayed_order_sms_flink.Runner.Names.Slug.{slug_from, IsSlug}
use delayed_order_sms_flink.Runner.Names.Normal.{letters, normalize_name_lem}
use delayed_order_sms_flink.Runner.Assign.{
  distribute, shares, share, total_weight, get_count, set_count, slice_to, repeat, insert_share,
  sort_shares, sum_floors, add_ones, expand,
}
use delayed_order_sms_flink.Runner.Assign.Quota.{DividesExactly, weights, total, pos-mul}
use delayed_order_sms_flink.Runner.Assign.Fair.{IsFair, distribute-IsFair}

id_test :
    (create_order_context (codes "ord") 7 (codes "Delayed  orders.json") 0).order_id
    ≡ codes "ord-delayed-orders-0007"
unfolding create_order_context normalize_name dash_runs strip_dashes strip_front zero_filled show
    show_fuel remove_suffix strip_prefix
id_test = refl

normalize_name_lem_example :
    IsSlug (normalize_name (codes "_Late orders.json"))
    × (letters (normalize_name (codes "_Late orders.json"))
        ≡ map to_lower (letters (remove_suffix (codes ".json") (codes "_Late orders.json"))))
    × (normalize_name (codes "late-orders") ≡ codes "late-orders")
unfolding slug_from
normalize_name_lem_example =
    normalize_name_lem (codes "_Late orders.json") (codes "late-orders") (inr refl)

index-create_order_contexts_example :
    map
      (λ c. index_of_id c.order_id)
      (create_order_contexts (codes "ord") (codes "a") (pos 2) (λ i. i))
    ≡ 1 ∷ 2 ∷ []
index-create_order_contexts_example =
    index-create_order_contexts (codes "ord") (codes "a") (pos 2) (λ i. i)

-- Exact quotients in the place of floats: a numerator and a denominator.
pub divide : ℤ → ℤ → Result (ℤ × ℕ)
divide a (pos zero) = err zero_division_error
divide a (pos (suc n)) = ok (a, suc n)
divide a (negsuc n) = ok (neg a, suc n)

-- Rounded to zero.
unfoldable pub truncate : ℤ × ℕ → ℤ
truncate (pos a, d) = pos (a / d)
truncate (negsuc a, d) = neg (pos (suc a / d))

abbrev pub quotients : Floats
quotients = record {
  Float = ℤ × ℕ;
  of_text = λ s. if text_eq s (codes "1.0") then ok (pos 1, 1) else err value_error;
  is_true = λ (a, d). ltb 0 (pos_part a + neg_part a);
  to_int = λ x. ok (truncate x);
  scale = λ n (a, d). ok (n *ℤ a, d);
  divide = divide;
  minus_int = λ (a, d) n. ok (a -ℤ (n *ℤ pos d), d);
  lt = λ (a, d) (b, e). ltb_ℤ (a *ℤ pos e) (b *ℤ pos d);
  repr = λ x. [];
}

-- Which quotients are 0, and which are positive. The denominators are positive.
abbrev is_zero : ℤ × ℕ → Bool
is_zero (pos a, d) = (a == 0) && ltb 0 d
is_zero (negsuc a, d) = false

abbrev is_positive : ℤ × ℕ → Bool
is_positive (pos a, d) = not (a == 0) && ltb 0 d
is_positive (negsuc a, d) = false

lt_positive : (f g : ℤ × ℕ) → is_zero f ≡ true → is_positive g ≡ true → quotients.lt f g ≡ true
unfolding ◌*ℤ◌
lt_positive (pos zero, suc d) (pos (suc b), suc e) h k =
    rw (pos-mul 0 (suc e), pos-mul (suc b) (suc d)) (grind arith)
lt_positive (pos zero, zero) g h k = ground arith
lt_positive (pos (suc a), d) g h k = ground arith
lt_positive (negsuc a, d) g h k = ground arith
lt_positive (pos zero, suc d) (pos zero, e) h k = ground arith
lt_positive (pos zero, suc d) (negsuc b, e) h k = ground arith
lt_positive (pos zero, suc d) (pos (suc b), zero) h k = ground arith

lt_zero : (f g : ℤ × ℕ) → is_zero f ≡ true → is_positive g ≡ true → quotients.lt g f ≡ false
unfolding ◌*ℤ◌
lt_zero (pos zero, suc d) (pos (suc b), suc e) h k =
    rw (pos-mul 0 (suc e), pos-mul (suc b) (suc d)) (grind arith)
lt_zero (pos zero, zero) g h k = ground arith
lt_zero (pos (suc a), d) g h k = ground arith
lt_zero (negsuc a, d) g h k = ground arith
lt_zero (pos zero, suc d) (pos zero, e) h k = ground arith
lt_zero (pos zero, suc d) (negsuc b, e) h k = ground arith
lt_zero (pos zero, suc d) (pos (suc b), zero) h k = ground arith

rest-eq : (a b : ℕ) → pos a -ℤ (pos (a / suc b) *ℤ pos (suc b)) ≡ pos (a % suc b)
rest-eq a b =
    ap (λ z. pos a -ℤ z) (pos-mul (a / suc b) (suc b))
    ∙ (pos-sub a (a / suc b * suc b) (omega (arith, div-add-mod a (suc b)))
        ∙ ap pos (omega (arith, div-add-mod a (suc b))))

quotient-exact :
    (a b : ℕ)
    → 0 < b
    → (x : ℤ × ℕ) × (f : ℤ × ℕ) × (divide (pos a) (pos b) ≡ ok x)
      × (ok (truncate x) ≡ ok (pos (a / b)))
      × (quotients.minus_int x (pos (a / b)) ≡ ok f)
      × (is_zero f ≡ (a % b == 0))
      × (is_positive f ≡ not (a % b == 0))
unfolding divide truncate
quotient-exact a zero h = absurd (omega arith)
quotient-exact a (suc b) h = (
  (pos a, suc b),
  (pos (a % suc b), suc b),
  refl,
  refl,
  ap (λ z. ok (z, suc b)) (rest-eq a b),
  ground arith,
  ground arith,
)

quotients-DividesExactly : DividesExactly quotients
quotients-DividesExactly = record {
  is_zero = is_zero;
  is_positive = is_positive;
  lt_positive = lt_positive;
  lt_zero = lt_zero;
  quotient = λ a b h _. quotient-exact a b h;
}

abbrev thirds : List (Text × ℕ)
thirds =
    (codes "on-time-orders", 35)
    ∷ (codes "delayed-orders", 25)
    ∷ (codes "cancelled-orders", 15)
    ∷ []

distribute_test :
    distribute quotients (pos 10) (weights thirds)
    ≡ ok (
        replicate 5 (codes "on-time-orders")
        ++ (replicate 3 (codes "delayed-orders") ++ replicate 2 (codes "cancelled-orders")))
unfolding distribute shares share total_weight get_count set_count slice_to repeat insert_share
    sort_shares sum_floors add_ones expand divide truncate text_eq ◌+ℤ◌ ◌-ℤ◌ ◌*ℤ◌
distribute_test = refl

distribute-IsFair_example :
    (xs : List Text) × (distribute quotients (pos 10) (weights thirds) ≡ ok xs)
    × IsFair 10 thirds xs
unfolding total sum_over occurs text_eq
distribute-IsFair_example =
    distribute-IsFair quotients 10 thirds quotients-DividesExactly (omega arith)
      (refl, (refl, (refl, tt))) (omega arith, (omega arith, (omega arith, tt)))
