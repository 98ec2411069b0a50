-- ===== src/Runner/Assign/Fair.antt =====
-- Every order of a distribution has a scenario, and every scenario has its quota.
use delayed_order_sms_flink.Base.{
  Bool, not, Bool-cases, inl, inr, occurs, Distinct, ℕ, ◌+◌, ◌-◌, ◌*◌, ◌^◌, ◌≤◌, ◌<◌, ◌≡◌, refl,
  sym, ◌∙◌, ap, subst, List, [], ◌∷◌, map, take, length, length-map, length-take, sum_over,
  sum_over-map, All, All-take, All-map, All-of_map, All-to_map, Text, ℤ, pos, pos_part, neg_part,
  pos-sub, ok, ◌>>=◌, arith,
}
use delayed_order_sms_flink.Json.Numbers.{Floats}
use delayed_order_sms_flink.Runner.Assign.{
  Share, Counts, get_count, shares, slice_to, sort_shares, sum_floors, add_ones, expand, distribute,
  total_weight,
}
use delayed_order_sms_flink.Runner.Assign.Tally.{names, add_ones-ok, HoldsFloors-shares}
use delayed_order_sms_flink.Runner.Assign.Quota.{
  up, ups, is_whole, whole_part, DividesExactly, weights, total, quota, view, want, shares-ok,
  floors, left_over, total_weight-weights, total_weight-want, sum_floors-view,
}
use delayed_order_sms_flink.Runner.Assign.Sort.{
  sum_over-sort_shares, All-sort_shares, All-of_sort_shares,
}
use delayed_order_sms_flink.Runner.Assign.Rest.{IsRest, up_of, PositiveFirst-sort_shares, few}
use delayed_order_sms_flink.Runner.Assign.Distinct.{Distinct-once, occurs-names}
use delayed_order_sms_flink.Runner.Assign.Total.{result, expanded-ok, length-result, in_quotas}

-- Every order has a scenario, and the orders of each scenario are its exact share of them, rounded
-- down or up, and so just the share where it is whole.
abbrev pub IsFair : ℕ → List (Text × ℕ) → List Text → Type 0
IsFair n ws xs =
    (length xs ≡ n)
    × All
        (λ (x, w).
          (quota n (total ws) w ≤ occurs x xs)
          × (occurs x xs ≤ quota n (total ws) w + up (is_whole n (total ws) w)))
        ws

-- The shares and the counts that the first loop leaves.
module _ (fl : Floats) (exact : DividesExactly fl) (n t : ℕ) (ws : List (Text × ℕ))
    (ss : List (Share fl.Float)) (counts : Counts)
    (made : shares fl (pos n) (pos t) (weights ws) [] ≡ ok (ss, counts))
    (views : map (view fl exact) ss ≡ map (want n t) ws)
    (distinct : Distinct (map (λ (x, w). x) ws)) where
  abbrev L : List (Share fl.Float)
  L = sort_shares fl ss

  fst-view : (ss : List (Share fl.Float)) → map (λ v. v.0) (map (view fl exact) ss) ≡ names ss
  fst-view [] = refl
  fst-view (s ∷ ss) = ap (λ r. s.scenario ∷ r) (fst-view ss)

  fst-want : (ws : List (Text × ℕ)) → map (λ v. v.0) (map (want n t) ws) ≡ map (λ (x, w). x) ws
  fst-want [] = refl
  fst-want (w ∷ ws) = ap (λ r. w.0 ∷ r) (fst-want ws)

  names-ss : names ss ≡ map (λ (x, w). x) ws
  names-ss = sym (fst-view ss) ∙ (ap (map (λ v. v.0)) views ∙ fst-want ws)

  Distinct-names : Distinct (names ss)
  Distinct-names = rw names-ss distinct

  held : All (λ s. get_count s.scenario counts ≡ ok s.floor_count) L
  held =
      All-sort_shares fl _ ss
        (HoldsFloors-shares fl (pos n) (pos t) (weights ws) [] made Distinct-names)

  whole-want : (ws : List (Text × ℕ)) → All (λ v. neg_part v.1 ≡ 0) (map (want n t) ws)
  whole-want [] = tt
  whole-want (w ∷ ws) = (refl, whole-want ws)

  whole : All (λ s. neg_part s.floor_count ≡ 0) L
  whole =
      All-sort_shares fl _ ss
        (All-of_map (λ v. neg_part v.1 ≡ 0) (view fl exact) ss (rw views (whole-want ws)))

  occurs-L : (x : Text) → occurs x (names L) ≡ occurs x (names ss)
  occurs-L x = occurs-names x L ∙ (sum_over-sort_shares fl _ ss ∙ sym (occurs-names x ss))

  once : All (λ s. occurs s.scenario (names L) ≡ 1) L
  once = All-sort_shares fl _ ss (
      All-map _ _ (λ s h. occurs-L s.scenario ∙ h) ss
        (All-of_map (λ x. occurs x (names ss) ≡ 1) _ ss (Distinct-once (names ss) Distinct-names)))

  sum-want :
      (ws : List (Text × ℕ)) → sum_over (λ v. pos_part v.1) (map (want n t) ws) ≡ floors n t ws
  unfolding sum_over floors
  sum-want [] = refl
  sum-want (w ∷ ws) = ap (λ k. quota n t w.1 + k) (sum-want ws)

  sum-L : sum_over (λ s. pos_part s.floor_count) L ≡ floors n t ws
  sum-L =
      sum_over-sort_shares fl _ ss
      ∙ (sym (sum_over-map (λ v. pos_part v.1) (view fl exact) ss)
          ∙ (ap (sum_over (λ v. pos_part v.1)) views ∙ sum-want ws))

  floors-ss : sum_floors fl ss ≡ pos (floors n t ws)
  floors-ss =
      sum_floors-view fl exact ss
      ∙ (ap (λ vs. total_weight fl (map whole_part vs)) views ∙ total_weight-want fl n t ws)

  length-ones : {A : Type 0} (xs : List A) → length xs ≡ sum_over (λ _. 1) xs
  unfolding sum_over
  length-ones [] = refl
  length-ones (x ∷ xs) = omega (arith, length-ones xs)

  length-L : length (names L) ≡ length ws
  length-L =
      length-map _ L
      ∙ (length-ones L
          ∙ (sum_over-sort_shares fl _ ss
              ∙ (sym (length-ones ss)
                  ∙ (sym (length-map _ ss) ∙ (ap length names-ss ∙ length-map _ ws)))))

  rest-want : (ws : List (Text × ℕ)) → All (λ v. v.3 ≡ not v.2) (map (want n t) ws)
  rest-want [] = tt
  rest-want (w ∷ ws) = (refl, rest-want ws)

  rests : All (IsRest fl exact) ss
  rests = All-of_map (λ v. v.3 ≡ not v.2) (view fl exact) ss (rw views (rest-want ws))

  ups-want : (ws : List (Text × ℕ)) → sum_over (λ v. up v.2) (map (want n t) ws) ≡ ups n t ws
  unfolding sum_over ups
  ups-want [] = refl
  ups-want (w ∷ ws) = ap (λ k. up (is_whole n t w.1) + k) (ups-want ws)

  ups-L : sum_over (up_of fl exact) L ≡ ups n t ws
  ups-L =
      sum_over-sort_shares fl _ ss
      ∙ (sym (sum_over-map (λ v. up v.2) (view fl exact) ss)
          ∙ (ap (sum_over (λ v. up v.2)) views ∙ ups-want ws))

  -- The quota of a name, from a list of names with their rounded shares.
  abbrev InQuota : List Text → Text × ℤ × Bool × Bool → Type 0
  InQuota xs (x, k, zero, _) = (pos_part k ≤ occurs x xs) × (occurs x xs ≤ pos_part k + up zero)

  ups-le : (ws : List (Text × ℕ)) → ups n t ws ≤ length ws
  unfolding ups sum_over
  ups-le [] = omega arith
  ups-le (w ∷ ws) = elim (Bool-cases (is_whole n t w.1)) [
    | inl e ↦ rw e (omega (arith, ups-le ws))
    | inr e ↦ rw e (omega (arith, ups-le ws))
  ]

  -- What is left over is given to as many scenarios, and all is listed.
  finish :
      (left : ℕ)
      → left ≤ ups n t ws
      → floors n t ws + left ≡ n
      → (xs : List Text) × ((add_ones fl (take left L) counts >>= λ c. expand fl L c) ≡ ok xs)
        × (length xs ≡ n)
        × All (InQuota xs) (map (want n t) ws)
  finish left enough sum =
      let (counts', added) =
        add_ones-ok fl (take left L) counts
          (All-take _ left L (All-map _ _ (λ s h. (s.floor_count, h)) L held)) in
      let few_ones =
        few fl exact left L (PositiveFirst-sort_shares fl exact ss rests)
          (omega (arith, enough, ups-L)) once in
      let up_by = up_of fl exact in
      let xs = result fl L left counts counts' held whole once added up_by few_ones in
      (
        xs,
        rw added (expanded-ok fl L left counts counts' held whole once added up_by few_ones),
        length-result fl L left counts counts' held whole once added up_by few_ones
            ∙ omega (arith, sum-L, length-take left (names L), length-L, ups-le ws, enough),
        subst (All (InQuota xs)) views (
            All-to_map (InQuota xs) (view fl exact) ss (
              All-of_sort_shares fl _ ss
                (in_quotas fl L left counts counts' held whole once added up_by few_ones))),
      )

-- `_assign_scenarios` by weights gives each of the orders a scenario, and each scenario its exact
-- share of them, rounded down or up, and so the share itself where it is whole. No weight is
-- negative, they are positive in sum, no scenario stands twice among them, and the numbers stay
-- below 2 ^ 53, up to which the division of two ints is exact enough for its result to be rounded
-- down by `int`.
pub distribute-IsFair :
    (fl : Floats) (n : ℕ) (ws : List (Text × ℕ))
    → DividesExactly fl
    → 0 < total ws
    → Distinct (map (λ (x, w). x) ws)
    → All (λ (x, w). n * w + total ws ≤ 2 ^ 53) ws
    → (xs : List Text) × (distribute fl (pos n) (weights ws) ≡ ok xs) × IsFair n ws xs
unfolding distribute slice_to
distribute-IsFair fl n ws exact pos_t distinct small =
    let t = total ws in
    let ((ss, counts), made, views) = shares-ok fl exact n t pos_t ws [] small in
    let (low, high) = left_over n ws pos_t in
    let left = n - floors n t ws in
    let (xs, done, count, quotas) =
      finish fl exact n t ws ss counts made views distinct left (omega arith) (omega arith) in
    (
      xs,
      rw
          (
            total_weight-weights fl ws,
            made,
            floors-ss fl exact n t ws ss counts made views distinct,
            pos-sub n (floors n t ws) low,
          )
          done,
      (count, All-of_map _ (want n t) ws quotas),
    )
