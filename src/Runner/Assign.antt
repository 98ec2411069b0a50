-- ===== src/Runner/Assign.antt =====
-- `_assign_scenarios` of runner.py: how many orders each scenario of a mixed run gets.
pub mod Tally
pub mod Sort
pub mod Distinct
pub mod Quota
pub mod Rest
pub mod Total
pub mod Fair
pub mod Included
use delayed_order_sms_flink.Base.{
  ℕ, zero, suc, ◌-◌, Bool, true, false, ◌&&◌, List, [], ◌∷◌, ◌++◌, take, length, replicate, Text,
  codes, text_eq, if◌then◌else◌, ℤ, pos, negsuc, ◌+ℤ◌, ◌-ℤ◌, ◌*ℤ◌, ltb_ℤ, Result, ok, err, ◌>>=◌,
  key_error, index_error, attribute_error,
}
use delayed_order_sms_flink.Json.{
  Json, Fields, null, bool, int, float, str, arr, obj, end, field, get, get_or, is_true,
}
use delayed_order_sms_flink.Json.Numbers.{Floats}
use delayed_order_sms_flink.Number.{int_of}

-- `random.Random`: a state, and a draw of a number below a bound.
pub record Random : Type 1 where
  pub State : Type 0
  pub below : State → ℕ → ℕ × State

unfoldable pub elem : Text → List Text → Bool
elem x [] = false
elem x (y ∷ ys) = let rest = elem x ys in if text_eq x y then true else rest

module _ (rng : Random) where
  unfoldable pub pick : ℕ → List Text → Result Text
  pick i [] = err index_error
  pick zero (x ∷ xs) = ok x
  pick (suc i) (x ∷ xs) = pick i xs

  -- `[random.choice(scenarios) for _ in range(n)]`, with the generator's state behind it
  unfoldable pub choices : List Text → ℕ → rng.State → Result (List Text × rng.State)
  choices scenarios zero s = ok ([], s)
  choices scenarios (suc n) s = do
    let (i, s') = rng.below s (length scenarios)
    x ← pick i scenarios
    (xs, s'') ← choices scenarios n s'
    ok (x ∷ xs, s'')

  unfoldable pub random_assignments : List Text → ℤ → rng.State → Result (List Text × rng.State)
  random_assignments scenarios (pos n) s = choices scenarios n s
  random_assignments scenarios (negsuc n) s = ok ([], s)

-- `distribution_mapping`
abbrev pub distribution_mapping : List (Text × Text)
distribution_mapping =
    (codes "onTimePercentage", codes "on-time-orders")
    ∷ (codes "delayedPercentage", codes "delayed-orders")
    ∷ (codes "cancelledPercentage", codes "cancelled-orders")
    ∷ (codes "etaUpdatedPercentage", codes "eta-updated-orders")
    ∷ (codes "duplicatePercentage", codes "duplicate-events")
    ∷ (codes "outOfOrderPercentage", codes "out-of-order-updates")
    ∷ []

-- An entry of `fractional_counts`.
pub record Share (F : Type 0) : Type 0 where
  pub scenario : Text
  pub floor_count : ℤ
  pub fraction : F

-- `assigned_counts`, in insertion order
abbrev pub Counts : Type 0
Counts = List (Text × ℤ)

unfoldable pub get_count : Text → Counts → Result ℤ
get_count x [] = err key_error
get_count x ((y, n) ∷ counts) = if text_eq y x then ok n else get_count x counts

unfoldable pub set_count : Text → ℤ → Counts → Counts
set_count x n [] = (x, n) ∷ []
set_count x n ((y, m) ∷ counts) =
    if text_eq y x then (y, n) ∷ counts else (y, m) ∷ set_count x n counts

-- `fractional_counts[:n]`: a negative bound counts from the end.
unfoldable pub slice_to {ℓ} : {A : Type ℓ} → ℤ → List A → List A
slice_to (pos n) xs = take n xs
slice_to (negsuc n) xs = take (length xs - suc n) xs

-- `[x] * n`
unfoldable pub repeat : ℤ → Text → List Text
repeat (pos n) x = replicate n x
repeat (negsuc n) x = []

module _ (fl : Floats) where
  -- `weighted_scenarios`: the entries of the mapping with a positive weight and an included scenario
  unfoldable pub weighted_scenarios :
      List (Text × Text) → Fields fl.Float → List Text → Result (List (Text × ℤ))
  weighted_scenarios [] distribution included = ok []
  weighted_scenarios ((key, scenario) ∷ mapping) distribution included = do
    weight ← int_of fl (get_or key (int (pos 0)) distribution)
    rest ← weighted_scenarios mapping distribution included
    ok (if ltb_ℤ (pos 0) weight && elem scenario included then (scenario, weight) ∷ rest else rest)

  unfoldable pub total_weight : List (Text × ℤ) → ℤ
  total_weight [] = pos 0
  total_weight ((_, weight) ∷ rest) = weight +ℤ total_weight rest

  unfoldable pub share : ℤ → ℤ → Text × ℤ → Result (Share fl.Float)
  share orders_count total (scenario, weight) = do
    exact ← fl.divide (orders_count *ℤ weight) total
    floor_count ← fl.to_int exact
    fraction ← fl.minus_int exact floor_count
    ok (record { scenario = scenario; floor_count = floor_count; fraction = fraction })

  -- The loop that fills `fractional_counts` and `assigned_counts`.
  unfoldable pub shares : ℤ → ℤ → List (Text × ℤ) → Counts → Result (List (Share fl.Float) × Counts)
  shares orders_count total [] counts = ok ([], counts)
  shares orders_count total (w ∷ weighted) counts = do
    s ← share orders_count total w
    (rest, counts') ← shares orders_count total weighted (set_count s.scenario s.floor_count counts)
    ok (s ∷ rest, counts')

  -- `sort(key=…, reverse=True)` is stable: equal fractions keep their order.
  unfoldable pub insert_share : Share fl.Float → List (Share fl.Float) → List (Share fl.Float)
  insert_share s [] = s ∷ []
  insert_share s (t ∷ ts) =
      if fl.lt s.fraction t.fraction then t ∷ insert_share s ts else s ∷ t ∷ ts

  unfoldable pub sort_shares : List (Share fl.Float) → List (Share fl.Float)
  sort_shares [] = []
  sort_shares (s ∷ ss) = insert_share s (sort_shares ss)

  unfoldable pub sum_floors : List (Share fl.Float) → ℤ
  sum_floors [] = pos 0
  sum_floors (s ∷ ss) = s.floor_count +ℤ sum_floors ss

  -- One more for each of the given scenarios.
  unfoldable pub add_ones : List (Share fl.Float) → Counts → Result Counts
  add_ones [] counts = ok counts
  add_ones (s ∷ ss) counts = do
    n ← get_count s.scenario counts
    add_ones ss (set_count s.scenario (n +ℤ pos 1) counts)

  unfoldable pub expand : List (Share fl.Float) → Counts → Result (List Text)
  expand [] counts = ok []
  expand (s ∷ ss) counts = do
    n ← get_count s.scenario counts
    rest ← expand ss counts
    ok (repeat n s.scenario ++ rest)

  -- From `fractional_counts: list…` to the end.
  unfoldable pub distribute : ℤ → List (Text × ℤ) → Result (List Text)
  distribute orders_count weighted = do
    (ss, counts) ← shares orders_count (total_weight weighted) weighted []
    let remaining = orders_count -ℤ sum_floors ss
    let sorted = sort_shares ss
    counts' ← add_ones (slice_to remaining sorted) counts
    expand sorted counts'

module _ (fl : Floats) (rng : Random) where
  assign_weighted : List (Text × ℤ) → List Text → ℤ → rng.State → Result (List Text × rng.State)
  assign_weighted [] included orders_count s = random_assignments rng included orders_count s
  assign_weighted (w ∷ ws) included orders_count s =
      if ltb_ℤ (pos 0) (total_weight fl (w ∷ ws))
      then (do xs ← distribute fl orders_count (w ∷ ws); ok (xs, s))
      else random_assignments rng included orders_count s

  assign_distribution : Json fl.Float → List Text → ℤ → rng.State → Result (List Text × rng.State)
  unfolding assign_weighted
  assign_distribution (obj distribution) included orders_count s = do
    weighted ← weighted_scenarios fl distribution_mapping distribution included
    assign_weighted weighted included orders_count s
  assign_distribution _ included orders_count s = err attribute_error

  -- `_assign_scenarios` at a mixed scenario's document
  unfoldable pub assign_scenarios :
      Fields fl.Float → List Text → ℤ → rng.State → Result (List Text × rng.State)
  unfolding assign_distribution
  assign_scenarios mixed included orders_count s =
      let distribution = get_or (codes "distribution") (obj end) mixed in
      if is_true fl.is_true distribution
      then assign_distribution distribution included orders_count s
      else random_assignments rng included orders_count s
