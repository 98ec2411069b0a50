-- ===== src/Runner/Assign/Included.antt =====
-- Every scenario that is assigned is one of the included scenarios.
use delayed_order_sms_flink.Base.{
  ℕ, zero, suc, ◌≡◌, refl, subst, Bool, true, false, ◌&&◌, List, [], ◌∷◌, ◌++◌, map, length,
  replicate, All, All-of_map, Text, codes, if◌then◌else◌, ℤ, pos, negsuc, ltb_ℤ, ◌-ℤ◌, ok, ◌>>=◌,
  >>=-eq-ok, ok-injective, Bool-cases, inl, inr, arith, text_eq_refl,
}
use delayed_order_sms_flink.Json.{
  Json, Fields, null, bool, int, float, str, arr, obj, end, get_or, is_true,
}
use delayed_order_sms_flink.Json.Numbers.{Floats}
use delayed_order_sms_flink.Number.{int_of}
use delayed_order_sms_flink.Runner.Assign.{
  Random, elem, pick, choices, random_assignments, distribution_mapping, Share, Counts, get_count,
  slice_to, repeat, weighted_scenarios, total_weight, shares, sort_shares, sum_floors, add_ones,
  expand, distribute, assign_weighted, assign_distribution, assign_scenarios,
}
use delayed_order_sms_flink.Runner.Assign.Tally.{names, names-shares}
use delayed_order_sms_flink.Runner.Assign.Sort.{All-sort_shares}

-- The scenarios are all included.
abbrev pub AllIncluded : List Text → List Text → Type 0
AllIncluded included = All (λ x. elem x included ≡ true)

module _ (included : List Text) where
  AllIncluded-append :
      (xs ys : List Text)
      → AllIncluded included xs
      → AllIncluded included ys
      → AllIncluded included (xs ++ ys)
  AllIncluded-append [] ys hx hy = hy
  AllIncluded-append (x ∷ xs) ys (h, hx) hy = (h, AllIncluded-append xs ys hx hy)

  AllIncluded-replicate :
      (n : ℕ) (x : Text) → elem x included ≡ true → AllIncluded included (replicate n x)
  AllIncluded-replicate zero x h = tt
  AllIncluded-replicate (suc n) x h = (h, AllIncluded-replicate n x h)

  AllIncluded-repeat :
      (n : ℤ) (x : Text) → elem x included ≡ true → AllIncluded included (repeat n x)
  unfolding repeat
  AllIncluded-repeat (pos n) x h = AllIncluded-replicate n x h
  AllIncluded-repeat (negsuc n) x h = tt

  AllIncluded-kept :
      (b : Bool) (w : Text × ℤ) (ws : List (Text × ℤ))
      → (b ≡ true → elem w.0 included ≡ true)
      → AllIncluded included (map (λ w. w.0) ws)
      → AllIncluded included (map (λ w. w.0) (if b then w ∷ ws else ws))
  AllIncluded-kept true w ws h hs = (h refl, hs)
  AllIncluded-kept false w ws h hs = hs

and_right : (a b : Bool) → (a && b) ≡ true → b ≡ true
and_right true b h = h
and_right false b h = cc

module _ (rng : Random) where
  elem-pick : (i : ℕ) (xs : List Text) {x : Text} → pick rng i xs ≡ ok x → elem x xs ≡ true
  unfolding pick elem
  elem-pick i [] h = cc
  elem-pick zero (y ∷ ys) h = ground (arith, text_eq_refl y)
  elem-pick (suc i) (y ∷ ys) h = ground (arith, elem-pick i ys h)

  AllIncluded-choices :
      (included : List Text) (n : ℕ) (s : rng.State) {r : List Text × rng.State}
      → choices rng included n s ≡ ok r
      → AllIncluded included r.0
  unfolding choices
  AllIncluded-choices included zero s h = subst (λ r. AllIncluded included r.0) (ok-injective h) tt
  AllIncluded-choices included (suc n) s h =
      let (i, s') = rng.below s (length included) in
      let (x, hx, h') = >>=-eq-ok (pick rng i included) _ h in
      let ((xs, s''), hxs, h'') = >>=-eq-ok (choices rng included n s') _ h' in
      subst (λ r. AllIncluded included r.0) (ok-injective h'')
        (elem-pick i included hx, AllIncluded-choices included n s' hxs)

  AllIncluded-random_assignments :
      (included : List Text) (n : ℤ) (s : rng.State) {r : List Text × rng.State}
      → random_assignments rng included n s ≡ ok r
      → AllIncluded included r.0
  unfolding random_assignments
  AllIncluded-random_assignments included (pos n) s h = AllIncluded-choices included n s h
  AllIncluded-random_assignments included (negsuc n) s h =
      subst (λ r. AllIncluded included r.0) (ok-injective h) tt

module _ (fl : Floats) (included : List Text) where
  -- The weighted scenarios are included.
  AllIncluded-weighted_scenarios :
      (mapping : List (Text × Text)) (distribution : Fields fl.Float) {ws : List (Text × ℤ)}
      → weighted_scenarios fl mapping distribution included ≡ ok ws
      → AllIncluded included (map (λ w. w.0) ws)
  unfolding weighted_scenarios
  AllIncluded-weighted_scenarios [] distribution h =
      subst (λ ws. AllIncluded included (map (λ w. w.0) ws)) (ok-injective h) tt
  AllIncluded-weighted_scenarios ((key, scenario) ∷ mapping) distribution h =
      let (weight, hw, h') = >>=-eq-ok (int_of fl (get_or key (int (pos 0)) distribution)) _ h in
      let (rest, hr, h'') = >>=-eq-ok (weighted_scenarios fl mapping distribution included) _ h' in
      let held = AllIncluded-weighted_scenarios mapping distribution hr in
      subst (λ ws. AllIncluded included (map (λ w. w.0) ws)) (ok-injective h'')
        (AllIncluded-kept included (ltb_ℤ (pos 0) weight && elem scenario included)
          (scenario, weight) rest (and_right (ltb_ℤ (pos 0) weight) (elem scenario included)) held)

  AllIncluded-expand :
      (ss : List (Share fl.Float)) (counts : Counts) {xs : List Text}
      → All (λ s. elem s.scenario included ≡ true) ss
      → expand fl ss counts ≡ ok xs
      → AllIncluded included xs
  unfolding expand
  AllIncluded-expand [] counts hs h = subst (AllIncluded included) (ok-injective h) tt
  AllIncluded-expand (s ∷ ss) counts (hs, hss) h =
      let (n, hn, h') = >>=-eq-ok (get_count s.scenario counts) _ h in
      let (rest, hr, h'') = >>=-eq-ok (expand fl ss counts) _ h' in
      subst (AllIncluded included) (ok-injective h'') (
        AllIncluded-append included (repeat n s.scenario) rest
          (AllIncluded-repeat included n s.scenario hs) (AllIncluded-expand ss counts hss hr))

  AllIncluded-distribute :
      (n : ℤ) (ws : List (Text × ℤ)) {xs : List Text}
      → AllIncluded included (map (λ w. w.0) ws)
      → distribute fl n ws ≡ ok xs
      → AllIncluded included xs
  unfolding distribute
  AllIncluded-distribute n ws hw h =
      let ((ss, counts), made, h') = >>=-eq-ok (shares fl n (total_weight fl ws) ws []) _ h in
      let (counts', _, h'') =
        >>=-eq-ok (add_ones fl (slice_to (n -ℤ sum_floors fl ss) (sort_shares fl ss)) counts) _
          h' in
      let held : AllIncluded included (names ss) =
        rw (names-shares fl n (total_weight fl ws) ws [] made) hw in
      AllIncluded-expand (sort_shares fl ss) counts'
        (All-sort_shares fl _ ss
          (All-of_map (λ x. elem x included ≡ true) (λ s. s.scenario) ss held))
        h''

module _ (fl : Floats) (rng : Random) where
  AllIncluded-assign_weighted :
      (ws : List (Text × ℤ)) (included : List Text) (n : ℤ) (s : rng.State)
      {r : List Text × rng.State}
      → AllIncluded included (map (λ w. w.0) ws)
      → assign_weighted fl rng ws included n s ≡ ok r
      → AllIncluded included r.0
  unfolding assign_weighted
  AllIncluded-assign_weighted [] included n s hw h =
      AllIncluded-random_assignments rng included n s h
  AllIncluded-assign_weighted (w ∷ ws) included n s hw h =
      elim (Bool-cases (ltb_ℤ (pos 0) (total_weight fl (w ∷ ws)))) [
        | inl e ↦
            let h' : (distribute fl n (w ∷ ws) >>= λ xs. ok (xs, s)) ≡ ok _ = rw e at h in
            let (xs, hx, h'') = >>=-eq-ok (distribute fl n (w ∷ ws)) (λ xs. ok (xs, s)) h' in
            subst (λ r. AllIncluded included r.0) (ok-injective h'')
              (AllIncluded-distribute fl included n (w ∷ ws) hw hx)
        | inr e ↦ AllIncluded-random_assignments rng included n s (rw e at h)
      ]

  AllIncluded-assign_distribution :
      (distribution : Json fl.Float) (included : List Text) (n : ℤ) (s : rng.State)
      {r : List Text × rng.State}
      → assign_distribution fl rng distribution included n s ≡ ok r
      → AllIncluded included r.0
  unfolding assign_distribution
  AllIncluded-assign_distribution (obj distribution) included n s h =
      let (ws, hw, h') =
        >>=-eq-ok (weighted_scenarios fl distribution_mapping distribution included) _ h in
      AllIncluded-assign_weighted ws included n s
        (AllIncluded-weighted_scenarios fl included distribution_mapping distribution hw) h'
  AllIncluded-assign_distribution null included n s h = cc
  AllIncluded-assign_distribution (bool b) included n s h = cc
  AllIncluded-assign_distribution (int k) included n s h = cc
  AllIncluded-assign_distribution (float x) included n s h = cc
  AllIncluded-assign_distribution (str t) included n s h = cc
  AllIncluded-assign_distribution (arr xs) included n s h = cc

  -- Whatever the distribution and the draws are, every scenario that `_assign_scenarios` returns is
  -- one of the included scenarios.
  pub assign_scenarios-AllIncluded :
      (mixed : Fields fl.Float) (included : List Text) (n : ℤ) (s : rng.State)
      {r : List Text × rng.State}
      → assign_scenarios fl rng mixed included n s ≡ ok r
      → AllIncluded included r.0
  unfolding assign_scenarios
  assign_scenarios-AllIncluded mixed included n s h =
      let distribution = get_or (codes "distribution") (obj end) mixed in
      elim (Bool-cases (is_true fl.is_true distribution)) [
        | inl e ↦ AllIncluded-assign_distribution distribution included n s (rw e at h)
        | inr e ↦ AllIncluded-random_assignments rng included n s (rw e at h)
      ]
