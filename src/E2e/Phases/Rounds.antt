-- ===== src/E2e/Phases/Rounds.antt =====
-- The scenarios that `main` runs are rounds of the loop that the verdict is about.
use delayed_order_sms_flink.Base.{
  ℕ, suc, ◌≡◌, refl, ap, ap₂, ◌∙◌, true, false, List, [], ◌∷◌, map, length, Text, ℤ, ok,
  >>=-eq-ok as result-eq-ok, ok-injective, arith,
}
use delayed_order_sms_flink.E2e.{
  E2EResult, Outcome, failed, counted, scenario_result, run_scenarios, rounds, expected_str,
  all_passed,
}
use delayed_order_sms_flink.E2e.Host.{Host, >>=-eq-ok, lift}
use delayed_order_sms_flink.E2e.Phases.{outcome_of, run_in_turn}

run_scenarios-cons :
    (name : Text) (o : Outcome) (rest : List (Text × Outcome)) (p : ℤ) (round : E2EResult × ℤ)
    (results : List E2EResult) (last : ℤ)
    → scenario_result name o p ≡ ok round
    → run_scenarios rest round.1 ≡ ok (results, last)
    → run_scenarios ((name, o) ∷ rest) p ≡ ok (round.0 ∷ results, last)
unfolding run_scenarios
run_scenarios-cons name o rest p round results last h k = rw (h, k) refl

module _ ⦃H : Host⦄ where
  -- The scenarios run one after the other from this world on, with these outcomes.
  pub data Outcomes (n : ℤ) : List Text → H.World → List Outcome → Type 0 where
    none_left : {w : H.World} → Outcomes n [] w []
    one_more :
        {name : Text} {names : List Text} {w : H.World} {o : Outcome} {os : List Outcome}
        → (outcome_of n name w).result ≡ ok o
        → Outcomes n names (outcome_of n name w).world os
        → Outcomes n (name ∷ names) w (o ∷ os)

  run_in_turn-cons :
      (n : ℤ) (name : Text) (names : List Text) (p : ℤ) (w : H.World) {results : List E2EResult}
      → (run_in_turn n (name ∷ names) p w).result ≡ ok results
      → (outcome : Outcome) × (round : E2EResult × ℤ) × (rest : List E2EResult) × ((outcome_of n
            name w).result
          ≡ ok outcome)
        × (scenario_result name outcome p ≡ ok round)
        × ((run_in_turn n names round.1 (outcome_of n name w).world).result ≡ ok rest)
        × (round.0 ∷ rest ≡ results)
  unfolding run_in_turn
  run_in_turn-cons n name names p w h =
      let (outcome, ho, h1, _) = >>=-eq-ok (outcome_of n name) _ w h in
      let v = (outcome_of n name w).world in
      let (round, hr, h2, _) = >>=-eq-ok (lift (scenario_result name outcome p)) _ v h1 in
      let (rest, hs, h3, _) = >>=-eq-ok (run_in_turn n names round.1) _ v h2 in
      (outcome, round, rest, ho, hr, hs, ok-injective h3)

  -- What the phase returns is what the loop gives at the outcomes of the scenarios.
  pub run_in_turn-rounds :
      (n : ℤ) (names : List Text) (previous_total : ℤ) (w : H.World) {results : List E2EResult}
      → (run_in_turn n names previous_total w).result ≡ ok results
      → (outcomes : List Outcome) × (last : ℤ) × (length outcomes ≡ length names)
        × Outcomes n names w outcomes
        × (run_scenarios (rounds names outcomes) previous_total ≡ ok (results, last))
  unfolding rounds run_in_turn run_scenarios
  run_in_turn-rounds n [] previous_total w h =
      ([], previous_total, refl, none_left, ap (λ r. ok (r, previous_total)) (ok-injective h))
  run_in_turn-rounds n (name ∷ names) previous_total w h =
      let (o, round, rest, ho, hr, hs, same) = run_in_turn-cons n name names previous_total w h in
      let (outcomes, last, k, ran, e) =
        run_in_turn-rounds n names round.1 (outcome_of n name w).world hs in
      (
        o ∷ outcomes,
        last,
        ap suc k,
        one_more ho ran,
        run_scenarios-cons name o (rounds names outcomes) previous_total round rest last hr e
            ∙ ap (λ r. ok (r, last)) same,
      )

run_scenarios-cons_ok :
    (name : Text) (o : Outcome) (rest : List (Text × Outcome)) (p : ℤ) {results : List E2EResult}
    {last : ℤ}
    → run_scenarios ((name, o) ∷ rest) p ≡ ok (results, last)
    → (round : E2EResult × ℤ) × (rs : List E2EResult) × (scenario_result name o p ≡ ok round)
      × (run_scenarios rest round.1 ≡ ok (rs, last))
      × (round.0 ∷ rs ≡ results)
unfolding run_scenarios
run_scenarios-cons_ok name o rest p h =
    let (round, hr, h1) = result-eq-ok (scenario_result name o p) _ h in
    let ((rs, end), hs, h2) = result-eq-ok (run_scenarios rest round.1) _ h1 in
    let same = ok-injective h2 in
    (round, rs, hr, hs ∙ ap (λ l. ok (rs, l)) (ap (λ r. r.1) same), ap (λ r. r.0) same)

-- A round that passes has run.
passed-counted :
    (name : Text) (o : Outcome) (p : ℤ) (round : E2EResult × ℤ)
    → scenario_result name o p ≡ ok round
    → round.0.passed ≡ true
    → (n : ℕ) × (o ≡ counted n)
unfolding scenario_result
passed-counted name (counted n) p round h passed = (n, refl)
passed-counted name failed p round h passed =
    let (e, _, h') = result-eq-ok (expected_str name) _ h in
    let not_passed : false ≡ round.0.passed = ap (λ r. r.0.passed) (ok-injective h') in
    absurd (let same : false ≡ true = not_passed ∙ passed in cc)

all_passed-cons :
    (r : E2EResult) (rs : List E2EResult)
    → all_passed (r ∷ rs) ≡ true
    → (r.passed ≡ true) × (all_passed rs ≡ true)
unfolding all_passed
all_passed-cons r rs h = ground arith

pub all_passed-counted :
    (names : List Text) (outcomes : List Outcome) (p : ℤ) {results : List E2EResult} {last : ℤ}
    → length outcomes ≡ length names
    → run_scenarios (rounds names outcomes) p ≡ ok (results, last)
    → all_passed results ≡ true
    → (counts : List ℕ) × (outcomes ≡ map counted counts)
unfolding rounds
all_passed-counted names [] p k h passed = ([], refl)
all_passed-counted [] (o ∷ outcomes) p k h passed = absurd (omega (arith, k))
all_passed-counted (name ∷ names) (o ∷ outcomes) p {last = last} k h passed =
    let (round, rs, hr, hs, same) = run_scenarios-cons_ok name o (rounds names outcomes) p h in
    let (this, others) = all_passed-cons round.0 rs (ap all_passed same ∙ passed) in
    let (n, e) = passed-counted name o p round hr this in
    let (counts, es) =
      all_passed-counted names outcomes round.1 {last = last} (omega (arith, k)) hs others in
    (n ∷ counts, ap₂ (λ x xs. x ∷ xs) e es)
