-- ===== src/E2e/Verdict.antt =====
-- What the end-to-end tests accept.
use delayed_order_sms_flink.Base.{
  ℕ, ◌+◌, ◌≤◌, ◌≡◌, ◌↔◌, refl, ap, sym, subst, ◌∙◌, Bool, true, false, ◌&&◌, not, List, [], ◌∷◌,
  Text, text_eq, if◌then◌else◌, ℤ, pos, ◌+ℤ◌, ◌-ℤ◌, int_laws, ◌==◌, ltb, Result, ok, >>=-eq-ok,
  ok-injective, arith, Bool-cases, inl, inr,
}
use delayed_order_sms_flink.E2e.{
  exactly, between, expected_of, is_expected, validate_sms_count, expected_str, E2EResult, Outcome,
  failed, counted, scenario_result, run_scenarios, all_passed, exit_code, rounds, verdict,
}

-- The sum of the counts of the scenarios that ran.
unfoldable pub counted_sum : List E2EResult → ℤ
counted_sum [] = pos 0
counted_sum (r ∷ results) =
    let rest = counted_sum results in if r.failed_to_run then rest else r.actual_sms_count +ℤ rest

-- The totals that pass.
abbrev pub Passes : ℕ → ℕ → ℕ → ℕ → ℕ → ℕ → Type 0
Passes a b c d e f = (a ≡ 5) × (b ≡ 5) × (c ≡ 5) × (d ≡ 10) × (e ≡ 15) × (15 ≤ f) × (f ≤ 17)

is_expected-exactly : (n a p : ℕ) → is_expected (exactly (pos n)) (pos a -ℤ pos p) ≡ (a == p + n)
unfolding is_expected ◌-ℤ◌
is_expected-exactly n a p = ground arith

is_expected-between :
    (low high a p : ℕ)
    → is_expected (between (pos low) (pos high)) (pos a -ℤ pos p)
      ≡ (not (ltb a (p + low)) && not (ltb (p + high) a))
unfolding is_expected ◌-ℤ◌
is_expected-between low high a p = ground arith

-- What a round counts, from the total before it to the total behind it.
abbrev count_of : E2EResult → ℤ
count_of r = if r.failed_to_run then pos 0 else r.actual_sms_count

abbrev CountsTo : ℤ → E2EResult × ℤ → Type 0
CountsTo previous_total (r, total) = previous_total +ℤ count_of r ≡ total

add_back : (n p : ℤ) → p +ℤ (n -ℤ p) ≡ n
add_back n p = omega int_laws

CountsTo-scenario_result :
    (name : Text) (o : Outcome) (previous_total : ℤ) {r : E2EResult × ℤ}
    → scenario_result name o previous_total ≡ ok r
    → CountsTo previous_total r
unfolding scenario_result
CountsTo-scenario_result name failed previous_total h =
    let (e, _, h') = >>=-eq-ok (expected_str name) _ h in
    subst (CountsTo previous_total) (ok-injective h') (omega int_laws)
CountsTo-scenario_result name (counted n) previous_total h =
    let (b, _, h') = >>=-eq-ok (validate_sms_count name (pos n -ℤ previous_total)) _ h in
    let (e, _, h'') = >>=-eq-ok (expected_str name) _ h' in
    subst (CountsTo previous_total) (ok-injective h'') (add_back (pos n) previous_total)

counted_sum-cons :
    (r : E2EResult) (results : List E2EResult)
    → counted_sum (r ∷ results) ≡ count_of r +ℤ counted_sum results
unfolding counted_sum
counted_sum-cons r results = elim (Bool-cases r.failed_to_run) [
  | inl e ↦ rw e (omega int_laws)
  | inr e ↦ rw e refl
]

counted_sum-nil : (p : ℤ) → p +ℤ counted_sum [] ≡ p
unfolding counted_sum
counted_sum-nil p = omega int_laws

add_assoc : (p c s : ℤ) → p +ℤ (c +ℤ s) ≡ (p +ℤ c) +ℤ s
add_assoc p c s = omega int_laws

step : (p c t s last whole : ℤ) → p +ℤ c ≡ t → t +ℤ s ≡ last → whole ≡ c +ℤ s → p +ℤ whole ≡ last
step p c t s last whole h k e = ap (λ w. p +ℤ w) e ∙ (add_assoc p c s ∙ (ap (λ x. x +ℤ s) h ∙ k))

-- The counts of the scenarios that ran add up to what the consumer counted last, less the total
-- before: no message counts for two scenarios, and one that came while a scenario failed counts for
-- the next that runs.
pub counted_sum-run_scenarios :
    (ss : List (Text × Outcome)) (previous_total : ℤ) {r : List E2EResult × ℤ}
    → run_scenarios ss previous_total ≡ ok r
    → previous_total +ℤ counted_sum r.0 ≡ r.1
unfolding run_scenarios
counted_sum-run_scenarios [] previous_total h =
    subst (λ r. previous_total +ℤ counted_sum r.0 ≡ r.1) (ok-injective h)
      (counted_sum-nil previous_total)
counted_sum-run_scenarios ((name, o) ∷ ss) previous_total h =
    let ((result, total), hr, h') = >>=-eq-ok (scenario_result name o previous_total) _ h in
    let ((results, last), hs, h'') = >>=-eq-ok (run_scenarios ss total) _ h' in
    subst (λ r. previous_total +ℤ counted_sum r.0 ≡ r.1) (ok-injective h'')
      (step previous_total (count_of result) total (counted_sum results) last _
        (CountsTo-scenario_result name o previous_total hr) (counted_sum-run_scenarios ss total hs)
        (counted_sum-cons result results))

-- The tests of the six rounds.
abbrev rounds_pass : ℕ → ℕ → ℕ → ℕ → ℕ → ℕ → Bool
rounds_pass a b c d e f =
    if a == 0 + 5
    then (if b == a + 0
        then (if c == b + 0
            then (if d == c + 5
                then (if e == d + 5
                    then (if not (ltb f (e + 0)) && not (ltb (e + 2) f) then true else false)
                    else false)
                else false)
            else false)
        else false)
    else false

verdict-rounds :
    (a b c d e f : ℕ)
    → verdict (counted a ∷ counted b ∷ counted c ∷ counted d ∷ counted e ∷ counted f ∷ [])
      ≡ ok (if rounds_pass a b c d e f then 0 else 1)
unfolding verdict rounds run_scenarios scenario_result validate_sms_count expected_str expected_of
    text_eq exit_code all_passed
verdict-rounds a b c d e f =
    rw
      (
        is_expected-exactly 5 a 0,
        is_expected-exactly 0 b a,
        is_expected-exactly 0 c b,
        is_expected-exactly 5 d c,
        is_expected-exactly 5 e d,
        is_expected-between 0 2 f e,
      )
      refl

Passes-rounds_pass : (a b c d e f : ℕ) → rounds_pass a b c d e f ≡ true → Passes a b c d e f
Passes-rounds_pass a b c d e f h = ground arith

rounds_pass-Passes : (a b c d e f : ℕ) → Passes a b c d e f → rounds_pass a b c d e f ≡ true
rounds_pass-Passes a b c d e f h = ground arith

exit_zero : (b : Bool) → ◌≡◌ {A = Result ℕ} (ok (if b then 0 else 1)) (ok 0) → b ≡ true
exit_zero true h = refl
exit_zero false h = absurd (omega (arith, ok-injective h))

-- When the simulator runs all six scenarios, the end-to-end tests exit with 0 exactly if the
-- consumer counts 5 messages behind each of the first three, then 10, then 15, and from 15 to 17
-- at the end.
pub verdict-Passes :
    (a b c d e f : ℕ)
    → (verdict (counted a ∷ counted b ∷ counted c ∷ counted d ∷ counted e ∷ counted f ∷ []) ≡ ok 0)
      ↔ Passes a b c d e f
verdict-Passes a b c d e f = (
  λ h.
      Passes-rounds_pass a b c d e f
        (exit_zero (rounds_pass a b c d e f) (sym (verdict-rounds a b c d e f) ∙ h)),
  λ h.
      verdict-rounds a b c d e f
      ∙ ap (λ b. ok (if b then 0 else 1)) (rounds_pass-Passes a b c d e f h),
)
