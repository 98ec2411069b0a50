-- ===== src/E2e.antt =====
-- e2e-tests/run_e2e.py: the scenarios that the end-to-end tests run, the messages that they count,
-- and the verdict. What the simulator and the consumer return is an argument.
pub mod Host
pub mod Lines
pub mod Polling
pub mod Counting
pub mod JobId
pub mod Build
pub mod Submit
pub mod Phases
pub mod Verdict
use delayed_order_sms_flink.Base.{
  ℕ, zero, suc, ◌+◌, ◌≡◌, Bool, true, false, ◌&&◌, not, Option, none, some, List, [], ◌∷◌, ◌++◌,
  map, Text, codes, text_eq, contains, if◌then◌else◌, ℤ, pos, negsuc, ◌+ℤ◌, ◌-ℤ◌, ltb_ℤ, int_eq,
  leb, Result, ok, err, ◌>>=◌, key_error,
}
use delayed_order_sms_flink.Json.Dumps.{show_int}

-- An entry of `EXPECTED_SMS`: a number, or a pair of bounds.
pub data Expected : Type 0 where
  exactly : ℤ → Expected
  between : ℤ → ℤ → Expected

abbrev pub expected_sms : List (Text × Expected)
expected_sms =
    (codes "delayed-orders", exactly (pos 5))
    ∷ (codes "on-time-orders", exactly (pos 0))
    ∷ (codes "cancelled-orders", exactly (pos 0))
    ∷ (codes "duplicate-events", exactly (pos 5))
    ∷ (codes "eta-updated-orders", exactly (pos 5))
    ∷ (codes "mixed-orders", between (pos 0) (pos 2))
    ∷ []

abbrev pub scenarios : List Text
scenarios =
    codes "delayed-orders"
    ∷ codes "on-time-orders"
    ∷ codes "cancelled-orders"
    ∷ codes "duplicate-events"
    ∷ codes "eta-updated-orders"
    ∷ codes "mixed-orders"
    ∷ []

-- `EXPECTED_SMS[scenario]`
unfoldable pub expected_of : Text → List (Text × Expected) → Result Expected
expected_of scenario [] = err key_error
expected_of scenario ((name, e) ∷ rest) =
    if text_eq name scenario then ok e else expected_of scenario rest

unfoldable pub is_expected : Expected → ℤ → Bool
is_expected (exactly n) actual = int_eq actual n
is_expected (between low high) actual = not (ltb_ℤ actual low) && not (ltb_ℤ high actual)

unfoldable pub validate_sms_count : Text → ℤ → Result Bool
validate_sms_count scenario actual = do
  e ← expected_of scenario expected_sms
  ok (is_expected e actual)

unfoldable pub expected_text : Expected → Text
expected_text (exactly n) = show_int n
expected_text (between low high) = show_int low ++ (b'-' ∷ show_int high)

unfoldable pub expected_str : Text → Result Text
expected_str scenario = do e ← expected_of scenario expected_sms; ok (expected_text e)

pub record E2EResult : Type 0 where
  pub scenario : Text
  pub passed : Bool
  pub expected : Text
  pub actual_sms_count : ℤ
  pub failed_to_run : Bool

-- What a scenario's run gives: the exit code of the simulator is not 0, or the number of messages
-- that the consumer counts behind it.
pub data Outcome : Type 0 where
  failed : Outcome
  counted : ℕ → Outcome

-- One round of the loop: the result, and `previous_total` behind it.
unfoldable pub scenario_result : Text → Outcome → ℤ → Result (E2EResult × ℤ)
scenario_result name failed previous_total = do
  expected ← expected_str name
  ok (
    record {
      scenario = name;
      passed = false;
      expected = expected;
      actual_sms_count = negsuc 0;
      failed_to_run = true;
    },
    previous_total,
  )
scenario_result name (counted raw_count) previous_total = do
  passed ← validate_sms_count name (pos raw_count -ℤ previous_total)
  expected ← expected_str name
  ok (
    record {
      scenario = name;
      passed = passed;
      expected = expected;
      actual_sms_count = pos raw_count -ℤ previous_total;
      failed_to_run = false;
    },
    pos raw_count,
  )

-- The loop of phase 3.
unfoldable pub run_scenarios : List (Text × Outcome) → ℤ → Result (List E2EResult × ℤ)
run_scenarios [] previous_total = ok ([], previous_total)
run_scenarios ((name, outcome) ∷ rest) previous_total = do
  (result, total) ← scenario_result name outcome previous_total
  (results, last) ← run_scenarios rest total
  ok (result ∷ results, last)

unfoldable pub all_passed : List E2EResult → Bool
all_passed [] = true
all_passed (r ∷ results) = let rest = all_passed results in if r.passed then rest else false

-- `0 if all_passed else 1`
unfoldable pub exit_code : List E2EResult → ℕ
exit_code results = if all_passed results then 0 else 1

-- The rounds of the scenarios in their order.
unfoldable pub rounds : List Text → List Outcome → List (Text × Outcome)
rounds [] outcomes = []
rounds (name ∷ names) [] = []
rounds (name ∷ names) (o ∷ outcomes) = (name, o) ∷ rounds names outcomes

-- The exit code of `main` from phase 3 on.
unfoldable pub verdict : List Outcome → Result ℕ
verdict outcomes = do
  (results, _) ← run_scenarios (rounds scenarios outcomes) (pos 0)
  ok (exit_code results)
