-- ===== src/Tests/Verdicts.antt =====
-- Runs of the end-to-end tests at concrete counts.
use delayed_order_sms_flink.Base.{
  ◌≡◌, ◌↔◌, refl, true, false, List, [], ◌∷◌, Text, codes, text_eq, pos, negsuc, ◌+ℤ◌, ◌-ℤ◌, ok,
}
use delayed_order_sms_flink.Json.Dumps.{show, show_fuel, show_int}
use delayed_order_sms_flink.E2e.{
  expected_of, is_expected, validate_sms_count, expected_text, expected_str, E2EResult, Outcome,
  failed, counted, scenario_result, run_scenarios, verdict,
}
use delayed_order_sms_flink.E2e.Verdict.{
  counted_sum, counted_sum-run_scenarios, Passes, verdict-Passes,
}

abbrev two_rounds : List (Text × Outcome)
two_rounds = (codes "delayed-orders", failed) ∷ (codes "on-time-orders", counted 3) ∷ []

abbrev two_results : List E2EResult
two_results =
    record {
      scenario = codes "delayed-orders";
      passed = false;
      expected = codes "5";
      actual_sms_count = negsuc 0;
      failed_to_run = true;
    }
    ∷ record {
      scenario = codes "on-time-orders";
      passed = false;
      expected = codes "0";
      actual_sms_count = pos 3;
      failed_to_run = false;
    }
    ∷ []

-- The messages of the scenario that failed count for the next one.
two_rounds-run : run_scenarios two_rounds (pos 0) ≡ ok (two_results, pos 3)
unfolding run_scenarios scenario_result validate_sms_count expected_str expected_of expected_text
    is_expected text_eq show_int show show_fuel ◌-ℤ◌
two_rounds-run = refl

counted_sum-run_scenarios_example : pos 0 +ℤ counted_sum two_results ≡ pos 3
counted_sum-run_scenarios_example = counted_sum-run_scenarios two_rounds (pos 0) two_rounds-run

verdict-Passes_example :
    (verdict (counted 5 ∷ counted 5 ∷ counted 5 ∷ counted 10 ∷ counted 15 ∷ counted 16 ∷ []) ≡ ok 0)
    ↔ Passes 5 5 5 10 15 16
verdict-Passes_example = verdict-Passes 5 5 5 10 15 16
