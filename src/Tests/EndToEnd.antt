-- ===== src/Tests/EndToEnd.antt =====
-- The end-to-end tests on a machine.
use Prim.Native.Nat.{min}
use delayed_order_sms_flink.E2e.JobId.Guard.{all_tokens, parse_job_id-all_tokens}
use delayed_order_sms_flink.E2e.JobId.{
  parse_job_id, job_id_among, or_else, job_id_in, first_job_id, is_job_id, all_hex, rstrip_dots,
}
use delayed_order_sms_flink.E2e.Phases.Exit.{IsExitCode, main-IsExitCode}
use delayed_order_sms_flink.E2e.Counting.Distinct.{
  Carries, no_lines, with_id, consume_sms_count-Carries,
}
use delayed_order_sms_flink.E2e.Polling.Ready.{IsReadyFrom, RoundTakes, poll_for-true}
use delayed_order_sms_flink.E2e.Polling.Ends.{KeepsTime-see_healthy}
use delayed_order_sms_flink.E2e.Polling.Means.{EndsWhere, ServicesUp, JobRuns, polling-Ends}
use delayed_order_sms_flink.Base.{
  ◌≡◌, refl, true, false, some, ok, pos, codes, List, Text, text_eq, starts_with, strip_prefix,
  contains, ℕ, ◌+◌, ◌++◌, ◌∷◌, [], Error, err, Option, ◌⊎◌, Bool-cases, inl, inr, not, ltb, ap,
  length, occurs, arith, Result-cases,
}
use delayed_order_sms_flink.Number.{is_space, strip, strip_spaces_front}
use delayed_order_sms_flink.Json.{get, is_true}
use delayed_order_sms_flink.E2e.Host.{◌>>=◌, seconds, Completed}
use delayed_order_sms_flink.E2e.Lines.{
  is_line_end, lines_from, splitlines, stripped, filled_lines, split, tokens_of,
}
use delayed_order_sms_flink.E2e.Polling.{
  get_in, is_text, is_ok, all_ok, reports_ready, see_healthy, poll_for, poll_healthy, see_running,
  poll_job_running,
}
use delayed_order_sms_flink.E2e.Counting.{
  hashable, id_of, id_in, consume_sms_count, consumer_command,
}
use delayed_order_sms_flink.E2e.Phases.{E2eArguments, main}
use delayed_order_sms_flink.Tests.Machine.{
  Machine, messages_for, printed_after, parse, execute, test_machine,
}

abbrev machine : Machine
machine = record { time = 7; consumed = 0 }

abbrev arguments : E2eArguments
arguments = record { no_cleanup = false; orders_count = pos 5 }

main-IsExitCode_example :
    ((x : Error) × ((main arguments machine).result ≡ err x))
    ⊎ (code : Option ℕ) × ((main arguments machine).result ≡ ok code) × IsExitCode code
main-IsExitCode_example = main-IsExitCode arguments machine

polling-Ends_example :
    EndsWhere ServicesUp see_healthy 7 (7 + seconds 120) (poll_healthy 120 machine)
    × EndsWhere
        (JobRuns (codes "j"))
        (see_running (codes "j"))
        7
        (7 + seconds 120)
        (poll_job_running (codes "j") 120 machine)
polling-Ends_example = polling-Ends (codes "j") 120 machine

abbrev id : ℕ → Text
id n = codes "commandId" ++ (65 + n) ∷ []

abbrev ids : List Text
ids = id 4 ∷ id 3 ∷ id 2 ∷ id 1 ∷ id 0 ∷ id 2 ∷ id 1 ∷ id 0 ∷ []

-- The machine behind one scenario, and five messages, three of them twice
abbrev later_machine : Machine
later_machine = record { time = 7; consumed = 1 }

abbrev repeated : Completed
repeated = record { returncode = pos 0; stdout = messages_for 5 ++ messages_for 3; stderr = [] }

Carries-repeated : Carries (filled_lines repeated.stdout) ids
unfolding messages_for filled_lines splitlines lines_from is_line_end stripped strip is_space
    strip_spaces_front id_in contains starts_with strip_prefix parse id_of get_in get text_eq
    is_true hashable
Carries-repeated = with_id (id 4) refl (
    with_id (id 3) refl (
      with_id (id 2) refl (
        with_id (id 1) refl (
          with_id (id 0) refl
            (with_id (id 2) refl (with_id (id 1) refl (with_id (id 0) refl no_lines)))))))

repeated_run : (execute (consumer_command 30000 100) later_machine).0 ≡ repeated
unfolding execute printed_after starts_with strip_prefix
repeated_run = refl

consume_sms_count-Carries_example :
    (s : List Text) × ((consume_sms_count 30000 100 later_machine).result ≡ ok (length s))
    × ((x : Text) → occurs x s ≡ min 1 (occurs x ids))
consume_sms_count-Carries_example =
    consume_sms_count-Carries 30000 100 later_machine repeated (ap ok repeated_run) Carries-repeated

healthy_from_five : (m : Machine) → (see_healthy m).result ≡ ok (not (ltb m.time (seconds 5)))
unfolding see_healthy reports_ready all_ok is_ok filled_lines splitlines lines_from is_line_end
    stripped strip is_space strip_spaces_front starts_with strip_prefix parse get_in get text_eq
    is_text execute ◌>>=◌
healthy_from_five m = elim (Bool-cases (ltb m.time (seconds 5))) [
  | inl e ↦ rw e refl
  | inr e ↦ rw e refl
]

IsReadyFrom-test_machine : IsReadyFrom (seconds 5) see_healthy
IsReadyFrom-test_machine m = (not (ltb m.time (seconds 5)), healthy_from_five m, λ h. ground arith)

RoundTakes-test_machine : RoundTakes (seconds 2) see_healthy
unfolding see_healthy execute ◌>>=◌
RoundTakes-test_machine m = elim (Result-cases (see_healthy m).result) [
  | inl (b, e) ↦ omega arith
  | inr (x, e) ↦ omega arith
]

poll_for-true_example : (poll_for see_healthy 120 machine).result ≡ ok (some true)
poll_for-true_example =
    poll_for-true see_healthy (seconds 5) (seconds 2) 120 machine KeepsTime-see_healthy
      IsReadyFrom-test_machine RoundTakes-test_machine (omega arith) (omega arith)

-- A warning with a line of signs in front of the line with the id
abbrev printed : Text
printed =
    codes "WARNING 0123\nJob has been job_submitted with JobID 00112233445566778899aabbccddeeff.\n"

parse_job_id_test : parse_job_id printed [] ≡ some (codes "00112233445566778899aabbccddeeff")
unfolding parse_job_id splitlines lines_from is_line_end strip is_space strip_spaces_front
    job_id_among or_else job_id_in first_job_id is_job_id all_hex rstrip_dots split tokens_of
parse_job_id_test = refl

parse_job_id-all_tokens_example :
    parse_job_id printed []
    ≡ first_job_id (all_tokens (splitlines (strip printed) ++ splitlines (strip [])))
parse_job_id-all_tokens_example = parse_job_id-all_tokens printed []
