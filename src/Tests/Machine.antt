-- ===== src/Tests/Machine.antt =====
-- A machine that meets the assumptions: every command succeeds, the services are ready after five
-- seconds, and the consumer prints what a run that passes prints.
use delayed_order_sms_flink.Base.{
  ℕ, zero, suc, ◌+◌, ◌≤◌, true, false, Option, none, some, List, [], ◌∷◌, ◌++◌, Text, codes,
  starts_with, ltb, if◌then◌else◌, Bool-cases, inl, inr, pos, ok, arith, text_eq,
}
use delayed_order_sms_flink.Json.{Json, str, obj, field, end}
use delayed_order_sms_flink.E2e.Host.{Completed, Host, seconds}

-- The time, and how often the consumer has run.
pub record Machine : Type 0 where
  pub time : ℕ
  pub consumed : ℕ

-- A message for each of so many orders
unfoldable pub messages_for : ℕ → Text
messages_for zero = []
messages_for (suc n) = codes "commandId" ++ (65 + n) ∷ b'\n' ∷ messages_for n

-- What the consumer prints after each scenario. Messages may come twice.
unfoldable pub printed_after : ℕ → Text
printed_after n =
    if ltb n 1
    then messages_for 5
    else if ltb n 3
    then messages_for 5 ++ messages_for 3
    else if ltb n 4
    then messages_for 10
    else if ltb n 5
    then messages_for 15
    else messages_for 16

unfoldable pub parse : Text → Option (Json Unit)
parse line =
    if starts_with (codes "commandId") line
    then some (obj (field (codes "commandId") (str line) end))
    else if text_eq line (codes "reply")
    then some (
        obj (
          field (codes "filename") (str (codes "/jars/a.jar"))
            (field (codes "jobid") (str (codes "j")) end)))
    else some (obj (field (codes "State") (str line) end))

abbrev output : Text → Completed
output text = record { returncode = pos 0; stdout = text; stderr = [] }

unfoldable pub execute : List Text → Machine → Completed × Machine
execute (_ ∷ _ ∷ _ ∷ _ ∷ _ ∷ command ∷ []) m =
    if starts_with (codes "kafka-console-consumer") command
    then (output (printed_after m.consumed), record { time = m.time; consumed = m.consumed + 1 })
    else (output [], m)
execute (_ ∷ _ ∷ ps ∷ _ ∷ _ ∷ []) m =
    (output (if ltb m.time (seconds 5) then codes "created" else codes "running"), m)
execute _ m = (output [], m)

abbrev pub advance : ℕ → Machine → Machine
advance n m = record { time = m.time + seconds n; consumed = m.consumed }

pub execute-time : (cmd : List Text) (m : Machine) → m.time ≤ (execute cmd m).1.time
unfolding execute
execute-time (a ∷ b ∷ c ∷ d ∷ e ∷ command ∷ []) m =
    elim (Bool-cases (starts_with (codes "kafka-console-consumer") command)) [
      | inl h ↦ rw h (omega arith)
      | inr h ↦ rw h (omega arith)
    ]
execute-time (a ∷ b ∷ c ∷ d ∷ e ∷ []) m = omega arith
execute-time [] m = omega arith
execute-time (a ∷ []) m = omega arith
execute-time (a ∷ b ∷ []) m = omega arith
execute-time (a ∷ b ∷ c ∷ []) m = omega arith
execute-time (a ∷ b ∷ c ∷ d ∷ []) m = omega arith
execute-time (a ∷ b ∷ c ∷ d ∷ e ∷ f ∷ g ∷ rest) m = omega arith

pub advance-time : (n : ℕ) (m : Machine) → m.time + seconds n ≤ (advance n m).time
advance-time n m = omega arith

pub same-time : (m : Machine) → m.time ≤ m.time
same-time m = omega arith

instance abbrev pub test_machine : Host
test_machine = record {
  World = Machine;
  Float = Unit {0};
  float_is_true = λ _. true;
  float_eq = λ _ _. false;
  loads = parse;
  monotonic = λ m. m.time;
  sleep = advance;
  run = λ cmd env m. let r = execute cmd m in (ok r.0, r.1);
  urlopen = λ url m. (ok none, m);
  post = some (λ url payload m. (ok (record { status_code = pos 200; text = codes "reply" }), m));
  to_text = λ v. [];
  project_root = codes "/project";
  join = λ a b. a ++ (b'/' ∷ b);
  path_separator = codes ":";
  which = λ name m. some (codes "/usr/bin/mvn");
  environ = λ m. [];
  is_file = λ path m. true;
  is_dir = λ path m. false;
  list_dir = λ path m. ok [];
  monotonic-sleep = advance-time;
  monotonic-run = λ cmd env m. execute-time cmd m;
  monotonic-urlopen = λ url m. same-time m;
}
