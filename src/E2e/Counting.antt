-- ===== src/E2e/Counting.antt =====
-- `consume_sms_count`: the different ids among the messages that the consumer prints.
pub mod Distinct
use delayed_order_sms_flink.Base.{
  ℕ, Bool, true, false, not, Option, none, some, List, [], ◌∷◌, ◌++◌, Text, codes, text_eq,
  contains, length, if◌then◌else◌, ℤ, pos, int_eq, Result, ok, err, type_error,
}
use delayed_order_sms_flink.Json.{Json, null, bool, int, float, str, arr, obj, is_true}
use delayed_order_sms_flink.Json.Dumps.{show}
use delayed_order_sms_flink.E2e.Host.{Host, Effect, ◌>>=◌, lift, subprocess_run}
use delayed_order_sms_flink.E2e.Lines.{filled_lines}
use delayed_order_sms_flink.E2e.Polling.{get_in}

-- A number that is no `float`
abbrev pub int_value : {F : Type 0} → Json F → Option ℤ
int_value (int n) = some n
int_value (bool true) = some (pos 1)
int_value (bool false) = some (pos 0)
int_value _ = none

abbrev pub same_value : Option ℤ → Option ℤ → Bool
same_value (some n) (some m) = int_eq n m
same_value _ _ = false

-- `hash(v)` raises at a list and at a `dict`.
unfoldable pub hashable : {F : Type 0} → Json F → Result (Json F)
hashable (arr xs) = err type_error
hashable (obj fs) = err type_error
hashable v = ok v

module _ ⦃H : Host⦄ where
  -- Whether a `set` takes two ids for the same.
  unfoldable pub same_id : Json H.Float → Json H.Float → Bool
  same_id (str s) (str t) = text_eq s t
  same_id (float x) v = H.float_eq x v
  same_id v (float x) = H.float_eq x v
  same_id v w = same_value (int_value v) (int_value w)

  unfoldable pub holds_id : Json H.Float → List (Json H.Float) → Bool
  holds_id v [] = false
  holds_id v (w ∷ ids) = let rest = holds_id v ids in if same_id w v then true else rest

  -- `command_ids.add(cid)`
  unfoldable pub add_id : Json H.Float → List (Json H.Float) → List (Json H.Float)
  add_id v ids = if holds_id v ids then ids else ids ++ (v ∷ [])

  -- The id that a parsed line adds, if it adds one
  unfoldable pub id_of : Json H.Float → Result (Option (Json H.Float))
  id_of message = elim (get_in (codes "commandId") (str []) message) [
    | err e ↦ err e
    | ok cid ↦
        if is_true H.float_is_true cid
        then (elim (hashable cid) [ err e ↦ err e | ok v ↦ ok (some v) ])
        else ok none
  ]

  -- A line without the word, and one that is no JSON, adds none.
  unfoldable pub id_in : Text → Result (Option (Json H.Float))
  id_in line =
      if contains (codes "commandId") line
      then (elim (H.loads line) [ none ↦ ok none | some message ↦ id_of message ])
      else ok none

  -- The loop over the lines
  unfoldable pub add_ids : List Text → List (Json H.Float) → Result (List (Json H.Float))
  add_ids [] ids = ok ids
  add_ids (line ∷ lines) ids = elim (id_in line) [
    | err e ↦ err e
    | ok none ↦ add_ids lines ids
    | ok (some v) ↦ add_ids lines (add_id v ids)
  ]

  abbrev pub console_consumer : ℕ → ℕ → Text
  console_consumer timeout_ms max_messages =
      codes "kafka-console-consumer --bootstrap-server kafka:29092 --topic sms-commands "
      ++ codes "--from-beginning --max-messages "
      ++ show max_messages
      ++ codes " --timeout-ms "
      ++ show timeout_ms
      ++ codes " 2>&1"

  -- The number of the different ids in an output
  unfoldable pub count_ids : Text → Result ℕ
  count_ids stdout = elim (add_ids (filled_lines stdout) []) [
    | err e ↦ err e
    | ok ids ↦ ok (length ids)
  ]

  abbrev pub consumer_command : ℕ → ℕ → List Text
  consumer_command timeout_ms max_messages =
      codes "docker"
      ∷ codes "exec"
      ∷ codes "kafka"
      ∷ codes "bash"
      ∷ codes "-c"
      ∷ console_consumer timeout_ms max_messages
      ∷ []

  unfoldable pub consume_sms_count : ℕ → ℕ → Effect ℕ
  consume_sms_count timeout_ms max_messages = do
    result ← subprocess_run (consumer_command timeout_ms max_messages) none
    lift (count_ids result.stdout)
