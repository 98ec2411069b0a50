-- ===== src/Flink/Job.antt =====
-- DelayedOrderSmsJob: the records of the topic are parsed by OrderStateDeserializationFunction,
-- keyed by the id of the order and given to DelayedOrderProcessFunction. The parser of the texts is
-- Jackson's. The keys may be spread over any number of subtasks, whose steps come in any order.
pub mod Addressed
pub mod Commands
pub mod Failures
pub mod Orders
use delayed_order_sms_flink.Base.{
  ◌≡◌, Bool, true, false, Option, none, some, List, [], ◌∷◌, ◌++◌, map, Text, text_eq, ℤ,
  if◌then◌else◌,
}
use delayed_order_sms_flink.Flink.TimerService.{TimerService}
use delayed_order_sms_flink.Flink.Model.{OrderState}
use delayed_order_sms_flink.Flink.Process.{Output, Keyed, Handled, process_element, fire}

-- What goes to the sinks and the counters of the job.
pub data Entry : Type 0 where
  -- The dead letter of a record that cannot be parsed or keyed, which is also counted
  unparsed : Text → Entry
  -- What is put out at a key
  of_order : Text → Output → Entry

-- `OrderState.getOrderId` at what the parser returns, which is null for the text `null`, and the
-- key. `null_key` is the key under which Flink puts an order without an id, or nothing where
-- `out.collect` throws at it.
unfoldable pub key_by : Option Text → Option OrderState → Option (Text × OrderState)
key_by null_key none = none
key_by null_key (some o) = elim o.order_id [
  | some id ↦ some (id, o)
  | none ↦ elim null_key [ none ↦ none | some key ↦ some (key, o) ]
]

-- The key and the update of a record, or nothing where the parser or `out.collect` throws.
abbrev pub keyed : Option Text → Option (Option OrderState) → Option (Text × OrderState)
keyed null_key none = none
keyed null_key (some parsed) = key_by null_key parsed

module _ ⦃T : TimerService⦄ where
  -- The state and the timers of each key.
  abbrev pub KeyedState : Type 0
  KeyedState = Text → Keyed

  abbrev pub untouched_keys : KeyedState
  untouched_keys key = record { state = none; timers = T.nothing }

  abbrev pub put_key : Text → Keyed → KeyedState → KeyedState
  put_key key k st other = if text_eq key other then k else st other

  -- A call of a handler at a key. Where it throws, so does the job.
  unfoldable pub at_key : Text → Handled → KeyedState → Option (KeyedState × List Entry)
  at_key key none st = none
  at_key key (some (k, out)) st = some (put_key key k st, map (of_order key) out)

  -- `OrderStateDeserializationFunction.processElement`, whose `try` holds the parser and
  -- `out.collect`, and the process function behind it, which runs in a task of its own
  unfoldable pub process_keyed :
      Text → Option (Text × OrderState) → ℤ → ℤ → KeyedState → Option (KeyedState × List Entry)
  process_keyed value none now later st = some (st, unparsed value ∷ [])
  process_keyed value (some (key, o)) now later st =
      at_key key (process_element o now later (st key)) st

  module _ (parse : Text → Option (Option OrderState)) (null_key : Option Text) where
    -- A record goes through the job. `parse` gives nothing where it throws.
    unfoldable pub read_record : Text → ℤ → ℤ → KeyedState → Option (KeyedState × List Entry)
    read_record value = process_keyed value (keyed null_key (parse value))

    -- What the job has read so far, what it has put out, and what it has now. It has not been
    -- restarted and no state has expired.
    pub data Job : List Text → List Entry → KeyedState → Type 0 where
      started : Job [] [] untouched_keys
      read :
          {values : List Text} {log : List Entry} {st : KeyedState} (value : Text) (now later : ℤ)
          (st' : KeyedState) (new : List Entry)
          → Job values log st
          → read_record value now later st ≡ some (st', new)
          → Job (value ∷ values) (log ++ new) st'
      timed :
          {values : List Text} {log : List Entry} {st : KeyedState} (key : Text) (timestamp now : ℤ)
          (st' : KeyedState) (new : List Entry)
          → Job values log st
          → T.has timestamp (st key).timers ≡ true
          → at_key key (fire timestamp now (st key)) st ≡ some (st', new)
          → Job values (log ++ new) st'
