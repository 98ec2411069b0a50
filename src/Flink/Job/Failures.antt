-- ===== src/Flink/Job/Failures.antt =====
-- The records that cannot be parsed and the topic of the dead letters.
use delayed_order_sms_flink.Base.{
  some-injective, ◌≡◌, refl, sym, ◌∙◌, ap, ap₂, Option, none, some, List, [], ◌∷◌, ◌++◌, append-nil,
  map, Text, ℤ,
}
use delayed_order_sms_flink.Flink.TimerService.{TimerService}
use delayed_order_sms_flink.Flink.Model.{OrderState}
use delayed_order_sms_flink.Flink.Process.{Output, Handled, process_element, fire}
use delayed_order_sms_flink.Flink.Job.{
  Entry, unparsed, of_order, keyed, KeyedState, at_key, process_keyed, read_record, Job, started,
  read, timed,
}
use delayed_order_sms_flink.Flink.Job.Orders.{at_key-eq-some}

-- `parseFailures`: the payloads of the dead letters of OrderStateDeserializationFunction
unfoldable pub parse_failures : List Entry → List Text
parse_failures [] = []
parse_failures (unparsed value ∷ log) = value ∷ parse_failures log
parse_failures (of_order key o ∷ log) = parse_failures log

parse_failures-append :
    (xs ys : List Entry) → parse_failures (xs ++ ys) ≡ parse_failures xs ++ parse_failures ys
unfolding parse_failures
parse_failures-append [] ys = refl
parse_failures-append (unparsed value ∷ xs) ys = ap (λ r. value ∷ r) (parse_failures-append xs ys)
parse_failures-append (of_order key o ∷ xs) ys = parse_failures-append xs ys

parse_failures-of_order :
    (key : Text) (out : List Output) → parse_failures (map (of_order key) out) ≡ []
unfolding parse_failures
parse_failures-of_order key [] = refl
parse_failures-of_order key (o ∷ out) = parse_failures-of_order key out

-- The record, if it has no key
abbrev pub unreadable : Text → Option (Text × OrderState) → List Text
unreadable value none = value ∷ []
unreadable value (some r) = []

-- The records that cannot be parsed or keyed, in the order in which they were read. The last record
-- that was read stands in front.
abbrev pub all_unreadable :
    (Text → Option (Option OrderState)) → Option Text → List Text → List Text
all_unreadable parse null_key [] = []
all_unreadable parse null_key (value ∷ values) =
    all_unreadable parse null_key values ++ unreadable value (keyed null_key (parse value))

module _ ⦃T : TimerService⦄ where
  parse_failures-at_key :
      (key : Text) (h : Handled) (st : KeyedState) {st' : KeyedState} {new : List Entry}
      → at_key key h st ≡ some (st', new)
      → parse_failures new ≡ []
  parse_failures-at_key key h st e =
      let (k, out, handled, state, entries) = at_key-eq-some key h st e in
      sym (ap parse_failures entries) ∙ parse_failures-of_order key out

  parse_failures-process_keyed :
      (value : Text) (r : Option (Text × OrderState)) (now later : ℤ) (st : KeyedState)
      {st' : KeyedState} {new : List Entry}
      → process_keyed value r now later st ≡ some (st', new)
      → parse_failures new ≡ unreadable value r
  unfolding process_keyed parse_failures
  parse_failures-process_keyed value none now later st e =
      sym (ap (λ r. parse_failures r.1) (some-injective e))
  parse_failures-process_keyed value (some (key, o)) now later st e =
      parse_failures-at_key key (process_element o now later (st key)) st e

  -- The records that cannot be parsed or have no key, and no others, go to the dead letters of the
  -- parser as they are, each once and in the order in which they came. The job has not been restarted.
  pub parse_failures-Job :
      {parse : Text → Option (Option OrderState)} {null_key : Option Text} {values : List Text}
      {log : List Entry} {st : KeyedState}
      → Job parse null_key values log st
      → parse_failures log ≡ all_unreadable parse null_key values
  unfolding parse_failures read_record
  parse_failures-Job started = refl
  parse_failures-Job {parse = parse} {null_key = null_key}
        (read {log = log} {st = st} value now later st' new past e) =
      parse_failures-append log new
      ∙ ap₂ (λ x y. x ++ y) (parse_failures-Job past)
          (parse_failures-process_keyed value (keyed null_key (parse value)) now later st e)
  parse_failures-Job (timed {log = log} {st = st} key timestamp now st' new past due e) =
      parse_failures-append log new
      ∙ (ap₂ (λ x y. x ++ y) (parse_failures-Job past)
            (parse_failures-at_key key (fire timestamp now (st key)) st e)
          ∙ append-nil _)
