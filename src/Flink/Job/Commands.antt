-- ===== src/Flink/Job/Commands.antt =====
-- The topics that the job writes: `commands.sinkTo` with SmsCommandSerializationSchema, and
-- `parseFailures.sinkTo`.
use delayed_order_sms_flink.Base.{
  some-injective, ℕ, ◌+◌, ◌≤◌, ◌≡◌, refl, sym, ◌∙◌, ap, subst, true, Option, none, some, List, [],
  ◌∷◌, map, All, All-append, Text, codes, text_eq, text_eq_iff, ℤ, if◌then◌else◌, arith, Bool-cases,
  Option-cases, inl, inr,
}
use mathlib.Core.List.{append_cancel_right}
use delayed_order_sms_flink.Flink.TimerService.{TimerService}
use delayed_order_sms_flink.Flink.Model.{OrderState, SmsCommand}
use delayed_order_sms_flink.Flink.Process.{
  Output, sms, dead_letter, counted, Keyed, Handled, process_element, is_valid, fire,
}
use delayed_order_sms_flink.Flink.Process.Once.{sms_count, recorded, sms_count-History}
use delayed_order_sms_flink.Flink.Job.{
  Entry, unparsed, of_order, key_by, keyed, KeyedState, at_key, process_keyed, read_record, Job,
  started, read, timed,
}
use delayed_order_sms_flink.Flink.Job.Orders.{outputs_of, at_key-eq-some, History-Job}
use delayed_order_sms_flink.Flink.Job.Addressed.{
  SmsFor, IsOfOrder, IsAddressed, command_id_of, IsAddressed-process_element, IsAddressed-fire,
}

-- The records of the topic of the commands: `SmsCommandSerializationSchema.serialize` gives the id
-- of the command as the key.
unfoldable pub sms_topic : List Entry → List (Text × SmsCommand)
sms_topic [] = []
sms_topic (of_order key (sms c) ∷ log) = (c.command_id, c) ∷ sms_topic log
sms_topic (e ∷ log) = sms_topic log

-- The number of the records with a key
unfoldable pub record_count : Text → List (Text × SmsCommand) → ℕ
record_count key [] = 0
record_count key ((other, c) ∷ records) =
    (if text_eq other key then 1 else 0) + record_count key records

abbrev IsAddressedEntry : Entry → Type 0
IsAddressedEntry (unparsed value) = Unit
IsAddressedEntry (of_order key o) = SmsFor key o

text_eq-command_id_of :
    (id other key : Text)
    → id ≡ command_id_of other
    → text_eq id (command_id_of key) ≡ text_eq other key
text_eq-command_id_of id other key h = elim (Bool-cases (text_eq other key)) [
  | inl e ↦
      (text_eq_iff id (command_id_of key)).1 (h ∙ ap command_id_of ((text_eq_iff other key).0 e))
      ∙ sym e
  | inr e ↦ elim (Bool-cases (text_eq id (command_id_of key))) [
    | inl p ↦
        let same : other ≡ key =
          append_cancel_right other key (codes ":DELAY_SMS")
            (sym h ∙ (text_eq_iff id (command_id_of key)).0 p) in
        let equal : text_eq other key ≡ true = (text_eq_iff other key).1 same in
        absurd (ground arith)
    | inr p ↦ p ∙ sym e
  ]
]

record_count-sms_topic :
    (key : Text) (log : List Entry)
    → All IsAddressedEntry log
    → record_count (command_id_of key) (sms_topic log) ≡ sms_count (outputs_of key log)
unfolding record_count sms_topic sms_count outputs_of
record_count-sms_topic key [] h = refl
record_count-sms_topic key (unparsed value ∷ log) h = record_count-sms_topic key log h.1
record_count-sms_topic key (of_order other (sms c) ∷ log) h =
    rw (text_eq-command_id_of c.command_id other key h.0.1, record_count-sms_topic key log h.1)
      (elim (Bool-cases (text_eq other key)) [ inl e ↦ rw e refl | inr e ↦ rw e (omega arith) ])
record_count-sms_topic key (of_order other (dead_letter i s) ∷ log) h =
    rw (record_count-sms_topic key log h.1)
      (elim (Bool-cases (text_eq other key)) [ inl e ↦ rw e (omega arith) | inr e ↦ rw e refl ])
record_count-sms_topic key (of_order other (counted m) ∷ log) h =
    rw (record_count-sms_topic key log h.1)
      (elim (Bool-cases (text_eq other key)) [ inl e ↦ rw e (omega arith) | inr e ↦ rw e refl ])

All-of_order :
    (key : Text) (out : List Output)
    → All (SmsFor key) out
    → All IsAddressedEntry (map (of_order key) out)
All-of_order key [] h = tt
All-of_order key (o ∷ out) h = (h.0, All-of_order key out h.1)

module _ ⦃T : TimerService⦄ where
  abbrev AllOfOrder : KeyedState → Type 0
  AllOfOrder st = (key : Text) → IsOfOrder key (st key).state

  -- A handler that is addressed at its key keeps this at every key.
  AllOfOrder-at_key :
      (key : Text) (h : Handled) (st : KeyedState) {st' : KeyedState} {new : List Entry}
      → at_key key h st ≡ some (st', new)
      → ((r : Keyed × List Output) → h ≡ some r → IsAddressed key r)
      → AllOfOrder st
      → AllOfOrder st' × All IsAddressedEntry new
  AllOfOrder-at_key key h st {st'} {new} e addressed held =
      let (k, out, handled, state, entries) = at_key-eq-some key h st e in
      let (of_order_key, all) = addressed (k, out) handled in
      (
        λ other.
            subst (λ s. IsOfOrder other (s other).state) state
              (elim (Bool-cases (text_eq key other)) [
                | inl e' ↦
                    rw e'
                      (subst (λ x. IsOfOrder x k.state) ((text_eq_iff key other).0 e') of_order_key)
                | inr e' ↦ rw e' (held other)
              ]),
        subst (All IsAddressedEntry) entries (All-of_order key out all),
      )

  -- What the key of an order without an id may be has no valid update.
  IsAddressed-keyed :
      (null_key : Option Text) (r : Option (Option OrderState)) (key : Text) (o : OrderState)
      → keyed null_key r ≡ some (key, o)
      → is_valid o ≡ true
      → o.order_id ≡ some key
  unfolding key_by is_valid
  IsAddressed-keyed null_key none key o h valid = absurd (ground arith)
  IsAddressed-keyed null_key (some none) key o h valid = absurd (ground arith)
  IsAddressed-keyed null_key (some (some u)) key o h valid = elim (Option-cases u.order_id) [
    | inr (id, q) ↦
        let same = some-injective (rw q at h) in
        sym (ap (λ r. r.1.order_id) same) ∙ (q ∙ ap (λ r. some r.0) same)
    | inl q ↦ elim (Option-cases null_key) [
      | inl q' ↦ absurd (ground arith)
      | inr (other, q') ↦
          let same = some-injective (rw (q, q') at h) in
          let valid' : is_valid u ≡ true = ap (λ r. is_valid r.1) same ∙ valid in
          absurd (ground arith)
    ]
  ]

  AllOfOrder-process_keyed :
      (value : Text) (r : Option (Text × OrderState)) (now later : ℤ) (st : KeyedState)
      {st' : KeyedState} {new : List Entry}
      → process_keyed value r now later st ≡ some (st', new)
      → ((key : Text) (o : OrderState)
          → r ≡ some (key, o)
          → is_valid o ≡ true
          → o.order_id ≡ some key)
      → AllOfOrder st
      → AllOfOrder st' × All IsAddressedEntry new
  unfolding process_keyed
  AllOfOrder-process_keyed value none now later st e valid held =
      let kept = some-injective e in
      (
        subst AllOfOrder (ap (λ r. r.0) kept) held,
        subst (All IsAddressedEntry) (ap (λ r. r.1) kept) (tt, tt),
      )
  AllOfOrder-process_keyed value (some (key, o)) now later st e valid held =
      AllOfOrder-at_key key (process_element o now later (st key)) st e
        (λ r h.
          IsAddressed-process_element key o now later (st key) h (valid key o refl) (held key))
        held

  AllOfOrder-Job :
      {parse : Text → Option (Option OrderState)} {null_key : Option Text} {values : List Text}
      {log : List Entry} {st : KeyedState}
      → Job parse null_key values log st
      → AllOfOrder st × All IsAddressedEntry log
  unfolding read_record
  AllOfOrder-Job started = (λ key. tt, tt)
  AllOfOrder-Job {parse = parse} {null_key = null_key}
        (read {log = log} {st = st} value now later st' new past e) =
      let (held, all) = AllOfOrder-Job past in
      let (held', all') =
        AllOfOrder-process_keyed value (keyed null_key (parse value)) now later st e
          (IsAddressed-keyed null_key (parse value)) held in
      (held', All-append IsAddressedEntry log new all all')
  AllOfOrder-Job (timed {log = log} {st = st} key timestamp now st' new past due e) =
      let (held, all) = AllOfOrder-Job past in
      let (held', all') =
        AllOfOrder-at_key key (fire timestamp now (st key)) st e
          (λ r h. IsAddressed-fire key timestamp now (st key) h (held key)) held in
      (held', All-append IsAddressedEntry log new all all')

  -- For each order the topic of the SMS commands has one record at most with its command id, and
  -- has it exactly if the state of the order says so, whatever records are read, of how many orders
  -- and in which order, and whatever timers fire. The job has not been restarted and no state has
  -- expired.
  pub record_count-Job :
      {parse : Text → Option (Option OrderState)} {null_key : Option Text} {values : List Text}
      {log : List Entry} {st : KeyedState} (id : Text)
      → Job parse null_key values log st
      → (record_count (command_id_of id) (sms_topic log) ≤ 1)
        × (record_count (command_id_of id) (sms_topic log) ≡ recorded (st id))
  record_count-Job {parse = parse} {null_key = null_key} {log = log} id job =
      rw (record_count-sms_topic id log (AllOfOrder-Job job).1)
        (sms_count-History (History-Job parse null_key id job))
