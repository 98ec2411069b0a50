-- ===== src/Flink/Job/Orders.antt =====
-- What the job does at each order is a history of the process function.
use delayed_order_sms_flink.Base.{
  some-injective, ◌≡◌, refl, sym, ◌∙◌, ap, subst, Bool, true, false, Option, none, some, List, [],
  ◌∷◌, ◌++◌, append-nil, map, Text, text_eq, text_eq_iff, ℤ, if◌then◌else◌, arith, Bool-cases, inl,
  inr,
}
use delayed_order_sms_flink.Flink.TimerService.{TimerService}
use delayed_order_sms_flink.Flink.Model.{OrderState}
use delayed_order_sms_flink.Flink.Process.{
  Output, Keyed, Handled, process_element, fire, History, untouched, element, fired,
}
use delayed_order_sms_flink.Flink.Job.{
  key_by, Entry, unparsed, of_order, keyed, KeyedState, put_key, at_key, process_keyed, read_record,
  Job, started, read, timed,
}

-- What is put out at a key.
unfoldable pub outputs_of : Text → List Entry → List Output
outputs_of key [] = []
outputs_of key (unparsed value ∷ log) = outputs_of key log
outputs_of key (of_order other o ∷ log) =
    let rest = outputs_of key log in if text_eq other key then o ∷ rest else rest

outputs_of-append :
    (key : Text) (xs ys : List Entry)
    → outputs_of key (xs ++ ys) ≡ outputs_of key xs ++ outputs_of key ys
unfolding outputs_of
outputs_of-append key [] ys = refl
outputs_of-append key (unparsed value ∷ xs) ys = outputs_of-append key xs ys
outputs_of-append key (of_order other o ∷ xs) ys =
    rw (outputs_of-append key xs ys)
      (elim (Bool-cases (text_eq other key)) [ inl e ↦ rw e refl | inr e ↦ rw e refl ])

outputs_of-own :
    (other key : Text) (out : List Output)
    → text_eq other key ≡ true
    → outputs_of key (map (of_order other) out) ≡ out
unfolding outputs_of
outputs_of-own other key [] h = refl
outputs_of-own other key (o ∷ out) h = rw h (ap (λ r. o ∷ r) (outputs_of-own other key out h))

outputs_of-other :
    (other key : Text) (out : List Output)
    → text_eq other key ≡ false
    → outputs_of key (map (of_order other) out) ≡ []
unfolding outputs_of
outputs_of-other other key [] h = refl
outputs_of-other other key (o ∷ out) h = rw h (outputs_of-other other key out h)

-- An update is put in front of those of its key.
abbrev pub arrived : Text → Option (Text × OrderState) → List OrderState → List OrderState
arrived key none updates = updates
arrived key (some (other, o)) updates = if text_eq other key then o ∷ updates else updates

module _ ⦃T : TimerService⦄ where
  pub at_key-eq-some :
      (key : Text) (h : Handled) (st : KeyedState) {st' : KeyedState} {new : List Entry}
      → at_key key h st ≡ some (st', new)
      → (k : Keyed) × (out : List Output) × (h ≡ some (k, out))
        × (put_key key k st ≡ st')
        × (map (of_order key) out ≡ new)
  unfolding at_key
  at_key-eq-some key none st e = absurd (ground arith)
  at_key-eq-some key (some (k, out)) st e =
      (k, out, refl, ap (λ r. r.0) (some-injective e), ap (λ r. r.1) (some-injective e))

  -- Where two keys are the same, so is what holds of their states.
  at_same {ℓ} :
      {A : Type ℓ} (f : Keyed → A) (other key : Text) (st : KeyedState) {a : A}
      → text_eq other key ≡ true
      → f (st other) ≡ a
      → f (st key) ≡ a
  at_same f other key st {a} same h = subst (λ k. f (st k) ≡ a) ((text_eq_iff other key).0 same) h

  moved :
      {us us' : List OrderState} {outs outs' : List Output} {k k' : Keyed}
      → us ≡ us'
      → outs ≡ outs'
      → k ≡ k'
      → History us outs k
      → History us' outs' k'
  moved {us' = us'} {outs = outs} {outs' = outs'} {k = k} p q r h =
      subst (History us' outs') r
        (subst (λ o. History us' o k) q (subst (λ u. History u outs k) p h))

  -- A handler at one key extends the history of this key, and of no other one.
  History-at_key :
      (other key : Text) (h : Handled) (st : KeyedState) (log : List Entry)
      (us us' : List OrderState) {st' : KeyedState} {new : List Entry}
      → at_key other h st ≡ some (st', new)
      → History us (outputs_of key log) (st key)
      → ((k : Keyed) (out : List Output)
          → text_eq other key ≡ true
          → h ≡ some (k, out)
          → History us' (outputs_of key log ++ out) k)
      → (text_eq other key ≡ false → us' ≡ us)
      → History us' (outputs_of key (log ++ new)) (st' key)
  History-at_key other key h st log us us' {st'} {new} e past own same =
      let (k, out, handled, state, entries) = at_key-eq-some other h st e in
      let outputs : (out' : List Output)
          → outputs_of key (map (of_order other) out) ≡ out'
          → outputs_of key log ++ out' ≡ outputs_of key (log ++ new) =
        λ out' p. sym (
          outputs_of-append key log new
          ∙ ap (λ o. outputs_of key log ++ o) (ap (outputs_of key) (sym entries) ∙ p)) in
      let kept : (b : Bool) → text_eq other key ≡ b → (if b then k else st key) ≡ st' key =
        λ b p. sym (ap (λ b. if b then k else st key) p) ∙ ap (λ s. s key) state in
      elim (Bool-cases (text_eq other key)) [
        | inl is_own ↦
            moved refl (outputs out (outputs_of-own other key out is_own)) (kept true is_own)
              (own k out is_own handled)
        | inr is_other ↦
            moved (sym (same is_other))
              (sym (append-nil (outputs_of key log))
                ∙ outputs [] (outputs_of-other other key out is_other))
              (kept false is_other) past
      ]

  History-process_keyed :
      (value : Text) (r : Option (Text × OrderState)) (key : Text) (now later : ℤ)
      (us : List OrderState) (log : List Entry) (st : KeyedState) {st' : KeyedState}
      {new : List Entry}
      → process_keyed value r now later st ≡ some (st', new)
      → History us (outputs_of key log) (st key)
      → History (arrived key r us) (outputs_of key (log ++ new)) (st' key)
  unfolding process_keyed outputs_of
  History-process_keyed value none key now later us log st {st'} {new} e past =
      let kept = some-injective e in
      let same : outputs_of key log ≡ outputs_of key (log ++ new) =
        sym (append-nil (outputs_of key log))
        ∙ sym (
            outputs_of-append key log new
            ∙ ap (λ r. outputs_of key log ++ outputs_of key r.1) (sym kept)) in
      moved refl same (ap (λ r. r.0 key) kept) past
  History-process_keyed value (some (other, o)) key now later us log st e past =
      History-at_key other key (process_element o now later (st other)) st log us
        (arrived key (some (other, o)) us) e past
        (λ k out own handled. rw own (
          element o now later k out past
            (at_same (process_element o now later) other key st own handled)))
        (λ is_other. rw is_other refl)

  -- The order that an update is of: the one with its id. An update without an id is of the order
  -- that Flink takes for it, if any.
  abbrev pub is_of : Option Text → Text → OrderState → Bool
  is_of null_key id o = elim o.order_id [
    | some own ↦ text_eq own id
    | none ↦ elim null_key [ none ↦ false | some own ↦ text_eq own id ]
  ]

  abbrev pub update_of : Option Text → Text → Option (Option OrderState) → List OrderState
  update_of null_key id none = []
  update_of null_key id (some none) = []
  update_of null_key id (some (some o)) = if is_of null_key id o then o ∷ [] else []

  arrived-keyed :
      (null_key : Option Text) (id : Text) (r : Option (Option OrderState)) (us : List OrderState)
      → arrived id (keyed null_key r) us ≡ update_of null_key id r ++ us
  unfolding key_by
  arrived-keyed null_key id none us = refl
  arrived-keyed null_key id (some none) us = refl
  arrived-keyed null_key id (some (some o)) us = go o.order_id null_key
    where
      added : (b : Bool) → (if b then o ∷ us else us) ≡ (if b then o ∷ [] else []) ++ us
      added true = refl
      added false = refl

      go :
          (own null_key : Option Text)
          → arrived id
              (elim own [
                | some k ↦ some (k, o)
                | none ↦ elim null_key [ none ↦ none | some k ↦ some (k, o) ]
              ])
              us
            ≡ (if (elim own [
              | some k ↦ text_eq k id
              | none ↦ elim null_key [ none ↦ false | some k ↦ text_eq k id ]
            ])
                then o ∷ []
                else [])
              ++ us
      go (some k) null_key = added (text_eq k id)
      go none none = refl
      go none (some k) = added (text_eq k id)

  module _ (parse : Text → Option (Option OrderState)) (null_key : Option Text) where
    -- The updates of an order among the records that can be parsed, the last one in front
    unfoldable pub updates_of : Text → List Text → List OrderState
    updates_of id [] = []
    updates_of id (value ∷ values) = update_of null_key id (parse value) ++ updates_of id values

    -- For each order id the outputs and the state of the job are those of a history of the process
    -- function over the updates that carry this id, in their order: the records and timers of other
    -- orders, whatever their number and order, change nothing there. An update without an id counts
    -- for the key that Flink takes for it, if it takes one. The job has not been restarted and no
    -- state has expired.
    pub History-Job :
        {values : List Text} {log : List Entry} {st : KeyedState} (key : Text)
        → Job parse null_key values log st
        → History (updates_of key values) (outputs_of key log) (st key)
    unfolding updates_of outputs_of read_record
    History-Job key started = untouched
    History-Job key (read {values = values} {log = log} {st = st} value now later st' new past e) =
        subst (λ us. History us (outputs_of key (log ++ new)) (st' key))
          (arrived-keyed null_key key (parse value) (updates_of key values))
          (History-process_keyed value (keyed null_key (parse value)) key now later
            (updates_of key values) log st e (History-Job key past))
    History-Job key
          (timed {values = values} {log = log} {st = st} other timestamp now st' new past due e) =
        History-at_key other key (fire timestamp now (st other)) st log (updates_of key values)
          (updates_of key values) e (History-Job key past)
          (λ k out own handled.
            fired timestamp now k out (History-Job key past)
              (at_same (λ k. T.has timestamp k.timers) other key st own due)
              (at_same (fire timestamp now) other key st own handled))
          (λ is_other. refl)
