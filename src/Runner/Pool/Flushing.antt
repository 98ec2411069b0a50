-- ===== src/Runner/Pool/Flushing.antt =====
-- When the producer is flushed.
use delayed_order_sms_flink.Base.{
  ℕ, ◌+◌, ◌≡◌, refl, sym, ◌∙◌, ◌⊎◌, inl, inr, List, [], ◌∷◌, All, Result, ok, err, Error, ◌++◌, ap,
}
use delayed_order_sms_flink.Producer.{OrderKafkaProducer, flush}
use delayed_order_sms_flink.Runner.Trace.{Action, Trace}
use delayed_order_sms_flink.Runner.Pool.{
  Slot, waiting, running, finished, Pool, submitted, Schedule, Executed, all_returned, one_raised,
  complete,
}
use delayed_order_sms_flink.Runner.Pool.Order.{of_task, AllFollow, AllFollow-Schedule}

module _ {F : Type 0} where
  -- Every task has had all of its effects, in their order, and returned.
  abbrev pub AllDone : ℕ → List (Trace F (Unit {0})) → List (ℕ × Action F) → Type 0
  AllDone k [] log = Unit
  AllDone k (t ∷ ts) log = (of_task k log ≡ t.0) × (t.1 ≡ ok tt) × AllDone (k + 1) ts log

  AllDone-of_returned :
      (k : ℕ) (ts : List (Trace F (Unit {0}))) (ss : List (Slot F)) (log : List (ℕ × Action F))
      → AllFollow k ts ss log
      → All (λ s. s ≡ finished (ok tt)) ss
      → AllDone k ts log
  AllDone-of_returned k [] ss log h r = tt
  AllDone-of_returned k (t ∷ ts) [] log h r = absurd h
  AllDone-of_returned k (t ∷ ts) (waiting u ∷ ss) log (h, hs) (e, r) = cc
  AllDone-of_returned k (t ∷ ts) (running left x ∷ ss) log (h, hs) (e, r) = cc
  AllDone-of_returned k (t ∷ ts) (finished x ∷ ss) log ((whole, same), hs) (e, r) =
      let returned : x ≡ ok tt = cc in
      (whole, sym same ∙ returned, AllDone-of_returned (k + 1) ts ss log hs r)

  -- One of the tasks raises this alone.
  abbrev pub Raises : Error → List (Trace F (Unit {0})) → Type 0
  Raises e ts =
      (before : List (Trace F (Unit {0}))) × (t : Trace F (Unit {0})) × (after : List
        (Trace F (Unit {0})))
      × (ts ≡ before ++ (t ∷ after))
      × (t.1 ≡ err e)

  Raises-of_finished :
      (k : ℕ) (ts : List (Trace F (Unit {0}))) (xs ys : List (Slot F)) (log : List (ℕ × Action F))
      (e : Error)
      → AllFollow k ts (xs ++ (finished (err e) ∷ ys)) log
      → Raises e ts
  Raises-of_finished k [] [] ys log e h = absurd h
  Raises-of_finished k [] (x ∷ xs) ys log e h = absurd h
  Raises-of_finished k (t ∷ ts) [] ys log e ((whole, same), hs) = ([], t, ts, refl, sym same)
  Raises-of_finished k (t ∷ ts) (x ∷ xs) ys log e (h, hs) =
      let (before, u, after, split, raised) = Raises-of_finished (k + 1) ts xs ys log e hs in
      (t ∷ before, u, after, ap (λ r. t ∷ r) split, raised)

  -- `run` flushes the producer exactly when no order raises: either one of the orders raises an
  -- error, which leaves `run` without a flush, or every order returns and has had all of its effects
  -- in their order, and the producer is flushed.
  pub AllDone-complete :
      (w : ℕ) (ts : List (Trace F (Unit {0}))) (producer : OrderKafkaProducer) {n : ℕ} {q : Pool F}
      {r : Result (Unit {0})}
      → Schedule w n (submitted ts) q
      → Executed q.slots r
      → ((e : Error) × Raises e ts × (complete producer r ≡ err e))
        ⊎ (AllDone 0 ts q.log × (complete producer r ≡ ok (flush producer)))
  unfolding complete
  AllDone-complete w ts producer {q = q} schedule executed =
      elim executed
          as (λ ss r _.
            AllFollow 0 ts ss q.log
            → ((e : Error) × Raises e ts × (complete producer r ≡ err e))
              ⊎ (AllDone 0 ts q.log × (complete producer r ≡ ok (flush producer)))) [
                | all_returned {ss} h ↦
                    λ follow. inr (AllDone-of_returned 0 ts ss q.log follow h, refl)
                | one_raised xs ys e ↦
                    λ follow. inl (e, Raises-of_finished 0 ts xs ys q.log e follow, refl)
              ]
        (AllFollow-Schedule w ts schedule)
