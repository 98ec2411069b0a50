-- ===== src/Runner/Pool/Order.antt =====
-- The effects of each task happen in the order of the task, whatever the other tasks do.
use delayed_order_sms_flink.Base.{
  ℕ, ◌+◌, ◌<◌, ◌≡◌, refl, ap, subst, sym, ◌∙◌, false, List, [], ◌∷◌, ◌++◌, append_assoc, append-nil,
  map, length, if◌then◌else◌, ◌==◌, ==_iff, Result, arith,
}
use delayed_order_sms_flink.Runner.Trace.{Action, Trace}
use delayed_order_sms_flink.Runner.Pool.{
  Slot, waiting, running, finished, Pool, submitted, Step, take, act, end, Schedule, Schedule-keeps,
}

module _ {F : Type 0} where
  -- The effects of the task at a place.
  unfoldable pub of_task : ℕ → List (ℕ × Action F) → List (Action F)
  of_task k [] = []
  of_task k ((j, a) ∷ log) = let rest = of_task k log in if j == k then a ∷ rest else rest

  of_task-append :
      (k : ℕ) (xs ys : List (ℕ × Action F)) → of_task k (xs ++ ys) ≡ of_task k xs ++ of_task k ys
  unfolding of_task
  of_task-append k [] ys = refl
  of_task-append k ((j, a) ∷ xs) ys = ground (arith, of_task-append k xs ys)

  -- The effects of the log and those that are left are the task's, and it ends as the task does.
  abbrev pub Follows : Trace F (Unit {0}) → List (Action F) → Slot F → Type 0
  Follows t did (waiting u) = (did ≡ []) × (u ≡ t)
  Follows t did (running left r) = (did ++ left ≡ t.0) × (r ≡ t.1)
  Follows t did (finished r) = (did ≡ t.0) × (r ≡ t.1)

  -- The same of every task, from the place `k` on.
  abbrev pub AllFollow :
      ℕ → List (Trace F (Unit {0})) → List (Slot F) → List (ℕ × Action F) → Type 0
  AllFollow k [] [] log = Unit
  AllFollow k [] (s ∷ ss) log = ⊥
  AllFollow k (t ∷ ts) [] log = ⊥
  AllFollow k (t ∷ ts) (s ∷ ss) log = Follows t (of_task k log) s × AllFollow (k + 1) ts ss log

  AllFollow-submitted :
      (k : ℕ) (ts : List (Trace F (Unit {0}))) → AllFollow k ts (map waiting ts) []
  unfolding of_task
  AllFollow-submitted k [] = tt
  AllFollow-submitted k (t ∷ ts) = ((refl, refl), AllFollow-submitted (k + 1) ts)

  -- A slot is replaced; the log stays.
  AllFollow-replace :
      (k : ℕ) (ts : List (Trace F (Unit {0}))) (xs ys : List (Slot F)) (s s' : Slot F)
      (log : List (ℕ × Action F))
      → ((t : Trace F (Unit {0})) (did : List (Action F)) → Follows t did s → Follows t did s')
      → AllFollow k ts (xs ++ (s ∷ ys)) log
      → AllFollow k ts (xs ++ (s' ∷ ys)) log
  AllFollow-replace k [] [] ys s s' log f h = h
  AllFollow-replace k [] (x ∷ xs) ys s s' log f h = h
  AllFollow-replace k (t ∷ ts) [] ys s s' log f (h, hs) = (f t (of_task k log) h, hs)
  AllFollow-replace k (t ∷ ts) (x ∷ xs) ys s s' log f (h, hs) =
      (h, AllFollow-replace (k + 1) ts xs ys s s' log f hs)

  of_task-other :
      (k j : ℕ) (a : Action F) (log : List (ℕ × Action F))
      → (j == k) ≡ false
      → of_task k (log ++ ((j, a) ∷ [])) ≡ of_task k log
  unfolding of_task
  of_task-other k j a log h = of_task-append k log ((j, a) ∷ []) ∙ rw h (append-nil (of_task k log))

  of_task-own :
      (k : ℕ) (a : Action F) (log : List (ℕ × Action F))
      → of_task k (log ++ ((k, a) ∷ [])) ≡ of_task k log ++ (a ∷ [])
  unfolding of_task
  of_task-own k a log = of_task-append k log ((k, a) ∷ []) ∙ rw ((==_iff k k).1 refl) refl

  -- An effect of a task that stands before the place `k`.
  AllFollow-later :
      (k j : ℕ) (ts : List (Trace F (Unit {0}))) (ss : List (Slot F)) (a : Action F)
      (log : List (ℕ × Action F))
      → j < k
      → AllFollow k ts ss log
      → AllFollow k ts ss (log ++ ((j, a) ∷ []))
  AllFollow-later k j [] [] a log lt h = h
  AllFollow-later k j [] (s ∷ ss) a log lt h = h
  AllFollow-later k j (t ∷ ts) [] a log lt h = h
  AllFollow-later k j (t ∷ ts) (s ∷ ss) a log lt (h, hs) = (
    subst (λ did. Follows t did s) (sym (of_task-other k j a log (ground arith))) h,
    AllFollow-later (k + 1) j ts ss a log (omega arith) hs,
  )

  -- A task does its next effect.
  AllFollow-act :
      (k j : ℕ) (ts : List (Trace F (Unit {0}))) (xs ys : List (Slot F)) (a : Action F)
      (left : List (Action F)) (r : Result (Unit {0})) (log : List (ℕ × Action F))
      → j ≡ k + length xs
      → AllFollow k ts (xs ++ (running (a ∷ left) r ∷ ys)) log
      → AllFollow k ts (xs ++ (running left r ∷ ys)) (log ++ ((j, a) ∷ []))
  AllFollow-act k j [] [] ys a left r log e h = h
  AllFollow-act k j [] (x ∷ xs) ys a left r log e h = h
  AllFollow-act k j (t ∷ ts) [] ys a left r log e ((h, hr), hs) =
      let own : of_task k (log ++ ((j, a) ∷ [])) ≡ of_task k log ++ (a ∷ []) =
        subst (λ i. of_task k (log ++ ((i, a) ∷ [])) ≡ of_task k log ++ (a ∷ [])) (omega (arith, e))
          (of_task-own k a log) in
      (
        (ap (λ did. did ++ left) own ∙ (append_assoc (of_task k log) (a ∷ []) left ∙ h), hr),
        AllFollow-later (k + 1) j ts ys a log (omega (arith, e)) hs,
      )
  AllFollow-act k j (t ∷ ts) (x ∷ xs) ys a left r log e (h, hs) = (
    subst (λ did. Follows t did x) (sym (of_task-other k j a log (ground arith))) h,
    AllFollow-act (k + 1) j ts xs ys a left r log (omega (arith, e)) hs,
  )

  AllFollow-Step :
      {w : ℕ} {p q : Pool F} (ts : List (Trace F (Unit {0})))
      → Step w p q
      → AllFollow 0 ts p.slots p.log
      → AllFollow 0 ts q.slots q.log
  AllFollow-Step ts (take xs ys t log first free) h =
      AllFollow-replace 0 ts xs ys (waiting t) (running t.0 t.1) log
        (λ u did (none_done, same). (rw (none_done, same) refl, rw same refl)) h
  AllFollow-Step ts (act xs ys a left r log) h =
      AllFollow-act 0 (length xs) ts xs ys a left r log (omega arith) h
  AllFollow-Step ts (end xs ys r log) h =
      AllFollow-replace 0 ts xs ys (running [] r) (finished r) log
        (λ t did (whole, same). (sym (append-nil did) ∙ whole, same)) h

  -- However the threads take turns, the effects of each order so far, and so its messages, are the
  -- first of those that it has alone, in the same order; a task that has ended has had all of its
  -- effects and ended as it does alone, whatever the others raised.
  pub AllFollow-Schedule :
      (w : ℕ) (ts : List (Trace F (Unit {0}))) {n : ℕ} {q : Pool F}
      → Schedule w n (submitted ts) q
      → AllFollow 0 ts q.slots q.log
  unfolding submitted
  AllFollow-Schedule w ts h =
      Schedule-keeps (λ p. AllFollow 0 ts p.slots p.log) (λ p q s. AllFollow-Step ts s) h
        (AllFollow-submitted 0 ts)
