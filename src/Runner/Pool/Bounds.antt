-- ===== src/Runner/Pool/Bounds.antt =====
-- The number of running tasks, and the number of steps.
use delayed_order_sms_flink.Base.{
  pos_part, ℕ, zero, suc, ◌+◌, ◌<◌, ◌≤◌, ◌≡◌, refl, ap, subst, sym, List, [], ◌∷◌, ◌++◌, length,
  All, ℤ, pos, negsuc, Result, arith, sum_over, inl, inr, ◌⊎◌,
}
use delayed_order_sms_flink.Runner.Trace.{Action, Trace}
use delayed_order_sms_flink.Runner.Pool.{
  workers, Slot, waiting, running, finished, Pool, active, IsTaken, is_finished, submitted, Step,
  take, act, end, Schedule, none_left, further, Schedule-keeps,
}

workers-pos : (n : ℤ) → 0 < workers n
unfolding workers
workers-pos (pos zero) = omega arith
workers-pos (pos (suc n)) = omega arith
workers-pos (negsuc n) = omega arith

workers-le : (n : ℤ) (k : ℕ) → k ≤ workers n → (k ≤ 1) ⊎ (k ≤ pos_part n)
unfolding workers
workers-le (pos zero) k h = inl h
workers-le (pos (suc n)) k h = inr h
workers-le (negsuc n) k h = inl h

module _ {F : Type 0} where
  active-append : (xs ys : List (Slot F)) → active (xs ++ ys) ≡ active xs + active ys
  unfolding active
  active-append [] ys = omega arith
  active-append (x ∷ xs) ys = omega (arith, active-append xs ys)

  active-submitted : (ts : List (Trace F (Unit {0}))) → active (submitted ts).slots ≡ 0
  unfolding active submitted
  active-submitted [] = refl
  active-submitted (t ∷ ts) = omega (arith, active-submitted ts)

  Step-active : {w : ℕ} {p q : Pool F} → Step w p q → active p.slots ≤ w → active q.slots ≤ w
  unfolding active
  Step-active (take xs ys t log first free) h =
      omega (arith, active-append xs (waiting t ∷ ys), active-append xs (running t.0 t.1 ∷ ys))
  Step-active (act xs ys a left r log) h =
      omega (
        arith,
        active-append xs (running (a ∷ left) r ∷ ys),
        active-append xs (running left r ∷ ys),
      )
  Step-active (end xs ys r log) h =
      omega (arith, active-append xs (running [] r ∷ ys), active-append xs (finished r ∷ ys))

  -- However the threads take turns, the number of tasks that run at the same time is at no point
  -- larger than the configured number of workers, or than one where less than one is configured.
  pub active-Schedule :
      (config_workers : ℤ) (ts : List (Trace F (Unit {0}))) {n : ℕ} {q : Pool F}
      → Schedule (workers config_workers) n (submitted ts) q
      → (active q.slots ≤ 1) ⊎ (active q.slots ≤ pos_part config_workers)
  active-Schedule config_workers ts {q = q} h = workers-le config_workers (active q.slots) (
      Schedule-keeps (λ p. active p.slots ≤ workers config_workers) (λ p q s. Step-active s) h
        (omega (arith, active-submitted ts)))

  -- The steps that a task has still to make.
  abbrev pub slot_steps : Slot F → ℕ
  slot_steps (waiting t) = length t.0 + 2
  slot_steps (running left r) = length left + 1
  slot_steps (finished r) = 0

  abbrev pub steps_left : List (Slot F) → ℕ
  steps_left = sum_over slot_steps

  steps_left-append :
      (xs ys : List (Slot F)) → steps_left (xs ++ ys) ≡ steps_left xs + steps_left ys
  unfolding sum_over
  steps_left-append [] ys = omega arith
  steps_left-append (x ∷ xs) ys = omega (arith, steps_left-append xs ys)

  steps_left-Step :
      {w : ℕ} {p q : Pool F} → Step w p q → steps_left p.slots ≡ steps_left q.slots + 1
  unfolding sum_over
  steps_left-Step (take xs ys t log first free) =
      omega
        (arith, steps_left-append xs (waiting t ∷ ys), steps_left-append xs (running t.0 t.1 ∷ ys))
  steps_left-Step (act xs ys a left r log) = omega (
    arith,
    steps_left-append xs (running (a ∷ left) r ∷ ys),
    steps_left-append xs (running left r ∷ ys),
  )
  steps_left-Step (end xs ys r log) =
      omega
        (arith, steps_left-append xs (running [] r ∷ ys), steps_left-append xs (finished r ∷ ys))

  abbrev pub total_steps : List (Trace F (Unit {0})) → ℕ
  total_steps = sum_over (λ t. length t.0 + 2)

  steps_left-submitted :
      (ts : List (Trace F (Unit {0}))) → steps_left (submitted ts).slots ≡ total_steps ts
  unfolding sum_over submitted
  steps_left-submitted [] = refl
  steps_left-submitted (t ∷ ts) = omega (arith, steps_left-submitted ts)

  steps_left-Schedule :
      {w n : ℕ} {p q : Pool F} → Schedule w n p q → n + steps_left q.slots ≡ steps_left p.slots
  steps_left-Schedule none_left = omega arith
  steps_left-Schedule (further h s) = omega (arith, steps_left-Schedule h, steps_left-Step s)

  abbrev pub AllFinished : List (Slot F) → Type 0
  AllFinished = All (λ s. slot_steps s ≡ 0)

  -- A task that runs.
  abbrev HasRunning : List (Slot F) → Type 0
  HasRunning ss =
      (xs : List (Slot F)) × (left : List (Action F)) × (r : Result (Unit {0})) × (ys : List
        (Slot F))
      × (ss ≡ xs ++ (running left r ∷ ys))

  -- No task runs, and one is the first to wait.
  abbrev FirstWaiting : List (Slot F) → Type 0
  FirstWaiting ss =
      (xs : List (Slot F)) × (t : Trace F (Unit {0})) × (ys : List (Slot F)) × (ss
        ≡ xs ++ (waiting t ∷ ys))
      × All IsTaken xs
      × (active ss ≡ 0)

  active-AllFinished : (ss : List (Slot F)) → AllFinished ss → active ss ≡ 0
  unfolding active
  active-AllFinished [] h = refl
  active-AllFinished (waiting t ∷ ss) (h, hs) = absurd (omega (arith, h))
  active-AllFinished (running left r ∷ ss) (h, hs) = absurd (omega (arith, h))
  active-AllFinished (finished r ∷ ss) (h, hs) = omega (arith, active-AllFinished ss hs)

  next_slot : (ss : List (Slot F)) → AllFinished ss ⊎ (HasRunning ss ⊎ FirstWaiting ss)
  unfolding active
  next_slot [] = inl tt
  next_slot (running left r ∷ ss) = inr (inl ([], left, r, ss, refl))
  next_slot (finished r ∷ ss) = elim (next_slot ss) [
    | inl h ↦ inl (refl, h)
    | inr (inl (xs, left, r', ys, e)) ↦
        inr (inl (finished r ∷ xs, left, r', ys, ap (λ l. finished r ∷ l) e))
    | inr (inr (xs, t, ys, e, h, none_active)) ↦ inr (
        inr (
          finished r ∷ xs,
          t,
          ys,
          ap (λ l. finished r ∷ l) e,
          (is_finished, h),
          omega (arith, none_active),
        ))
  ]
  next_slot (waiting t ∷ ss) = elim (next_slot ss) [
    | inl h ↦ inr (inr ([], t, ss, refl, tt, omega (arith, active-AllFinished ss h)))
    | inr (inl (xs, left, r, ys, e)) ↦
        inr (inl (waiting t ∷ xs, left, r, ys, ap (λ l. waiting t ∷ l) e))
    | inr (inr (xs, u, ys, e, h, none_active)) ↦
        inr (inr ([], t, ss, refl, tt, omega (arith, none_active)))
  ]

  -- The state can go on.
  abbrev pub CanStep : ℕ → Pool F → Type 0
  CanStep w p = (q : Pool F) × Step w p q

  CanStep-running :
      (w : ℕ) (xs ys : List (Slot F)) (left : List (Action F)) (r : Result (Unit {0}))
      (log : List (ℕ × Action F))
      → CanStep w (record { slots = xs ++ (running left r ∷ ys); log = log })
  CanStep-running w xs ys [] r log = (_, end xs ys r log)
  CanStep-running w xs ys (a ∷ left) r log = (_, act xs ys a left r log)

  AllFinished-or_CanStep :
      (w : ℕ)
      → 0 < w
      → (ss : List (Slot F)) (log : List (ℕ × Action F))
      → AllFinished ss ⊎ CanStep w (record { slots = ss; log = log })
  AllFinished-or_CanStep w pos_w ss log =
      let at : List (Slot F) → Type 0 = λ ss. CanStep w (record { slots = ss; log = log }) in
      elim (next_slot ss) [
        | inl h ↦ inl h
        | inr (inl (xs, left, r, ys, e)) ↦
            inr (subst at (sym e) (CanStep-running w xs ys left r log))
        | inr (inr (xs, t, ys, e, h, none_active)) ↦
            inr (subst at (sym e) (_, take xs ys t log h (omega (arith, ap active e, none_active))))
      ]

  steps_left-AllFinished : (ss : List (Slot F)) → AllFinished ss → steps_left ss ≡ 0
  unfolding sum_over
  steps_left-AllFinished [] h = refl
  steps_left-AllFinished (s ∷ ss) (h, hs) = omega (arith, h, steps_left-AllFinished ss hs)

  -- The threads finish all tasks, however they take turns and whichever tasks raise, and also if
  -- the configuration asks for no worker: after any number of steps, all tasks are finished and the
  -- steps are one for each effect of each task and two more for each task, or there are fewer steps
  -- than that and a thread can go on.
  pub Schedule-ends :
      (config_workers : ℤ) (ts : List (Trace F (Unit {0}))) {n : ℕ} {q : Pool F}
      → Schedule (workers config_workers) n (submitted ts) q
      → (AllFinished q.slots × (n ≡ total_steps ts))
        ⊎ (CanStep (workers config_workers) q × (n < total_steps ts))
  Schedule-ends config_workers ts {n} {q} h =
      let whole = steps_left-Schedule h in
      elim (AllFinished-or_CanStep (workers config_workers) (workers-pos config_workers) q.slots
        q.log) [
          | inl done ↦ inl (
            done,
            omega (arith, whole, steps_left-submitted ts, steps_left-AllFinished q.slots done),
          )
          | inr (q', s) ↦
              inr ((q', s), omega (arith, whole, steps_left-submitted ts, steps_left-Step s))
        ]
