-- ===== src/Runner/Pool.antt =====
-- `_execute_tasks` of runner.py: the threads that run the tasks, as steps on a state. A task is
-- what `run_task` makes of it: its effects in their order, and how it ends.
pub mod Bounds
pub mod Order
pub mod Flushing
pub mod Log
use delayed_order_sms_flink.Base.{
  ℕ, zero, suc, ◌+◌, ◌<◌, ◌≤◌, ◌≡◌, List, [], ◌∷◌, ◌++◌, map, length, All, ℤ, pos, negsuc, Bool,
  true, false, Result, ok, err, Error,
}
use delayed_order_sms_flink.Producer.{OrderKafkaProducer, Flush, flush}
use delayed_order_sms_flink.Runner.Trace.{Action, Trace}

-- `max(1, self.config.max_workers)`
unfoldable pub workers : ℤ → ℕ
workers (pos zero) = 1
workers (pos (suc n)) = suc n
workers (negsuc n) = 1

-- A task that is submitted or will be, one that a thread runs, with the effects that are left, and
-- one that has ended.
pub data Slot (F : Type 0) : Type 0 where
  waiting : Trace F (Unit {0}) → Slot F
  running : List (Action F) → Result (Unit {0}) → Slot F
  finished : Result (Unit {0}) → Slot F

-- The tasks in the order of their submission, and the effects so far, each with the place of the
-- task that it is of.
pub record Pool (F : Type 0) : Type 0 where
  pub slots : List (Slot F)
  pub log : List (ℕ × Action F)

abbrev pub is_active : {F : Type 0} → Slot F → ℕ
is_active (waiting t) = 0
is_active (running left r) = 1
is_active (finished r) = 0

unfoldable pub active : {F : Type 0} → List (Slot F) → ℕ
active [] = 0
active (s ∷ ss) = is_active s + active ss

-- A thread has taken the task.
pub data IsTaken {F : Type 0} : Slot F → Type 0 where
  is_running : {left : List (Action F)} {r : Result (Unit {0})} → IsTaken (running left r)
  is_finished : {r : Result (Unit {0})} → IsTaken (finished r)

module _ {F : Type 0} where
  -- Every task waits.
  unfoldable pub submitted : List (Trace F (Unit {0})) → Pool F
  submitted ts = record { slots = map waiting ts; log = [] }

  -- The queue of the executor is first in, first out, and has `w` threads. A thread takes the first
  -- task that waits, does an effect of its task, or ends with it, also by an error; the other
  -- threads go on then.
  pub data Step (w : ℕ) : Pool F → Pool F → Type 0 where
    take :
        (xs ys : List (Slot F)) (t : Trace F (Unit {0})) (log : List (ℕ × Action F))
        → All IsTaken xs
        → active (xs ++ (waiting t ∷ ys)) < w
        → Step w
            (record { slots = xs ++ (waiting t ∷ ys); log = log })
            (record { slots = xs ++ (running t.0 t.1 ∷ ys); log = log })
    act :
        (xs ys : List (Slot F)) (a : Action F) (left : List (Action F)) (r : Result (Unit {0}))
        (log : List (ℕ × Action F))
        → Step w
            (record { slots = xs ++ (running (a ∷ left) r ∷ ys); log = log })
            (record { slots = xs ++ (running left r ∷ ys); log = log ++ ((length xs, a) ∷ []) })
    end :
        (xs ys : List (Slot F)) (r : Result (Unit {0})) (log : List (ℕ × Action F))
        → Step w
            (record { slots = xs ++ (running [] r ∷ ys); log = log })
            (record { slots = xs ++ (finished r ∷ ys); log = log })

  -- Some steps, and their number.
  pub data Schedule (w : ℕ) : ℕ → Pool F → Pool F → Type 0 where
    none_left : {p : Pool F} → Schedule w zero p p
    further : {n : ℕ} {p q r : Pool F} → Schedule w n p q → Step w q r → Schedule w (suc n) p r

  -- What every step keeps is kept by a schedule.
  pub Schedule-keeps :
      (P : Pool F → Type 0) {w : ℕ}
      → ((p q : Pool F) → Step w p q → P p → P q)
      → {n : ℕ} {p q : Pool F} → Schedule w n p q
      → P p
      → P q
  Schedule-keeps P keeps none_left h = h
  Schedule-keeps P keeps (further before s) h = keeps _ _ s (Schedule-keeps P keeps before h)

  -- `future.result()` of each task: nothing is raised where no task raised, and otherwise what one
  -- of the tasks raised. The `with` statement waits for all of them first.
  pub data Executed : List (Slot F) → Result (Unit {0}) → Type 0 where
    all_returned : {ss : List (Slot F)} → All (λ s. s ≡ finished (ok tt)) ss → Executed ss (ok tt)
    one_raised :
        (xs ys : List (Slot F)) (e : Error) → Executed (xs ++ (finished (err e) ∷ ys)) (err e)

-- The end of `run`: the producer is flushed where nothing was raised.
unfoldable pub complete : OrderKafkaProducer → Result (Unit {0}) → Result Flush
complete producer (ok _) = ok (flush producer)
complete producer (err e) = err e
