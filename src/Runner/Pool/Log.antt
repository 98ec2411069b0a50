-- ===== src/Runner/Pool/Log.antt =====
-- What holds of every effect of the tasks holds of the log.
use delayed_order_sms_flink.Base.{ℕ, List, [], ◌∷◌, ◌++◌, map, All, All-append}
use delayed_order_sms_flink.Runner.Trace.{Action, Trace}
use delayed_order_sms_flink.Runner.Pool.{
  Slot, waiting, running, finished, Pool, submitted, Step, take, act, end, Schedule, Schedule-keeps,
}

module _ {F : Type 0} (P : Action F → Type 0) where
  abbrev pub AllLogged : List (ℕ × Action F) → Type 0
  AllLogged = All (λ (k, a). P a)

  -- What is left of a task
  abbrev AllLeft : Slot F → Type 0
  AllLeft (waiting t) = All P t.0
  AllLeft (running left r) = All P left
  AllLeft (finished r) = Unit

  abbrev Keeps : Pool F → Type 0
  Keeps p = All AllLeft p.slots × AllLogged p.log

  AllLeft-replace :
      (xs ys : List (Slot F)) (s s' : Slot F)
      → (AllLeft s → AllLeft s')
      → All AllLeft (xs ++ (s ∷ ys))
      → All AllLeft (xs ++ (s' ∷ ys))
  AllLeft-replace [] ys s s' f (h, hs) = (f h, hs)
  AllLeft-replace (x ∷ xs) ys s s' f (h, hs) = (h, AllLeft-replace xs ys s s' f hs)

  AllLeft-at : (xs ys : List (Slot F)) (s : Slot F) → All AllLeft (xs ++ (s ∷ ys)) → AllLeft s
  AllLeft-at [] ys s (h, hs) = h
  AllLeft-at (x ∷ xs) ys s (h, hs) = AllLeft-at xs ys s hs

  Keeps-Step : {w : ℕ} (p q : Pool F) → Step w p q → Keeps p → Keeps q
  Keeps-Step p q (take xs ys t log first free) (left, logged) =
      (AllLeft-replace xs ys (waiting t) (running t.0 t.1) (λ h. h) left, logged)
  Keeps-Step p q (act xs ys a left r log) (all, logged) = (
    AllLeft-replace xs ys (running (a ∷ left) r) (running left r) (λ h. h.1) all,
    All-append (λ (k, a). P a) log _ logged ((AllLeft-at xs ys (running (a ∷ left) r) all).0, tt),
  )
  Keeps-Step p q (end xs ys r log) (left, logged) =
      (AllLeft-replace xs ys (running [] r) (finished r) (λ h. tt) left, logged)

  AllLeft-waiting :
      (ts : List (Trace F (Unit {0}))) → All (λ t. All P t.0) ts → All AllLeft (map waiting ts)
  AllLeft-waiting [] h = tt
  AllLeft-waiting (t ∷ ts) (h, hs) = (h, AllLeft-waiting ts hs)

  pub AllLogged-Schedule :
      (w : ℕ) (ts : List (Trace F (Unit {0}))) {n : ℕ} {q : Pool F}
      → All (λ t. All P t.0) ts
      → Schedule w n (submitted ts) q
      → AllLogged q.log
  unfolding submitted
  AllLogged-Schedule w ts h schedule =
      (Schedule-keeps Keeps Keeps-Step schedule (AllLeft-waiting ts h, tt)).1
