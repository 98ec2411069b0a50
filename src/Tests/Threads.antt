-- ===== src/Tests/Threads.antt =====
-- Runs of the threads at concrete tasks.
use delayed_order_sms_flink.Base.{
  ℕ, ◌≡◌, ◌<◌, ◌≤◌, ◌⊎◌, refl, List, [], ◌∷◌, Text, codes, ℤ, pos, ok, err, Error, arith,
}
use delayed_order_sms_flink.Json.{null, str, end}
use delayed_order_sms_flink.Producer.{printed, flush}
use delayed_order_sms_flink.Runner.Trace.{Action, published, Trace}
use delayed_order_sms_flink.Runner.Pool.{
  workers, waiting, running, finished, Pool, active, is_running, submitted, take, act, end,
  Schedule, none_left, further, all_returned, complete,
}
use delayed_order_sms_flink.Runner.Pool.Bounds.{
  active-Schedule, AllFinished, CanStep, total_steps, Schedule-ends,
}
use delayed_order_sms_flink.Runner.Pool.Flushing.{Raises, AllDone, AllDone-complete}
use delayed_order_sms_flink.Tests.Runs.{producer}

-- The task of one message.
abbrev one_message : Text → Trace (ℤ × ℕ) (Unit {0})
one_message id = (published (printed (codes "Orders") (str id) null) ∷ [], ok tt)

abbrev message_of : Text → Action (ℤ × ℕ)
message_of id = published (printed (codes "Orders") (str id) null)

abbrev two_tasks : List (Trace (ℤ × ℕ) (Unit {0}))
two_tasks = one_message (codes "a") ∷ one_message (codes "b") ∷ []

-- The second task is the first to publish.
abbrev ended : Pool (ℤ × ℕ)
ended = record {
  slots = finished (ok tt) ∷ finished (ok tt) ∷ [];
  log = (1, message_of (codes "b")) ∷ (0, message_of (codes "a")) ∷ [];
}

interleaved : Schedule (workers (pos 2)) 6 (submitted two_tasks) ended
unfolding submitted workers active
interleaved =
    let a = message_of (codes "a") in
    let b = message_of (codes "b") in
    let log = (1, b) ∷ [] in
    let both = (1, b) ∷ (0, a) ∷ [] in
    let run_a = running (a ∷ []) (ok tt) in
    let run_b = running [] (ok tt) in
    further
      (further
        (further
          (further
            (further
              (further none_left (
                take [] (waiting (one_message (codes "b")) ∷ []) (one_message (codes "a")) [] tt
                  (omega arith)))
              (take (run_a ∷ []) [] (one_message (codes "b")) [] (is_running, tt) (omega arith)))
            (act (run_a ∷ []) [] b [] (ok tt) []))
          (act [] (run_b ∷ []) a [] (ok tt) log))
        (end [] (run_b ∷ []) (ok tt) both))
      (end (finished (ok tt) ∷ []) [] (ok tt) both)

active-Schedule_example : (active ended.slots ≤ 1) ⊎ (active ended.slots ≤ 2)
active-Schedule_example = active-Schedule (pos 2) two_tasks interleaved

Schedule-ends_example :
    (AllFinished ended.slots × (6 ≡ total_steps two_tasks))
    ⊎ (CanStep (workers (pos 2)) ended × (6 < total_steps two_tasks))
Schedule-ends_example = Schedule-ends (pos 2) two_tasks interleaved

AllDone-complete_example :
    ((e : Error) × Raises e two_tasks × (complete producer (ok tt) ≡ err e))
    ⊎ (AllDone 0 two_tasks ended.log × (complete producer (ok tt) ≡ ok (flush producer)))
AllDone-complete_example =
    AllDone-complete (workers (pos 2)) two_tasks producer interleaved
      (all_returned (refl, (refl, tt)))
