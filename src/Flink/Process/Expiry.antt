-- ===== src/Flink/Process/Expiry.antt =====
-- The time to live that `open` sets on the state: the state goes, the timers stay.
use delayed_order_sms_flink.Base.{
  ℕ, zero, suc, ◌+◌, ◌≤◌, ◌≡◌, true, none, some, List, [], ◌++◌, ℤ, arith,
}
use delayed_order_sms_flink.Flink.TimerService.{TimerService}
use delayed_order_sms_flink.Flink.Model.{OrderState}
use delayed_order_sms_flink.Flink.Process.{Output, Keyed, process_element, fire}
use delayed_order_sms_flink.Flink.Process.Once.{
  sms_count, sms_count-append, recorded, recorded-le, CountsSms-process_element, CountsSms-on_timer,
}

module _ ⦃T : TimerService⦄ where
  -- The state expires.
  abbrev pub expire : Keyed → Keyed
  expire k = record { state = none; timers = k.timers }

  -- What was put out at a key, and what it has now, where its state has expired so many times.
  pub data Lives : ℕ → List Output → Keyed → Type 0 where
    unseen : Lives zero [] (record { state = none; timers = T.nothing })
    updated :
        {n : ℕ} {outs : List Output} {k : Keyed} (incoming : OrderState) (now later : ℤ)
        (k' : Keyed) (out : List Output)
        → Lives n outs k
        → process_element incoming now later k ≡ some (k', out)
        → Lives n (outs ++ out) k'
    timed_out :
        {n : ℕ} {outs : List Output} {k : Keyed} (timestamp now : ℤ) (k' : Keyed)
        (out : List Output)
        → Lives n outs k
        → T.has timestamp k.timers ≡ true
        → fire timestamp now k ≡ some (k', out)
        → Lives n (outs ++ out) k'
    expired :
        {n : ℕ} {outs : List Output} {k : Keyed} → Lives n outs k → Lives (suc n) outs (expire k)

  sms_count-le-recorded :
      {n : ℕ} {outs : List Output} {k : Keyed} → Lives n outs k → sms_count outs ≤ n + recorded k
  unfolding sms_count fire
  sms_count-le-recorded unseen = omega arith
  sms_count-le-recorded (updated {outs = outs} {k = k} incoming now later k' out h e) = omega (
    arith,
    sms_count-append outs out,
    sms_count-le-recorded h,
    CountsSms-process_element incoming now later k e,
  )
  sms_count-le-recorded (timed_out {outs = outs} {k = k} timestamp now k' out h due e) = omega (
    arith,
    sms_count-append outs out,
    sms_count-le-recorded h,
    CountsSms-on_timer timestamp now _ e,
  )
  sms_count-le-recorded (expired {k = k} h) = omega (arith, sms_count-le-recorded h, recorded-le k)

  -- Where the state expires too, with the timers of the lost state still to fire, the number of SMS of
  -- an order is at most one more than the number of times that its state has expired.
  pub sms_count-Lives :
      {n : ℕ} {outs : List Output} {k : Keyed} → Lives n outs k → sms_count outs ≤ n + 1
  sms_count-Lives {k = k} h = omega (arith, sms_count-le-recorded h, recorded-le k)
