-- ===== src/Flink/TimerService.antt =====
-- Flink's timer service at one key, which the job calls through `TimerService` and which is not in
-- the repository: the timers that are set, and what its documentation says of the calls.
use delayed_order_sms_flink.Base.{◌≡◌, Bool, false, ◌&&◌, ◌||◌, not, ℤ, int_eq}

pub record TimerService : Type 1 where
  pub Timers : Type 0
  -- No timer is set.
  pub nothing : Timers
  -- Whether a timer is set for the time
  pub has : ℤ → Timers → Bool
  -- `registerProcessingTimeTimer`
  pub register : ℤ → Timers → Timers
  -- `deleteProcessingTimeTimer`
  pub delete : ℤ → Timers → Timers
  pub has-nothing : (t : ℤ) → has t nothing ≡ false
  pub has-register :
      (t u : ℤ) (timers : Timers) → has t (register u timers) ≡ (int_eq u t || has t timers)
  pub has-delete :
      (t u : ℤ) (timers : Timers) → has t (delete u timers) ≡ (not (int_eq u t) && has t timers)
