-- ===== src/Tests/ListTimers.antt =====
-- A timer service that meets its assumptions: the list of the times that have a timer.
use delayed_order_sms_flink.Base.{
  ◌≡◌, refl, Bool, false, ◌&&◌, ◌||◌, not, List, [], ◌∷◌, ℤ, int_eq, int_eq-eq, if◌then◌else◌,
  arith, Bool-cases, inl, inr,
}
use delayed_order_sms_flink.Flink.TimerService.{TimerService}

unfoldable pub has_timer : ℤ → List ℤ → Bool
has_timer t [] = false
has_timer t (u ∷ timers) = int_eq u t || has_timer t timers

unfoldable pub delete_timer : ℤ → List ℤ → List ℤ
delete_timer t [] = []
delete_timer t (u ∷ timers) =
    let rest = delete_timer t timers in if int_eq t u then rest else u ∷ rest

-- There is one timer for a time.
unfoldable pub register_timer : ℤ → List ℤ → List ℤ
register_timer t timers = if has_timer t timers then timers else t ∷ timers

pub has_timer-nil : (t : ℤ) → has_timer t [] ≡ false
unfolding has_timer
has_timer-nil t = refl

pub has_timer-register_timer :
    (t u : ℤ) (timers : List ℤ)
    → has_timer t (register_timer u timers) ≡ (int_eq u t || has_timer t timers)
unfolding register_timer has_timer
has_timer-register_timer t u timers = elim (Bool-cases (has_timer u timers)) [
  | inr e ↦ rw e refl
  | inl e ↦ elim (Bool-cases (int_eq u t)) [
    | inl same ↦ rw (e, same) (rw (int_eq-eq u t same) at e)
    | inr other ↦ rw (e, other) refl
  ]
]

pub has_timer-delete_timer :
    (t u : ℤ) (timers : List ℤ)
    → has_timer t (delete_timer u timers) ≡ (not (int_eq u t) && has_timer t timers)
unfolding delete_timer has_timer
has_timer-delete_timer t u [] = ground arith
has_timer-delete_timer t u (v ∷ timers) = elim (Bool-cases (int_eq u v)) [
  | inl e ↦ rw (e, has_timer-delete_timer t u timers) (rw (int_eq-eq u v e) (ground arith))
  | inr e ↦ rw (e, has_timer-delete_timer t u timers) (ground arith)
]

instance abbrev pub list_timers : TimerService
list_timers = record {
  Timers = List ℤ;
  nothing = [];
  has = has_timer;
  register = register_timer;
  delete = delete_timer;
  has-nothing = has_timer-nil;
  has-register = has_timer-register_timer;
  has-delete = has_timer-delete_timer;
}
