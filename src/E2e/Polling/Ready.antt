-- ===== src/E2e/Polling/Ready.antt =====
-- When the polling loops return true.
use delayed_order_sms_flink.Base.{
  ℕ, zero, suc, ◌+◌, ◌*◌, ◌≤◌, ◌<◌, ◌≡◌, ◌∙◌, ap, leb, Bool, true, false, some, ok, arith,
  Bool-cases, inl, inr,
}
use delayed_order_sms_flink.E2e.Host.{Host, seconds, Effect, ◌>>=◌}
use delayed_order_sms_flink.E2e.Polling.{poll, poll_for}
use delayed_order_sms_flink.E2e.Polling.Ends.{KeepsTime, poll-ready, poll-again, round-time, ltb-lt}

module _ ⦃H : Host⦄ where
  -- From a time on, every round sees that what is waited for is there; before, none raises.
  abbrev pub IsReadyFrom : ℕ → Effect Bool → Type 0
  IsReadyFrom time see =
      (w : H.World) → (b : Bool) × ((see w).result ≡ ok b) × (time ≤ H.monotonic w → b ≡ true)

  -- A round, with its pause, takes so long at most.
  abbrev pub RoundTakes : ℕ → Effect Bool → Type 0
  RoundTakes longest see =
      (w : H.World) → H.monotonic (H.sleep 2 (see w).world) ≤ H.monotonic w + longest

  leb-le : (a b : ℕ) → leb a b ≡ true → a ≤ b
  leb-le a b h = ground arith

  lt-leb : (a b : ℕ) → leb a b ≡ false → b < a
  lt-leb a b h = ground arith

  -- Before that time, a round that sees nothing leaves enough time for the next one.
  still_in_time :
      (see : Effect Bool) (time longest deadline : ℕ) (w : H.World)
      → IsReadyFrom time see
      → RoundTakes longest see
      → time + longest ≤ deadline
      → (see w).result ≡ ok false
      → H.monotonic (H.sleep 2 (see w).world) < deadline
  still_in_time see time longest deadline w ready takes enough e =
      let (b, e', late) = ready w in
      elim (Bool-cases (leb time (H.monotonic w))) [
        | inl reached ↦ absurd (let seen = late (leb-le _ _ reached) in cc)
        | inr before ↦ omega (arith, takes w, lt-leb _ _ before)
      ]

  poll-true :
      (see : Effect Bool) (time longest n deadline : ℕ) (w : H.World)
      → KeepsTime see
      → IsReadyFrom time see
      → RoundTakes longest see
      → time + longest ≤ deadline
      → H.monotonic w < deadline
      → deadline ≤ H.monotonic w + seconds (2 * n)
      → (poll see (suc n) deadline w).result ≡ ok (some true)
  poll-true see time longest zero deadline w keeps ready takes enough in_time fuel =
      absurd (omega arith)
  poll-true see time longest (suc n) deadline w keeps ready takes enough in_time fuel =
      let (b, e, late) = ready w in
      elim (Bool-cases b) [
        | inl seen ↦ poll-ready see (suc n) deadline w (ltb-lt _ _ in_time) (e ∙ ap ok seen)
        | inr unseen ↦
            let e' : (see w).result ≡ ok false = e ∙ ap ok unseen in
            let next = H.sleep 2 (see w).world in
            let passed = round-time see w keeps in
            (poll-again see (suc n) deadline w (ltb-lt _ _ in_time) e').0
            ∙ poll-true see time longest n deadline next keeps ready takes enough
                (still_in_time see time longest deadline w ready takes enough e') (omega arith)
      ]

  -- If from some time on every round sees that what is waited for is there, no round raises, and a
  -- round with its pause ends before the deadline when it starts at that time, then the loop returns
  -- true.
  pub poll_for-true :
      (see : Effect Bool) (time longest timeout : ℕ) (w : H.World)
      → KeepsTime see
      → IsReadyFrom time see
      → RoundTakes longest see
      → 0 < timeout
      → time + longest ≤ H.monotonic w + seconds timeout
      → (poll_for see timeout w).result ≡ ok (some true)
  unfolding poll_for ◌>>=◌
  poll_for-true see time longest timeout w keeps ready takes some_time enough =
      poll-true see time longest timeout (H.monotonic w + seconds timeout) w keeps ready takes
        enough (omega arith) (omega arith)
