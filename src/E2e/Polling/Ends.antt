-- ===== src/E2e/Polling/Ends.antt =====
-- The polling loops end, and a round has seen what they return.
use delayed_order_sms_flink.Base.{
  ℕ, zero, suc, ◌+◌, ◌*◌, ◌≤◌, ◌<◌, ◌≡◌, refl, ◌∙◌, sym, subst, Bool, true, false, Option, none,
  some, Text, ltb, Error, Result, ok, err, arith, Bool-cases, Result-cases, inl, inr, ◌⊎◌,
}
use delayed_order_sms_flink.E2e.Host.{Host, seconds, Effect, Done, ◌>>=◌}
use delayed_order_sms_flink.E2e.Polling.{
  poll, poll_for, see_healthy, see_running, compose_ps, job_url,
}

module _ ⦃H : Host⦄ where
  -- The clock does not go back in a round.
  abbrev pub KeepsTime : Effect Bool → Type 0
  KeepsTime see = (w : H.World) → H.monotonic w ≤ H.monotonic (see w).world

  pub KeepsTime-see_healthy : KeepsTime see_healthy
  unfolding see_healthy ◌>>=◌
  KeepsTime-see_healthy w = elim (Result-cases (H.run compose_ps none w).0) [
    | inl (r, e) ↦ rw e (H.monotonic-run compose_ps none w)
    | inr (x, e) ↦ rw e (H.monotonic-run compose_ps none w)
  ]

  pub KeepsTime-see_running : (job_id : Text) → KeepsTime (see_running job_id)
  unfolding see_running ◌>>=◌
  KeepsTime-see_running job_id w = elim (Result-cases (H.urlopen (job_url job_id) w).0) [
    | inl (r, e) ↦ rw e (H.monotonic-urlopen (job_url job_id) w)
    | inr (x, e) ↦ rw e (H.monotonic-urlopen (job_url job_id) w)
  ]

  -- A round saw this, at a time from `start` on and before the deadline.
  abbrev pub Saw : Effect Bool → ℕ → ℕ → Result Bool → Type 0
  Saw see start deadline r =
      (v : H.World) × (start ≤ H.monotonic v) × (H.monotonic v < deadline) × ((see v).result ≡ r)

  -- How a loop ends: what a round raises is raised; true is returned where a round saw that what is
  -- waited for is there, and false when the time is over.
  abbrev pub Ends : Effect Bool → ℕ → ℕ → Done H.World (Option Bool) → Type 0
  Ends see start deadline d =
      ((x : Error) × (d.result ≡ err x) × Saw see start deadline (err x))
      ⊎ ((d.result ≡ ok (some true)) × Saw see start deadline (ok true))
      ⊎ ((d.result ≡ ok (some false)) × (deadline ≤ H.monotonic d.world))

  -- The four ways of one round
  pub poll-late :
      (see : Effect Bool) (n deadline : ℕ) (w : H.World)
      → ltb (H.monotonic w) deadline ≡ false
      → ((poll see (suc n) deadline w).result ≡ ok (some false))
        × ((poll see (suc n) deadline w).world ≡ w)
  unfolding poll ◌>>=◌
  poll-late see n deadline w e = rw e (refl, refl)

  pub poll-raised :
      (see : Effect Bool) (n deadline : ℕ) (w : H.World) (x : Error)
      → ltb (H.monotonic w) deadline ≡ true
      → (see w).result ≡ err x
      → (poll see (suc n) deadline w).result ≡ err x
  unfolding poll ◌>>=◌
  poll-raised see n deadline w x e e' = rw (e, e') refl

  pub poll-ready :
      (see : Effect Bool) (n deadline : ℕ) (w : H.World)
      → ltb (H.monotonic w) deadline ≡ true
      → (see w).result ≡ ok true
      → (poll see (suc n) deadline w).result ≡ ok (some true)
  unfolding poll ◌>>=◌
  poll-ready see n deadline w e e' = rw (e, e') refl

  pub poll-again :
      (see : Effect Bool) (n deadline : ℕ) (w : H.World)
      → ltb (H.monotonic w) deadline ≡ true
      → (see w).result ≡ ok false
      → let d = poll see (suc n) deadline w in
        let d' = poll see n deadline (H.sleep 2 (see w).world) in
        (d.result ≡ d'.result) × (d.world ≡ d'.world)
  unfolding poll ◌>>=◌
  poll-again see n deadline w e e' = rw (e, e') (refl, refl)

  lt-ltb : (a b : ℕ) → ltb a b ≡ true → a < b
  lt-ltb a b h = ground arith

  pub ltb-lt : (a b : ℕ) → a < b → ltb a b ≡ true
  ltb-lt a b h = ground arith

  le-ltb : (a b : ℕ) → ltb a b ≡ false → b ≤ a
  le-ltb a b h = ground arith

  later :
      (see : Effect Bool) {start start' deadline : ℕ} {r : Result Bool}
      → start ≤ start'
      → Saw see start' deadline r
      → Saw see start deadline r
  later see h (v, from, before, saw) = (v, omega arith, before, saw)

  Ends-again :
      (see : Effect Bool) {start start' deadline : ℕ} (d d' : Done H.World (Option Bool))
      → start ≤ start'
      → (d.result ≡ d'.result) × (d.world ≡ d'.world)
      → Ends see start' deadline d'
      → Ends see start deadline d
  Ends-again see d d' h (r, w) (inl (x, e, saw)) = inl (x, r ∙ e, later see h saw)
  Ends-again see d d' h (r, w) (inr (inl (e, saw))) = inr (inl (r ∙ e, later see h saw))
  Ends-again see {deadline = deadline} d d' h (r, w) (inr (inr (e, over))) =
      inr (inr (r ∙ e, subst (λ v. deadline ≤ H.monotonic v) (sym w) over))

  -- A round takes two seconds.
  pub round-time :
      (see : Effect Bool) (w : H.World)
      → KeepsTime see
      → H.monotonic w + seconds 2 ≤ H.monotonic (H.sleep 2 (see w).world)
  round-time see w keeps = omega (arith, keeps w, H.monotonic-sleep 2 (see w).world)

  -- A round that sees nothing is left.
  Ends-round :
      (see : Effect Bool) (n deadline : ℕ) (w : H.World)
      → let goal = Ends see (H.monotonic w) deadline (poll see (suc n) deadline w) in
        (H.monotonic w < deadline → (see w).result ≡ ok false → goal) → goal
  Ends-round see n deadline w again = elim (Bool-cases (ltb (H.monotonic w) deadline)) [
    | inr e ↦
        let (r, v) = poll-late see n deadline w e in
        inr (inr (r, subst (λ v. deadline ≤ H.monotonic v) (sym v) (le-ltb _ _ e)))
    | inl e ↦
        let in_time = lt-ltb (H.monotonic w) deadline e in
        elim (Result-cases (see w).result) [
          | inr (x, e') ↦
              inl (x, poll-raised see n deadline w x e e', (w, omega arith, in_time, e'))
          | inl (true, e') ↦
              inr (inl (poll-ready see n deadline w e e', (w, omega arith, in_time, e')))
          | inl (false, e') ↦ again in_time e'
        ]
  ]

  Ends-poll :
      (see : Effect Bool) (n deadline : ℕ) (w : H.World)
      → KeepsTime see
      → deadline ≤ H.monotonic w + seconds (2 * n)
      → Ends see (H.monotonic w) deadline (poll see (suc n) deadline w)
  Ends-poll see zero deadline w keeps h =
      Ends-round see 0 deadline w λ in_time _. absurd (omega arith)
  Ends-poll see (suc n) deadline w keeps h = Ends-round see (suc n) deadline w λ in_time e.
      let next = H.sleep 2 (see w).world in
      let passed = round-time see w keeps in
      Ends-again see (poll see (suc (suc n)) deadline w) (poll see (suc n) deadline next)
        (omega arith) (poll-again see (suc n) deadline w (ltb-lt _ _ in_time) e)
        (Ends-poll see n deadline next keeps (omega arith))

  pub Ends-poll_for :
      (see : Effect Bool) (timeout : ℕ) (w : H.World)
      → KeepsTime see
      → Ends see (H.monotonic w) (H.monotonic w + seconds timeout) (poll_for see timeout w)
  unfolding poll_for ◌>>=◌
  Ends-poll_for see timeout w keeps =
      Ends-poll see timeout (H.monotonic w + seconds timeout) w keeps (omega arith)
