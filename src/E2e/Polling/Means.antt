-- ===== src/E2e/Polling/Means.antt =====
-- What the output and the reply say where the polling loops return true.
use delayed_order_sms_flink.Base.{
  ℕ, ◌+◌, ◌≤◌, ◌<◌, ◌≡◌, ◌≢◌, refl, ◌∙◌, ap, Bool, true, false, ◌&&◌, Option, none, some, List, [],
  ◌∷◌, All, Text, text_eq_iff, codes, pos, int_eq, int_eq-eq, if◌then◌else◌, Error, Result, ok, err,
  ok-injective, Bool-cases, inl, inr, ◌⊎◌, arith,
}
use delayed_order_sms_flink.Json.{Json, null, bool, int, float, str, arr, obj}
use delayed_order_sms_flink.E2e.Host.{
  Completed, Host, seconds, Effect, Done, >>=-eq-ok, subprocess_run, urlopen,
}
use delayed_order_sms_flink.E2e.Lines.{filled_lines}
use delayed_order_sms_flink.E2e.Polling.{
  get_in, is_text, is_ok, all_ok, reports_ready, see_healthy, reports_running, see_running,
  poll_for, poll_healthy, poll_job_running, compose_ps, job_url,
}
use delayed_order_sms_flink.E2e.Polling.Ends.{
  Saw, Ends, Ends-poll_for, KeepsTime-see_healthy, KeepsTime-see_running,
}

is_text-eq : {F : Type 0} (t : Text) (v : Json F) → is_text t v ≡ true → v ≡ str t
unfolding is_text
is_text-eq t null h = ground arith
is_text-eq t (bool b) h = ground arith
is_text-eq t (int n) h = ground arith
is_text-eq t (float x) h = ground arith
is_text-eq t (str s) h = ap str ((text_eq_iff s t).0 h)
is_text-eq t (arr xs) h = ground arith
is_text-eq t (obj fs) h = ground arith

-- A container that runs, and is healthy or says nothing of its health
abbrev pub IsUp : {F : Type 0} → Json F → Type 0
IsUp c =
    (get_in (codes "State") (str []) c ≡ ok (str (codes "running")))
    × ((get_in (codes "Health") (str []) c ≡ ok (str (codes "healthy")))
        ⊎ (get_in (codes "Health") (str []) c ≡ ok (str [])))

IsUp-values :
    {F : Type 0} (state health : Json F)
    → (is_text (codes "running") state
        && (if is_text (codes "healthy") health then true else is_text [] health))
      ≡ true
    → (state ≡ str (codes "running")) × ((health ≡ str (codes "healthy")) ⊎ (health ≡ str []))
IsUp-values state health h = elim (Bool-cases (is_text (codes "running") state)) [
  | inr e ↦ absurd (ground arith)
  | inl e ↦ elim (Bool-cases (is_text (codes "healthy") health)) [
    | inl e' ↦ (is_text-eq _ state e, inl (is_text-eq _ health e'))
    | inr e' ↦ (is_text-eq _ state e, inr (is_text-eq _ health (ground arith)))
  ]
]

values-IsUp :
    {F : Type 0} (state health : Result (Json F))
    → ◌≡◌ {A = Result Bool}
        (elim state [
          | err e ↦ err e
          | ok s ↦ elim health [
            | err e ↦ err e
            | ok h ↦ ok (
                is_text (codes "running") s
                && (if is_text (codes "healthy") h then true else is_text [] h))
          ]
        ])
        (ok true)
    → (state ≡ ok (str (codes "running")))
      × ((health ≡ ok (str (codes "healthy"))) ⊎ (health ≡ ok (str [])))
values-IsUp (err x) health h = absurd (ground arith)
values-IsUp (ok s) (err x) h = absurd (ground arith)
values-IsUp (ok s) (ok k) h =
    let (running, healthy) = IsUp-values s k (ok-injective h) in
    (ap ok running, elim healthy [ inl a ↦ inl (ap ok a) | inr b ↦ inr (ap ok b) ])

is_ok-IsUp : {F : Type 0} (c : Json F) → is_ok c ≡ ok true → IsUp c
unfolding is_ok
is_ok-IsUp c h =
    values-IsUp (get_in (codes "State") (str []) c) (get_in (codes "Health") (str []) c) h

both_ok :
    (a b : Result Bool)
    → ◌≡◌ {A = Result Bool}
        (elim a [
          | err e ↦ err e
          | ok this ↦ elim b [ err e ↦ err e | ok rest ↦ ok (this && rest) ]
        ])
        (ok true)
    → (a ≡ ok true) × (b ≡ ok true)
both_ok (err x) b h = absurd (ground arith)
both_ok (ok this) (err x) h = absurd (ground arith)
both_ok (ok true) (ok rest) h = (refl, h)
both_ok (ok false) (ok rest) h = absurd (ground arith)

state_is :
    {F : Type 0} (t : Text) (r : Result (Json F))
    → ◌≡◌ {A = Result Bool} (elim r [ err e ↦ err e | ok state ↦ ok (is_text t state) ]) (ok true)
    → r ≡ ok (str t)
state_is t (err x) h = absurd (ground arith)
state_is t (ok state) h = ap ok (is_text-eq t state (ok-injective h))

module _ ⦃H : Host⦄ where
  -- A line is no JSON, or a container that is up.
  abbrev pub LineIsUp : Text → Type 0
  LineIsUp line = (H.loads line ≡ none) ⊎ ((c : Json H.Float) × (H.loads line ≡ some c) × IsUp c)

  all_ok-cons :
      (line : Text) (o : Option (Json H.Float)) (rest : Result Bool)
      → H.loads line ≡ o
      → ◌≡◌ {A = Result Bool}
          (elim o [
            | none ↦ rest
            | some c ↦ elim (is_ok c) [
              | err e ↦ err e
              | ok this ↦ elim rest [ err e ↦ err e | ok others ↦ ok (this && others) ]
            ]
          ])
          (ok true)
      → LineIsUp line × (rest ≡ ok true)
  all_ok-cons line none rest e h = (inl e, h)
  all_ok-cons line (some c) rest e h =
      let (this, others) = both_ok (is_ok c) rest h in (inr (c, e, is_ok-IsUp c this), others)

  all_ok-IsUp : (lines : List Text) → all_ok lines ≡ ok true → All LineIsUp lines
  unfolding all_ok
  all_ok-IsUp [] h = tt
  all_ok-IsUp (line ∷ lines) h =
      let (up, rest) = all_ok-cons line (H.loads line) (all_ok lines) refl h in
      (up, all_ok-IsUp lines rest)

  -- The command succeeded and has an output, of which each line that is JSON is a container that
  -- is up. The output may have no such line.
  abbrev pub OutputIsUp : Completed → Type 0
  OutputIsUp result =
      (result.returncode ≡ pos 0)
      × (filled_lines result.stdout ≢ [])
      × All LineIsUp (filled_lines result.stdout)

  OutputIsUp-lines :
      (lines : List Text)
      → elim lines [ [] ↦ ok false | l ∷ ls ↦ all_ok (l ∷ ls) ] ≡ ok true
      → (lines ≢ []) × All LineIsUp lines
  OutputIsUp-lines [] h = absurd (ground arith)
  OutputIsUp-lines (l ∷ lines) h = (λ e. cc, all_ok-IsUp (l ∷ lines) h)

  reports_ready-OutputIsUp :
      (result : Completed) → reports_ready result ≡ ok true → OutputIsUp result
  unfolding reports_ready
  reports_ready-OutputIsUp result h = elim (Bool-cases (int_eq result.returncode (pos 0))) [
    | inr e ↦ absurd (ground arith)
    | inl e ↦
        let (filled, up) = OutputIsUp-lines (filled_lines result.stdout) (rw e at h) in
        (int_eq-eq result.returncode (pos 0) e, filled, up)
  ]

  -- `docker compose ps` says so.
  abbrev pub ServicesUp : H.World → Type 0
  ServicesUp v =
      (result : Completed) × ((H.run compose_ps none v).0 ≡ ok result) × OutputIsUp result

  see_healthy-ServicesUp : (v : H.World) → (see_healthy v).result ≡ ok true → ServicesUp v
  unfolding see_healthy
  see_healthy-ServicesUp v h =
      let (result, e, h', _) = >>=-eq-ok (subprocess_run compose_ps none) _ v h in
      (result, e, reports_ready-OutputIsUp result h')

  -- Flink replies that the job is in the state RUNNING.
  abbrev pub JobRuns : Text → H.World → Type 0
  JobRuns job_id v =
      (body : Text) × (job : Json H.Float) × ((H.urlopen (job_url job_id) v).0 ≡ ok (some body))
      × (H.loads body ≡ some job)
      × (get_in (codes "state") (str []) job ≡ ok (str (codes "RUNNING")))

  loaded_state :
      (body : Text) (o : Option (Json H.Float))
      → H.loads body ≡ o
      → ◌≡◌ {A = Result Bool}
          (elim o [
            | none ↦ ok false
            | some job ↦ elim (get_in (codes "state") (str []) job) [
              | err e ↦ err e
              | ok state ↦ ok (is_text (codes "RUNNING") state)
            ]
          ])
          (ok true)
      → (job : Json H.Float) × (H.loads body ≡ some job)
        × (get_in (codes "state") (str []) job ≡ ok (str (codes "RUNNING")))
  loaded_state body none e h = absurd (ground arith)
  loaded_state body (some job) e h =
      (job, e, state_is (codes "RUNNING") (get_in (codes "state") (str []) job) h)

  reports_running-state :
      (reply : Option Text)
      → reports_running reply ≡ ok true
      → (body : Text) × (job : Json H.Float) × (reply ≡ some body)
        × (H.loads body ≡ some job)
        × (get_in (codes "state") (str []) job ≡ ok (str (codes "RUNNING")))
  unfolding reports_running
  reports_running-state none h = absurd (ground arith)
  reports_running-state (some body) h =
      let (job, e, running) = loaded_state body (H.loads body) refl h in
      (body, job, refl, e, running)

  see_running-JobRuns :
      (job_id : Text) (v : H.World) → (see_running job_id v).result ≡ ok true → JobRuns job_id v
  unfolding see_running
  see_running-JobRuns job_id v h =
      let (reply, e, h', _) = >>=-eq-ok (urlopen (job_url job_id)) _ v h in
      let (body, job, same, loaded, running) = reports_running-state reply h' in
      (body, job, e ∙ ap ok same, loaded, running)

  -- How a loop ends: what a round raises is raised; true is returned where this held in a round, in
  -- the time of the loop; and false is returned when the time is over.
  abbrev pub EndsWhere :
      (H.World → Type 0) → Effect Bool → ℕ → ℕ → Done H.World (Option Bool) → Type 0
  EndsWhere P see start deadline d =
      ((x : Error) × (d.result ≡ err x) × Saw see start deadline (err x))
      ⊎ ((d.result ≡ ok (some true))
          × (v : H.World) × (start ≤ H.monotonic v)
          × (H.monotonic v < deadline)
          × P v)
      ⊎ ((d.result ≡ ok (some false)) × (deadline ≤ H.monotonic d.world))

  EndsWhere-Ends :
      (P : H.World → Type 0) (see : Effect Bool) {start deadline : ℕ}
      (d : Done H.World (Option Bool))
      → ((v : H.World) → (see v).result ≡ ok true → P v)
      → Ends see start deadline d
      → EndsWhere P see start deadline d
  EndsWhere-Ends P see d means (inl raised) = inl raised
  EndsWhere-Ends P see d means (inr (inl (e, saw_it))) =
      let (v, from, before, saw) = saw_it in inr (inl (e, v, from, before, means v saw))
  EndsWhere-Ends P see d means (inr (inr over)) = inr (inr over)

  -- Both polling loops end, however long the calls and the pauses take: what a round raises is
  -- raised, and false is returned only when the time is over. `poll_healthy` returns true only where
  -- `docker compose ps` succeeded with an output, in the time of the loop, and each of its lines that
  -- is JSON was a container that runs and whose health, if it has one, was good; there may be no such
  -- line. `poll_job_running` returns true only where Flink replied that the job is RUNNING.
  pub polling-Ends :
      (job_id : Text) (timeout : ℕ) (w : H.World)
      → let start = H.monotonic w in
        let deadline = start + seconds timeout in
        EndsWhere ServicesUp see_healthy start deadline (poll_healthy timeout w)
        × EndsWhere
            (JobRuns job_id)
            (see_running job_id)
            start
            deadline
            (poll_job_running job_id timeout w)
  unfolding poll_healthy poll_job_running
  polling-Ends job_id timeout w = (
    EndsWhere-Ends ServicesUp see_healthy (poll_for see_healthy timeout w) see_healthy-ServicesUp
        (Ends-poll_for see_healthy timeout w KeepsTime-see_healthy),
    EndsWhere-Ends (JobRuns job_id) (see_running job_id) (poll_for (see_running job_id) timeout w)
        (see_running-JobRuns job_id)
        (Ends-poll_for (see_running job_id) timeout w (KeepsTime-see_running job_id)),
  )
