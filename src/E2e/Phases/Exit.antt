-- ===== src/E2e/Phases/Exit.antt =====
-- How `main` exits.
use delayed_order_sms_flink.Base.{
  ℕ, ◌≡◌, ◌≢◌, refl, sym, ◌∙◌, Bool, true, false, Option, none, some, List, [], Text, ok, err,
  ok-injective, Bool-cases, Result-cases, inl, inr, ◌⊎◌, Error,
}
use delayed_order_sms_flink.E2e.{E2EResult, all_passed, exit_code}
use delayed_order_sms_flink.E2e.Host.{Host, Effect, ◌>>=◌, >>=-eq-ok, returns}
use delayed_order_sms_flink.E2e.Polling.{poll_healthy}
use delayed_order_sms_flink.E2e.Polling.Means.{polling-Ends}
use delayed_order_sms_flink.E2e.Phases.{
  E2eArguments, and_then, start_services, submit_jar, submit_job, test_scenarios, go_on, main,
  succeeded,
}

module _ ⦃H : Host⦄ where
  -- What a piece of code returns, if it returns, has the property.
  abbrev Gives : {A : Type 0} → (A → Type 0) → Effect A → Type 0
  Gives {A} P m = (w : H.World) (a : A) → (m w).result ≡ ok a → P a

  Gives->>= :
      {A B : Type 0} {P : B → Type 0} (m : Effect A) (f : A → Effect B)
      → ((a : A) → Gives P (f a))
      → Gives P (m >>= f)
  Gives->>= m f h w b e = let (a, _, e', _) = >>=-eq-ok m f w e in h a (m w).world b e'

  -- What the first step gives is known in the second.
  Gives-after :
      {A B : Type 0} (Q : A → Type 0) {P : B → Type 0} (m : Effect A) (f : A → Effect B)
      → Gives Q m
      → ((a : A) → Q a → Gives P (f a))
      → Gives P (m >>= f)
  Gives-after Q m f g h w b e =
      let (a, e1, e', _) = >>=-eq-ok m f w e in h a (g w a e1) (m w).world b e'

  abbrev IsSome : {A : Type 0} → Option A → Type 0
  IsSome o = o ≢ none

  IsSome-returns : {A : Type 0} (a : A) → Gives IsSome (returns (some a))
  IsSome-returns a w o e h = absurd (let e' = ok-injective e ∙ h in cc)

  IsSome-and_then :
      (o : Option Bool) (rest : Effect (Option Bool))
      → IsSome o
      → Gives IsSome rest
      → Gives IsSome (and_then o rest)
  IsSome-and_then none rest h k = absurd (h refl)
  IsSome-and_then (some false) rest h k = IsSome-returns false
  IsSome-and_then (some true) rest h k = k

  IsSome-poll_healthy : (timeout : ℕ) → Gives IsSome (poll_healthy timeout)
  IsSome-poll_healthy timeout w o e h = elim (polling-Ends [] timeout w).0 [
    | inl (x, e', _) ↦ absurd cc
    | inr (inl (e', _, _, _, _)) ↦ absurd cc
    | inr (inr (e', _)) ↦ absurd cc
  ]

  IsSome-start_services : Gives IsSome start_services
  unfolding start_services
  IsSome-start_services = Gives->>= _ _ λ _. Gives->>= _ _ λ _. Gives->>= _ _ λ result.
      Gives-after IsSome _ _
        (elim (Bool-cases (succeeded result)) [
          | inl e ↦ rw e (IsSome-poll_healthy 120)
          | inr e ↦ rw e (IsSome-returns false)
        ])
        λ healthy h.
          IsSome-and_then healthy _ h
            (Gives->>= _ _ λ _. Gives->>= _ _ λ _. Gives->>= _ _ λ _. IsSome-returns true)

  IsSome-submit_jar : (jar : Option Text) → Gives IsSome (submit_jar jar)
  unfolding submit_jar
  IsSome-submit_jar none = IsSome-returns false
  IsSome-submit_jar (some jar) =
      Gives->>= _ _
        λ _. Gives->>= _ _ λ _. Gives->>= _ _ λ _. Gives->>= _ _ λ _. IsSome-returns true

  IsSome-submit_job : Gives IsSome submit_job
  unfolding submit_job
  IsSome-submit_job = Gives->>= _ _ λ built.
      IsSome-and_then (some built) _ (λ h. cc)
        (Gives->>= _ _ λ found. Gives->>= _ _ λ jar. IsSome-submit_jar jar)

  -- A code that `main` exits with
  abbrev pub IsExitCode : Option ℕ → Type 0
  IsExitCode o = (o ≡ some 0) ⊎ (o ≡ some 1)

  exit_code-IsExitCode :
      (results : List E2EResult) → Gives IsExitCode (returns (some (exit_code results)))
  unfolding exit_code
  exit_code-IsExitCode results w o e = elim (Bool-cases (all_passed results)) [
    | inl h ↦ inl (sym (ok-injective e) ∙ rw h refl)
    | inr h ↦ inr (sym (ok-injective e) ∙ rw h refl)
  ]

  IsExitCode-go_on :
      (args : E2eArguments) (o : Option Bool) → IsSome o → Gives IsExitCode (go_on args o)
  unfolding go_on test_scenarios
  IsExitCode-go_on args none h = absurd (h refl)
  IsExitCode-go_on args (some false) h = λ w o e. inr (sym (ok-injective e))
  IsExitCode-go_on args (some true) h =
      Gives->>= _ _ λ results. Gives->>= _ _ λ _. exit_code-IsExitCode results

  -- The end-to-end tests end on every machine, however long its services take: with the exit code 0
  -- or 1, or with an exception.
  pub main-IsExitCode :
      (args : E2eArguments) (w : H.World)
      → ((x : Error) × ((main args w).result ≡ err x))
        ⊎ (code : Option ℕ) × ((main args w).result ≡ ok code) × IsExitCode code
  unfolding main
  main-IsExitCode args w = elim (Result-cases (main args w).result) [
    | inr (x, e) ↦ inl (x, e)
    | inl (o, e) ↦ inr (
      o,
      e,
      Gives-after IsSome _ _ IsSome-start_services
          (λ started h.
            Gives-after IsSome _ _ (IsSome-and_then started submit_job h IsSome-submit_job)
              (λ submitted k. IsExitCode-go_on args submitted k))
          w o e,
    )
  ]
