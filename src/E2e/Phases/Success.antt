-- ===== src/E2e/Phases/Success.antt =====
-- What it means that `main` exits with 0.
use delayed_order_sms_flink.Base.{ℕ, ◌≡◌, false, none, List, [], ◌∷◌, ◌++◌, map}
use delayed_order_sms_flink.E2e.{counted, scenarios}
use delayed_order_sms_flink.E2e.Verdict.{Passes}
use delayed_order_sms_flink.E2e.Host.{Host, Call, ran}
use delayed_order_sms_flink.E2e.Phases.{E2eArguments, compose_down}
use delayed_order_sms_flink.E2e.Phases.Rounds.{Outcomes}

-- The six totals that the consumer counts, one behind each scenario, are as they should be.
abbrev pub TotalsPass : List ℕ → Type 0
TotalsPass counts = (a b c d e f : ℕ) × (counts ≡ a ∷ b ∷ c ∷ d ∷ e ∷ f ∷ []) × Passes a b c d e f

-- The command that takes the services down is the last that is asked.
abbrev pub EndsWith : Call → List Call → Type 0
EndsWith call calls = (before : List Call) × (calls ≡ before ++ (call ∷ []))

module _ ⦃H : Host⦄ where
  abbrev pub HasCleaned : E2eArguments → List Call → Type 0
  HasCleaned args calls = args.no_cleanup ≡ false → EndsWith (ran compose_down none) calls

  -- The scenarios ran from this world on, and passed.
  abbrev pub AllPass : E2eArguments → H.World → List Call → Type 0
  AllPass args w calls =
      (counts : List ℕ) × Outcomes args.orders_count scenarios w (map counted counts)
      × TotalsPass counts
      × HasCleaned args calls
