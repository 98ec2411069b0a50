-- ===== src/Runner/Simulate/Complete.antt =====
-- What a run that returns has done.
use delayed_order_sms_flink.Base.{
  ℕ, ◌≡◌, refl, ap, sym, ◌∙◌, subst, false, List, [], ◌∷◌, map, All, codes, Result, ok, >>=-eq-ok,
  ok-injective, Bool-cases, inl, inr, ℤ, pos, ltb_ℤ, pos_part, arith,
}
use delayed_order_sms_flink.Json.{Json, Fields, str, obj, get_or}
use delayed_order_sms_flink.Json.Numbers.{Floats}
use delayed_order_sms_flink.Config.{SimulatorConfig}
use delayed_order_sms_flink.Loader.{Files, load}
use delayed_order_sms_flink.Producer.{OrderKafkaProducer, Flush, flush}
use delayed_order_sms_flink.Runner.Assign.{Random}
use delayed_order_sms_flink.Runner.Names.{OrderContext}
use delayed_order_sms_flink.Runner.Names.Unique.{
  index_of_id, indices_from, index-create_order_contexts,
}
use delayed_order_sms_flink.Runner.Trace.{Action}
use delayed_order_sms_flink.Runner.Run.{Task, name_of, single_tasks, run_task}
use delayed_order_sms_flink.Runner.Pool.{workers}
use delayed_order_sms_flink.Runner.Pool.Flushing.{AllDone, AllDone-complete}
use delayed_order_sms_flink.Runner.Simulate.{
  is_mixed_scenario, tasks_of, prepare, Runs, raised, executed,
}

-- The orders are numbered from 1 to the count, as their ids tell, and all have the scenario.
abbrev pub OrdersOf : {F : Type 0} → Fields F → ℤ → List (Task F) → Type 0
OrdersOf scenario count tasks =
    (map (λ (context, _). index_of_id context.order_id) tasks ≡ indices_from (pos_part count) 1)
    × All (λ (_, s). s ≡ obj scenario) tasks

OrdersOf-contexts :
    {F : Type 0} (scenario : Fields F) (count : ℤ) (contexts : List OrderContext)
    → map (λ c. index_of_id c.order_id) contexts ≡ indices_from (pos_part count) 1
    → OrdersOf scenario count (map (λ context. (context, obj scenario)) contexts)
OrdersOf-contexts scenario count contexts h = (indices contexts ∙ h, same contexts)
  where
    indices :
        (cs : List OrderContext)
        → map (λ (context, _). index_of_id context.order_id) (map (λ c. (c, obj scenario)) cs)
          ≡ map (λ c. index_of_id c.order_id) cs
    indices [] = refl
    indices (c ∷ cs) = ap (λ r. index_of_id c.order_id ∷ r) (indices cs)

    same :
        (cs : List OrderContext)
        → All (λ (_, s). s ≡ obj scenario) (map (λ c. (c, obj scenario)) cs)
    same [] = tt
    same (c ∷ cs) = (refl, same cs)

module _ (fl : Floats) (rng : Random) (files : Files fl.Float) (clock : ℕ → ℕ)
    (iterated : Json fl.Float → Result (List (Task fl.Float)))
    (config : SimulatorConfig fl.Float) where
  no_orders : (count : ℤ) → ltb_ℤ (pos 0) count ≡ false → pos_part count ≡ 0
  no_orders count h = ground arith

  none_made : [] ≡ indices_from 0 1
  none_made = refl

  OrdersOf-single_tasks :
      (scenario : Fields fl.Float) {tasks : List (Task fl.Float)}
      → single_tasks fl rng config files clock scenario ≡ ok tasks
      → OrdersOf scenario config.orders_count tasks
  unfolding single_tasks
  OrdersOf-single_tasks scenario h = elim (Bool-cases (ltb_ℤ (pos 0) config.orders_count)) [
    | inl e ↦
        let (name, hn, h') =
          >>=-eq-ok (name_of (get_or (codes "scenarioName") (str config.scenario) scenario)) _
            (rw e at h) in
        subst (OrdersOf scenario config.orders_count) (ok-injective h') (
          OrdersOf-contexts scenario config.orders_count _
            (index-create_order_contexts config.order_id_prefix name config.orders_count clock))
    | inr e ↦
        subst (OrdersOf scenario config.orders_count) (ok-injective (rw e at h))
          (rw (no_orders config.orders_count e) (none_made, tt))
  ]

  OrdersOf-prepare :
      (scenario : Fields fl.Float) (s : rng.State) {tasks : List (Task fl.Float)}
      → load files config.scenario ≡ ok (obj scenario)
      → is_mixed_scenario fl scenario ≡ false
      → prepare fl rng files clock iterated config s ≡ ok tasks
      → OrdersOf scenario config.orders_count tasks
  unfolding prepare tasks_of
  OrdersOf-prepare scenario s found single h =
      OrdersOf-single_tasks scenario (rw (found, single) at h)

  pub Runs-AllDone :
      (producer : OrderKafkaProducer) (s : rng.State) {log : List (ℕ × Action fl.Float)}
      {r : Result Flush} {f : Flush}
      → Runs fl rng files clock iterated config producer s log r
      → r ≡ ok f
      → (tasks : List (Task fl.Float)) × (prepare fl rng files clock iterated config s ≡ ok tasks)
        × AllDone 0 (map (run_task fl config producer) tasks) log
        × (f ≡ flush producer)
  Runs-AllDone producer s (raised e h) same = absurd cc
  Runs-AllDone producer s (executed tasks h schedule ends) same =
      elim (AllDone-complete (workers config.max_workers) _ producer schedule ends) [
        | inl (e, _, left) ↦ absurd (let both = sym left ∙ same in cc)
        | inr (done, left) ↦ (tasks, h, done, ok-injective (sym same ∙ left))
      ]

  -- A run of a scenario that is not mixed, if it returns, has made one task for each index from 1 to
  -- the count, which the id of its order tells, with this scenario; each task has had all of its
  -- effects in their order and has returned, and the producer was flushed, however the threads took
  -- turns.
  pub Runs-complete :
      (scenario : Fields fl.Float) (producer : OrderKafkaProducer) (s : rng.State)
      {log : List (ℕ × Action fl.Float)} {f : Flush}
      → load files config.scenario ≡ ok (obj scenario)
      → is_mixed_scenario fl scenario ≡ false
      → Runs fl rng files clock iterated config producer s log (ok f)
      → (tasks : List (Task fl.Float)) × (prepare fl rng files clock iterated config s ≡ ok tasks)
        × OrdersOf scenario config.orders_count tasks
        × AllDone 0 (map (run_task fl config producer) tasks) log
        × (f ≡ flush producer)
  Runs-complete scenario producer s {f = f} found single runs =
      let (tasks, h, done, flushed) = Runs-AllDone producer s runs refl in
      (tasks, h, OrdersOf-prepare scenario s found single h, done, flushed)
