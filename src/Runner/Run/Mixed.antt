-- ===== src/Runner/Run/Mixed.antt =====
-- The tasks of a mixed run: every order gets the scenario that was assigned to it.
use delayed_order_sms_flink.Base.{
  ℕ, ◌+◌, ◌≡◌, refl, subst, sym, true, List, [], ◌∷◌, All, Text, text_eq, text_eq_iff, ok,
  Bool-cases, inl, inr, arith,
}
use delayed_order_sms_flink.Json.{Fields}
use delayed_order_sms_flink.Json.Numbers.{Floats}
use delayed_order_sms_flink.Config.{SimulatorConfig}
use delayed_order_sms_flink.Loader.{Files, Loaded, load, load_many}
use delayed_order_sms_flink.Loader.Laws.{Holds, load_many-Holds}
use delayed_order_sms_flink.Runner.Names.{create_order_context}
use delayed_order_sms_flink.Runner.Assign.{Random, elem, assign_scenarios}
use delayed_order_sms_flink.Runner.Assign.Included.{AllIncluded, assign_scenarios-AllIncluded}
use delayed_order_sms_flink.Runner.Run.{Task, tasks_from, mixed_tasks}

All-elem : (P : Text → Type 0) (x : Text) (ys : List Text) → elem x ys ≡ true → All P ys → P x
unfolding elem
All-elem P x [] h hs = cc
All-elem P x (y ∷ ys) h (hy, hys) = elim (Bool-cases (text_eq x y)) [
  | inl e ↦ subst P (sym ((text_eq_iff x y).0 e)) hy
  | inr e ↦ All-elem P x ys (ground arith) hys
]

module _ {F : Type 0} (files : Files F) (prefix : Text) (clock : ℕ → ℕ) where
  -- One task for each name, with the index of its place from `i` on and the scenario of the name.
  abbrev pub TasksOf : ℕ → List Text → List (Task F) → Type 0
  TasksOf i [] [] = Unit
  TasksOf i [] (t ∷ ts) = ⊥
  TasksOf i (x ∷ xs) [] = ⊥
  TasksOf i (x ∷ xs) ((context, scenario) ∷ ts) =
      (context ≡ create_order_context prefix i x (clock i))
      × (load files x ≡ ok scenario)
      × TasksOf (i + 1) xs ts

  tasks_from-TasksOf :
      (loaded : Loaded F) (i : ℕ) (xs : List Text)
      → All (Holds files loaded) xs
      → (ts : List (Task F)) × (tasks_from prefix clock loaded i xs ≡ ok ts) × TasksOf i xs ts
  unfolding tasks_from
  tasks_from-TasksOf loaded i [] h = ([], refl, tt)
  tasks_from-TasksOf loaded i (x ∷ xs) ((v, hl, hg), h) =
      let (ts, made, held) = tasks_from-TasksOf loaded (i + 1) xs h in
      ((create_order_context prefix i x (clock i), v) ∷ ts, rw (hg, made), (refl, hl, held))

All-AllIncluded :
    (P : Text → Type 0) (included xs : List Text)
    → All P included
    → AllIncluded included xs
    → All P xs
All-AllIncluded P included [] h k = tt
All-AllIncluded P included (x ∷ xs) h (hx, k) =
    (All-elem P x included hx h, All-AllIncluded P included xs h k)

-- When the included scenarios are loaded and the scenarios are assigned, `_run_mixed_scenario`
-- raises no error before the tasks start, a `KeyError` of `loaded_scenarios[scenario_name]` among
-- them: the tasks are one order for each assignment, numbered from 1 in their order, each with the
-- scenario that `load` gives for the assigned name.
pub mixed_tasks-TasksOf :
    (fl : Floats) (rng : Random) (config : SimulatorConfig fl.Float) (files : Files fl.Float)
    (clock : ℕ → ℕ) (mixed : Fields fl.Float) (included : List Text) (s : rng.State)
    {loaded : Loaded fl.Float} {r : List Text × rng.State}
    → load_many files included ≡ ok loaded
    → assign_scenarios fl rng mixed included config.orders_count s ≡ ok r
    → (ts : List (Task fl.Float)) × (mixed_tasks fl rng config files clock mixed included s ≡ ok ts)
      × TasksOf files config.order_id_prefix clock 1 r.0 ts
unfolding mixed_tasks
mixed_tasks-TasksOf fl rng config files clock mixed included s {loaded} {r} hl ha =
    let inc = assign_scenarios-AllIncluded fl rng mixed included config.orders_count s ha in
    let held =
      All-AllIncluded (Holds files loaded) included r.0 (load_many-Holds files included hl) inc in
    let (ts, made, of) = tasks_from-TasksOf files config.order_id_prefix clock loaded 1 r.0 held in
    (ts, rw (hl, ha) made, of)
