-- ===== src/Runner/Assign/Total.antt =====
-- What a distribution by weights comes to.
use delayed_order_sms_flink.Base.{
  occurs, ℕ, ◌+◌, ◌≤◌, ◌≡◌, sym, ◌∙◌, ap, List, take, length, sum_over, sum_over-add,
  sum_over-congr, sum_over-map, take-map, All, All-map, All-map₂, All-to_map, Text, ℤ, pos,
  pos_part, neg_part, pos_part-add, ◌+ℤ◌, Result, ok, err, arith,
}
use delayed_order_sms_flink.Json.Numbers.{Floats}
use delayed_order_sms_flink.Runner.Assign.{Share, Counts, get_count, add_ones, expand}
use delayed_order_sms_flink.Runner.Assign.Tally.{
  names, get_count-add_ones, expanded, expand_lem, occurs-expanded, length-expanded,
}
use delayed_order_sms_flink.Runner.Assign.Distinct.{sum_over-occurs-take}

-- The count of a name, and zero where it has none.
abbrev or_zero : Result ℤ → ℤ
or_zero (ok n) = n
or_zero (err _) = pos 0

abbrev count_in : Counts → Text → ℤ
count_in counts x = or_zero (get_count x counts)

-- The last two loops, from the sorted shares and the counts that hold their rounded shares.
module _ (fl : Floats) (L : List (Share fl.Float)) (r : ℕ) (counts counts' : Counts)
    (held : All (λ s. get_count s.scenario counts ≡ ok s.floor_count) L)
    (whole : All (λ s. neg_part s.floor_count ≡ 0) L)
    (once : All (λ s. occurs s.scenario (names L) ≡ 1) L)
    (added : add_ones fl (take r L) counts ≡ ok counts') (up_of : Share fl.Float → ℕ)
    (few : All (λ s. occurs s.scenario (take r (names L)) ≤ up_of s) L) where
  abbrev g : Text → ℤ
  g = count_in counts'

  -- Whether a name is one of those that get one more.
  abbrev bonus : Text → ℕ
  bonus x = occurs x (take r (names L))

  new_count :
      (s : Share fl.Float)
      → get_count s.scenario counts ≡ ok s.floor_count
      → get_count s.scenario counts' ≡ ok (s.floor_count +ℤ pos (bonus s.scenario))
  new_count s h =
      get_count-add_ones fl (take r L) counts s.scenario s.floor_count added h
      ∙ ap (λ xs. ok (s.floor_count +ℤ pos (occurs s.scenario xs))) (sym (take-map r _ L))

  g-eq :
      (s : Share fl.Float)
      → get_count s.scenario counts ≡ ok s.floor_count
      → g s.scenario ≡ s.floor_count +ℤ pos (bonus s.scenario)
  g-eq s h = ap or_zero (new_count s h)

  known_at :
      (s : Share fl.Float)
      → get_count s.scenario counts ≡ ok s.floor_count
      → get_count s.scenario counts' ≡ ok (g s.scenario)
  known_at s h = new_count s h ∙ ap ok (sym (g-eq s h))

  known : All (λ s. get_count s.scenario counts' ≡ ok (g s.scenario)) L
  known = All-map _ _ known_at L held

  value :
      (s : Share fl.Float)
      → get_count s.scenario counts ≡ ok s.floor_count
      → neg_part s.floor_count ≡ 0
      → pos_part (g s.scenario) ≡ pos_part s.floor_count + bonus s.scenario
  value s h k = ap pos_part (g-eq s h) ∙ pos_part-add s.floor_count (bonus s.scenario) k

  values : All (λ s. pos_part (g s.scenario) ≡ pos_part s.floor_count + bonus s.scenario) L
  values = All-map₂ (λ s. value s) L held whole

  pub result : List Text
  result = expanded g (names L)

  pub expanded-ok : expand fl L counts' ≡ ok result
  unfolding result
  expanded-ok = expand_lem fl g counts' L known

  once_names : All (λ x. occurs x (names L) ≡ 1) (names L)
  once_names = All-to_map (λ x. occurs x (names L) ≡ 1) _ L once

  pub length-result :
      length result ≡ sum_over (λ s. pos_part s.floor_count) L + length (take r (names L))
  unfolding result
  length-result =
      length-expanded g (names L)
      ∙ (sum_over-map (λ x. pos_part (g x)) _ L
          ∙ (sum_over-congr _ (λ s. pos_part s.floor_count + bonus s.scenario) L values
              ∙ (sum_over-add (λ s. pos_part s.floor_count) (λ s. bonus s.scenario) L
                  ∙ ap (λ k. sum_over (λ s. pos_part s.floor_count) L + k)
                      (sym (sum_over-map bonus _ L)
                        ∙ sum_over-occurs-take r (names L) once_names))))

  -- Rounded down, or up where that is something else.
  in_quota :
      (s : Share fl.Float)
      → (occurs s.scenario (names L) ≡ 1) × (bonus s.scenario ≤ up_of s)
      → pos_part (g s.scenario) ≡ pos_part s.floor_count + bonus s.scenario
      → (pos_part s.floor_count ≤ occurs s.scenario result)
        × (occurs s.scenario result ≤ pos_part s.floor_count + up_of s)
  unfolding result
  in_quota s (one, few_one) v = rw (occurs-expanded, one) (omega (arith, v, one, few_one))

  pub in_quotas :
      All
        (λ s.
          (pos_part s.floor_count ≤ occurs s.scenario result)
          × (occurs s.scenario result ≤ pos_part s.floor_count + up_of s))
        L
  in_quotas =
      All-map₂ (λ s. in_quota s) L (All-map₂ (λ s one few_one. (one, few_one)) L once few) values
