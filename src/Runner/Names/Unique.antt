-- ===== src/Runner/Names/Unique.antt =====
-- The ids of a run's orders are told apart by the index at their end.
use delayed_order_sms_flink.Base.{
  ℕ, zero, suc, ◌+◌, ◌-◌, ◌/◌, ltb, ◌==◌, ◌≡◌, refl, sym, ◌∙◌, ap, ap₂, false, List, [], ◌∷◌, ◌++◌,
  append_assoc, Text, length, replicate, All, map, arith, Bool-cases, inl, inr, if◌then◌else◌, ℤ,
  pos, negsuc, pos_part,
}
use delayed_order_sms_flink.Json.Dumps.{show_fuel, show}
use delayed_order_sms_flink.Runner.Names.{
  normalize_name, zero_filled, create_order_context, contexts_from, create_order_contexts,
}
use delayed_order_sms_flink.Runner.Names.Decimals.{spelled, spelled-zero_filled}

abbrev NoDash : Text → Type 0
NoDash = All (λ c. (c == b'-') ≡ false)

NoDash-append : (s t : Text) → NoDash s → NoDash t → NoDash (s ++ t)
NoDash-append [] t hs ht = ht
NoDash-append (c ∷ s) t (hc, hs) ht = (hc, NoDash-append s t hs ht)

NoDash-show_fuel : (f n : ℕ) → NoDash (show_fuel f n)
unfolding show_fuel
NoDash-show_fuel zero n = tt
NoDash-show_fuel (suc f) n = elim (Bool-cases (ltb n 10)) [
  | inl e ↦ rw e (ground arith, tt)
  | inr e ↦
      rw e (NoDash-append (show_fuel f (n / 10)) _ (NoDash-show_fuel f (n / 10)) (ground arith, tt))
]

NoDash-zeros : (k : ℕ) → NoDash (replicate k b'0')
NoDash-zeros zero = tt
NoDash-zeros (suc k) = (refl, NoDash-zeros k)

NoDash-zero_filled : (w n : ℕ) → NoDash (zero_filled w n)
unfolding zero_filled show
NoDash-zero_filled w n =
    NoDash-append (replicate (w - length (show n)) b'0') _ (NoDash-zeros (w - length (show n)))
      (NoDash-show_fuel (n + 1) n)

-- What stands behind the last dash, or the first argument where there is no dash.
unfoldable pub behind_last_dash : Text → Text → Text
behind_last_dash last [] = last
behind_last_dash last (c ∷ s) = behind_last_dash (if c == b'-' then s else last) s

behind_last_dash_of_NoDash : (last s : Text) → NoDash s → behind_last_dash last s ≡ last
unfolding behind_last_dash
behind_last_dash_of_NoDash last [] h = refl
behind_last_dash_of_NoDash last (c ∷ s) (hc, hs) = rw hc (behind_last_dash_of_NoDash last s hs)

behind_last_dash-append : (last s d : Text) → NoDash d → behind_last_dash last (s ++ (b'-' ∷ d)) ≡ d
unfolding behind_last_dash
behind_last_dash-append last [] d h = behind_last_dash_of_NoDash d d h
behind_last_dash-append last (c ∷ s) d h =
    behind_last_dash-append (if c == b'-' then s ++ (b'-' ∷ d) else last) s d h

-- The index of an order is read from its id.
unfoldable pub index_of_id : Text → ℕ
index_of_id id = spelled 0 (behind_last_dash [] id)

index_of_id-order_id :
    (prefix name : Text) (i now : ℕ)
    → index_of_id (create_order_context prefix i name now).order_id ≡ i
unfolding create_order_context index_of_id
index_of_id-order_id prefix name i now =
    ap (λ t. spelled 0 (behind_last_dash [] t))
      (sym (append_assoc prefix (b'-' ∷ normalize_name name) (b'-' ∷ zero_filled 4 i)))
    ∙ (ap (spelled 0) (
          behind_last_dash-append [] (prefix ++ (b'-' ∷ normalize_name name)) (zero_filled 4 i)
            (NoDash-zero_filled 4 i))
        ∙ spelled-zero_filled 4 i)

-- Orders with different indices have different ids, whatever their scenarios and prefixes are, and
-- also where an index has more than the four digits of the format.
order_id-injective :
    (prefix prefix' name name' : Text) (i i' now now' : ℕ)
    → (create_order_context prefix i name now).order_id
      ≡ (create_order_context prefix' i' name' now').order_id
    → i ≡ i'
order_id-injective prefix prefix' name name' i i' now now' h =
    sym (index_of_id-order_id prefix name i now)
    ∙ (ap index_of_id h ∙ index_of_id-order_id prefix' name' i' now')

-- The indices from `i` on.
abbrev pub indices_from : ℕ → ℕ → List ℕ
indices_from zero i = []
indices_from (suc n) i = i ∷ indices_from n (i + 1)

pub index-contexts_from :
    (prefix name : Text) (clock : ℕ → ℕ) (n i : ℕ)
    → map (λ c. index_of_id c.order_id) (contexts_from prefix name clock n i) ≡ indices_from n i
unfolding contexts_from
index-contexts_from prefix name clock zero i = refl
index-contexts_from prefix name clock (suc n) i =
    ap₂ (λ x r. x ∷ r) (index_of_id-order_id prefix name i (clock i))
      (index-contexts_from prefix name clock n (i + 1))

-- A run makes one context for each index from 1 to the count, in this order, and none if the count
-- is negative; the id of each order tells its index.
pub index-create_order_contexts :
    (prefix name : Text) (count : ℤ) (clock : ℕ → ℕ)
    → map (λ c. index_of_id c.order_id) (create_order_contexts prefix name count clock)
      ≡ indices_from (pos_part count) 1
unfolding create_order_contexts
index-create_order_contexts prefix name (pos n) clock = index-contexts_from prefix name clock n 1
index-create_order_contexts prefix name (negsuc n) clock = refl
