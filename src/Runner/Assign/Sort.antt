-- ===== src/Runner/Assign/Sort.antt =====
-- What sorting the shares keeps.
use delayed_order_sms_flink.Base.{
  ℕ, ◌+◌, ◌≡◌, refl, List, [], ◌∷◌, sum_over, All, Bool-cases, arith, inl, inr,
}
use delayed_order_sms_flink.Json.Numbers.{Floats}
use delayed_order_sms_flink.Runner.Assign.{Share, insert_share, sort_shares}

module _ (fl : Floats) where
  sum_over-insert_share :
      (f : Share fl.Float → ℕ) (s : Share fl.Float) (ss : List (Share fl.Float))
      → sum_over f (insert_share fl s ss) ≡ f s + sum_over f ss
  unfolding sum_over insert_share
  sum_over-insert_share f s [] = refl
  sum_over-insert_share f s (t ∷ ts) = ground (arith, sum_over-insert_share f s ts)

  -- Any sum over the shares is the same: no share is lost or doubled.
  pub sum_over-sort_shares :
      (f : Share fl.Float → ℕ) (ss : List (Share fl.Float))
      → sum_over f (sort_shares fl ss) ≡ sum_over f ss
  unfolding sum_over sort_shares
  sum_over-sort_shares f [] = refl
  sum_over-sort_shares f (s ∷ ss) =
      omega (arith, sum_over-insert_share f s (sort_shares fl ss), sum_over-sort_shares f ss)

  module _ (P : Share fl.Float → Type 0) where
    All-insert_share :
        (s : Share fl.Float) (ss : List (Share fl.Float))
        → P s
        → All P ss
        → All P (insert_share fl s ss)
    unfolding insert_share
    All-insert_share s [] hs h = (hs, h)
    All-insert_share s (t ∷ ts) hs (ht, h) = elim (Bool-cases (fl.lt s.fraction t.fraction)) [
      | inl e ↦ rw e (ht, All-insert_share s ts hs h)
      | inr e ↦ rw e (hs, (ht, h))
    ]

    pub All-sort_shares : (ss : List (Share fl.Float)) → All P ss → All P (sort_shares fl ss)
    unfolding sort_shares
    All-sort_shares [] h = tt
    All-sort_shares (s ∷ ss) (hs, h) =
        All-insert_share s (sort_shares fl ss) hs (All-sort_shares ss h)

    All-of_insert_share :
        (s : Share fl.Float) (ss : List (Share fl.Float))
        → All P (insert_share fl s ss)
        → P s × All P ss
    unfolding insert_share
    All-of_insert_share s [] (hs, h) = (hs, h)
    All-of_insert_share s (t ∷ ts) h = elim (Bool-cases (fl.lt s.fraction t.fraction)) [
      | inl e ↦
          let (ht, h') : P t × All P (insert_share fl s ts) = rw e at h in
          let (hs, hts) = All-of_insert_share s ts h' in (hs, (ht, hts))
      | inr e ↦ rw e at h
    ]

    pub All-of_sort_shares : (ss : List (Share fl.Float)) → All P (sort_shares fl ss) → All P ss
    unfolding sort_shares
    All-of_sort_shares [] h = tt
    All-of_sort_shares (s ∷ ss) h =
        let (hs, h') = All-of_insert_share s (sort_shares fl ss) h in (hs, All-of_sort_shares ss h')
