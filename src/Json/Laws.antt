-- ===== src/Json/Laws.antt =====
-- The dictionary laws of the fields of an object.
use delayed_order_sms_flink.Base.{
  ap, none, some, ◌≡◌, refl, some, Text, text_eq, text_eq_iff, if◌then◌else◌, arith,
}
use delayed_order_sms_flink.Json.{Json, Fields, end, field, get, get_or, put}

module _ {F : Type 0} where
  pub get-put :
      (j k : Text) (v : Json F) (fs : Fields F)
      → get j (put k v fs) ≡ (if text_eq k j then some v else get j fs)
  unfolding get put
  get-put j k v end = refl
  get-put j k v (field i w fs) =
      ground (arith, get-put j k v fs, text_eq_iff i k, text_eq_iff i j, text_eq_iff k j)

  -- A key that is there has no use for the default.
  pub get_or-some :
      (k : Text) (d : Json F) (fs : Fields F) {v : Json F} → get k fs ≡ some v → get_or k d fs ≡ v
  get_or-some k d fs {v} h = ap (λ o. elim o [ none ↦ d | some w ↦ w ]) h
