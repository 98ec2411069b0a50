-- ===== src/Producer/Keys.antt =====
-- The topic and the key of what a call of `publish` leaves.
use delayed_order_sms_flink.Base.{
  ◌≡◌, refl, subst, Text, ok, ◌>>=◌, >>=-eq-ok, ok-injective, Bool-cases, inl, inr,
}
use delayed_order_sms_flink.Json.{Json, str}
use delayed_order_sms_flink.Json.Dumps.{dumps, encode}
use delayed_order_sms_flink.Producer.{
  OrderKafkaProducer, Message, produced, printed, encode_key, publish,
}

-- The message goes to the topic of the producer and has the text as its key.
abbrev pub KeyedBy : {F : Type 0} → OrderKafkaProducer → Text → Message F → Type 0
KeyedBy producer id (produced topic key value) = (topic ≡ producer.topic) × (encode id ≡ ok key)
KeyedBy producer id (printed topic key value) = (topic ≡ producer.topic) × (key ≡ str id)

pub KeyedBy-publish :
    {F : Type 0} (repr : F → Text) (producer : OrderKafkaProducer) (id : Text) (value : Json F)
    {m : Message F}
    → publish repr producer (str id) value ≡ ok m
    → KeyedBy producer id m
unfolding publish encode_key
KeyedBy-publish repr producer id value h = elim (Bool-cases producer.dry_run) [
  | inl e ↦ subst (KeyedBy producer id) (ok-injective (rw e at h)) (refl, refl)
  | inr e ↦
      let h' : (encode id >>= λ k.
      encode (dumps repr value) >>= λ v. ok (produced producer.topic k v))
          ≡ ok _ =
        rw e at h in
      let (k, hk, h'') = >>=-eq-ok (encode id) _ h' in
      let (v, hv, h3) = >>=-eq-ok (encode (dumps repr value)) _ h'' in
      subst (KeyedBy producer id) (ok-injective h3) (refl, hk)
]
