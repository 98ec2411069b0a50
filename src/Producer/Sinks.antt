-- ===== src/Producer/Sinks.antt =====
-- Where a call of `publish` puts the message.
use delayed_order_sms_flink.Base.{
  ◌≡◌, refl, subst, true, false, Text, ok, >>=-eq-ok, ok-injective, Bool-cases, inl, inr,
}
use delayed_order_sms_flink.Json.{Json}
use delayed_order_sms_flink.Json.Dumps.{dumps, encode}
use delayed_order_sms_flink.Producer.{
  OrderKafkaProducer, Message, produced, printed, encode_key, publish,
}

-- In a dry run a message is printed, and in any other it goes to the library; it names the topic.
abbrev pub GoesTo : {F : Type 0} → OrderKafkaProducer → Message F → Type 0
GoesTo producer (produced topic key value) = (producer.dry_run ≡ false) × (topic ≡ producer.topic)
GoesTo producer (printed topic key value) = (producer.dry_run ≡ true) × (topic ≡ producer.topic)

pub GoesTo-publish :
    {F : Type 0} (repr : F → Text) (producer : OrderKafkaProducer) (key value : Json F)
    {m : Message F}
    → publish repr producer key value ≡ ok m
    → GoesTo producer m
unfolding publish
GoesTo-publish repr producer key value h = elim (Bool-cases producer.dry_run) [
  | inl e ↦ subst (GoesTo producer) (ok-injective (rw e at h)) (e, refl)
  | inr e ↦
      let (k, hk, h') = >>=-eq-ok (encode_key key) _ (rw e at h) in
      let (v, hv, h'') = >>=-eq-ok (encode (dumps repr value)) _ h' in
      subst (GoesTo producer) (ok-injective h'') (e, refl)
]
