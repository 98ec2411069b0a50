-- ===== src/Producer.antt =====
-- simulator/src/order_simulator/kafka_producer.py: what a call of `publish` hands to the library,
-- or prints in a dry run. The library's own queue is not modelled.
pub mod Keys
pub mod Sinks
use delayed_order_sms_flink.Base.{
  ℕ, Bool, List, Text, Result, ok, err, ◌>>=◌, attribute_error, if◌then◌else◌,
}
use delayed_order_sms_flink.Json.{Json, str}
use delayed_order_sms_flink.Json.Dumps.{dumps, encode}

pub record OrderKafkaProducer : Type 0 where
  pub topic : Text
  pub dry_run : Bool

-- What a call leaves: a message for the library, as bytes, or the printed document.
pub data Message (F : Type 0) : Type 0 where
  produced : Text → List ℕ → List ℕ → Message F
  printed : Text → Json F → Json F → Message F

-- `key.encode("utf-8")`
unfoldable pub encode_key : {F : Type 0} → Json F → Result (List ℕ)
encode_key (str s) = encode s
encode_key _ = err attribute_error

module _ {F : Type 0} (repr : F → Text) where
  unfoldable pub publish : OrderKafkaProducer → Json F → Json F → Result (Message F)
  publish p key value =
      let sent = do k ← encode_key key; v ← encode (dumps repr value); ok (produced p.topic k v)
      in if p.dry_run then ok (printed p.topic key value) else sent

-- `flush` waits for the library, unless the run is dry.
pub data Flush : Type 0 where
  flushed skipped : Flush

unfoldable pub flush : OrderKafkaProducer → Flush
flush p = if p.dry_run then skipped else flushed
