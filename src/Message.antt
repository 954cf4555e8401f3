-- ===== src/Message.antt =====
-- message/message.go: the messages that sources, broker and targets pass on, and their codecs.
-- The structs are those of message/protobuf.pb.go; a nil pointer is `none`.
use log_shipper.Base.{ℕ, String, Option, some, List}
use log_shipper.Base.Dict.{Dict}
use log_shipper.Protocol.Input.{Fault}
use log_shipper.Protocol.{Codec}

-- `timestamp` is the bit pattern of an int64.
pub record Attributes : Type 0 where
  pub timestamp : ℕ
  pub attribute_type : String

pub record SourceMessage : Type 0 where
  pub id : String
  pub message : List ℕ
  pub meta : Dict String
  pub attributes : Option Attributes

pub record BrokerMessage : Type 0 where
  pub source : String
  pub targets : List String
  pub source_message : Option SourceMessage

pub record TargetMessage : Type 0 where
  pub target : String
  pub source : String
  pub source_message : Option SourceMessage

unfoldable pub broker_to_target : String → BrokerMessage → TargetMessage
broker_to_target target b = record {
  source_message = b.source_message;
  target = target;
  source = b.source;
}

unfoldable pub source_to_broker : String → List String → SourceMessage → BrokerMessage
source_to_broker source targets s = record {
  source_message = some s;
  source = source;
  targets = targets;
}

-- The protobuf library at each type of message.
pub record Codecs : Type 0 where
  pub of_source : Codec SourceMessage
  pub of_broker : Codec BrokerMessage
  pub of_target : Codec TargetMessage

unfoldable pub protobuf_to_broker : Codecs → List ℕ → BrokerMessage × Option Fault
protobuf_to_broker c bytes = c.of_broker.unmarshal bytes

unfoldable pub protobuf_to_source : Codecs → List ℕ → SourceMessage × Option Fault
protobuf_to_source c bytes = c.of_source.unmarshal bytes

unfoldable pub protobuf_to_target : Codecs → List ℕ → TargetMessage × Option Fault
protobuf_to_target c bytes = c.of_target.unmarshal bytes

unfoldable pub to_protobuf : {M : Type 0} → Codec M → M → Option (List ℕ)
to_protobuf c m = c.marshal m
