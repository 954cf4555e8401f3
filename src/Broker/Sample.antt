-- ===== src/Broker/Sample.antt =====
-- Codecs that know one message each, for the theorems at concrete inputs.
use log_shipper.Base.{none, some, [], ◌∷◌}
use log_shipper.Base.Lists.{length}
use log_shipper.Protocol.Sample.{words}
use log_shipper.Message.{BrokerMessage, Codecs}
use log_shipper.Broker.Target.{Library}

abbrev pub from_source : BrokerMessage
from_source = record { source = "src"; targets = "logs" ∷ []; source_message = none }

abbrev pub codecs : Codecs
codecs = record {
  of_source = record {
    marshal = λ m. some [];
    unmarshal = λ bs. (record { id = ""; message = []; meta = []; attributes = none }, none);
  };
  of_broker = record {
    marshal = λ m. some (length m.targets ∷ []);
    unmarshal = λ bs. (from_source, none);
  };
  of_target = record {
    marshal = λ m. some (7 ∷ 8 ∷ []);
    unmarshal = λ bs. (record { target = ""; source = ""; source_message = none }, none);
  };
}

abbrev pub lib : Library
lib = record {
  wire = words;
  codecs = codecs;
  describe = λ f. "fault";
  describe_marshal = "marshal";
}
