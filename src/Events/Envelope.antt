-- ===== src/Events/Envelope.antt =====
-- EventEnvelope (packages/contracts/src/envelopes/event-envelope.ts). The producer, the source, the
-- causation, the payload and the extensions, which the events package only hands on, are left out.
use aurora_ai_native.Prelude.{String, Option, Dict}

pub record EventEnvelope : Type 0 where
  pub schema_version : String
  pub event_id : String
  pub event_type : String
  pub occurred_at : String
  pub correlation_id : String
  pub tenant_id : String
  pub subject : Option String
  pub data_classification : Option String
  pub labels : Option (Dict String)
