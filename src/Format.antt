-- ===== src/Format.antt =====
-- runtime/state/format: the state file. Here are the fields of the file (format/wire.rs), the file
-- that is written and the one that is read (format/current.rs), and what a version holds.
pub mod Versioned
pub mod Current
pub mod Fields
pub mod Early
pub mod Versions
pub mod Records
pub mod RoundTrip
use ferris_agent_bridge.Base.{ℕ, Bool, true, false, List, Result, ok, err}
use ferris_agent_bridge.Session.{Session}
use ferris_agent_bridge.Session
use ferris_agent_bridge.Event.{InboundEventRecord}
use ferris_agent_bridge.Event
use ferris_agent_bridge.Outbox.{OutboundDeliveryRecord}
use ferris_agent_bridge.Outbox
use ferris_agent_bridge.Queue.{QueuedMessage, RunInputRecord}
use ferris_agent_bridge.Queue
use ferris_agent_bridge.Run.{RunRecord}
use ferris_agent_bridge.Run
use ferris_agent_bridge.State

-- A field of the file that may be missing or null.
pub data WireField (A : Type 0) : Type 0 where
  missing null : WireField A
  value : A → WireField A

unfoldable pub is_present : {A : Type 0} → WireField A → Bool
is_present missing = false
is_present null = true
is_present (value a) = true

unfoldable pub into_required : {E A : Type 0} → WireField A → E → Result E A
into_required (value a) e = ok a
into_required missing e = err e
into_required null e = err e

pub data Collection : Type 0 where
  run_records input_records event_records message_records delivery_records : Collection

pub data Error : Type 0 where
  not_json : Error
  bad_session : Session.Error → Error
  bad_run : Run.Error → Error
  bad_input : Queue.Error → Error
  bad_event : Event.Error → Error
  bad_message : Queue.Error → Error
  bad_delivery : Outbox.Error → Error
  must_contain must_not_contain : ℕ → Collection → Error
  interrupted_runs output_linked_runs : ℕ → Error
  unsupported_version : ℕ → Error
  no_output_delivery_ids : ℕ → Error
  state_error : State.Error → Error

abbrev pub runtime_state_file_version : ℕ
runtime_state_file_version = 8

-- What is written.
pub record RuntimeStateFile : Type 0 where
  pub version : ℕ
  pub sessions : List Session
  pub runs : List RunRecord
  pub run_inputs : List RunInputRecord
  pub inbound_events : List InboundEventRecord
  pub queued_messages : List QueuedMessage
  pub outbound_deliveries : List OutboundDeliveryRecord
  pub updated_at_unix : ℕ

-- What is read.
pub record RuntimeStateFileWire : Type 0 where
  pub version : ℕ
  pub sessions : List Session
  pub runs : WireField (List RunRecord)
  pub run_inputs : WireField (List RunInputRecord)
  pub inbound_events : WireField (List InboundEventRecord)
  pub queued_messages : WireField (List QueuedMessage)
  pub outbound_deliveries : WireField (List OutboundDeliveryRecord)
  pub updated_at_unix : ℕ

pub record PersistedCollections : Type 0 where
  pub runs : List RunRecord
  pub run_inputs : List RunInputRecord
  pub inbound_events : List InboundEventRecord
  pub queued_messages : List QueuedMessage
  pub outbound_deliveries : List OutboundDeliveryRecord
  pub normalize_aggregate_updated_at : Bool
