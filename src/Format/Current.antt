-- ===== src/Format/Current.antt =====
-- runtime/state/format/current.rs: how a state is written to a file and read from it. `serde_json` is
-- a parameter, and so is what derived `Serialize` and `Deserialize` make of a record; the checks that
-- the records' own `Deserialize` adds (runtime/session.rs, run.rs, queue.rs, event.rs, outbox.rs) are
-- `check_records`. An id is a text here, so that the check of its spelling belongs to the parameter.
use ferris_agent_bridge.State.Parts.{from_persisted_parts}
use ferris_agent_bridge.Event.{InboundEventRecord}
use ferris_agent_bridge.State.{RuntimeState}
use ferris_agent_bridge.Run.{RunRecord}
use ferris_agent_bridge.Base.{
  Result, List, ℕ, Option, ok, ◌==◌, map_err, ◌∷◌, suc, some, true, false, not, none, [], ◌>>=◌,
  ◌>>◌, fail_if, ok_or, when_some, for_each, nat_partial_eq, contains,
}
use ferris_agent_bridge.Session.{Session}
use ferris_agent_bridge.Queue.{RunInputRecord, QueuedMessage}
use ferris_agent_bridge.Outbox.{OutboundDeliveryRecord}
use ferris_agent_bridge.Format.Versioned.{decode_persisted_collections}
use ferris_agent_bridge.Format.{
  RuntimeStateFile, RuntimeStateFileWire, runtime_state_file_version, Error, WireField, bad_run,
  bad_delivery, bad_session, bad_event, bad_message, value, missing, null, not_json,
  no_output_delivery_ids, bad_input, state_error,
}
use ferris_agent_bridge.Base.Text.{Text, codes, text_partial_eq}
use ferris_agent_bridge.Session
use ferris_agent_bridge.Event
use ferris_agent_bridge.Outbox
use ferris_agent_bridge.Queue
use ferris_agent_bridge.Run

abbrev pub Keys : Type 0
Keys = List Text

pub record SerdeJson : Type 1 where
  pub Bytes : Type 0
  pub to_vec_pretty : RuntimeStateFile → Bytes
  pub from_str : Bytes → Option RuntimeStateFileWire
  -- `from_str` into a `Value`: the array under "runs", if there is one, and the keys of each element
  -- that is an object.
  pub runs_shape : Bytes → Option (Option (List (Option Keys)))

abbrev pub output_delivery_ids_key : Text
output_delivery_ids_key = codes "output_delivery_ids"

unfoldable pub require_current_run_output_fields : ℕ → List (Option Keys) → Result Error (Unit {0})
require_current_run_output_fields index [] = ok tt
require_current_run_output_fields index (none ∷ rs) =
    require_current_run_output_fields (suc index) rs
require_current_run_output_fields index (some keys ∷ rs) = do
  fail_if (not (contains output_delivery_ids_key keys)) (no_output_delivery_ids index)
  require_current_run_output_fields (suc index) rs

unfoldable pub from_state : RuntimeState → RuntimeStateFile
from_state s = record {
  version = runtime_state_file_version;
  sessions = s.sessions;
  runs = s.runs;
  run_inputs = s.run_inputs;
  inbound_events = s.inbound_events;
  queued_messages = s.queued_messages;
  outbound_deliveries = s.outbound_deliveries;
  updated_at_unix = s.updated_at_unix;
}

-- The records of a field, if it has any.
unfoldable pub on_value :
    {A : Type 0} → (List A → Result Error (Unit {0})) → WireField (List A) → Result Error (Unit {0})
on_value check missing = ok tt
on_value check null = ok tt
on_value check (value xs) = check xs

unfoldable pub check_message : QueuedMessage → Result Error (Unit {0})
check_message q = map_err bad_message (Queue.validate q)

unfoldable pub check_input : RunInputRecord → Result Error (Unit {0})
unfolding check_message
check_input i = do for_each check_message i.messages; map_err bad_input (Queue.validate_input i)

unfoldable pub check_run : RunRecord → Result Error (Unit {0})
check_run r = map_err bad_run (Run.validate r)

unfoldable pub check_session : Session → Result Error (Unit {0})
check_session x = map_err bad_session (Session.validate x)

unfoldable pub check_event : InboundEventRecord → Result Error (Unit {0})
check_event e = map_err bad_event (Event.validate e)

unfoldable pub check_delivery : OutboundDeliveryRecord → Result Error (Unit {0})
check_delivery d = map_err bad_delivery (Outbox.validate d)

-- The checks in `Deserialize` of the records.
unfoldable pub check_records : RuntimeStateFileWire → Result Error (Unit {0})
unfolding on_value check_message check_input check_run check_session check_event check_delivery
check_records w = do
  for_each check_session w.sessions
  on_value (for_each check_run) w.runs
  on_value (for_each check_input) w.run_inputs
  on_value (for_each check_event) w.inbound_events
  on_value (for_each check_message) w.queued_messages
  on_value (for_each check_delivery) w.outbound_deliveries

unfoldable pub into_state : RuntimeStateFileWire → Result Error RuntimeState
unfolding decode_persisted_collections from_persisted_parts
into_state w = do
  c ← decode_persisted_collections w
  map_err state_error (
      from_persisted_parts (record {
        state = record {
          sessions = w.sessions;
          runs = c.runs;
          run_inputs = c.run_inputs;
          inbound_events = c.inbound_events;
          queued_messages = c.queued_messages;
          outbound_deliveries = c.outbound_deliveries;
          updated_at_unix = w.updated_at_unix;
        };
        normalize_aggregate_updated_at = c.normalize_aggregate_updated_at;
      }))

module _ (J : SerdeJson) where
  unfoldable pub state_file_from_state : RuntimeState → J.Bytes
  unfolding from_state
  state_file_from_state s = J.to_vec_pretty (from_state s)

  -- The check of the shape of a file of the current version.
  unfoldable pub check_shape : J.Bytes → ℕ → Result Error (Unit {0})
  unfolding require_current_run_output_fields
  check_shape input version = elim (version == runtime_state_file_version) [
    | false ↦ ok tt
    | true ↦ do
      shape ← ok_or (J.runs_shape input) not_json
      when_some shape (require_current_run_output_fields 0)
  ]

  unfoldable pub parse_state_file : J.Bytes → Result Error RuntimeState
  unfolding check_records check_shape into_state
  parse_state_file input = do
    w ← ok_or (J.from_str input) not_json
    check_records w
    check_shape input w.version
    into_state w
