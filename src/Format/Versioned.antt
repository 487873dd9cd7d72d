-- ===== src/Format/Versioned.antt =====
-- runtime/state/format/versioned.rs: what each version of the state file holds. A version is its
-- number, and each arm of the match on the version is a function.
use ferris_agent_bridge.Base.Text.{text_partial_eq}
use ferris_agent_bridge.Run.{RunRecord, interrupted}
use ferris_agent_bridge.Base.{
  ℕ, List, [], Result, true, fail_if, any, not, is_nil, if◌then◌else◌, ◌==◌, err, false, ok, ◌>>=◌,
  ◌>>◌, nat_partial_eq,
}
use ferris_agent_bridge.Format.{
  into_required, RuntimeStateFileWire, PersistedCollections, is_present, Collection, Error,
  WireField, must_contain, must_not_contain, interrupted_runs, output_linked_runs,
  runtime_state_file_version, unsupported_version, run_records, event_records, delivery_records,
  message_records, input_records,
}
use ferris_agent_bridge.Run

abbrev pub no_collections : PersistedCollections
no_collections = record {
  runs = [];
  run_inputs = [];
  inbound_events = [];
  queued_messages = [];
  outbound_deliveries = [];
  normalize_aggregate_updated_at = true;
}

-- `if field.is_present() { return Err(..); }`
unfoldable pub absent : {A : Type 0} → ℕ → Collection → WireField A → Result Error (Unit {0})
unfolding is_present
absent version c field = fail_if (is_present field) (must_not_contain version c)

unfoldable pub required : {A : Type 0} → ℕ → Collection → WireField A → Result Error A
unfolding into_required
required version c field = into_required field (must_contain version c)

unfoldable pub reject_interrupted_runs : ℕ → List RunRecord → Result Error (Unit {0})
reject_interrupted_runs version runs =
    fail_if (any (λ r. Run.status_eq r.status interrupted) runs) (interrupted_runs version)

unfoldable pub reject_output_linked_runs : ℕ → List RunRecord → Result Error (Unit {0})
reject_output_linked_runs version runs =
    fail_if (any (λ r. not (is_nil r.output_delivery_ids)) runs) (output_linked_runs version)

unfoldable pub decode_1 : RuntimeStateFileWire → Result Error PersistedCollections
unfolding absent
decode_1 w = do
  absent 1 run_records w.runs
  absent 1 event_records w.inbound_events
  absent 1 delivery_records w.outbound_deliveries
  absent 1 message_records w.queued_messages
  absent 1 input_records w.run_inputs
  ok no_collections

unfoldable pub decode_2 : RuntimeStateFileWire → Result Error PersistedCollections
unfolding absent required reject_interrupted_runs reject_output_linked_runs
decode_2 w = do
  runs ← required 2 run_records w.runs
  reject_interrupted_runs 2 runs
  reject_output_linked_runs 2 runs
  absent 2 event_records w.inbound_events
  absent 2 delivery_records w.outbound_deliveries
  absent 2 message_records w.queued_messages
  absent 2 input_records w.run_inputs
  ok (record no_collections { runs = runs })

unfoldable pub decode_3 : RuntimeStateFileWire → Result Error PersistedCollections
unfolding absent required reject_interrupted_runs reject_output_linked_runs
decode_3 w = do
  runs ← required 3 run_records w.runs
  reject_interrupted_runs 3 runs
  reject_output_linked_runs 3 runs
  events ← required 3 event_records w.inbound_events
  absent 3 delivery_records w.outbound_deliveries
  absent 3 message_records w.queued_messages
  absent 3 input_records w.run_inputs
  ok (record no_collections {
    runs = runs;
    inbound_events = events;
    normalize_aggregate_updated_at = false;
  })

unfoldable pub decode_4 : RuntimeStateFileWire → Result Error PersistedCollections
unfolding absent required reject_interrupted_runs reject_output_linked_runs
decode_4 w = do
  runs ← required 4 run_records w.runs
  reject_interrupted_runs 4 runs
  reject_output_linked_runs 4 runs
  events ← required 4 event_records w.inbound_events
  deliveries ← required 4 delivery_records w.outbound_deliveries
  absent 4 message_records w.queued_messages
  absent 4 input_records w.run_inputs
  ok (record no_collections {
    runs = runs;
    inbound_events = events;
    outbound_deliveries = deliveries;
    normalize_aggregate_updated_at = false;
  })

unfoldable pub decode_5 : RuntimeStateFileWire → Result Error PersistedCollections
unfolding absent required reject_interrupted_runs reject_output_linked_runs
decode_5 w = do
  runs ← required 5 run_records w.runs
  reject_interrupted_runs 5 runs
  reject_output_linked_runs 5 runs
  events ← required 5 event_records w.inbound_events
  messages ← required 5 message_records w.queued_messages
  deliveries ← required 5 delivery_records w.outbound_deliveries
  absent 5 input_records w.run_inputs
  ok (record {
    runs = runs;
    run_inputs = [];
    inbound_events = events;
    queued_messages = messages;
    outbound_deliveries = deliveries;
    normalize_aggregate_updated_at = false;
  })

-- The rest of the arms of the versions 6 and 7.
unfoldable pub decode_rest :
    ℕ → RuntimeStateFileWire → List RunRecord → Result Error PersistedCollections
unfolding required
decode_rest version w runs = do
  events ← required version event_records w.inbound_events
  deliveries ← required version delivery_records w.outbound_deliveries
  messages ← required version message_records w.queued_messages
  inputs ← required version input_records w.run_inputs
  ok (record {
    runs = runs;
    run_inputs = inputs;
    inbound_events = events;
    queued_messages = messages;
    outbound_deliveries = deliveries;
    normalize_aggregate_updated_at = false;
  })

unfoldable pub decode_6 : RuntimeStateFileWire → Result Error PersistedCollections
unfolding required reject_interrupted_runs reject_output_linked_runs decode_rest
decode_6 w = do
  runs ← required 6 run_records w.runs
  reject_interrupted_runs 6 runs
  reject_output_linked_runs 6 runs
  decode_rest 6 w runs

unfoldable pub decode_7 : RuntimeStateFileWire → Result Error PersistedCollections
unfolding required reject_output_linked_runs decode_rest
decode_7 w = do
  runs ← required 7 run_records w.runs
  reject_output_linked_runs 7 runs
  decode_rest 7 w runs

unfoldable pub decode_8 : RuntimeStateFileWire → Result Error PersistedCollections
unfolding required decode_rest
decode_8 w = do
  runs ← required runtime_state_file_version run_records w.runs
  decode_rest runtime_state_file_version w runs

unfoldable pub decode_persisted_collections :
    RuntimeStateFileWire → Result Error PersistedCollections
unfolding decode_1 decode_2 decode_3 decode_4 decode_5 decode_6 decode_7 decode_8
decode_persisted_collections w =
    if w.version == 1
    then decode_1 w
    else if w.version == 2
    then decode_2 w
    else if w.version == 3
    then decode_3 w
    else if w.version == 4
    then decode_4 w
    else if w.version == 5
    then decode_5 w
    else if w.version == 6
    then decode_6 w
    else if w.version == 7
    then decode_7 w
    else if w.version == runtime_state_file_version
    then decode_8 w
    else err (unsupported_version w.version)
