-- ===== src/Tests/Stores.antt =====
-- The state file and the store: a state that is written and read, failures, saves and a worker.
use ferris_agent_bridge.Store.Merging.{Merged}
use ferris_agent_bridge.Format.Fields.{Decoded}
use ferris_agent_bridge.Format.Records.{IsFaithful, wire_of, run_keys}
use ferris_agent_bridge.Store.Save.{save-keeps}
use ferris_agent_bridge.State.MergeRuns.{Kept}
use ferris_agent_bridge.Store.Safety.{failed_call_keeps_file, replay-load}
use ferris_agent_bridge.Event.{InboundEventRecord}
use ferris_agent_bridge.Format.Versions.{decode-Decoded}
use ferris_agent_bridge.Outbox.{OutboundDeliveryRecord, OutboundDeliveryAttempt}
use ferris_agent_bridge.Run.{RunRecord}
use ferris_agent_bridge.Format.RoundTrip.{parse-state_file_from_state}
use ferris_agent_bridge.Format.Versioned.{decode_persisted_collections, no_collections}
use ferris_agent_bridge.State.{run, RuntimeState}
use ferris_agent_bridge.State.Consistent.{Consistent, validate-Consistent}
use ferris_agent_bridge.Queue.{QueuedMessage}
use ferris_agent_bridge.Format.Current.{
  SerdeJson, parse_state_file, state_file_from_state, from_state,
}
use ferris_agent_bridge.Session.{SessionId, Session, for_scope}
use ferris_agent_bridge.Tests.Data.{
  chat_state, retry_policy, pending_delivery, queued_question, running_run, chat, pending_run,
  chat_scope, question, answer, question_event, empty_state,
}
use ferris_agent_bridge.Base.Text.{text_partial_eq, codes}
use ferris_agent_bridge.Base.{
  ℕ, zero, suc, ◌+◌, ◌-◌, ◌≤◌, ◌<◌, max, ◌≡◌, ◌≢◌, refl, sym, ap, ◌∙◌, subst, ◌↔◌, ◌⊎◌, inl, inr,
  Bool, true, false, not, ◌&&◌, ◌||◌, Option, none, some, List, [], ◌∷◌, ◌++◌, map, arith, Result,
  ok, err, ◌>>=◌, ◌>>◌, fail_if, ok_or, map_err, map_ok, when_some, for_each, if◌then◌else◌, ltb,
  leb, ◌==◌, nat_partial_eq, PartialEq, find, any, is_some, is_nil, contains, All, All-map,
  All-append, Bool-cases, >>=-eq-ok, >>-eq-ok, fail_if-eq-ok, ok_or-eq-ok, map_err-eq-ok, eq_refl,
  eq_sound,
}
use ferris_agent_bridge.State.Validate.{validate}
use ferris_agent_bridge.Store.{write_error, write_all, parent_sync, save, Disk, Env, load}
use ferris_agent_bridge.Format.{
  value, missing, PersistedCollections, RuntimeStateFile, RuntimeStateFileWire,
}
use ferris_agent_bridge.Store.Calls.{save_call, persist_inbound, claim_delivery, replay, call, Call}
use ferris_agent_bridge.Run
use ferris_agent_bridge.Outbox
use ferris_agent_bridge.Tests.Data
use ferris_agent_bridge.State

-- A `serde_json` that keeps the file as it is.
abbrev pub plain_json : SerdeJson
plain_json = record {
  Bytes = RuntimeStateFile;
  to_vec_pretty = λ f. f;
  from_str = λ f. some (wire_of f);
  runs_shape = λ f. some (some (map (λ r. some run_keys) f.runs));
}

pub plain_json-IsFaithful : IsFaithful plain_json
plain_json-IsFaithful = record { reads = λ f. refl; shows = λ f. refl }

-- The session of the chat under its own id, with a run that is done and its output.
abbrev pub room_id : SessionId
room_id = for_scope chat_scope

abbrev pub room : Session
room = record chat { id = room_id }

abbrev pub room_state : RuntimeState
room_state = record empty_state { sessions = room ∷ []; updated_at_unix = 1 }

abbrev pub done_run : RunRecord
done_run = record Data.completed_run { session_id = room_id }

abbrev pub output : OutboundDeliveryRecord
output = record pending_delivery {
  session_id = room_id;
  message = record answer { session_id = some room_id };
}

abbrev pub room_question : QueuedMessage
room_question = record queued_question {
  session_id = room_id;
  message = record question { session_id = some room_id };
}

abbrev pub question_record : InboundEventRecord
question_record = record { id = codes "e1"; received_at_unix = 3; recorded_at_unix = 4 }

abbrev pub full_state : RuntimeState
full_state = record {
  sessions = room ∷ [];
  runs = done_run ∷ [];
  run_inputs = [];
  inbound_events = question_record ∷ [];
  queued_messages = room_question ∷ [];
  outbound_deliveries = output ∷ [];
  updated_at_unix = 9;
}

full_state-valid : validate full_state ≡ ok tt
unfolding validate ferris_agent_bridge.Session.validate ferris_agent_bridge.Ids.is_blank
    ferris_agent_bridge.Base.list_eq ferris_agent_bridge.Session.for_scope
    ferris_agent_bridge.Ids.encode_canonical_component ferris_agent_bridge.Base.contains
    ferris_agent_bridge.Run.validate ferris_agent_bridge.Base.ensure_distinct
    ferris_agent_bridge.State.validate_run_session ferris_agent_bridge.State.session
    ferris_agent_bridge.Base.find ferris_agent_bridge.Run.is_terminal
    ferris_agent_bridge.Event.validate ferris_agent_bridge.Outbox.validate
    ferris_agent_bridge.Base.option_eq
    ferris_agent_bridge.State.Deliveries.validate_outbound_delivery_session
    ferris_agent_bridge.Queue.validate ferris_agent_bridge.Queue.last_enqueued
    ferris_agent_bridge.Queue.validate_input ferris_agent_bridge.Queue.validate_messages
    ferris_agent_bridge.State.Validate.last_of ferris_agent_bridge.State.Validate.position
    ferris_agent_bridge.State.outbound_delivery ferris_agent_bridge.State.find_delivery
    ferris_agent_bridge.State.run ferris_agent_bridge.State.find_run
full_state-valid = refl

validate-Consistent_example : Consistent full_state
validate-Consistent_example = validate-Consistent full_state full_state-valid

parse-state_file_from_state_example :
    parse_state_file plain_json (state_file_from_state plain_json full_state) ≡ ok full_state
parse-state_file_from_state_example =
    parse-state_file_from_state plain_json full_state plain_json-IsFaithful full_state-valid

abbrev old_file : RuntimeStateFileWire
old_file = record {
  version = 2;
  sessions = chat ∷ [];
  runs = value (pending_run ∷ []);
  run_inputs = missing;
  inbound_events = missing;
  queued_messages = missing;
  outbound_deliveries = missing;
  updated_at_unix = 1;
}

abbrev old_collections : PersistedCollections
old_collections = record no_collections { runs = pending_run ∷ [] }

old_file-decoded : decode_persisted_collections old_file ≡ ok old_collections
unfolding decode_persisted_collections any
old_file-decoded = refl

decode-Decoded_example : Decoded old_file old_collections
decode-Decoded_example = decode-Decoded old_file old_collections old_file-decoded

-- Nothing fails.
abbrev pub calm : Env
calm = record {
  lock_poisoned = false;
  read_fails = false;
  reread_fails = false;
  write_fails = none;
  exists_fails = false;
  sync_fails = false;
  created = 0;
  now = 9;
}

abbrev pub full_disk : Disk plain_json
full_disk = some (from_state full_state)

-- The disk is full while the new file is written.
abbrev no_space : Env
no_space = record calm { write_fails = some write_all }

full_save : (call plain_json no_space none (save_call room_state)).1 ≡ err (write_error write_all)
unfolding call save ferris_agent_bridge.Store.validate_snapshot_outbound_additions
    ferris_agent_bridge.Store.validate_snapshot_run_input_additions
    ferris_agent_bridge.Store.validate_snapshot_agent_run_transitions
    ferris_agent_bridge.Store.validate_snapshot_run_output_additions
    ferris_agent_bridge.Store.merged validate ferris_agent_bridge.Session.validate
    ferris_agent_bridge.Ids.is_blank ferris_agent_bridge.Base.list_eq
    ferris_agent_bridge.Session.for_scope ferris_agent_bridge.Ids.encode_canonical_component
    ferris_agent_bridge.Base.contains ferris_agent_bridge.Run.validate
    ferris_agent_bridge.Base.ensure_distinct ferris_agent_bridge.State.validate_run_session
    ferris_agent_bridge.State.session ferris_agent_bridge.Base.find
    ferris_agent_bridge.Run.is_terminal ferris_agent_bridge.Event.validate
    ferris_agent_bridge.Outbox.validate ferris_agent_bridge.Base.option_eq
    ferris_agent_bridge.State.Deliveries.validate_outbound_delivery_session
    ferris_agent_bridge.Queue.validate ferris_agent_bridge.Queue.last_enqueued
    ferris_agent_bridge.Queue.validate_input ferris_agent_bridge.Queue.validate_messages
    ferris_agent_bridge.State.Validate.last_of ferris_agent_bridge.State.Validate.position
    ferris_agent_bridge.State.outbound_delivery ferris_agent_bridge.State.find_delivery
    ferris_agent_bridge.State.run ferris_agent_bridge.State.find_run
full_save = refl

failed_call_keeps_file_example :
    ((call plain_json no_space none (save_call room_state)).0 ≡ none)
    ⊎ (write_error write_all ≡ write_error parent_sync)
failed_call_keeps_file_example =
    failed_call_keeps_file plain_json no_space none (save_call room_state) (write_error write_all)
      full_save

abbrev history : List (Env × Call)
history =
    (calm, save_call room_state)
    ∷ (no_space, persist_inbound question_event)
    ∷ (calm, claim_delivery 20 retry_policy)
    ∷ []

replay-load_example :
    (s : RuntimeState) × (load plain_json calm (replay plain_json history none) ≡ ok s)
    × Consistent s
replay-load_example = replay-load plain_json history calm plain_json-IsFaithful refl

abbrev state_before : RuntimeState
state_before = record room_state {
  runs = record pending_run { session_id = room_id } ∷ [];
  updated_at_unix = 2;
}

abbrev run_before : RunRecord
run_before = record pending_run { session_id = room_id }

abbrev state_after : RuntimeState
state_after = record room_state {
  runs = record running_run { session_id = room_id } ∷ [];
  updated_at_unix = 5;
}

abbrev file_before : RuntimeStateFile
file_before = from_state state_before

file_before-parsed : parse_state_file plain_json file_before ≡ ok state_before
unfolding parse_state_file for_each from_state validate ferris_agent_bridge.Session.validate
    ferris_agent_bridge.Ids.is_blank ferris_agent_bridge.Base.list_eq
    ferris_agent_bridge.Session.for_scope ferris_agent_bridge.Ids.encode_canonical_component
    ferris_agent_bridge.Base.contains ferris_agent_bridge.Run.validate
    ferris_agent_bridge.Base.ensure_distinct ferris_agent_bridge.State.validate_run_session
    ferris_agent_bridge.State.session ferris_agent_bridge.Base.find
    ferris_agent_bridge.Run.is_terminal ferris_agent_bridge.Event.validate
    ferris_agent_bridge.Outbox.validate ferris_agent_bridge.Base.option_eq
    ferris_agent_bridge.State.Deliveries.validate_outbound_delivery_session
    ferris_agent_bridge.Queue.validate ferris_agent_bridge.Queue.last_enqueued
    ferris_agent_bridge.Queue.validate_input ferris_agent_bridge.Queue.validate_messages
    ferris_agent_bridge.State.Validate.last_of ferris_agent_bridge.State.Validate.position
    ferris_agent_bridge.State.outbound_delivery ferris_agent_bridge.State.find_delivery
    ferris_agent_bridge.State.run ferris_agent_bridge.State.find_run
file_before-parsed = refl

saved : (save plain_json calm (some file_before) state_after).1 ≡ ok tt
unfolding ferris_agent_bridge.State.Merge.validate_shared_inbound_event_identity
    ferris_agent_bridge.State.Merge.preserve_runs_from
    ferris_agent_bridge.State.Merge.preserve_run_inputs_from
    ferris_agent_bridge.State.Merge.preserve_inbound_events_from
    ferris_agent_bridge.State.Merge.preserve_queued_messages_from
    ferris_agent_bridge.State.Merge.preserve_outbound_deliveries_from parse_state_file for_each
    from_state save ferris_agent_bridge.Store.validate_snapshot_outbound_additions
    ferris_agent_bridge.Store.validate_snapshot_run_input_additions
    ferris_agent_bridge.Store.validate_snapshot_agent_run_transitions
    ferris_agent_bridge.Store.validate_snapshot_run_output_additions
    ferris_agent_bridge.Store.merged ferris_agent_bridge.Run.is_descendant_of
    ferris_agent_bridge.State.touch_at ferris_agent_bridge.State.run_input validate
    ferris_agent_bridge.Session.validate ferris_agent_bridge.Ids.is_blank
    ferris_agent_bridge.Base.list_eq ferris_agent_bridge.Session.for_scope
    ferris_agent_bridge.Ids.encode_canonical_component ferris_agent_bridge.Base.contains
    ferris_agent_bridge.Run.validate ferris_agent_bridge.Base.ensure_distinct
    ferris_agent_bridge.State.validate_run_session ferris_agent_bridge.State.session
    ferris_agent_bridge.Base.find ferris_agent_bridge.Run.is_terminal
    ferris_agent_bridge.Event.validate ferris_agent_bridge.Outbox.validate
    ferris_agent_bridge.Base.option_eq
    ferris_agent_bridge.State.Deliveries.validate_outbound_delivery_session
    ferris_agent_bridge.Queue.validate ferris_agent_bridge.Queue.last_enqueued
    ferris_agent_bridge.Queue.validate_input ferris_agent_bridge.Queue.validate_messages
    ferris_agent_bridge.State.Validate.last_of ferris_agent_bridge.State.Validate.position
    ferris_agent_bridge.State.outbound_delivery ferris_agent_bridge.State.find_delivery
    ferris_agent_bridge.State.run ferris_agent_bridge.State.find_run
saved = refl

save-keeps_example :
    (s' : RuntimeState) × ((save plain_json calm (some file_before) state_after).0
      ≡ some (state_file_from_state plain_json s'))
    × (validate s' ≡ ok tt)
    × All (λ r. Kept r s'.runs) state_before.runs
    × All (λ r. Kept r s'.runs) state_after.runs
    × Merged state_before state_after s'
save-keeps_example =
    save-keeps plain_json calm file_before state_before state_after file_before-parsed saved
