-- ===== src/Format/Records.antt =====
-- The file as it is read, and the checks in `Deserialize` of the records of a valid state.
use ferris_agent_bridge.State.Deliveries.{validate_outbound_delivery_session}
use ferris_agent_bridge.Session
use ferris_agent_bridge.Event
use ferris_agent_bridge.Outbox
use ferris_agent_bridge.Queue
use ferris_agent_bridge.Outbox.{OutboundDeliveryRecord}
use ferris_agent_bridge.Ids.{OutboundDeliveryId}
use ferris_agent_bridge.Queue.{
  QueuedMessage, input_empty, claimed_before_ready, validate_messages, wrong_session, unordered,
  RunInputRecord,
}
use ferris_agent_bridge.Run.{RunId, RunRecord}
use ferris_agent_bridge.State.{
  RuntimeState, queue_error, event_error, session_error, delivery_error, run_error,
  validate_run_session, duplicate_run, duplicate_session, duplicate_delivery, stale_for_run,
  duplicate_queued, duplicate_event, stale_for_event, queued_without_event, duplicate_input,
  stale_for_session, run, stale_for_delivery, queued_ledger_order, queued_received, unknown_run,
  input_session, queued_early, session, input_claim_time, unknown_session, stale_for_input,
  queued_order, stale_for_queued,
}
use ferris_agent_bridge.Session.{SessionId, Session}
use ferris_agent_bridge.Event.{EventId, InboundEventRecord}
use ferris_agent_bridge.Format.{RuntimeStateFile, RuntimeStateFileWire, value, bad_input}
use ferris_agent_bridge.Format.Current.{
  SerdeJson, Keys, check_event, check_run, check_message, check_session, check_delivery,
  output_delivery_ids_key, from_state, check_input, check_records, on_value,
}
use ferris_agent_bridge.State.Validate.{
  check_sessions, check_runs, check_queued, check_deliveries, check_events, Owners, check_owned,
  check_active, check_inputs, check_claimed, Owned, nothing_owned, check_owners, position, last_of,
  validate,
}
use ferris_agent_bridge.Base.Text.{text_partial_eq, codes}
use ferris_agent_bridge.Base.{
  ℕ, ◌≡◌, refl, ap, not, Option, none, some, List, [], ◌∷◌, map, ok, fail_if, ok_or, map_err,
  when_some, for_each, ltb, leb, ◌==◌, nat_partial_eq, is_some, is_nil, contains, >>=-eq-ok,
  >>-eq-ok, map_err-eq-ok,
}
use ferris_agent_bridge.Run

-- What a file has when it is read.
abbrev pub wire_of : RuntimeStateFile → RuntimeStateFileWire
wire_of f = record {
  version = f.version;
  sessions = f.sessions;
  runs = value f.runs;
  run_inputs = value f.run_inputs;
  inbound_events = value f.inbound_events;
  queued_messages = value f.queued_messages;
  outbound_deliveries = value f.outbound_deliveries;
  updated_at_unix = f.updated_at_unix;
}

-- The fields of `RunRecord`, in the order in which they are written.
abbrev pub run_keys : Keys
run_keys =
    codes "id"
    ∷ codes "session_id"
    ∷ codes "status"
    ∷ codes "created_at_unix"
    ∷ codes "updated_at_unix"
    ∷ codes "started_at_unix"
    ∷ codes "finished_at_unix"
    ∷ output_delivery_ids_key
    ∷ []

-- What the code relies on of `serde_json`: what it writes it reads again, with the fields of the
-- derived `Serialize`.
pub record IsFaithful (J : SerdeJson) : Type 0 where
  pub reads : (f : RuntimeStateFile) → J.from_str (J.to_vec_pretty f) ≡ some (wire_of f)
  pub shows :
      (f : RuntimeStateFile)
      → J.runs_shape (J.to_vec_pretty f) ≡ some (some (map (λ r. some run_keys) f.runs))

pub sessions_ok :
    (t : ℕ) (seen : List SessionId) (xs : List Session)
    → check_sessions t seen xs ≡ ok tt
    → for_each check_session xs ≡ ok tt
unfolding check_sessions for_each check_session
sessions_ok t seen [] h = refl
sessions_ok t seen (x ∷ xs) h =
    let (a, h1) = >>-eq-ok (map_err session_error (Session.validate x)) _ h in
    let (b, h2) = >>-eq-ok (fail_if (contains x.id seen) duplicate_session) _ h1 in
    let (c, h3) = >>-eq-ok (fail_if (ltb t x.updated_at_unix) stale_for_session) _ h2 in
    rw (map_err-eq-ok session_error (Session.validate x) a) (sessions_ok t (x.id ∷ seen) xs h3)

pub runs_ok :
    (s : RuntimeState) (seen : List RunId) (owners : Owners) (active : List SessionId)
    (rs : List RunRecord) {o : Owners}
    → check_runs s seen owners active rs ≡ ok o
    → for_each check_run rs ≡ ok tt
unfolding check_runs for_each check_run
runs_ok s seen owners active [] h = refl
runs_ok s seen owners active (r ∷ rs) h =
    let (a, h1) = >>-eq-ok (map_err run_error (Run.validate r)) _ h in
    let (b, h2) = >>-eq-ok (validate_run_session s r) _ h1 in
    let (c, h3) = >>-eq-ok (fail_if (contains r.id seen) duplicate_run) _ h2 in
    let (owners', d, h4) = >>=-eq-ok (check_owned r.id owners r.output_delivery_ids) _ h3 in
    let (active', e, h5) = >>=-eq-ok (check_active r active) _ h4 in
    let (g, h6) = >>-eq-ok (fail_if (ltb s.updated_at_unix r.updated_at_unix) stale_for_run) _ h5 in
    rw (map_err-eq-ok run_error (Run.validate r) a) (runs_ok s (r.id ∷ seen) owners' active' rs h6)

pub events_ok :
    (t : ℕ) (seen : List EventId) (es : List InboundEventRecord)
    → check_events t seen es ≡ ok tt
    → for_each check_event es ≡ ok tt
unfolding check_events for_each check_event
events_ok t seen [] h = refl
events_ok t seen (e ∷ es) h =
    let (a, h1) = >>-eq-ok (map_err event_error (Event.validate e)) _ h in
    let (b, h2) = >>-eq-ok (fail_if (contains e.id seen) duplicate_event) _ h1 in
    let (c, h3) = >>-eq-ok (fail_if (ltb t e.recorded_at_unix) stale_for_event) _ h2 in
    rw (map_err-eq-ok event_error (Event.validate e) a) (events_ok t (e.id ∷ seen) es h3)

pub deliveries_ok :
    (s : RuntimeState) (seen : List OutboundDeliveryId) (ds : List OutboundDeliveryRecord)
    → check_deliveries s seen ds ≡ ok tt
    → for_each check_delivery ds ≡ ok tt
unfolding check_deliveries for_each check_delivery
deliveries_ok s seen [] h = refl
deliveries_ok s seen (d ∷ ds) h =
    let (a, h1) = >>-eq-ok (map_err delivery_error (Outbox.validate d)) _ h in
    let (b, h2) = >>-eq-ok (fail_if (contains d.id seen) duplicate_delivery) _ h1 in
    let (c, h3) = >>-eq-ok (validate_outbound_delivery_session s d) _ h2 in
    let (e, h4) =
      >>-eq-ok (fail_if (ltb s.updated_at_unix d.updated_at_unix) stale_for_delivery) _ h3 in
    rw (map_err-eq-ok delivery_error (Outbox.validate d) a) (deliveries_ok s (d.id ∷ seen) ds h4)

pub queued_ok :
    (s : RuntimeState) (seen : List EventId) (last : Option ℕ) (times : List (SessionId × ℕ))
    (qs : List QueuedMessage)
    → check_queued s seen last times qs ≡ ok tt
    → for_each check_message qs ≡ ok tt
unfolding check_queued for_each check_message
queued_ok s seen last times [] h = refl
queued_ok s seen last times (q ∷ qs) h =
    let (a, h1) = >>-eq-ok (map_err queue_error (Queue.validate q)) _ h in
    let (b, h2) = >>-eq-ok (fail_if (contains q.event_id seen) duplicate_queued) _ h1 in
    let ((p, e), at, h3) = >>=-eq-ok (ok_or (position s q.event_id) queued_without_event) _ h2 in
    let (c1, h4) = >>-eq-ok (when_some last (λ l. fail_if (leb p l) queued_ledger_order)) _ h3 in
    let (c2, h5) =
      >>-eq-ok (fail_if (not (q.received_at_unix == e.received_at_unix)) queued_received) _ h4 in
    let (c3, h6) =
      >>-eq-ok (fail_if (ltb q.enqueued_at_unix e.recorded_at_unix) queued_early) _ h5 in
    let (c4, h7) =
      >>-eq-ok (fail_if (not (is_some (session s q.session_id))) unknown_session) _ h6 in
    let (c5, h8) =
      >>-eq-ok
        (when_some (last_of q.session_id times)
          (λ t. fail_if (ltb q.enqueued_at_unix t) queued_order))
        _ h7 in
    let (c6, h9) =
      >>-eq-ok (fail_if (ltb s.updated_at_unix q.enqueued_at_unix) stale_for_queued) _ h8 in
    rw (map_err-eq-ok queue_error (Queue.validate q) a)
      (queued_ok s (q.event_id ∷ seen) (some p) ((q.session_id, q.enqueued_at_unix) ∷ times) qs h9)

pub messages_ok :
    (id : SessionId) (seen : List EventId) (last : Option ℕ) (ms : List QueuedMessage)
    → validate_messages id seen last ms ≡ ok tt
    → for_each check_message ms ≡ ok tt
unfolding validate_messages for_each check_message
messages_ok id seen last [] h = refl
messages_ok id seen last (m ∷ ms) h =
    let (a, h1) = >>-eq-ok (Queue.validate m) _ h in
    let (b, h2) = >>-eq-ok (fail_if (not (m.session_id == id)) wrong_session) _ h1 in
    let (c, h3) = >>-eq-ok (fail_if (contains m.event_id seen) Queue.duplicate_event) _ h2 in
    let (d, h4) =
      >>-eq-ok (when_some last (λ t. fail_if (ltb m.enqueued_at_unix t) unordered)) _ h3 in
    rw a (messages_ok id (m.event_id ∷ seen) (some m.enqueued_at_unix) ms h4)

pub input_ok : (i : RunInputRecord) → Queue.validate_input i ≡ ok tt → check_input i ≡ ok tt
unfolding Queue.validate_input check_input
input_ok i h =
    let (a, h1) = >>-eq-ok (fail_if (is_nil i.messages) input_empty) _ h in
    let (b, h2) =
      >>-eq-ok (fail_if (ltb i.claimed_at_unix i.ready_at_unix) claimed_before_ready) _ h1 in
    let (c, h3) = >>-eq-ok (validate_messages i.session_id [] none i.messages) _ h2 in
    rw (messages_ok i.session_id [] none i.messages c) (ap (map_err bad_input) h)

pub inputs_ok :
    (s : RuntimeState) (queued : List EventId) (seen : List RunId) (o : Owned)
    (is : List RunInputRecord) {o' : Owned}
    → check_inputs s queued seen o is ≡ ok o'
    → for_each check_input is ≡ ok tt
unfolding check_inputs for_each
inputs_ok s queued seen o [] h = refl
inputs_ok s queued seen o (i ∷ is) h =
    let (a, h1) = >>-eq-ok (map_err queue_error (Queue.validate_input i)) _ h in
    let (b, h2) = >>-eq-ok (fail_if (contains i.run_id seen) duplicate_input) _ h1 in
    let (r, c, h3) = >>=-eq-ok (ok_or (run s i.run_id) unknown_run) _ h2 in
    let (d, h4) = >>-eq-ok (fail_if (not (r.session_id == i.session_id)) input_session) _ h3 in
    let (e, h5) =
      >>-eq-ok (fail_if (not (r.created_at_unix == i.claimed_at_unix)) input_claim_time) _ h4 in
    let (o2, g, h6) = >>=-eq-ok (check_claimed s i.session_id queued o i.messages) _ h5 in
    let (k, h7) =
      >>-eq-ok (fail_if (ltb s.updated_at_unix i.claimed_at_unix) stale_for_input) _ h6 in
    rw (input_ok i (map_err-eq-ok queue_error (Queue.validate_input i) a))
      (inputs_ok s queued (i.run_id ∷ seen) o2 is h7)

pub records_ok :
    (s : RuntimeState) → validate s ≡ ok tt → check_records (wire_of (from_state s)) ≡ ok tt
unfolding validate check_records on_value from_state
records_ok s h =
    let (sessions, h1) = >>-eq-ok (check_sessions s.updated_at_unix [] s.sessions) _ h in
    let (owners, runs, h2) = >>=-eq-ok (check_runs s [] [] [] s.runs) _ h1 in
    let (events, h3) = >>-eq-ok (check_events s.updated_at_unix [] s.inbound_events) _ h2 in
    let (deliveries, h4) = >>-eq-ok (check_deliveries s [] s.outbound_deliveries) _ h3 in
    let (outputs, h5) = >>-eq-ok (check_owners s owners) _ h4 in
    let (queued, h6) = >>-eq-ok (check_queued s [] none [] s.queued_messages) _ h5 in
    let (o, inputs, h7) =
      >>=-eq-ok
        (check_inputs s (map (λ q. q.event_id) s.queued_messages) [] nothing_owned s.run_inputs) _
        h6 in
    rw (sessions_ok s.updated_at_unix [] s.sessions sessions) (
      rw (runs_ok s [] [] [] s.runs runs) (
        rw
          (inputs_ok s (map (λ q. q.event_id) s.queued_messages) [] nothing_owned s.run_inputs
            inputs)
          (rw (events_ok s.updated_at_unix [] s.inbound_events events) (
            rw (queued_ok s [] none [] s.queued_messages queued)
              (deliveries_ok s [] s.outbound_deliveries deliveries)))))
