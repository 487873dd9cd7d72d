-- ===== src/State/Inbound.antt =====
-- `record_inbound_event` of runtime/state/model.rs: the ledger of inbound events and the queue.
use ferris_agent_bridge.Base.{
  ℕ, max, not, List, [], ◌∷◌, ◌++◌, Option, none, some, Result, ok, err, ◌>>=◌, ◌>>◌, fail_if,
  ok_or, map_err, ◌==◌, nat_partial_eq, find, is_some, retain,
}
use ferris_agent_bridge.Base.Text.{text_partial_eq}
use ferris_agent_bridge.Session.{SessionId}
use ferris_agent_bridge.Message.{Message}
use ferris_agent_bridge.Event.{
  Event, EventId, EventKind, message_received, InboundEventRecord, InboundEventRecordStatus,
  recorded, duplicate,
}
use ferris_agent_bridge.Event
use ferris_agent_bridge.Queue.{QueuedMessage, RunInputRecord, has_same_identity}
use ferris_agent_bridge.Queue
use ferris_agent_bridge.State.{
  RuntimeState, Error, event_error, queue_error, event_without_session, unknown_session,
  event_conflict, message_conflict, message_lost, session, inbound_event, touch_at,
}

-- The messages of all run inputs, in order.
unfoldable pub input_messages : List RunInputRecord → List QueuedMessage
input_messages [] = []
input_messages (i ∷ is) = i.messages ++ input_messages is

unfoldable pub claimed_message_for_event : RuntimeState → EventId → Option QueuedMessage
claimed_message_for_event s id = find (λ q. q.event_id == id) (input_messages s.run_inputs)

unfoldable pub message_record_for_event : RuntimeState → EventId → Option QueuedMessage
message_record_for_event s id = elim (find (λ q. q.event_id == id) s.queued_messages) [
  | some q ↦ some q
  | none ↦ claimed_message_for_event s id
]

-- `.map(QueuedMessage::enqueued_at_unix).max().unwrap_or(0)`
unfoldable pub latest_enqueued : List QueuedMessage → ℕ
latest_enqueued [] = 0
latest_enqueued (q ∷ qs) = max q.enqueued_at_unix (latest_enqueued qs)

-- The messages of a session that were queued before: claimed ones, then those in the queue.
unfoldable pub session_messages : RuntimeState → SessionId → List QueuedMessage
unfolding input_messages
session_messages s id =
    input_messages (retain (λ i. i.session_id == id) s.run_inputs)
    ++ retain (λ q. q.session_id == id) s.queued_messages

unfoldable pub queued_message_for_message :
    RuntimeState → Event → Message → ℕ → Result Error (Option QueuedMessage)
queued_message_for_message s e m recorded_at_unix = do
  session_id ← ok_or m.session_id event_without_session
  fail_if (not (is_some (session s session_id))) unknown_session
  let previous = latest_enqueued (session_messages s session_id)
  q ← map_err queue_error (Queue.from_event e (max recorded_at_unix previous))
  ok (some q)

unfoldable pub queued_message_for_event :
    RuntimeState → Event → ℕ → Result Error (Option QueuedMessage)
unfolding queued_message_for_message
queued_message_for_event s e recorded_at_unix = elim e.kind [
  | message_received m ↦ queued_message_for_message s e m recorded_at_unix
  | _ ↦ ok none
]

-- The `match (existing_message, queued)` on an event that the ledger has.
unfoldable pub check_duplicate :
    Option QueuedMessage → Option QueuedMessage → Result Error InboundEventRecordStatus
check_duplicate (some existing) (some candidate) = do
  fail_if (not (has_same_identity existing candidate)) message_conflict
  ok duplicate
check_duplicate (some existing) none = err message_conflict
check_duplicate none (some candidate) = err message_lost
check_duplicate none none = ok duplicate

unfoldable pub push_queued : RuntimeState → Option QueuedMessage → RuntimeState
unfolding touch_at
push_queued s none = s
push_queued s (some q) = record (touch_at s q.enqueued_at_unix) {
  queued_messages = s.queued_messages ++ q ∷ [];
}

unfoldable pub record_inbound_event_at :
    RuntimeState → Event → ℕ → Result Error (RuntimeState × InboundEventRecordStatus)
record_inbound_event_at s e recorded_at_unix = do
  queued ← queued_message_for_event s e recorded_at_unix
  elim (inbound_event s e.id) [
    | some existing ↦ do
      fail_if (not (existing.received_at_unix == e.received_at_unix)) event_conflict
      status ← check_duplicate (message_record_for_event s e.id) queued
      ok (s, status)
    | none ↦ do
      r ← map_err event_error (Event.from_event e recorded_at_unix)
      let s' = push_queued (record s { inbound_events = s.inbound_events ++ r ∷ [] }) queued
      ok (touch_at s' r.recorded_at_unix, recorded)
  ]

unfoldable pub record_inbound_event :
    RuntimeState → Event → ℕ → Result Error (RuntimeState × InboundEventRecordStatus)
unfolding record_inbound_event_at
record_inbound_event s e now = record_inbound_event_at s e now
