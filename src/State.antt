-- ===== src/State.antt =====
-- runtime/state/model.rs: the runtime state, its queries, and what it does to sessions and runs.
-- A method of `&mut self` returns the new state. `now` is what the source reads from
-- `unix_seconds_now()`. Where a method fails the caller's state is given up by the store
-- (state/store), so an error carries no state.
pub mod Inbound
pub mod Deliveries
pub mod Batches
pub mod Startup
pub mod RecoveredRuns
pub mod Recovery
pub mod DeliveryRecovery
pub mod RunInvariant
pub mod DeliveryInvariant
pub mod Outputs
pub mod Completion
pub mod Steps
pub mod Frames
pub mod Invariant
pub mod Idempotence
pub mod Validate
pub mod ValidRuns
pub mod ValidMessages
pub mod Consistent
pub mod Sessions
pub mod Parts
pub mod Merge
pub mod MergeRuns
use ferris_agent_bridge.Base.{
  ℕ, max, Bool, true, false, ◌&&◌, ◌||◌, not, ◌≡◌, ◌≢◌, ◌↔◌, List, [], ◌∷◌, ◌++◌, map, Option, none,
  some, Result, ok, err, ◌>>=◌, ◌>>◌, fail_if, ok_or, map_err, ltb, PartialEq, ◌==◌, eq_iff, arith,
  nat_partial_eq, find, any, update_first, is_some, if◌then◌else◌,
}
use ferris_agent_bridge.Base.Text.{Text, text_partial_eq}
use ferris_agent_bridge.Session.{SessionId, Session, refresh_from}
use ferris_agent_bridge.Session
use ferris_agent_bridge.Event.{EventId, InboundEventRecord}
use ferris_agent_bridge.Event
use ferris_agent_bridge.Ids.{OutboundDeliveryId}
use ferris_agent_bridge.Outbox.{OutboundDeliveryRecord}
use ferris_agent_bridge.Outbox
use ferris_agent_bridge.Queue.{QueuedMessage, RunInputRecord, MessageQueuePolicy, MessageQueuePoll}
use ferris_agent_bridge.Queue
use ferris_agent_bridge.Run.{RunId, RunRecord, is_terminal}
use ferris_agent_bridge.Run

pub data Error : Type 0 where
  session_error : Session.Error → Error
  event_error : Event.Error → Error
  run_error : Run.Error → Error
  delivery_error : Outbox.Error → Error
  queue_error : Queue.Error → Error
  unknown_session unknown_run unknown_delivery : Error
  duplicate_run session_busy : Error
  event_without_session event_conflict message_conflict message_lost : Error
  delivery_not_pending delivery_conflict : Error
  no_outputs cannot_complete completion_in_past : Error
  output_not_pending output_session output_author output_time output_duplicate output_exists : Error
  duplicate_session duplicate_event duplicate_delivery duplicate_queued duplicate_input : Error
  stale_for_session stale_for_run stale_for_event stale_for_delivery : Error
  stale_for_queued stale_for_input : Error
  output_shared output_missing output_mismatch output_not_agent output_not_finish : Error
  queued_without_event queued_ledger_order queued_received queued_early queued_order : Error
  input_session input_claim_time still_queued claimed_twice : Error
  claimed_without_event claimed_received claimed_early claimed_order claimed_ledger_order : Error
  queued_before_claimed queued_before_owned : Error
  conflicting_event conflicting_identity conflicting_run conflicting_input : Error
  conflicting_delivery conflicting_claimed conflicting_queued : Error

pub record RuntimeState : Type 0 where
  pub sessions : List Session
  pub runs : List RunRecord
  pub run_inputs : List RunInputRecord
  pub inbound_events : List InboundEventRecord
  pub queued_messages : List QueuedMessage
  pub outbound_deliveries : List OutboundDeliveryRecord
  pub updated_at_unix : ℕ

unfoldable pub new : ℕ → RuntimeState
new now = record {
  sessions = [];
  runs = [];
  run_inputs = [];
  inbound_events = [];
  queued_messages = [];
  outbound_deliveries = [];
  updated_at_unix = now;
}

unfoldable pub touch_at : RuntimeState → ℕ → RuntimeState
touch_at s t = record s { updated_at_unix = max s.updated_at_unix t }

unfoldable pub session : RuntimeState → SessionId → Option Session
session s id = find (λ x. x.id == id) s.sessions

unfoldable pub find_run : RunId → List RunRecord → Option RunRecord
find_run id = find (λ r. r.id == id)

unfoldable pub run : RuntimeState → RunId → Option RunRecord
run s id = find_run id s.runs

unfoldable pub run_input : RuntimeState → RunId → Option RunInputRecord
run_input s id = find (λ i. i.run_id == id) s.run_inputs

unfoldable pub inbound_event : RuntimeState → EventId → Option InboundEventRecord
inbound_event s id = find (λ e. e.id == id) s.inbound_events

unfoldable pub has_inbound_event : RuntimeState → EventId → Bool
has_inbound_event s id = is_some (inbound_event s id)

unfoldable pub find_delivery :
    OutboundDeliveryId → List OutboundDeliveryRecord → Option OutboundDeliveryRecord
find_delivery id = find (λ d. d.id == id)

unfoldable pub outbound_delivery : RuntimeState → OutboundDeliveryId → Option OutboundDeliveryRecord
outbound_delivery s id = find_delivery id s.outbound_deliveries

unfoldable pub poll_message_queue : RuntimeState → MessageQueuePolicy → ℕ → MessageQueuePoll
poll_message_queue s policy now_unix = Queue.poll policy s.queued_messages now_unix

unfoldable pub upsert_session : RuntimeState → Session → ℕ → RuntimeState
unfolding touch_at
upsert_session s x now = elim (find (λ y. y.id == x.id) s.sessions) [
  | some existing ↦
      let y = refresh_from existing x in
      touch_at (record s { sessions = update_first (λ z. z.id == x.id) y s.sessions })
        (max y.updated_at_unix now)
  | none ↦ touch_at (record s { sessions = s.sessions ++ x ∷ [] }) (max x.updated_at_unix now)
]

unfoldable pub validate_run_session : RuntimeState → RunRecord → Result Error (Unit {0})
validate_run_session s r = fail_if (not (is_some (session s r.session_id))) unknown_session

-- The test of the search for another active run of the session.
unfoldable pub active_in : SessionId → RunRecord → Bool
active_in id r = r.session_id == id && not (is_terminal r)

unfoldable pub add_run : RuntimeState → RunRecord → ℕ → Result Error RuntimeState
unfolding touch_at validate_run_session
add_run s r now = do
  validate_run_session s r
  fail_if (any (λ x. x.id == r.id) s.runs) duplicate_run
  fail_if (not (is_terminal r) && any (active_in r.session_id) s.runs) session_busy
  ok (touch_at (record s { runs = s.runs ++ r ∷ [] }) (max r.updated_at_unix now))

-- `run_mut(id)?` and a transition of the run, then `touch_at`.
unfoldable pub update_run :
    RuntimeState → RunId → (RunRecord → Result Run.Error RunRecord) → ℕ → Result Error RuntimeState
unfolding touch_at
update_run s id f t = do
  r ← ok_or (run s id) unknown_run
  r' ← map_err run_error (f r)
  ok (touch_at (record s { runs = update_first (λ x. x.id == id) r' s.runs }) t)

unfoldable pub start_run : RuntimeState → RunId → ℕ → ℕ → Result Error RuntimeState
unfolding update_run
start_run s id t now = update_run s id (λ r. Run.start r t) (max t now)

unfoldable pub interrupt_run : RuntimeState → RunId → ℕ → ℕ → Result Error RuntimeState
unfolding update_run
interrupt_run s id t now = update_run s id (λ r. Run.interrupt r t) (max t now)

unfoldable pub complete_run : RuntimeState → RunId → ℕ → ℕ → Result Error RuntimeState
unfolding update_run
complete_run s id t now = update_run s id (λ r. Run.complete r t) (max t now)

unfoldable pub fail_run : RuntimeState → RunId → ℕ → ℕ → Result Error RuntimeState
unfolding update_run
fail_run s id t now = update_run s id (λ r. Run.fail r t) (max t now)

unfoldable pub cancel_run : RuntimeState → RunId → ℕ → ℕ → Result Error RuntimeState
unfolding update_run
cancel_run s id t now = update_run s id (λ r. Run.cancel r t) (max t now)
