-- ===== src/State/Validate.antt =====
-- `RuntimeState::validate` of runtime/state/model.rs: the checks of a whole state before it is
-- written and after it is read. Each loop of the source is a recursion with the sets and maps that
-- the loop fills; a map is a list of pairs in which the latest comes first.
use ferris_agent_bridge.Base.{
  ℕ, suc, not, List, [], ◌∷◌, map, Option, none, some, Result, ok, err, ◌>>=◌, ◌>>◌, fail_if,
  map_err, ok_or, when_some, contains, ◌==◌, nat_partial_eq, ltb, leb, is_some, if◌then◌else◌,
  option_partial_eq,
}
use ferris_agent_bridge.Base.Text.{text_partial_eq}
use ferris_agent_bridge.Ids.{OutboundDeliveryId}
use ferris_agent_bridge.Session.{SessionId, Session}
use ferris_agent_bridge.Session
use ferris_agent_bridge.Message.{agent, author_partial_eq}
use ferris_agent_bridge.Event.{EventId, InboundEventRecord}
use ferris_agent_bridge.Event
use ferris_agent_bridge.Run.{RunId, RunRecord, is_terminal}
use ferris_agent_bridge.Run
use ferris_agent_bridge.Outbox.{OutboundDeliveryRecord}
use ferris_agent_bridge.Outbox
use ferris_agent_bridge.Queue.{QueuedMessage, RunInputRecord}
use ferris_agent_bridge.Queue
use ferris_agent_bridge.State.{
  RuntimeState, Error, session_error, event_error, run_error, delivery_error, queue_error,
  unknown_session, unknown_run, duplicate_run, session_busy, duplicate_session, duplicate_event,
  duplicate_delivery, duplicate_queued, duplicate_input, stale_for_session, stale_for_run,
  stale_for_event, stale_for_delivery, stale_for_queued, stale_for_input, output_shared,
  output_missing, output_mismatch, output_not_agent, output_not_finish, queued_without_event,
  queued_ledger_order, queued_received, queued_early, queued_order, input_session, input_claim_time,
  still_queued, claimed_twice, claimed_without_event, claimed_received, claimed_early,
  claimed_order, claimed_ledger_order, queued_before_claimed, queued_before_owned, session, run,
  outbound_delivery, validate_run_session,
}
use ferris_agent_bridge.State.Deliveries.{validate_outbound_delivery_session}

-- The value of a map of sessions, in which the latest entry counts.
unfoldable pub last_of : SessionId → List (SessionId × ℕ) → Option ℕ
last_of id [] = none
last_of id ((k, t) ∷ m) = if k == id then some t else last_of id m

unfoldable pub check_sessions : ℕ → List SessionId → List Session → Result Error (Unit {0})
check_sessions updated seen [] = ok tt
check_sessions updated seen (x ∷ xs) = do
  map_err session_error (Session.validate x)
  fail_if (contains x.id seen) duplicate_session
  fail_if (ltb updated x.updated_at_unix) stale_for_session
  check_sessions updated (x.id ∷ seen) xs

-- `output_delivery_owner_by_id`: which run owns an output.
abbrev pub Owners : Type 0
Owners = List (OutboundDeliveryId × RunId)

unfoldable pub check_owned : RunId → Owners → List OutboundDeliveryId → Result Error Owners
check_owned id owners [] = ok owners
check_owned id owners (d ∷ ds) = do
  fail_if (contains d (map (λ o. o.0) owners)) output_shared
  check_owned id ((d, id) ∷ owners) ds

-- The sessions with an active run, after one more run.
unfoldable pub check_active : RunRecord → List SessionId → Result Error (List SessionId)
check_active r active =
    if is_terminal r
    then ok active
    else if contains r.session_id active
    then err session_busy
    else ok (r.session_id ∷ active)

unfoldable pub check_runs :
    RuntimeState → List RunId → Owners → List SessionId → List RunRecord → Result Error Owners
unfolding check_owned check_active
check_runs s seen owners active [] = ok owners
check_runs s seen owners active (r ∷ rs) = do
  map_err run_error (Run.validate r)
  validate_run_session s r
  fail_if (contains r.id seen) duplicate_run
  owners' ← check_owned r.id owners r.output_delivery_ids
  active' ← check_active r active
  fail_if (ltb s.updated_at_unix r.updated_at_unix) stale_for_run
  check_runs s (r.id ∷ seen) owners' active' rs

unfoldable pub check_events : ℕ → List EventId → List InboundEventRecord → Result Error (Unit {0})
check_events updated seen [] = ok tt
check_events updated seen (e ∷ es) = do
  map_err event_error (Event.validate e)
  fail_if (contains e.id seen) duplicate_event
  fail_if (ltb updated e.recorded_at_unix) stale_for_event
  check_events updated (e.id ∷ seen) es

unfoldable pub check_deliveries :
    RuntimeState → List OutboundDeliveryId → List OutboundDeliveryRecord → Result Error (Unit {0})
check_deliveries s seen [] = ok tt
check_deliveries s seen (d ∷ ds) = do
  map_err delivery_error (Outbox.validate d)
  fail_if (contains d.id seen) duplicate_delivery
  validate_outbound_delivery_session s d
  fail_if (ltb s.updated_at_unix d.updated_at_unix) stale_for_delivery
  check_deliveries s (d.id ∷ seen) ds

-- The loop over the owners. `unknown_run` stands for the panic of `expect`.
unfoldable pub check_owners : RuntimeState → Owners → Result Error (Unit {0})
check_owners s [] = ok tt
check_owners s ((delivery_id, run_id) ∷ owners) = do
  r ← ok_or (run s run_id) unknown_run
  d ← ok_or (outbound_delivery s delivery_id) output_missing
  fail_if (not (d.session_id == r.session_id)) output_mismatch
  fail_if (not (d.message.author == agent)) output_not_agent
  fail_if (not (some d.created_at_unix == r.finished_at_unix)) output_not_finish
  check_owners s owners

-- `inbound_event_positions.get(id)`, with the record at that position.
unfoldable pub position_from :
    ℕ → EventId → List InboundEventRecord → Option (ℕ × InboundEventRecord)
position_from i id [] = none
position_from i id (e ∷ es) = if e.id == id then some (i, e) else position_from (suc i) id es

unfoldable pub position : RuntimeState → EventId → Option (ℕ × InboundEventRecord)
unfolding position_from
position s id = position_from 0 id s.inbound_events

unfoldable pub check_queued :
    RuntimeState
    → List EventId
    → Option ℕ
    → List (SessionId × ℕ)
    → List QueuedMessage
    → Result Error (Unit {0})
unfolding last_of position
check_queued s seen last_position last_at [] = ok tt
check_queued s seen last_position last_at (q ∷ qs) = do
  map_err queue_error (Queue.validate q)
  fail_if (contains q.event_id seen) duplicate_queued
  (p, e) ← ok_or (position s q.event_id) queued_without_event
  when_some last_position (λ l. fail_if (leb p l) queued_ledger_order)
  fail_if (not (q.received_at_unix == e.received_at_unix)) queued_received
  fail_if (ltb q.enqueued_at_unix e.recorded_at_unix) queued_early
  fail_if (not (is_some (session s q.session_id))) unknown_session
  when_some (last_of q.session_id last_at) (λ t. fail_if (ltb q.enqueued_at_unix t) queued_order)
  fail_if (ltb s.updated_at_unix q.enqueued_at_unix) stale_for_queued
  check_queued s (q.event_id ∷ seen) (some p) ((q.session_id, q.enqueued_at_unix) ∷ last_at) qs

-- What the loop over the run inputs fills: the events claimed, and for each session the enqueue time
-- and the ledger position of the last message that it owns.
pub record Owned : Type 0 where
  pub claimed : List EventId
  pub last_at : List (SessionId × ℕ)
  pub last_position : List (SessionId × ℕ)

unfoldable pub check_claimed :
    RuntimeState → SessionId → List EventId → Owned → List QueuedMessage → Result Error Owned
unfolding last_of position
check_claimed s x queued o [] = ok o
check_claimed s x queued o (m ∷ ms) = do
  fail_if (contains m.event_id queued) still_queued
  fail_if (contains m.event_id o.claimed) claimed_twice
  (p, e) ← ok_or (position s m.event_id) claimed_without_event
  fail_if (not (m.received_at_unix == e.received_at_unix)) claimed_received
  fail_if (ltb m.enqueued_at_unix e.recorded_at_unix) claimed_early
  when_some (last_of x o.last_at) (λ t. fail_if (ltb m.enqueued_at_unix t) claimed_order)
  when_some (last_of x o.last_position) (λ l. fail_if (leb p l) claimed_ledger_order)
  check_claimed s x queued
      (record {
        claimed = m.event_id ∷ o.claimed;
        last_at = (x, m.enqueued_at_unix) ∷ o.last_at;
        last_position = (x, p) ∷ o.last_position;
      })
      ms

unfoldable pub check_inputs :
    RuntimeState → List EventId → List RunId → Owned → List RunInputRecord → Result Error Owned
unfolding check_claimed
check_inputs s queued seen o [] = ok o
check_inputs s queued seen o (i ∷ is) = do
  map_err queue_error (Queue.validate_input i)
  fail_if (contains i.run_id seen) duplicate_input
  r ← ok_or (run s i.run_id) unknown_run
  fail_if (not (r.session_id == i.session_id)) input_session
  fail_if (not (r.created_at_unix == i.claimed_at_unix)) input_claim_time
  o' ← check_claimed s i.session_id queued o i.messages
  fail_if (ltb s.updated_at_unix i.claimed_at_unix) stale_for_input
  check_inputs s queued (i.run_id ∷ seen) o' is

-- The last loop. `queued_without_event` stands for the panic of `expect`.
unfoldable pub check_after_claimed :
    RuntimeState → Owned → List QueuedMessage → Result Error (Unit {0})
unfolding last_of position
check_after_claimed s o [] = ok tt
check_after_claimed s o (q ∷ qs) = do
  when_some (last_of q.session_id o.last_at)
      (λ t. fail_if (ltb q.enqueued_at_unix t) queued_before_claimed)
  (p, e) ← ok_or (position s q.event_id) queued_without_event
  when_some (last_of q.session_id o.last_position) (λ l. fail_if (leb p l) queued_before_owned)
  check_after_claimed s
      (record o {
        last_at = (q.session_id, q.enqueued_at_unix) ∷ o.last_at;
        last_position = (q.session_id, p) ∷ o.last_position;
      })
      qs

abbrev pub nothing_owned : Owned
nothing_owned = record { claimed = []; last_at = []; last_position = [] }

unfoldable pub validate : RuntimeState → Result Error (Unit {0})
unfolding check_sessions check_runs check_events check_deliveries check_owners check_queued
    check_inputs check_after_claimed
validate s = do
  check_sessions s.updated_at_unix [] s.sessions
  owners ← check_runs s [] [] [] s.runs
  check_events s.updated_at_unix [] s.inbound_events
  check_deliveries s [] s.outbound_deliveries
  check_owners s owners
  check_queued s [] none [] s.queued_messages
  o ← check_inputs s (map (λ q. q.event_id) s.queued_messages) [] nothing_owned s.run_inputs
  check_after_claimed s o s.queued_messages
