-- ===== src/Tests/Rounds.antt =====
-- The worker, a repeated completion and the orchestrator on the records of the chat.
use ferris_agent_bridge.Store.Deliveries.{claim_next_outbound_delivery_attempt}
use ferris_agent_bridge.Worker.Ending.{IsEnd}
use ferris_agent_bridge.Orchestrator.Acknowledged.{accept-acknowledged}
use ferris_agent_bridge.Orchestrator.{accept_inbound_delivery}
use ferris_agent_bridge.Store.Replay.{IsCalm, complete_agent_run_twice}
use ferris_agent_bridge.Store.Runs.{complete_agent_run}
use ferris_agent_bridge.Message.{Message}
use ferris_agent_bridge.Worker
use ferris_agent_bridge.Worker.Handoff.{IsClaimed, handoff-IsClaimed, IsQuiet}
use ferris_agent_bridge.Event.{InboundEventRecord, message_received}
use ferris_agent_bridge.Outbox.{OutboundDeliveryRecord, OutboundDeliveryAttempt}
use ferris_agent_bridge.Run.{RunRecord}
use ferris_agent_bridge.State.{run, RuntimeState, has_inbound_event}
use ferris_agent_bridge.Worker.{process_next, Round, finish}
use ferris_agent_bridge.Queue.{QueuedMessage}
use ferris_agent_bridge.Format.Current.{parse_state_file, from_state}
use ferris_agent_bridge.Adapter.{ImAdapter, InboundDelivery}
use ferris_agent_bridge.Session.{SessionId, Session, for_scope}
use ferris_agent_bridge.Tests.Data.{retry_policy, running_run, answer, question_event, question}
use ferris_agent_bridge.Base.Text.{text_partial_eq, codes}
use ferris_agent_bridge.Base.{
  ℕ, zero, suc, ◌+◌, ◌-◌, ◌≤◌, ◌<◌, max, ◌≡◌, ◌≢◌, refl, sym, ap, ◌∙◌, subst, ◌↔◌, ◌⊎◌, inl, inr,
  Bool, true, false, not, ◌&&◌, ◌||◌, Option, none, some, List, [], ◌∷◌, ◌++◌, map, arith, Result,
  ok, err, ◌>>=◌, ◌>>◌, fail_if, ok_or, map_err, map_ok, when_some, for_each, if◌then◌else◌, ltb,
  leb, ◌==◌, nat_partial_eq, PartialEq, find, any, is_some, is_nil, contains, All, All-map,
  All-append, Bool-cases, >>=-eq-ok, >>-eq-ok, fail_if-eq-ok, ok_or-eq-ok, map_err-eq-ok, eq_refl,
  eq_sound,
}
use ferris_agent_bridge.State.Validate.{validate}
use ferris_agent_bridge.Store.{write_error, write_all, parent_sync, save, Disk, Env, load}
use ferris_agent_bridge.Run
use ferris_agent_bridge.Outbox
use ferris_agent_bridge.State
use ferris_agent_bridge.Tests.Stores.{
  plain_json, plain_json-IsFaithful, room_id, output, calm, full_disk, room_state,
}

-- An adapter that keeps the attempts and delivers each one.
abbrev eager : ImAdapter
eager = record {
  Self = List OutboundDeliveryAttempt;
  acknowledge_inbound_delivery = λ told ack. (told, ok tt);
  deliver_outbound_message = λ told attempt. (attempt ∷ told, ok tt);
}

abbrev round : Round
round = record { claiming = calm; inspecting = calm; marking = calm; started = 20; clock = 21 }

delivered_once :
    (process_next plain_json eager retry_policy round full_disk []).answer
    ≡ ok (Worker.delivered (codes "d1") 1)
unfolding ferris_agent_bridge.State.Deliveries.claim_first ferris_agent_bridge.Outbox.can_begin
    ferris_agent_bridge.Outbox.begin_delivery
    ferris_agent_bridge.State.Deliveries.mark_outbound_delivery_delivered
    ferris_agent_bridge.Outbox.mark_delivered ferris_agent_bridge.Base.update_first process_next
    parse_state_file for_each from_state validate ferris_agent_bridge.Session.validate
    ferris_agent_bridge.Ids.is_blank ferris_agent_bridge.Base.list_eq
    ferris_agent_bridge.Session.for_scope ferris_agent_bridge.Ids.encode_canonical_component
    ferris_agent_bridge.Base.contains ferris_agent_bridge.Run.validate
    ferris_agent_bridge.Base.ensure_distinct ferris_agent_bridge.State.validate_run_session
    ferris_agent_bridge.State.session ferris_agent_bridge.Base.find
    ferris_agent_bridge.Run.is_terminal ferris_agent_bridge.Event.validate
    ferris_agent_bridge.Outbox.validate ferris_agent_bridge.Base.option_eq
    ferris_agent_bridge.State.Deliveries.validate_outbound_delivery_session
    ferris_agent_bridge.Queue.validate ferris_agent_bridge.Queue.last_enqueued
    ferris_agent_bridge.Queue.validate_input ferris_agent_bridge.Queue.validate_messages
    ferris_agent_bridge.State.Validate.last_of ferris_agent_bridge.State.Validate.position
    ferris_agent_bridge.State.outbound_delivery ferris_agent_bridge.State.find_delivery
    ferris_agent_bridge.State.run ferris_agent_bridge.State.find_run
delivered_once = refl

handoff-IsClaimed_example :
    let p = process_next plain_json eager retry_policy round full_disk [] in
    let claim = claim_next_outbound_delivery_attempt plain_json calm full_disk 20 retry_policy in
    ((p.adapter ≡ []) × (p.disk ≡ claim.0) × IsQuiet claim.1 p.answer)
    ⊎ ((a : OutboundDeliveryAttempt) × (claim.1 ≡ ok (some a))
        × IsClaimed plain_json claim.0 a
        × (p.adapter ≡ (eager.deliver_outbound_message [] a).0)
        × IsEnd plain_json eager retry_policy round claim.0 a
            (eager.deliver_outbound_message [] a).1
            p.disk
            p.answer)
handoff-IsClaimed_example = handoff-IsClaimed plain_json eager retry_policy round full_disk []

-- A run of the chat that is under way.
abbrev running_state : RuntimeState
running_state = record room_state {
  runs = record running_run { session_id = room_id } ∷ [];
  updated_at_unix = 5;
}

abbrev running_disk : Disk plain_json
running_disk = some (from_state running_state)

abbrev reply : Message
reply = record answer { session_id = some room_id }

-- The delivery of the reply.
abbrev reply_delivery : OutboundDeliveryRecord
reply_delivery = record output { id = codes "agent-run-output:2:r1:0" }

completed_once :
    (complete_agent_run plain_json calm running_disk (codes "r1") (reply ∷ []) 9).1
    ≡ ok (reply_delivery ∷ [])
unfolding ferris_agent_bridge.Outbox.new_delivery_id ferris_agent_bridge.Outbox.new
    ferris_agent_bridge.State.update_run ferris_agent_bridge.Run.complete_with_output_deliveries
    ferris_agent_bridge.Base.update_first complete_agent_run parse_state_file for_each from_state
    ferris_agent_bridge.State.Validate.validate ferris_agent_bridge.Session.validate
    ferris_agent_bridge.Ids.is_blank ferris_agent_bridge.Base.list_eq
    ferris_agent_bridge.Session.for_scope ferris_agent_bridge.Ids.encode_canonical_component
    ferris_agent_bridge.Base.contains ferris_agent_bridge.Run.validate
    ferris_agent_bridge.Base.ensure_distinct ferris_agent_bridge.State.validate_run_session
    ferris_agent_bridge.State.session ferris_agent_bridge.Base.find
    ferris_agent_bridge.Run.is_terminal ferris_agent_bridge.Event.validate
    ferris_agent_bridge.Outbox.validate ferris_agent_bridge.Base.option_eq
    ferris_agent_bridge.State.Deliveries.validate_outbound_delivery_session
    ferris_agent_bridge.Queue.validate ferris_agent_bridge.Queue.last_enqueued
    ferris_agent_bridge.Queue.validate_input ferris_agent_bridge.Queue.validate_messages
    ferris_agent_bridge.State.Validate.last_of ferris_agent_bridge.State.Validate.position
    ferris_agent_bridge.State.outbound_delivery ferris_agent_bridge.State.find_delivery
    ferris_agent_bridge.State.run ferris_agent_bridge.State.find_run
    ferris_agent_bridge.State.Deliveries.complete_run_with_output_deliveries
    ferris_agent_bridge.Store.Runs.decimal_from ferris_agent_bridge.Ids.is_valid_id
completed_once = refl

calm-IsCalm : IsCalm calm
calm-IsCalm = record { unlocked = refl; reads = refl; exists = refl; syncs = refl }

complete_agent_run_twice_example :
    complete_agent_run plain_json calm
      (complete_agent_run plain_json calm running_disk (codes "r1") (reply ∷ []) 9).0
      (codes "r1")
      (reply ∷ [])
      9
    ≡ (
      (complete_agent_run plain_json calm running_disk (codes "r1") (reply ∷ []) 9).0,
      ok (reply_delivery ∷ []),
    )
complete_agent_run_twice_example =
    complete_agent_run_twice plain_json calm calm running_disk (codes "r1") (reply ∷ []) 9
      (reply_delivery ∷ []) plain_json-IsFaithful calm-IsCalm completed_once

-- The delivery of the question in the room by the platform.
abbrev question_delivery : InboundDelivery
question_delivery = record {
  event = record question_event {
    kind = message_received (record question { session_id = some room_id });
  };
  ack_token = codes "t1";
}

-- An adapter that counts the acknowledgements.
abbrev counting : ImAdapter
counting = record {
  Self = ℕ;
  acknowledge_inbound_delivery = λ n ack. (suc n, ok tt);
  deliver_outbound_message = λ n attempt. (n, ok tt);
}

acknowledged_once :
    (accept_inbound_delivery plain_json counting calm
      (some (from_state room_state))
      0
      question_delivery).adapter
    ≡ 1
unfolding ferris_agent_bridge.Base.update_first parse_state_file for_each from_state
    ferris_agent_bridge.State.Validate.validate ferris_agent_bridge.Session.validate
    ferris_agent_bridge.Ids.is_blank ferris_agent_bridge.Base.list_eq
    ferris_agent_bridge.Session.for_scope ferris_agent_bridge.Ids.encode_canonical_component
    ferris_agent_bridge.Base.contains ferris_agent_bridge.Run.validate
    ferris_agent_bridge.Base.ensure_distinct ferris_agent_bridge.State.validate_run_session
    ferris_agent_bridge.State.session ferris_agent_bridge.Base.find
    ferris_agent_bridge.Run.is_terminal ferris_agent_bridge.Event.validate
    ferris_agent_bridge.Outbox.validate ferris_agent_bridge.Base.option_eq
    ferris_agent_bridge.State.Deliveries.validate_outbound_delivery_session
    ferris_agent_bridge.Queue.validate ferris_agent_bridge.Queue.last_enqueued
    ferris_agent_bridge.Queue.validate_input ferris_agent_bridge.Queue.validate_messages
    ferris_agent_bridge.State.Validate.last_of ferris_agent_bridge.State.Validate.position
    ferris_agent_bridge.State.outbound_delivery ferris_agent_bridge.State.find_delivery
    ferris_agent_bridge.State.run ferris_agent_bridge.State.find_run
    ferris_agent_bridge.Ids.is_valid_id ferris_agent_bridge.Queue.from_event
    ferris_agent_bridge.State.Inbound.queued_message_for_event
    ferris_agent_bridge.State.Inbound.latest_enqueued
    ferris_agent_bridge.State.Inbound.session_messages ferris_agent_bridge.Base.retain
    ferris_agent_bridge.State.inbound_event ferris_agent_bridge.Event.from_event
    ferris_agent_bridge.State.touch_at ferris_agent_bridge.State.Inbound.push_queued
    accept_inbound_delivery ferris_agent_bridge.State.Inbound.record_inbound_event_at
    ferris_agent_bridge.State.Merge.merge_runs
    ferris_agent_bridge.Store.validate_snapshot_outbound_additions
    ferris_agent_bridge.Store.validate_snapshot_run_input_additions
    ferris_agent_bridge.Store.validate_snapshot_agent_run_transitions
    ferris_agent_bridge.Store.validate_snapshot_run_output_additions
    ferris_agent_bridge.Store.merged
    ferris_agent_bridge.State.Merge.validate_shared_inbound_event_identity
    ferris_agent_bridge.State.Merge.preserve_runs_from
    ferris_agent_bridge.State.Merge.preserve_run_inputs_from
    ferris_agent_bridge.State.Merge.preserve_inbound_events_from
    ferris_agent_bridge.State.Merge.preserve_queued_messages_from
    ferris_agent_bridge.State.Merge.preserve_outbound_deliveries_from
    ferris_agent_bridge.State.Inbound.claimed_message_for_event
acknowledged_once = refl

accept-acknowledged_example :
    ((accept_inbound_delivery plain_json counting calm
        (some (from_state room_state))
        0
        question_delivery).adapter
      ≡ 0)
    ⊎ ((s : RuntimeState) × (load plain_json calm
            (accept_inbound_delivery plain_json counting calm
              (some (from_state room_state))
              0
              question_delivery).disk
          ≡ ok s)
        × (has_inbound_event s (codes "e1") ≡ true))
accept-acknowledged_example =
    accept-acknowledged plain_json counting calm calm (some (from_state room_state)) 0
      question_delivery plain_json-IsFaithful refl
