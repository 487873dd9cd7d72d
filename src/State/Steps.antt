-- ===== src/State/Steps.antt =====
-- The runtime state as a machine: its steps are the operations of runtime/state/model.rs that
-- succeed, and every state that they reach from `new` has its runs and its deliveries in order.
use ferris_agent_bridge.Base.{ℕ, ◌≡◌, Bool, Option, ok, List}
use ferris_agent_bridge.Base.Text.{Text}
use ferris_agent_bridge.Ids.{OutboundDeliveryId}
use ferris_agent_bridge.Session.{Session}
use ferris_agent_bridge.Event.{Event, InboundEventRecordStatus}
use ferris_agent_bridge.Queue.{MessageQueuePolicy, MessageBatchClaimOutcome}
use ferris_agent_bridge.Run.{RunId, RunRecord}
use ferris_agent_bridge.Run
use ferris_agent_bridge.Outbox.{OutboundDeliveryRecord}
use ferris_agent_bridge.State.{
  RuntimeState, new, upsert_session, add_run, start_run, interrupt_run, complete_run, fail_run,
  cancel_run,
}
use ferris_agent_bridge.State.Inbound.{record_inbound_event}
use ferris_agent_bridge.State.Batches.{claim_message_batch}
use ferris_agent_bridge.State.Deliveries.{
  complete_run_with_output_deliveries, OutboundDeliveryEnqueueStatus, enqueue_outbound_delivery,
  claim_next_outbound_delivery_where, mark_outbound_delivery_delivered,
  mark_outbound_delivery_failed, mark_outbound_delivery_uncertain,
  resolve_outbound_delivery_as_delivered, resolve_outbound_delivery_as_failed,
}
use ferris_agent_bridge.State.RunInvariant.{RunsOk}
use ferris_agent_bridge.State.DeliveryInvariant.{DeliveriesOk}

-- An operation on runs that succeeds.
pub data RunStep (s s' : RuntimeState) : Type 0 where
  added :
      (r : RunRecord) (now : ℕ) → Run.validate r ≡ ok tt → add_run s r now ≡ ok s' → RunStep s s'
  started : (id : RunId) (t now : ℕ) → start_run s id t now ≡ ok s' → RunStep s s'
  interrupted : (id : RunId) (t now : ℕ) → interrupt_run s id t now ≡ ok s' → RunStep s s'
  completed : (id : RunId) (t now : ℕ) → complete_run s id t now ≡ ok s' → RunStep s s'
  failed : (id : RunId) (t now : ℕ) → fail_run s id t now ≡ ok s' → RunStep s s'
  cancelled : (id : RunId) (t now : ℕ) → cancel_run s id t now ≡ ok s' → RunStep s s'
  claimed :
      (id : RunId) (policy : MessageQueuePolicy) (t now : ℕ) (found : MessageBatchClaimOutcome)
      → claim_message_batch s id policy t now ≡ ok (s', found)
      → RunStep s s'
  completed_with :
      (id : RunId) (ds : List OutboundDeliveryRecord) (t now : ℕ)
      (out : List OutboundDeliveryRecord)
      → complete_run_with_output_deliveries s id ds t now ≡ ok (s', out)
      → RunStep s s'

-- An operation on deliveries that succeeds.
pub data DeliveryStep (s s' : RuntimeState) : Type 0 where
  enqueued :
      (d : OutboundDeliveryRecord) (now : ℕ) (status : OutboundDeliveryEnqueueStatus)
      → enqueue_outbound_delivery s d now ≡ ok (s', status)
      → DeliveryStep s s'
  begun :
      (t : ℕ) (eligible : OutboundDeliveryRecord → Bool) (now : ℕ)
      (d : Option OutboundDeliveryRecord)
      → claim_next_outbound_delivery_where s t eligible now ≡ ok (s', d)
      → DeliveryStep s s'
  delivered :
      (id : OutboundDeliveryId) (t now : ℕ) (d : OutboundDeliveryRecord)
      → mark_outbound_delivery_delivered s id t now ≡ ok (s', d)
      → DeliveryStep s s'
  failed :
      (id : OutboundDeliveryId) (t : ℕ) (error : Text) (now : ℕ) (d : OutboundDeliveryRecord)
      → mark_outbound_delivery_failed s id t error now ≡ ok (s', d)
      → DeliveryStep s s'
  uncertain :
      (id : OutboundDeliveryId) (t : ℕ) (error : Text) (now : ℕ) (d : OutboundDeliveryRecord)
      → mark_outbound_delivery_uncertain s id t error now ≡ ok (s', d)
      → DeliveryStep s s'
  resolved_delivered :
      (id : OutboundDeliveryId) (t now : ℕ) (d : OutboundDeliveryRecord)
      → resolve_outbound_delivery_as_delivered s id t now ≡ ok (s', d)
      → DeliveryStep s s'
  resolved_failed :
      (id : OutboundDeliveryId) (t : ℕ) (reason : Text) (now : ℕ) (d : OutboundDeliveryRecord)
      → resolve_outbound_delivery_as_failed s id t reason now ≡ ok (s', d)
      → DeliveryStep s s'

-- One step of the machine.
pub data Step (s : RuntimeState) : RuntimeState → Type 0 where
  on_runs : {s' : RuntimeState} → RunStep s s' → Step s s'
  on_deliveries : {s' : RuntimeState} → DeliveryStep s s' → Step s s'
  upserted : (x : Session) (now : ℕ) → Step s (upsert_session s x now)
  event_recorded :
      {s' : RuntimeState} (e : Event) (now : ℕ) (status : InboundEventRecordStatus)
      → record_inbound_event s e now ≡ ok (s', status)
      → Step s s'

-- The states that the steps reach from a new state.
pub data Reachable (created : ℕ) : RuntimeState → Type 0 where
  initial : Reachable created (new created)
  step : {s s' : RuntimeState} → Reachable created s → Step s s' → Reachable created s'

pub record InOrder (s : RuntimeState) : Type 0 where
  pub runs_ok : RunsOk s.runs
  pub deliveries_ok : DeliveriesOk s.outbound_deliveries
