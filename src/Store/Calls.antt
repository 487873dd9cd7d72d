-- ===== src/Store/Calls.antt =====
-- The operations of the store that may change the state file, as values, so that a history of the
-- store is a list of them.
use ferris_agent_bridge.Message.{Message}
use ferris_agent_bridge.Ids.{OutboundDeliveryId}
use ferris_agent_bridge.Outbox.Retry.{OutboundRetryPolicy}
use ferris_agent_bridge.Outbox.{OutboundDeliveryRecord}
use ferris_agent_bridge.Queue.{MessageQueuePolicy}
use ferris_agent_bridge.Run.{RunId}
use ferris_agent_bridge.Event.{Event}
use ferris_agent_bridge.Format.Current.{SerdeJson}
use ferris_agent_bridge.State.{RuntimeState}
use ferris_agent_bridge.Store.{Error, Env, Disk, save}
use ferris_agent_bridge.Base.Text.{text_partial_eq, Text}
use ferris_agent_bridge.Base.{ℕ, List, [], ◌∷◌, Result, ok, err, nat_partial_eq}
use ferris_agent_bridge.Store.Runs
use ferris_agent_bridge.Store.Deliveries
use ferris_agent_bridge.Store.Messages

pub data Call : Type 0 where
  save_call : RuntimeState → Call
  persist_inbound : Event → Call
  claim_batch : RunId → MessageQueuePolicy → ℕ → Call
  reconcile_runs reconcile_deliveries : ℕ → Call
  enqueue : OutboundDeliveryRecord → Call
  claim_delivery : ℕ → OutboundRetryPolicy → Call
  mark_delivered : OutboundDeliveryId → ℕ → Call
  mark_failed mark_uncertain : OutboundDeliveryId → ℕ → Text → Call
  resolve_delivered : OutboundDeliveryId → ℕ → Call
  resolve_failed : OutboundDeliveryId → ℕ → Text → Call
  start_run : RunId → ℕ → Call
  complete_run : RunId → List Message → ℕ → Call
  fail_run interrupt_run : RunId → ℕ → Call

-- The answer of an operation without its value.
abbrev pub forget : {B A : Type 0} → B × Result Error A → B × Result Error (Unit {0})
forget (d, ok a) = (d, ok tt)
forget (d, err x) = (d, err x)

module _ (J : SerdeJson) where
  unfoldable pub call : Env → Disk J → Call → Disk J × Result Error (Unit {0})
  call e disk (save_call s) = save J e disk s
  call e disk (persist_inbound event) = forget (Messages.persist_inbound_event J e disk event)
  call e disk (claim_batch id policy t) = forget (Messages.claim_message_batch J e disk id policy t)
  call e disk (reconcile_runs t) = forget (Messages.reconcile_runs_at_startup J e disk t)
  call e disk (reconcile_deliveries t) =
      forget (Deliveries.reconcile_outbound_deliveries_at_startup J e disk t)
  call e disk (enqueue d) = forget (Deliveries.enqueue_outbound_delivery J e disk d)
  call e disk (claim_delivery t policy) =
      forget (Deliveries.claim_next_outbound_delivery_attempt J e disk t policy)
  call e disk (mark_delivered id t) =
      forget (Deliveries.mark_outbound_delivery_delivered J e disk id t)
  call e disk (mark_failed id t error) =
      forget (Deliveries.mark_outbound_delivery_failed J e disk id t error)
  call e disk (mark_uncertain id t error) =
      forget (Deliveries.mark_outbound_delivery_uncertain J e disk id t error)
  call e disk (resolve_delivered id t) =
      forget (Deliveries.resolve_outbound_delivery_as_delivered J e disk id t)
  call e disk (resolve_failed id t reason) =
      forget (Deliveries.resolve_outbound_delivery_as_failed J e disk id t reason)
  call e disk (start_run id t) = forget (Runs.start_agent_run J e disk id t)
  call e disk (complete_run id messages t) = forget (Runs.complete_agent_run J e disk id messages t)
  call e disk (fail_run id t) = forget (Runs.fail_agent_run J e disk id t)
  call e disk (interrupt_run id t) = forget (Runs.interrupt_agent_run J e disk id t)

  -- The file after a history. An operation that fails may leave a new file, and the history goes on.
  unfoldable pub replay : List (Env × Call) → Disk J → Disk J
  replay [] disk = disk
  replay ((e, c) ∷ cs) disk = replay cs (call e disk c).0
