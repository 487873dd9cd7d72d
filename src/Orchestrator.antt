-- ===== src/Orchestrator.antt =====
-- runtime/orchestrator.rs: an inbound event is acknowledged after it is persisted.
pub mod Acknowledged
use ferris_agent_bridge.Store.{Disk, Env}
use ferris_agent_bridge.Adapter.{ImAdapter, InboundDelivery}
use ferris_agent_bridge.Event.{EventId, InboundEventRecordStatus}
use ferris_agent_bridge.Format.Current.{SerdeJson}
use ferris_agent_bridge.Base.Text.{text_partial_eq, Text}
use ferris_agent_bridge.Base.{Result, ok, err, map_err, map_ok, nat_partial_eq}
use ferris_agent_bridge.Store.Messages
use ferris_agent_bridge.Store

pub data Error : Type 0 where
  not_persisted : Store.Error → Error
  not_acknowledged : Text → Error

pub record InboundDeliveryOutcome : Type 0 where
  pub event_id : EventId
  pub record_status : InboundEventRecordStatus

module _ (J : SerdeJson) (A : ImAdapter) where
  pub record Progress : Type 0 where
    pub disk : Disk J
    pub adapter : A.Self
    pub answer : Result Error InboundDeliveryOutcome

  -- What follows the persistence of the event.
  unfoldable pub acknowledge :
      InboundDelivery → A.Self → Disk J × Result Store.Error InboundEventRecordStatus → Progress
  acknowledge delivery adapter (disk, err x) = record {
    disk = disk;
    adapter = adapter;
    answer = err (not_persisted x);
  }
  acknowledge delivery adapter (disk, ok status) =
      let said = A.acknowledge_inbound_delivery adapter (record {
        event_id = delivery.event.id;
        ack_token = delivery.ack_token;
        record_status = status;
      }) in
      record {
        disk = disk;
        adapter = said.0;
        answer =
            map_ok (λ u. record { event_id = delivery.event.id; record_status = status })
              (map_err not_acknowledged said.1);
      }

  unfoldable pub accept_inbound_delivery : Env → Disk J → A.Self → InboundDelivery → Progress
  unfolding acknowledge Messages.persist_inbound_event
  accept_inbound_delivery e disk adapter delivery =
      acknowledge delivery adapter (Messages.persist_inbound_event J e disk delivery.event)
