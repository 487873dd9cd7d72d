-- ===== src/Adapter.antt =====
-- src/adapter.rs: what the bridge hands to an adapter of a messaging platform, and what the adapter
-- answers. The adapter itself is a parameter.
use ferris_agent_bridge.Outbox.{OutboundDeliveryAttempt}
use ferris_agent_bridge.Ids.{is_blank}
use ferris_agent_bridge.Event.{Event, EventId, InboundEventRecordStatus}
use ferris_agent_bridge.Base.Text.{text_partial_eq, Text, codes}
use ferris_agent_bridge.Base.{Result, ok, ◌>>◌, fail_if, if◌then◌else◌, nat_partial_eq}

pub data Error : Type 0 where
  ack_token_empty : Error

-- `InboundDeliveryAckToken`
abbrev pub InboundDeliveryAckToken : Type 0
InboundDeliveryAckToken = Text

unfoldable pub new_ack_token : Text → Result Error InboundDeliveryAckToken
new_ack_token value = do fail_if (is_blank value) ack_token_empty; ok value

pub record InboundDelivery : Type 0 where
  pub event : Event
  pub ack_token : InboundDeliveryAckToken

pub record InboundDeliveryAcknowledgement : Type 0 where
  pub event_id : EventId
  pub ack_token : InboundDeliveryAckToken
  pub record_status : InboundEventRecordStatus

pub data OutboundDeliveryFailureKind : Type 0 where
  retryable uncertain : OutboundDeliveryFailureKind

pub record OutboundDeliveryFailure : Type 0 where
  pub kind : OutboundDeliveryFailureKind
  pub message : Text

abbrev pub default_message : OutboundDeliveryFailureKind → Text
default_message retryable =
    codes "outbound adapter reported a retryable failure without an error message"
default_message uncertain =
    codes "outbound adapter reported an uncertain outcome without an error message"

-- `OutboundDeliveryFailure::new`
unfoldable pub new_failure : OutboundDeliveryFailureKind → Text → OutboundDeliveryFailure
new_failure kind message = record {
  kind = kind;
  message = if is_blank message then default_message kind else message;
}

-- The trait `ImAdapter`, with the state that `&mut self` stands for.
pub record ImAdapter : Type 1 where
  pub Self : Type 0
  pub acknowledge_inbound_delivery :
      Self → InboundDeliveryAcknowledgement → Self × Result Text (Unit {0})
  pub deliver_outbound_message :
      Self → OutboundDeliveryAttempt → Self × Result OutboundDeliveryFailure (Unit {0})
