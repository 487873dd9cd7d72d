-- ===== src/Outbox/Answers.antt =====
-- What a mark of a delivery under way leaves of the record (runtime/outbox.rs).
use ferris_agent_bridge.Base.{ℕ, ◌≡◌, none, some, ok, nat_partial_eq, arith}
use ferris_agent_bridge.Base.Text.{Text}
use ferris_agent_bridge.Outbox.{
  OutboundDeliveryRecord, OutboundDeliveryStatus, delivering, delivered, mark_delivered,
  mark_unsuccessful, touch_at, status_partial_eq,
}

pub mark_delivered-eq-ok :
    (d : OutboundDeliveryRecord) (t : ℕ) {d' : OutboundDeliveryRecord}
    → mark_delivered d t ≡ ok d'
    → (d.status ≡ delivering)
      × (d' ≡ record d {
        status = delivered;
        updated_at_unix = t;
        delivered_at_unix = some t;
        last_error = none;
      })
unfolding mark_delivered touch_at
mark_delivered-eq-ok d t h = (ground arith, ground arith)

pub mark_unsuccessful-eq-ok :
    (d : OutboundDeliveryRecord) (status : OutboundDeliveryStatus) (t : ℕ) (message : Text)
    {d' : OutboundDeliveryRecord}
    → mark_unsuccessful d status t message ≡ ok d'
    → (d.status ≡ delivering)
      × (d' ≡ record d {
        status = status;
        updated_at_unix = t;
        delivered_at_unix = none;
        last_error = some message;
      })
unfolding mark_unsuccessful touch_at
mark_unsuccessful-eq-ok d status t message h = (ground arith, ground arith)
