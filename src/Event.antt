-- ===== src/Event.antt =====
-- runtime/event.rs: event identifiers, events and the ledger entries of inbound events.
pub mod Ledger
use ferris_agent_bridge.Base.{
  ℕ, max, ◌≡◌, ◌↔◌, Bool, true, false, ◌&&◌, List, [], ◌∷◌, ◌++◌, Result, ok, err, ◌>>=◌, ◌>>◌,
  fail_if, ltb, PartialEq, ◌==◌, eq_iff, eq_refl, nat_partial_eq, arith,
}
use ferris_agent_bridge.Base.Text.{Text, codes, text_partial_eq}
use ferris_agent_bridge.Ids.{is_blank, encode_canonical_component}
use ferris_agent_bridge.Session.{SessionId}
use ferris_agent_bridge.Message.{Message}

abbrev pub EventId : Type 0
EventId = Text

pub data Error : Type 0 where
  event_id_empty platform_empty scope_empty delivery_id_empty recorded_before_received : Error

-- `EventId::new`
unfoldable pub new_event_id : Text → Result Error EventId
new_event_id value = do fail_if (is_blank value) event_id_empty; ok value

-- The text that `EventId::for_platform_delivery` formats.
unfoldable pub platform_delivery_text : Text → Text → Text → Text
platform_delivery_text platform scope delivery_id =
    codes "platform_delivery_v1_"
    ++ (encode_canonical_component platform
        ++ b'_'
          ∷ (encode_canonical_component scope ++ b'_' ∷ encode_canonical_component delivery_id))

unfoldable pub for_platform_delivery : Text → Text → Text → Result Error EventId
unfolding new_event_id
for_platform_delivery platform scope delivery_id = do
  fail_if (is_blank platform) platform_empty
  fail_if (is_blank scope) scope_empty
  fail_if (is_blank delivery_id) delivery_id_empty
  new_event_id (platform_delivery_text platform scope delivery_id)

pub data EventSource : Type 0 where
  platform agent runtime : EventSource

abbrev source_eq : EventSource → EventSource → Bool
source_eq platform platform = true
source_eq agent agent = true
source_eq runtime runtime = true
source_eq _ _ = false

pub source_eq_iff : (a b : EventSource) → (source_eq a b ≡ true) ↔ (a ≡ b)
source_eq_iff a b = (λ h. ground arith, λ h. ground arith)

instance abbrev pub source_partial_eq : PartialEq EventSource
source_partial_eq = record { eq = source_eq; eq_iff = source_eq_iff }

pub data EventKind : Type 0 where
  message_received : Message → EventKind
  session_started : SessionId → EventKind
  runtime_notice : Text → EventKind

pub record Event : Type 0 where
  pub id : EventId
  pub source : EventSource
  pub kind : EventKind
  pub received_at_unix : ℕ

pub record InboundEventRecord : Type 0 where
  pub id : EventId
  pub received_at_unix : ℕ
  pub recorded_at_unix : ℕ

unfoldable pub validate : InboundEventRecord → Result Error (Unit {0})
validate r = fail_if (ltb r.recorded_at_unix r.received_at_unix) recorded_before_received

-- `InboundEventRecord::new`
unfoldable pub new : EventId → ℕ → ℕ → Result Error InboundEventRecord
unfolding validate
new id received_at_unix recorded_at_unix = do
  let r : InboundEventRecord = record {
    id = id;
    received_at_unix = received_at_unix;
    recorded_at_unix = recorded_at_unix;
  }
  validate r
  ok r

unfoldable pub from_event : Event → ℕ → Result Error InboundEventRecord
unfolding new
from_event e recorded_at_unix =
    new e.id e.received_at_unix (max recorded_at_unix e.received_at_unix)

-- The derived `PartialEq`.
abbrev record_eq : InboundEventRecord → InboundEventRecord → Bool
record_eq a b =
    a.id == b.id
    && a.received_at_unix == b.received_at_unix
    && a.recorded_at_unix == b.recorded_at_unix

pub record_eq_iff : (a b : InboundEventRecord) → (record_eq a b ≡ true) ↔ (a ≡ b)
record_eq_iff a b = (
  λ h. ground (arith, eq_iff a.id b.id),
  λ h. rw h (simp (eq_refl b.id, eq_refl b.received_at_unix, eq_refl b.recorded_at_unix)),
)

instance abbrev pub record_partial_eq : PartialEq InboundEventRecord
record_partial_eq = record { eq = record_eq; eq_iff = record_eq_iff }

pub data InboundEventRecordStatus : Type 0 where
  recorded duplicate : InboundEventRecordStatus
