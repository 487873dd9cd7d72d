-- ===== src/Event/Ledger.antt =====
-- Platform deliveries are told apart by platform, scope and delivery id; ledger entries are in order.
use ferris_agent_bridge.Base.{ℕ, max, ◌≡◌, sym, ◌∙◌, ok, arith}
use ferris_agent_bridge.Base.Text.{Text}
use ferris_agent_bridge.Ids.Encoding.{IsBytes, encode-injective, encode-injective_end}
use ferris_agent_bridge.Event.{
  Event, EventId, for_platform_delivery, platform_delivery_text, from_event,
}

platform_delivery_text-injective :
    (p p' s s' d d' : Text)
    → IsBytes p
    → IsBytes p'
    → IsBytes s
    → IsBytes s'
    → IsBytes d
    → IsBytes d'
    → platform_delivery_text p s d ≡ platform_delivery_text p' s' d'
    → (p ≡ p') × (s ≡ s') × (d ≡ d')
unfolding platform_delivery_text
platform_delivery_text-injective p p' s s' d d' bp bp' bs bs' bd bd' e =
    let (same_platform, rest) = encode-injective p p' bp bp' (cc) in
    let (same_scope, rest') = encode-injective s s' bs bs' rest in
    (same_platform, same_scope, encode-injective_end d d' bd bd' rest')

for_platform_delivery-eq-ok :
    (p s d : Text) {id : EventId}
    → for_platform_delivery p s d ≡ ok id
    → platform_delivery_text p s d ≡ id
unfolding for_platform_delivery
for_platform_delivery-eq-ok p s d h = ground arith

-- Two deliveries get the same event id only if platform, scope and delivery id are all the same.
pub for_platform_delivery-injective :
    (p p' s s' d d' : Text) (id : EventId)
    → IsBytes p
    → IsBytes p'
    → IsBytes s
    → IsBytes s'
    → IsBytes d
    → IsBytes d'
    → for_platform_delivery p s d ≡ ok id
    → for_platform_delivery p' s' d' ≡ ok id
    → (p ≡ p') × (s ≡ s') × (d ≡ d')
for_platform_delivery-injective p p' s s' d d' id bp bp' bs bs' bd bd' h h' =
    platform_delivery_text-injective p p' s s' d d' bp bp' bs bs' bd bd'
      (for_platform_delivery-eq-ok p s d h ∙ sym (for_platform_delivery-eq-ok p' s' d' h'))

-- A ledger entry made from an event never fails, keeps its identity, and is recorded at the
-- given time or at the receipt, whichever is later.
pub from_event_lem :
    (e : Event) (t : ℕ)
    → from_event e t
      ≡ ok (record {
        id = e.id;
        received_at_unix = e.received_at_unix;
        recorded_at_unix = max t e.received_at_unix;
      })
unfolding from_event
from_event_lem e t = ground arith
