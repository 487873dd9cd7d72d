-- ===== src/Tests/Identities.antt =====
-- Identifiers and sessions.
use ferris_agent_bridge.Base.{◌≡◌, ok, refl, arith, [], ◌∷◌}
use ferris_agent_bridge.Base.Text.{codes}
use ferris_agent_bridge.Ids.Encoding.{IsBytes}
use ferris_agent_bridge.Session.{new_scope, new, validate}
use ferris_agent_bridge.Session.Identity.{IsScope, for_scope-injective, validate-new}
use ferris_agent_bridge.State.{RuntimeState, upsert_session}
use ferris_agent_bridge.State.Sessions.{IsSession, SessionsOk, Upserted, upsert_session-Upserted}
use ferris_agent_bridge.Event.{for_platform_delivery, platform_delivery_text}
use ferris_agent_bridge.Event.Ledger.{for_platform_delivery-injective}
use ferris_agent_bridge.Tests.Data.{chat_scope}

chat_scope-IsScope : IsScope chat_scope
chat_scope-IsScope = ground arith

for_scope-injective_example : chat_scope ≡ chat_scope
for_scope-injective_example =
    for_scope-injective chat_scope chat_scope chat_scope-IsScope chat_scope-IsScope refl

scope_accepted : new_scope (codes "chat") (codes "room_1") ≡ ok chat_scope
unfolding new_scope ferris_agent_bridge.Ids.is_blank
scope_accepted = refl

validate-new_example : validate (new chat_scope 7) ≡ ok tt
validate-new_example = validate-new (codes "chat") (codes "room_1") chat_scope 7 scope_accepted

-- The session of the room, in a state that has it and when it is opened again.
abbrev room_opened : RuntimeState
room_opened = record {
  sessions = new chat_scope 7 ∷ [];
  runs = [];
  run_inputs = [];
  inbound_events = [];
  queued_messages = [];
  outbound_deliveries = [];
  updated_at_unix = 7;
}

room-IsSession : IsSession (new chat_scope 7)
unfolding new
room-IsSession = record {
  valid = validate-new (codes "chat") (codes "room_1") chat_scope 7 scope_accepted;
  bytes = chat_scope-IsScope;
}

reopened-IsSession : IsSession (new chat_scope 40)
unfolding new
reopened-IsSession = record {
  valid = validate-new (codes "chat") (codes "room_1") chat_scope 40 scope_accepted;
  bytes = chat_scope-IsScope;
}

room_sessions-SessionsOk : SessionsOk room_opened.sessions
unfolding ferris_agent_bridge.Base.contains
room_sessions-SessionsOk = record { all = (room-IsSession, tt); distinct = (refl, tt) }

upsert_session-Upserted_example :
    Upserted (new chat_scope 40) room_opened (upsert_session room_opened (new chat_scope 40) 41)
upsert_session-Upserted_example =
    upsert_session-Upserted room_opened (new chat_scope 40) 41 room_sessions-SessionsOk
      reopened-IsSession

delivery_accepted :
    for_platform_delivery (codes "chat") (codes "room_1") (codes "7")
    ≡ ok (platform_delivery_text (codes "chat") (codes "room_1") (codes "7"))
unfolding for_platform_delivery ferris_agent_bridge.Ids.is_blank platform_delivery_text
delivery_accepted = refl

chat-IsBytes : IsBytes (codes "chat")
chat-IsBytes = ground arith

room-IsBytes : IsBytes (codes "room_1")
room-IsBytes = ground arith

number-IsBytes : IsBytes (codes "7")
number-IsBytes = ground arith

for_platform_delivery-injective_example :
    (codes "chat" ≡ codes "chat") × (codes "room_1" ≡ codes "room_1") × (codes "7" ≡ codes "7")
for_platform_delivery-injective_example =
    for_platform_delivery-injective (codes "chat") (codes "chat") (codes "room_1") (codes "room_1")
      (codes "7") (codes "7") (platform_delivery_text (codes "chat") (codes "room_1") (codes "7"))
      chat-IsBytes chat-IsBytes room-IsBytes room-IsBytes number-IsBytes number-IsBytes
      delivery_accepted delivery_accepted
