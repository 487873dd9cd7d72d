-- ===== src/State/Idempotence.antt =====
-- An inbound event that arrives again.
use ferris_agent_bridge.Base.{
  ℕ, max, ◌≡◌, ◌≢◌, refl, sym, ap, ◌∙◌, subst, Bool, true, List, [], ◌∷◌, ◌++◌, Option, none, some,
  ok, arith, find, map_err, ok_or, >>=-eq-ok, Option-cases, inl, inr, ◌==◌, eq_refl, eq_iff,
  nat_partial_eq, is_some, not, fail_if, map_err-eq-ok,
}
use ferris_agent_bridge.Base.Text.{text_partial_eq}
use ferris_agent_bridge.Message.{Message, message_partial_eq}
use ferris_agent_bridge.Event.{
  Event, InboundEventRecord, InboundEventRecordStatus, duplicate, recorded, message_received,
  EventKind,
}
use ferris_agent_bridge.Event
use ferris_agent_bridge.Queue.{QueuedMessage, has_same_identity}
use ferris_agent_bridge.Queue
use ferris_agent_bridge.State.{
  RuntimeState, inbound_event, touch_at, session, queue_error, event_without_session,
  unknown_session, SessionId,
}
use ferris_agent_bridge.State.Inbound.{
  record_inbound_event_at, push_queued, message_record_for_event, queued_message_for_event,
  queued_message_for_message, claimed_message_for_event, check_duplicate, latest_enqueued,
  session_messages,
}

find-append_none :
    {A : Type 0} (p : A → Bool) (xs ys : List A) → find p xs ≡ none → find p (xs ++ ys) ≡ find p ys
unfolding find
find-append_none p [] ys h = refl
find-append_none p (x ∷ xs) ys h = ground (arith, find-append_none p xs ys)

-- What two messages of one event share.
record SameMessage (e : Event) (q q' : QueuedMessage) : Type 0 where
  of_event : q.event_id ≡ e.id
  event : q'.event_id ≡ q.event_id
  session_id : q'.session_id ≡ q.session_id
  message : q'.message ≡ q.message
  received : q'.received_at_unix ≡ q.received_at_unix

from_event-again :
    (e : Event) (a b : ℕ) {q : QueuedMessage}
    → Queue.from_event e a ≡ ok q
    → (q' : QueuedMessage) × (Queue.from_event e b ≡ ok q') × SameMessage e q q'
unfolding Queue.from_event Queue.validate
from_event-again e a b {q} h = (
  record q { enqueued_at_unix = max b e.received_at_unix },
  ground arith,
  record {
    of_event = ground arith;
    event = refl;
    session_id = refl;
    message = refl;
    received = refl;
  },
)

queued_message_lem :
    (s : RuntimeState) (e : Event) (m : Message) (t : ℕ) (id : SessionId) (x : QueuedMessage)
    → ok_or m.session_id event_without_session ≡ ok id
    → fail_if (not (is_some (session s id))) unknown_session ≡ ok tt
    → Queue.from_event e (max t (latest_enqueued (session_messages s id))) ≡ ok x
    → queued_message_for_message s e m t ≡ ok (some x)
unfolding queued_message_for_message
queued_message_lem s e m t id x a b c = rw (a, b, c) refl

queued_message-again :
    (s s' : RuntimeState) (e : Event) (m : Message) (t t' : ℕ) {q : Option QueuedMessage}
    → s'.sessions ≡ s.sessions
    → queued_message_for_message s e m t ≡ ok q
    → (x x' : QueuedMessage) × (q ≡ some x)
      × (queued_message_for_message s' e m t' ≡ ok (some x'))
      × SameMessage e x x'
unfolding queued_message_for_message session
queued_message-again s s' e m t t' {q} same h =
    let (id, has_session, rest) = >>=-eq-ok (ok_or m.session_id event_without_session) _ h in
    let (_, known, rest') =
      >>=-eq-ok (fail_if (not (is_some (find (λ x. x.id == id) s.sessions))) unknown_session) _
        rest in
    let (x, made, end) =
      >>=-eq-ok
        (map_err queue_error (Queue.from_event e (max t (latest_enqueued (session_messages s id)))))
        _ rest' in
    let (x', made', k) =
      from_event-again e (max t (latest_enqueued (session_messages s id)))
        (max t' (latest_enqueued (session_messages s' id))) (map_err-eq-ok queue_error _ made) in
    (x, x', ground arith, queued_message_lem s' e m t' id x' has_session (rw same known) made', k)

-- What an event adds to the queue, when it comes again.
data Again (e : Event) : Option QueuedMessage → Option QueuedMessage → Type 0 where
  no_message : Again e none none
  same_message : (x x' : QueuedMessage) → SameMessage e x x' → Again e (some x) (some x')

queued_for_event-Again :
    (s s' : RuntimeState) (e : Event) (t t' : ℕ) {q : Option QueuedMessage}
    → s'.sessions ≡ s.sessions
    → queued_message_for_event s e t ≡ ok q
    → (q' : Option QueuedMessage) × (queued_message_for_event s' e t' ≡ ok q') × Again e q q'
unfolding queued_message_for_event
queued_for_event-Again s s' e t t' {q} same h = by_kind e.kind h
  where
    by_kind :
        (k : EventKind)
        → (elim k [ message_received m ↦ queued_message_for_message s e m t | _ ↦ ok none ]) ≡ ok q
        → (q' : Option QueuedMessage) × ((elim k [
          | message_received m ↦ queued_message_for_message s' e m t'
          | _ ↦ ok none
        ])
            ≡ ok q')
          × Again e q q'
    by_kind (message_received m) h =
        let (x, x', first, second, k) = queued_message-again s s' e m t t' same h in
        (some x', second, subst (λ y. Again e y (some x')) (sym first) (same_message x x' k))
    by_kind (Event.session_started _) h =
        (none, refl, subst (λ y. Again e y none) (ground arith) no_message)
    by_kind (Event.runtime_notice _) h =
        (none, refl, subst (λ y. Again e y none) (ground arith) no_message)

duplicate_lem :
    (s : RuntimeState) (e : Event) (t : ℕ) (q : Option QueuedMessage) (r : InboundEventRecord)
    → queued_message_for_event s e t ≡ ok q
    → inbound_event s e.id ≡ some r
    → r.received_at_unix ≡ e.received_at_unix
    → check_duplicate (message_record_for_event s e.id) q ≡ ok duplicate
    → record_inbound_event_at s e t ≡ ok (s, duplicate)
unfolding record_inbound_event_at
duplicate_lem s e t q r a b c d = rw (a, b, c, eq_refl e.received_at_unix, d) refl

check_duplicate-Again :
    (e : Event) (q q' : Option QueuedMessage) → Again e q q' → check_duplicate q q' ≡ ok duplicate
unfolding check_duplicate has_same_identity
check_duplicate-Again e _ _ no_message = refl
check_duplicate-Again e _ _ (same_message x x' k) =
    rw
      (
        k.event,
        k.session_id,
        k.message,
        k.received,
        eq_refl x.event_id,
        eq_refl x.session_id,
        eq_refl x.message,
        eq_refl x.received_at_unix,
      )
      refl

pub check_duplicate-never : (a b : Option QueuedMessage) → check_duplicate a b ≢ ok recorded
unfolding check_duplicate
check_duplicate-never (some a) (some b) h = ground arith
check_duplicate-never (some a) none h = absurd (cc)
check_duplicate-never none (some b) h = absurd (cc)
check_duplicate-never none none h = absurd (cc)

-- The state after the first arrival of an event.
pub first_arrival :
    (s : RuntimeState) (e : Event) (t : ℕ) {s' : RuntimeState}
    → record_inbound_event_at s e t ≡ ok (s', recorded)
    → (q : Option QueuedMessage) × (r : InboundEventRecord) × (queued_message_for_event s e t
        ≡ ok q)
      × (inbound_event s e.id ≡ none)
      × (r.id ≡ e.id)
      × (r.received_at_unix ≡ e.received_at_unix)
      × (s'
          ≡ touch_at
              (push_queued (record s { inbound_events = s.inbound_events ++ r ∷ [] }) q)
              r.recorded_at_unix)
unfolding record_inbound_event_at Event.from_event Event.new
first_arrival s e t {s'} h =
    let (q, looked, rest) = >>=-eq-ok (queued_message_for_event s e t) _ h in
    let r : InboundEventRecord = record {
      id = e.id;
      received_at_unix = e.received_at_unix;
      recorded_at_unix = max t e.received_at_unix;
    } in
    elim (Option-cases (inbound_event s e.id)) [
      | inl first ↦ (q, r, looked, first, refl, refl, ground arith)
      | inr (x, found) ↦
          absurd (ground (arith, check_duplicate-never (message_record_for_event s e.id) q))
    ]

find-snoc :
    {A : Type 0} (p : A → Bool) (xs : List A) (x : A)
    → find p xs ≡ none
    → p x ≡ true
    → find p (xs ++ x ∷ []) ≡ some x
unfolding find
find-snoc p xs x h e = rw (find-append_none p xs (x ∷ []) h, e) refl

push_queued-keeps_ledger :
    (s : RuntimeState) (q : Option QueuedMessage) (t : ℕ)
    → ((touch_at (push_queued s q) t).sessions ≡ s.sessions)
      × ((touch_at (push_queued s q) t).inbound_events ≡ s.inbound_events)
unfolding push_queued touch_at
push_queued-keeps_ledger s none t = (refl, refl)
push_queued-keeps_ledger s (some q) t = (refl, refl)

-- What the second arrival of an event finds in the state that the first one left.
message_after :
    (s : RuntimeState) (e : Event) (r : InboundEventRecord) (q : Option QueuedMessage)
    (q' : Option QueuedMessage)
    → message_record_for_event s e.id ≡ none
    → Again e q q'
    → message_record_for_event
        (touch_at
          (push_queued (record s { inbound_events = s.inbound_events ++ r ∷ [] }) q)
          r.recorded_at_unix)
        e.id
      ≡ q
unfolding message_record_for_event push_queued touch_at claimed_message_for_event
message_after s e r _ _ h no_message = h
message_after s e r _ _ h (same_message x x' k) =
    let none_queued : find (λ y. y.event_id == e.id) s.queued_messages ≡ none = ground arith in
    let found =
      find-snoc (λ y. y.event_id == e.id) s.queued_messages x none_queued
        ((eq_iff x.event_id e.id).1 k.of_event) in
    ground arith

-- When an event has been recorded, and no message of it was known before, its second arrival at
-- any time is a duplicate and leaves the state as it is: nothing is queued twice.
pub record_twice :
    (s : RuntimeState) (e : Event) (t t' : ℕ) (s' : RuntimeState)
    → message_record_for_event s e.id ≡ none
    → record_inbound_event_at s e t ≡ ok (s', recorded)
    → record_inbound_event_at s' e t' ≡ ok (s', duplicate)
unfolding inbound_event push_queued touch_at
record_twice s e t t' s' unknown h =
    let (q, r, looked, first, same_id, same_time, after) = first_arrival s e t h in
    let (sessions, events) =
      push_queued-keeps_ledger (record s { inbound_events = s.inbound_events ++ r ∷ [] }) q
        r.recorded_at_unix in
    let (q', looked', again) =
      queued_for_event-Again s s' e t t' (ap (λ x. x.sessions) after ∙ sessions) looked in
    let ledger =
      ap (λ x. find (λ y. y.id == e.id) x.inbound_events) after
      ∙ ap (find (λ y. y.id == e.id)) events
      ∙ find-snoc (λ y. y.id == e.id) s.inbound_events r first ((eq_iff r.id e.id).1 same_id) in
    let message =
      ap (λ x. check_duplicate (message_record_for_event x e.id) q') after
      ∙ ap (λ x. check_duplicate x q') (message_after s e r q q' unknown again) in
    duplicate_lem s' e t' q' r looked' ledger same_time
      (message ∙ check_duplicate-Again e q q' again)
