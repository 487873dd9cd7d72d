-- ===== src/State/ValidMessages.antt =====
-- What the loops of `RuntimeState::validate` over the queue and the run inputs guarantee.
use ferris_agent_bridge.Base.{
  ℕ, ◌≤◌, ◌≡◌, refl, subst, false, not, List, [], ◌∷◌, ◌++◌, map, Option, some, ok, fail_if,
  map_err, ok_or, when_some, contains, ◌==◌, nat_partial_eq, ltb, leb, is_some, arith, All, New,
  New-cons, >>=-eq-ok, ok_or-eq-ok, Apart,
}
use ferris_agent_bridge.Base.Text.{text_partial_eq}
use ferris_agent_bridge.Session.{SessionId}
use ferris_agent_bridge.Event.{EventId, InboundEventRecord}
use ferris_agent_bridge.Run.{RunId}
use ferris_agent_bridge.Queue.{QueuedMessage, RunInputRecord}
use ferris_agent_bridge.Queue
use ferris_agent_bridge.State.{
  RuntimeState, queue_error, unknown_session, unknown_run, duplicate_queued, duplicate_input,
  stale_for_queued, stale_for_input, queued_without_event, queued_ledger_order, queued_received,
  queued_early, queued_order, input_session, input_claim_time, still_queued, claimed_twice,
  claimed_without_event, claimed_received, claimed_early, claimed_order, claimed_ledger_order,
  session, run,
}
use ferris_agent_bridge.State.Inbound.{input_messages}
use ferris_agent_bridge.State.Validate.{
  last_of, position, check_queued, Owned, check_claimed, check_inputs,
}

abbrev pub message_ids : List QueuedMessage → List EventId
message_ids = map (λ q. q.event_id)

-- The message has an event of the ledger with its receive time, recorded before it was queued.
pub record IsRecorded (s : RuntimeState) (q : QueuedMessage) : Type 0 where
  pub place : ℕ
  pub event : InboundEventRecord
  pub found : position s q.event_id ≡ some (place, event)
  pub received : q.received_at_unix ≡ event.received_at_unix
  pub enqueued : event.recorded_at_unix ≤ q.enqueued_at_unix

check_queued-cons :
    (s : RuntimeState) (seen : List EventId) (l : Option ℕ) (last_at : List (SessionId × ℕ))
    (q : QueuedMessage) (qs : List QueuedMessage)
    → check_queued s seen l last_at (q ∷ qs) ≡ ok tt
    → (contains q.event_id seen ≡ false)
      × IsRecorded s q
      × (p : ℕ) × (check_queued s
            (q.event_id ∷ seen)
            (some p)
            ((q.session_id, q.enqueued_at_unix) ∷ last_at)
            qs
          ≡ ok tt)
unfolding check_queued
check_queued-cons s seen l last_at q qs h =
    let (_, valid, h1) = >>=-eq-ok (map_err queue_error (Queue.validate q)) _ h in
    let (_, fresh, h2) = >>=-eq-ok (fail_if (contains q.event_id seen) duplicate_queued) _ h1 in
    let ((p, e), found, h3) = >>=-eq-ok (ok_or (position s q.event_id) queued_without_event) _ h2 in
    let (_, ordered, h4) =
      >>=-eq-ok (when_some l (λ x. fail_if (leb p x) queued_ledger_order)) _ h3 in
    let (_, received, h5) =
      >>=-eq-ok (fail_if (not (q.received_at_unix == e.received_at_unix)) queued_received) _ h4 in
    let (_, early, h6) =
      >>=-eq-ok (fail_if (ltb q.enqueued_at_unix e.recorded_at_unix) queued_early) _ h5 in
    let (_, known, h7) =
      >>=-eq-ok (fail_if (not (is_some (session s q.session_id))) unknown_session) _ h6 in
    let (_, after, h8) =
      >>=-eq-ok
        (when_some (last_of q.session_id last_at)
          (λ t. fail_if (ltb q.enqueued_at_unix t) queued_order))
        _ h7 in
    let (_, late, h9) =
      >>=-eq-ok (fail_if (ltb s.updated_at_unix q.enqueued_at_unix) stale_for_queued) _ h8 in
    (
      ground arith,
      record {
        place = p;
        event = e;
        found = ok_or-eq-ok (position s q.event_id) queued_without_event found;
        received = ground arith;
        enqueued = ground arith;
      },
      p,
      h9,
    )

pub check_queued-New :
    (s : RuntimeState) (seen : List EventId) (l : Option ℕ) (last_at : List (SessionId × ℕ))
    (qs : List QueuedMessage)
    → check_queued s seen l last_at qs ≡ ok tt
    → New seen (message_ids qs) × All (IsRecorded s) qs
check_queued-New s seen l last_at [] h = ((tt, tt), tt)
check_queued-New s seen l last_at (q ∷ qs) h =
    let (fresh, recorded, p, rest) = check_queued-cons s seen l last_at q qs h in
    let (new, all) =
      check_queued-New s (q.event_id ∷ seen) (some p) ((q.session_id, q.enqueued_at_unix) ∷ last_at)
        qs rest in
    (New-cons q.event_id seen (message_ids qs) fresh new, (recorded, all))

check_claimed-cons :
    (s : RuntimeState) (x : SessionId) (queued : List EventId) (o : Owned) (m : QueuedMessage)
    (ms : List QueuedMessage) {o' : Owned}
    → check_claimed s x queued o (m ∷ ms) ≡ ok o'
    → (contains m.event_id queued ≡ false)
      × (contains m.event_id o.claimed ≡ false)
      × IsRecorded s m
      × (n : Owned) × (n.claimed ≡ m.event_id ∷ o.claimed)
      × (check_claimed s x queued n ms ≡ ok o')
unfolding check_claimed
check_claimed-cons s x queued o m ms h =
    let (_, left, h1) = >>=-eq-ok (fail_if (contains m.event_id queued) still_queued) _ h in
    let (_, once, h2) = >>=-eq-ok (fail_if (contains m.event_id o.claimed) claimed_twice) _ h1 in
    let ((p, e), found, h3) =
      >>=-eq-ok (ok_or (position s m.event_id) claimed_without_event) _ h2 in
    let (_, received, h4) =
      >>=-eq-ok (fail_if (not (m.received_at_unix == e.received_at_unix)) claimed_received) _ h3 in
    let (_, early, h5) =
      >>=-eq-ok (fail_if (ltb m.enqueued_at_unix e.recorded_at_unix) claimed_early) _ h4 in
    let (_, ordered, h6) =
      >>=-eq-ok
        (when_some (last_of x o.last_at) (λ t. fail_if (ltb m.enqueued_at_unix t) claimed_order)) _
        h5 in
    let (_, after, h7) =
      >>=-eq-ok
        (when_some (last_of x o.last_position) (λ l. fail_if (leb p l) claimed_ledger_order)) _
        h6 in
    (
      ground arith,
      ground arith,
      record {
        place = p;
        event = e;
        found = ok_or-eq-ok (position s m.event_id) claimed_without_event found;
        received = ground arith;
        enqueued = ground arith;
      },
      record {
        claimed = m.event_id ∷ o.claimed;
        last_at = (x, m.enqueued_at_unix) ∷ o.last_at;
        last_position = (x, p) ∷ o.last_position;
      },
      refl,
      h7,
    )

-- A claimed message is recorded, and no longer in the queue.
abbrev pub IsClaimed : RuntimeState → List EventId → QueuedMessage → Type 0
IsClaimed s queued q = (contains q.event_id queued ≡ false) × IsRecorded s q

check_claimed-nil :
    (s : RuntimeState) (x : SessionId) (queued : List EventId) (o : Owned) {o' : Owned}
    → check_claimed s x queued o [] ≡ ok o'
    → o' ≡ o
unfolding check_claimed
check_claimed-nil s x queued o h = ground arith

check_claimed-New :
    (s : RuntimeState) (x : SessionId) (queued : List EventId) (o : Owned) (ms : List QueuedMessage)
    (rest : List QueuedMessage) {o' : Owned}
    → check_claimed s x queued o ms ≡ ok o'
    → New o'.claimed (message_ids rest) × All (IsClaimed s queued) rest
    → New o.claimed (message_ids (ms ++ rest)) × All (IsClaimed s queued) (ms ++ rest)
check_claimed-New s x queued o [] rest {o'} h k =
    let same : o' ≡ o = check_claimed-nil s x queued o h in
    subst (λ (n : Owned). New n.claimed (message_ids rest) × All (IsClaimed s queued) rest) same k
check_claimed-New s x queued o (m ∷ ms) rest h k =
    let (left, once, recorded, n, same, tail) = check_claimed-cons s x queued o m ms h in
    let (new, all) = check_claimed-New s x queued n ms rest tail k in
    (
      New-cons m.event_id o.claimed (message_ids (ms ++ rest)) once
          (subst (λ c. New c (message_ids (ms ++ rest))) same new),
      ((left, recorded), all),
    )

check_inputs-cons :
    (s : RuntimeState) (queued : List EventId) (seen : List RunId) (o : Owned) (i : RunInputRecord)
    (is : List RunInputRecord) {o' : Owned}
    → check_inputs s queued seen o (i ∷ is) ≡ ok o'
    → (n : Owned) × (check_claimed s i.session_id queued o i.messages ≡ ok n)
      × (check_inputs s queued (i.run_id ∷ seen) n is ≡ ok o')
unfolding check_inputs
check_inputs-cons s queued seen o i is h =
    let (_, valid, h1) = >>=-eq-ok (map_err queue_error (Queue.validate_input i)) _ h in
    let (_, fresh, h2) = >>=-eq-ok (fail_if (contains i.run_id seen) duplicate_input) _ h1 in
    let (r, found, h3) = >>=-eq-ok (ok_or (run s i.run_id) unknown_run) _ h2 in
    let (_, same, h4) =
      >>=-eq-ok (fail_if (not (r.session_id == i.session_id)) input_session) _ h3 in
    let (_, at, h5) =
      >>=-eq-ok (fail_if (not (r.created_at_unix == i.claimed_at_unix)) input_claim_time) _ h4 in
    let (n, claimed, h6) = >>=-eq-ok (check_claimed s i.session_id queued o i.messages) _ h5 in
    let (_, late, h7) =
      >>=-eq-ok (fail_if (ltb s.updated_at_unix i.claimed_at_unix) stale_for_input) _ h6 in
    (n, claimed, h7)

pub check_inputs-New :
    (s : RuntimeState) (queued : List EventId) (seen : List RunId) (o : Owned)
    (is : List RunInputRecord) {o' : Owned}
    → check_inputs s queued seen o is ≡ ok o'
    → New o.claimed (message_ids (input_messages is)) × All (IsClaimed s queued) (input_messages is)
unfolding input_messages
check_inputs-New s queued seen o [] h = ((tt, tt), tt)
check_inputs-New s queued seen o (i ∷ is) h =
    let (n, claimed, rest) = check_inputs-cons s queued seen o i is h in
    check_claimed-New s i.session_id queued o i.messages (input_messages is) claimed
      (check_inputs-New s queued (i.run_id ∷ seen) n is rest)

pub claimed-Apart :
    (s : RuntimeState) (queued : List EventId) (qs : List QueuedMessage)
    → All (IsClaimed s queued) qs
    → Apart queued (message_ids qs) × All (IsRecorded s) qs
claimed-Apart s queued [] h = (tt, tt)
claimed-Apart s queued (q ∷ qs) ((left, recorded), h) =
    let (apart, all) = claimed-Apart s queued qs h in ((left, apart), (recorded, all))
