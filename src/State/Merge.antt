-- ===== src/State/Merge.antt =====
-- The merge of a state that is to be saved with the state on disk, of runtime/state/model.rs: the
-- `preserve_*_from` methods and `validate_shared_inbound_event_identity`.
use ferris_agent_bridge.Base.{
  ℕ, Bool, true, false, not, List, [], ◌∷◌, ◌++◌, Option, none, some, Result, ok, err, ◌>>=◌, ◌>>◌,
  fail_if, map_ok, PartialEq, ◌==◌, find, if◌then◌else◌,
}
use ferris_agent_bridge.Base.Text.{text_partial_eq}
use ferris_agent_bridge.Session.{SessionId}
use ferris_agent_bridge.Event.{InboundEventRecord, record_partial_eq}
use ferris_agent_bridge.Run.{RunId, RunRecord, is_descendant_of}
use ferris_agent_bridge.Run
use ferris_agent_bridge.Outbox
use ferris_agent_bridge.Queue.{
  QueuedMessage, RunInputRecord, has_same_identity, rebase_enqueued_at_unix, input_partial_eq,
}
use ferris_agent_bridge.State.{
  RuntimeState, Error, conflicting_event, conflicting_identity, conflicting_run, conflicting_input,
  conflicting_delivery, conflicting_claimed, conflicting_queued, touch_at,
}
use ferris_agent_bridge.State.Inbound.{claimed_message_for_event, message_record_for_event}
use ferris_agent_bridge.State.Validate.{last_of}

-- `for x in &merged { self.touch_at(time(x)); }`
unfoldable pub touch_all : {A : Type 0} → (A → ℕ) → List A → RuntimeState → RuntimeState
unfolding touch_at
touch_all time [] s = s
touch_all time (x ∷ xs) s = touch_all time xs (touch_at s (time x))

-- The match on the queue identities of an event that both states have.
unfoldable pub same_queue_identity : Option QueuedMessage → Option QueuedMessage → Bool
same_queue_identity (some a) (some b) = has_same_identity a b
same_queue_identity none none = true
same_queue_identity (some a) none = false
same_queue_identity none (some b) = false

unfoldable pub check_shared_event :
    RuntimeState
    → RuntimeState
    → InboundEventRecord
    → Option InboundEventRecord
    → Result Error (Unit {0})
unfolding same_queue_identity
check_shared_event s existing c none = ok tt
check_shared_event s existing c (some e) = do
  fail_if (not (e == c)) conflicting_event
  fail_if
      (not (
        same_queue_identity (message_record_for_event existing c.id)
          (message_record_for_event s c.id)))
      conflicting_identity

unfoldable pub check_shared_events :
    RuntimeState → RuntimeState → List InboundEventRecord → Result Error (Unit {0})
unfolding check_shared_event
check_shared_events s existing [] = ok tt
check_shared_events s existing (c ∷ cs) = do
  check_shared_event s existing c (find (λ e. e.id == c.id) existing.inbound_events)
  check_shared_events s existing cs

unfoldable pub validate_shared_inbound_event_identity :
    RuntimeState → RuntimeState → Result Error (Unit {0})
unfolding check_shared_events
validate_shared_inbound_event_identity s existing = check_shared_events s existing s.inbound_events

-- One round of a loop that keeps the records of `existing` and pushes the new ones.
unfoldable pub merge_record :
    {A : Type 0} → ⦃e : PartialEq A⦄ → Error → A → List A → Option A → Result Error (List A)
merge_record conflict c merged none = ok (merged ++ c ∷ [])
merge_record conflict c merged (some x) = if x == c then ok merged else err conflict

unfoldable pub merge_records :
    {A K : Type 0}
    → ⦃e : PartialEq A⦄ → ⦃k : PartialEq K⦄ → (A → K)
    → Error
    → List A
    → List A
    → List A
    → Result Error (List A)
unfolding merge_record
merge_records key conflict existing merged [] = ok merged
merge_records key conflict existing merged (c ∷ cs) = do
  merged' ← merge_record conflict c merged (find (λ x. key x == key c) existing)
  merge_records key conflict existing merged' cs

unfoldable pub preserve_inbound_events_from :
    RuntimeState → RuntimeState → Result Error RuntimeState
unfolding merge_records touch_all
preserve_inbound_events_from s existing = do
  merged ←
      merge_records (λ e. e.id) conflicting_event existing.inbound_events existing.inbound_events
        s.inbound_events
  ok (record (touch_all (λ e. e.recorded_at_unix) merged s) { inbound_events = merged })

-- The match on a run of `merged` with the id of the candidate.
unfoldable pub newer_run : RunRecord → RunRecord → Result Error RunRecord
newer_run c r =
    if ◌==◌ ⦃e = Run.record_partial_eq⦄ r c
    then ok r
    else if is_descendant_of c r
    then ok c
    else if is_descendant_of r c
    then ok r
    else err conflicting_run

unfoldable pub merge_run : RunRecord → List RunRecord → Result Error (List RunRecord)
unfolding newer_run
merge_run c [] = ok (c ∷ [])
merge_run c (r ∷ rs) =
    let rest = map_ok (λ m. r ∷ m) (merge_run c rs) in
    if r.id == c.id then map_ok (λ v. v ∷ rs) (newer_run c r) else rest

unfoldable pub merge_runs : List RunRecord → List RunRecord → Result Error (List RunRecord)
unfolding merge_run
merge_runs merged [] = ok merged
merge_runs merged (c ∷ cs) = do merged' ← merge_run c merged; merge_runs merged' cs

unfoldable pub preserve_runs_from : RuntimeState → RuntimeState → Result Error RuntimeState
unfolding merge_runs touch_all
preserve_runs_from s existing = do
  merged ← merge_runs existing.runs s.runs
  ok (record (touch_all (λ r. r.updated_at_unix) merged s) { runs = merged })

unfoldable pub preserve_run_inputs_from : RuntimeState → RuntimeState → Result Error RuntimeState
unfolding merge_records touch_all
preserve_run_inputs_from s existing = do
  merged ←
      merge_records (λ i. i.run_id) conflicting_input existing.run_inputs existing.run_inputs
        s.run_inputs
  ok (record (touch_all (λ i. i.claimed_at_unix) merged s) { run_inputs = merged })

unfoldable pub preserve_outbound_deliveries_from :
    RuntimeState → RuntimeState → Result Error RuntimeState
unfolding merge_records touch_all
preserve_outbound_deliveries_from s existing = do
  merged ←
      merge_records ⦃e = Outbox.record_partial_eq⦄ (λ d. d.id) conflicting_delivery
        existing.outbound_deliveries existing.outbound_deliveries s.outbound_deliveries
  ok (record (touch_all (λ d. d.updated_at_unix) merged s) { outbound_deliveries = merged })

-- The match on the claimed message of an event in the queue: whether the message is claimed.
unfoldable pub is_claimed : RuntimeState → QueuedMessage → Result Error Bool
is_claimed s q = elim (claimed_message_for_event s q.event_id) [
  | none ↦ ok false
  | some c ↦ if has_same_identity c q then ok true else err conflicting_claimed
]

-- The queue of the state on disk, without the messages that the saved state has claimed.
unfoldable pub keep_unclaimed :
    RuntimeState → List QueuedMessage → Result Error (List QueuedMessage)
unfolding is_claimed
keep_unclaimed s [] = ok []
keep_unclaimed s (q ∷ qs) = do
  claimed ← is_claimed s q
  rest ← keep_unclaimed s qs
  ok (if claimed then rest else q ∷ rest)

-- `last_owned_enqueued_at_by_session`, with the latest entry first.
unfoldable pub owned_times :
    SessionId → List QueuedMessage → List (SessionId × ℕ) → List (SessionId × ℕ)
owned_times x [] last = last
owned_times x (m ∷ ms) last = owned_times x ms ((x, m.enqueued_at_unix) ∷ last)

unfoldable pub input_times : List RunInputRecord → List (SessionId × ℕ) → List (SessionId × ℕ)
unfolding owned_times
input_times [] last = last
input_times (i ∷ is) last = input_times is (owned_times i.session_id i.messages last)

unfoldable pub queue_times : List QueuedMessage → List (SessionId × ℕ) → List (SessionId × ℕ)
queue_times [] last = last
queue_times (q ∷ qs) last = queue_times qs ((q.session_id, q.enqueued_at_unix) ∷ last)

unfoldable pub rebased : QueuedMessage → Option ℕ → QueuedMessage
rebased q none = q
rebased q (some t) = rebase_enqueued_at_unix q t

-- The match on the message of `existing` with the event of a candidate that nobody claimed: the
-- messages to push.
unfoldable pub new_message :
    QueuedMessage → List (SessionId × ℕ) → Option QueuedMessage → Result Error (List QueuedMessage)
unfolding rebased last_of
new_message q last none = ok (rebased q (last_of q.session_id last) ∷ [])
new_message q last (some x) = if has_same_identity x q then ok [] else err conflicting_queued

unfoldable pub add_candidates :
    RuntimeState
    → RuntimeState
    → List QueuedMessage
    → List (SessionId × ℕ)
    → List QueuedMessage
    → Result Error (List QueuedMessage)
unfolding is_claimed new_message queue_times
add_candidates s existing merged last [] = ok merged
add_candidates s existing merged last (q ∷ qs) = do
  claimed ← is_claimed s q
  pushed ←
      if claimed
      then ok []
      else new_message q last (find (λ x. x.event_id == q.event_id) existing.queued_messages)
  add_candidates s existing (merged ++ pushed) (queue_times pushed last) qs

unfoldable pub preserve_queued_messages_from :
    RuntimeState → RuntimeState → Result Error RuntimeState
unfolding keep_unclaimed add_candidates input_times queue_times touch_all
preserve_queued_messages_from s existing = do
  kept ← keep_unclaimed s existing.queued_messages
  let last = queue_times kept (input_times s.run_inputs [])
  merged ← add_candidates s existing kept last s.queued_messages
  ok (record (touch_all (λ q. q.enqueued_at_unix) merged s) { queued_messages = merged })
