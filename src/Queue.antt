-- ===== src/Queue.antt =====
-- runtime/queue.rs: queued messages, the batching policy and the inputs of runs.
pub mod Grouping
pub mod Choice
pub mod Scan
pub mod Poll
use ferris_agent_bridge.Base.{
  ℕ, zero, suc, ◌+◌, ◌-◌, max, min, Ordering, compare, Bool, true, false, ◌&&◌, ◌||◌, not, ◌≡◌, ◌↔◌,
  List, [], ◌∷◌, ◌++◌, Option, none, some, Result, ok, err, ◌>>=◌, ◌>>◌, fail_if, when_some, ok_or,
  ltb, leb, PartialEq, ◌==◌, eq_iff, eq_refl, arith, nat_partial_eq, contains, is_nil,
  option_partial_eq, if◌then◌else◌, length, take, list_partial_eq,
}
use ferris_agent_bridge.Base.Text.{Text, text_partial_eq, text_compare}
use ferris_agent_bridge.Session.{SessionId}
use ferris_agent_bridge.Message.{Message, user, author_partial_eq, message_partial_eq}
use ferris_agent_bridge.Event.{
  Event, EventId, EventKind, message_received, platform, source_partial_eq,
}
use ferris_agent_bridge.Run.{RunId, RunRecord}
use ferris_agent_bridge.Outbox.Retry.{saturating_add}

pub data Error : Type 0 where
  not_from_platform not_a_message no_session : Error
  not_user_authored session_mismatch enqueued_before_received : Error
  input_empty claimed_before_ready wrong_session duplicate_event unordered ready_before_last : Error
  max_batch_size_zero : Error

pub record QueuedMessage : Type 0 where
  pub event_id : EventId
  pub session_id : SessionId
  pub message : Message
  pub received_at_unix : ℕ
  pub enqueued_at_unix : ℕ

-- The derived `PartialEq`.
abbrev queued_eq : QueuedMessage → QueuedMessage → Bool
queued_eq a b =
    a.event_id == b.event_id
    && a.session_id == b.session_id
    && a.message == b.message
    && a.received_at_unix == b.received_at_unix
    && a.enqueued_at_unix == b.enqueued_at_unix

pub queued_eq_iff : (a b : QueuedMessage) → (queued_eq a b ≡ true) ↔ (a ≡ b)
queued_eq_iff a b = (
  λ h. ground (
    arith,
    eq_iff a.event_id b.event_id,
    eq_iff a.session_id b.session_id,
    eq_iff a.message b.message,
  ),
  λ h. rw h (
      simp (
        eq_refl b.event_id,
        eq_refl b.session_id,
        eq_refl b.message,
        eq_refl b.received_at_unix,
        eq_refl b.enqueued_at_unix,
      )),
)

instance abbrev pub queued_partial_eq : PartialEq QueuedMessage
queued_partial_eq = record { eq = queued_eq; eq_iff = queued_eq_iff }

unfoldable pub validate : QueuedMessage → Result Error (Unit {0})
validate q = do
  fail_if (not (q.message.author == user)) not_user_authored
  fail_if (not (q.message.session_id == some q.session_id)) session_mismatch
  fail_if (ltb q.enqueued_at_unix q.received_at_unix) enqueued_before_received

received_message : EventKind → Option Message
received_message (message_received m) = some m
received_message _ = none

unfoldable pub from_event : Event → ℕ → Result Error QueuedMessage
unfolding received_message validate
from_event e enqueued_at_unix = do
  fail_if (not (e.source == platform)) not_from_platform
  m ← ok_or (received_message e.kind) not_a_message
  session_id ← ok_or m.session_id no_session
  let q : QueuedMessage = record {
    event_id = e.id;
    session_id = session_id;
    message = m;
    received_at_unix = e.received_at_unix;
    enqueued_at_unix = max enqueued_at_unix e.received_at_unix;
  }
  validate q
  ok q

unfoldable pub rebase_enqueued_at_unix : QueuedMessage → ℕ → QueuedMessage
rebase_enqueued_at_unix q minimum = record q { enqueued_at_unix = max q.enqueued_at_unix minimum }

unfoldable pub has_same_identity : QueuedMessage → QueuedMessage → Bool
has_same_identity a b =
    a.event_id == b.event_id
    && a.session_id == b.session_id
    && a.message == b.message
    && a.received_at_unix == b.received_at_unix

pub record MessageBatch : Type 0 where
  pub session_id : SessionId
  pub messages : List QueuedMessage
  pub ready_at_unix : ℕ

pub record RunInputRecord : Type 0 where
  pub run_id : RunId
  pub session_id : SessionId
  pub messages : List QueuedMessage
  pub ready_at_unix : ℕ
  pub claimed_at_unix : ℕ

-- The derived `PartialEq`.
abbrev input_eq : RunInputRecord → RunInputRecord → Bool
input_eq a b =
    a.run_id == b.run_id
    && a.session_id == b.session_id
    && a.messages == b.messages
    && a.ready_at_unix == b.ready_at_unix
    && a.claimed_at_unix == b.claimed_at_unix

pub input_eq_iff : (a b : RunInputRecord) → (input_eq a b ≡ true) ↔ (a ≡ b)
input_eq_iff a b = (
  λ h. ground (
    arith,
    eq_iff a.run_id b.run_id,
    eq_iff a.session_id b.session_id,
    eq_iff a.messages b.messages,
  ),
  λ h. rw h (
      simp (
        eq_refl b.run_id,
        eq_refl b.session_id,
        eq_refl b.messages,
        eq_refl b.ready_at_unix,
        eq_refl b.claimed_at_unix,
      )),
)

instance abbrev pub input_partial_eq : PartialEq RunInputRecord
input_partial_eq = record { eq = input_eq; eq_iff = input_eq_iff }

-- The loop of `RunInputRecord::validate`, with the event ids seen and the previous enqueue time.
unfoldable pub validate_messages :
    SessionId → List EventId → Option ℕ → List QueuedMessage → Result Error (Unit {0})
validate_messages session seen previous [] = ok tt
validate_messages session seen previous (q ∷ qs) = do
  validate q
  fail_if (not (q.session_id == session)) wrong_session
  fail_if (contains q.event_id seen) duplicate_event
  when_some previous (λ t. fail_if (ltb q.enqueued_at_unix t) unordered)
  validate_messages session (q.event_id ∷ seen) (some q.enqueued_at_unix) qs

-- `messages.last().expect(..).enqueued_at_unix()`. Its callers have a message; 0 stands for the
-- panic on an empty list.
unfoldable pub last_enqueued : List QueuedMessage → ℕ
last_enqueued [] = 0
last_enqueued (q ∷ []) = q.enqueued_at_unix
last_enqueued (q ∷ r ∷ qs) = last_enqueued (r ∷ qs)

unfoldable pub validate_input : RunInputRecord → Result Error (Unit {0})
validate_input r = do
  fail_if (is_nil r.messages) input_empty
  fail_if (ltb r.claimed_at_unix r.ready_at_unix) claimed_before_ready
  validate_messages r.session_id [] none r.messages
  fail_if (ltb r.ready_at_unix (last_enqueued r.messages)) ready_before_last

-- `RunInputRecord::from_batch`
unfoldable pub from_batch : RunId → MessageBatch → ℕ → Result Error RunInputRecord
from_batch run_id batch claimed_at_unix = do
  let r : RunInputRecord = record {
    run_id = run_id;
    session_id = batch.session_id;
    messages = batch.messages;
    ready_at_unix = batch.ready_at_unix;
    claimed_at_unix = claimed_at_unix;
  }
  validate_input r
  ok r

pub data MessageBatchClaimOutcome : Type 0 where
  claimed : RunRecord → RunInputRecord → MessageBatchClaimOutcome
  claim_waiting : Option ℕ → MessageBatchClaimOutcome

pub data MessageQueuePoll : Type 0 where
  ready : MessageBatch → MessageQueuePoll
  waiting : Option ℕ → MessageQueuePoll

pub record MessageQueuePolicy : Type 0 where
  pub debounce_secs : ℕ
  pub max_batch_size : ℕ

-- `MessageQueuePolicy::new`
unfoldable pub new_policy : ℕ → ℕ → Result Error MessageQueuePolicy
new_policy debounce_secs max_batch_size = do
  fail_if (max_batch_size == 0) max_batch_size_zero
  ok (record { debounce_secs = debounce_secs; max_batch_size = max_batch_size })

unfoldable pub default_policy : MessageQueuePolicy
default_policy = record { debounce_secs = 2; max_batch_size = 20 }

-- The messages of one session, in queue order: an entry of the `BTreeMap` of `poll_where`.
pub record Group : Type 0 where
  pub session_id : SessionId
  pub messages : List QueuedMessage

-- `by_session.entry(..).or_default().push(queued)`. The map is an association list; the order of
-- its entries does not show in the outcome of a poll.
unfoldable pub entry_push : QueuedMessage → List Group → List Group
entry_push q [] = record { session_id = q.session_id; messages = q ∷ [] } ∷ []
entry_push q (g ∷ gs) =
    if q.session_id == g.session_id
    then record g { messages = g.messages ++ q ∷ [] } ∷ gs
    else g ∷ entry_push q gs

unfoldable pub group_by_session : (SessionId → Bool) → List Group → List QueuedMessage → List Group
group_by_session is_eligible gs [] = gs
group_by_session is_eligible gs (q ∷ qs) =
    group_by_session is_eligible (if is_eligible q.session_id then entry_push q gs else gs) qs

-- `messages[i].enqueued_at_unix()`; 0 stands for the panic of an index out of range.
unfoldable pub enqueued_at : List QueuedMessage → ℕ → ℕ
enqueued_at [] i = 0
enqueued_at (q ∷ qs) zero = q.enqueued_at_unix
enqueued_at (q ∷ qs) (suc i) = enqueued_at qs i

-- When a group is ready: with a full batch, or a debounce after its last message.
unfoldable pub group_ready_at : MessageQueuePolicy → List QueuedMessage → ℕ
group_ready_at p ms =
    if leb p.max_batch_size (length ms)
    then enqueued_at ms (p.max_batch_size - 1)
    else saturating_add (last_enqueued ms) p.debounce_secs

pub record Candidate : Type 0 where
  pub ready_at_unix : ℕ
  pub session_id : SessionId
  pub messages : List QueuedMessage

abbrev pub sooner : Option ℕ → ℕ → ℕ
sooner none t = t
sooner (some current) t = min current t

-- The loop over the groups: the candidates, and the next time at which one becomes ready.
unfoldable pub scan :
    MessageQueuePolicy → ℕ → List Group → List Candidate → Option ℕ → List Candidate × Option ℕ
scan p now [] cs next = (cs, next)
scan p now (g ∷ gs) cs next =
    let t = group_ready_at p g.messages in
    let c : Candidate = record {
      ready_at_unix = t;
      session_id = g.session_id;
      messages = g.messages;
    } in
    scan p now gs (if leb t now then cs ++ c ∷ [] else cs)
      (if leb t now then next else some (sooner next t))

-- `(left.0, left.1) < (right.0, right.1)`
unfoldable pub before : Candidate → Candidate → Bool
before a b = elim (compare a.ready_at_unix b.ready_at_unix) [
  | Ordering.lt ↦ true
  | Ordering.gt ↦ false
  | Ordering.eq ↦ elim (text_compare a.session_id b.session_id) [ Ordering.lt ↦ true | _ ↦ false ]
]

unfoldable pub earliest : Candidate → List Candidate → Candidate
earliest c [] = c
earliest c (d ∷ ds) = earliest (if before d c then d else c) ds

-- `Iterator::min_by`, which keeps the first of equal minima.
unfoldable pub min_by : List Candidate → Option Candidate
min_by [] = none
min_by (c ∷ cs) = some (earliest c cs)

abbrev pub outcome : MessageQueuePolicy → Option ℕ → Option Candidate → MessageQueuePoll
outcome p next none = waiting next
outcome p next (some c) = ready (record {
  session_id = c.session_id;
  messages = take p.max_batch_size c.messages;
  ready_at_unix = c.ready_at_unix;
})

unfoldable pub poll_where :
    MessageQueuePolicy → List QueuedMessage → ℕ → (SessionId → Bool) → MessageQueuePoll
poll_where p queued now is_eligible =
    let (cs, next) = scan p now (group_by_session is_eligible [] queued) [] none in
    outcome p next (min_by cs)

unfoldable pub poll : MessageQueuePolicy → List QueuedMessage → ℕ → MessageQueuePoll
unfolding poll_where
poll p queued now = poll_where p queued now (λ _. true)
