-- ===== src/State/Frames.antt =====
-- What an operation of the runtime state leaves as it is: the runs or the deliveries.
use ferris_agent_bridge.Base.{
  ℕ, ◌≡◌, refl, Bool, List, Option, none, some, Result, ok, arith, find, >>=-eq-ok, Option-cases,
  ok_or, inl, inr, map_err,
}
use ferris_agent_bridge.Ids.{OutboundDeliveryId}
use ferris_agent_bridge.Session.{SessionId, Session}
use ferris_agent_bridge.Event.{Event, InboundEventRecordStatus}
use ferris_agent_bridge.Queue.{
  MessageBatchClaimOutcome, waiting, ready, from_batch, MessageQueuePoll, QueuedMessage,
}
use ferris_agent_bridge.Run.{RunId, RunRecord}
use ferris_agent_bridge.Run
use ferris_agent_bridge.Outbox.{OutboundDeliveryRecord}
use ferris_agent_bridge.Outbox
use ferris_agent_bridge.State.{
  RuntimeState, upsert_session, add_run, update_run, touch_at, outbound_delivery, run, unknown_run,
  run_error, queue_error, inbound_event,
}
use ferris_agent_bridge.State.Inbound.{
  record_inbound_event, push_queued, record_inbound_event_at, queued_message_for_event,
}
use ferris_agent_bridge.State.Batches.{claim_batch, claim_polled}
use ferris_agent_bridge.State.Deliveries.{
  OutboundDeliveryEnqueueStatus, enqueue_outbound_delivery, claim_next_outbound_delivery_where,
  update_delivery, claimed_state, claim_first,
}
use ferris_agent_bridge.State.DeliveryInvariant.{update_delivery-eq-ok}
use ferris_agent_bridge.Base.{◌==◌, map_err, ok_or, >>=-eq-ok, Option-cases, ◌⊎◌, inl, inr}
use ferris_agent_bridge.Base.Text.{text_partial_eq}

pub add_run-deliveries :
    (s : RuntimeState) (r : RunRecord) (now : ℕ) {s' : RuntimeState}
    → add_run s r now ≡ ok s'
    → s.outbound_deliveries ≡ s'.outbound_deliveries
unfolding add_run
add_run-deliveries s r now e = ground arith

pub update_run-deliveries :
    (s : RuntimeState) (id : RunId) (f : RunRecord → Result Run.Error RunRecord) (t : ℕ)
    {s' : RuntimeState}
    → update_run s id f t ≡ ok s'
    → s.outbound_deliveries ≡ s'.outbound_deliveries
unfolding update_run touch_at
update_run-deliveries s id f t {s'} e =
    let (r, found, rest) = >>=-eq-ok (ok_or (run s id) unknown_run) _ e in
    let (v, done, end) = >>=-eq-ok (map_err run_error (f r)) _ rest in ground arith

pub enqueue-runs :
    (s : RuntimeState) (d : OutboundDeliveryRecord) (now : ℕ) {s' : RuntimeState}
    {status : OutboundDeliveryEnqueueStatus}
    → enqueue_outbound_delivery s d now ≡ ok (s', status)
    → s.runs ≡ s'.runs
unfolding enqueue_outbound_delivery touch_at
enqueue-runs s d now {s'} {status} e = elim (Option-cases (outbound_delivery s d.id)) [
  | inl none_found ↦ ground arith
  | inr (x, found) ↦ ground arith
]

pub claim_next-runs :
    (s : RuntimeState) (t : ℕ) (eligible : OutboundDeliveryRecord → Bool) (now : ℕ)
    {s' : RuntimeState} {d : Option OutboundDeliveryRecord}
    → claim_next_outbound_delivery_where s t eligible now ≡ ok (s', d)
    → s.runs ≡ s'.runs
unfolding claim_next_outbound_delivery_where touch_at claimed_state
claim_next-runs s t eligible now {s'} {d} e =
    let (found, h, end) = >>=-eq-ok (claim_first eligible t s.outbound_deliveries) _ e in
    kept found (ground arith)
  where
    kept :
        (c : Option (OutboundDeliveryRecord × List OutboundDeliveryRecord))
        → claimed_state s c now ≡ (s', d)
        → s.runs ≡ s'.runs
    kept none h = ground arith
    kept (some (x, ds)) h = ground arith

pub update_delivery-runs :
    (s : RuntimeState) (id : OutboundDeliveryId)
    (f : OutboundDeliveryRecord → Result Outbox.Error OutboundDeliveryRecord) (now : ℕ)
    {s' : RuntimeState} {d : OutboundDeliveryRecord}
    → update_delivery s id f now ≡ ok (s', d)
    → s.runs ≡ s'.runs
unfolding touch_at
update_delivery-runs s id f now {s'} {d} e =
    let (x, found, done, after) = update_delivery-eq-ok s id f now e in ground arith

-- What a claim of a batch does to the runs and the deliveries: nothing, or it adds a new run.
pub claim_polled-eq-ok :
    (s : RuntimeState) (id : RunId) (p : MessageQueuePoll) (t now : ℕ) {s' : RuntimeState}
    {found : MessageBatchClaimOutcome}
    → claim_polled s id p t now ≡ ok (s', found)
    → (s ≡ s')
      ⊎ ((x : SessionId) × (a : RuntimeState) × (add_run s (Run.new id x t) now ≡ ok a)
          × (a.runs ≡ s'.runs)
          × (a.outbound_deliveries ≡ s'.outbound_deliveries))
unfolding claim_polled claim_batch touch_at
claim_polled-eq-ok s id (waiting next) t now e = inl (ground arith)
claim_polled-eq-ok s id (ready batch) t now {s'} {found} e =
    let (input, valid, rest) = >>=-eq-ok (map_err queue_error (from_batch id batch t)) _ e in
    let (a, done, end) = >>=-eq-ok (add_run s (Run.new id batch.session_id t) now) _ rest in
    inr (batch.session_id, a, done, ground arith, ground arith)

push_queued-keeps :
    (s : RuntimeState) (q : Option QueuedMessage)
    → ((push_queued s q).runs ≡ s.runs)
      × ((push_queued s q).outbound_deliveries ≡ s.outbound_deliveries)
unfolding push_queued touch_at
push_queued-keeps s none = (refl, refl)
push_queued-keeps s (some q) = (refl, refl)

pub record_inbound_event-keeps :
    (s : RuntimeState) (e : Event) (now : ℕ) {s' : RuntimeState} {status : InboundEventRecordStatus}
    → record_inbound_event s e now ≡ ok (s', status)
    → (s.runs ≡ s'.runs) × (s.outbound_deliveries ≡ s'.outbound_deliveries)
unfolding record_inbound_event record_inbound_event_at touch_at
record_inbound_event-keeps s e now {s'} {status} k =
    let (queued, looked, rest) = >>=-eq-ok (queued_message_for_event s e now) _ k in
    elim (Option-cases (inbound_event s e.id)) [
      | inl first ↦ grind (arith, push_queued-keeps)
      | inr (x, found) ↦ ground arith
    ]

pub upsert_session-keeps :
    (s : RuntimeState) (x : Session) (now : ℕ)
    → (s.runs ≡ (upsert_session s x now).runs)
      × (s.outbound_deliveries ≡ (upsert_session s x now).outbound_deliveries)
unfolding upsert_session touch_at
upsert_session-keeps s x now = elim (Option-cases (find (λ y. y.id == x.id) s.sessions)) [
  | inl first ↦ ground arith
  | inr (y, found) ↦ ground arith
]
