-- ===== src/State/Deliveries.antt =====
-- What runtime/state/model.rs does to outbound deliveries, the outputs of runs included.
use ferris_agent_bridge.Base.{
  ℕ, max, Bool, ◌&&◌, not, List, [], ◌∷◌, ◌++◌, map, Option, none, some, Result, ok, err, ◌>>=◌,
  ◌>>◌, fail_if, ok_or, map_err, ◌==◌, nat_partial_eq, is_some, is_nil, if◌then◌else◌, update_first,
  contains, ltb, map_ok,
}
use ferris_agent_bridge.Base.Text.{Text, text_partial_eq}
use ferris_agent_bridge.Ids.{OutboundDeliveryId}
use ferris_agent_bridge.Message.{agent, author_partial_eq}
use ferris_agent_bridge.Outbox.{
  OutboundDeliveryRecord, OutboundDeliveryStatus, pending, status_partial_eq, record_partial_eq,
  can_begin, begin_delivery,
}
use ferris_agent_bridge.Outbox
use ferris_agent_bridge.Run.{RunId, RunRecord, running}
use ferris_agent_bridge.Run
use ferris_agent_bridge.State.{
  RuntimeState, Error, delivery_error, unknown_session, unknown_run, unknown_delivery,
  delivery_not_pending, delivery_conflict, no_outputs, cannot_complete, completion_in_past,
  output_not_pending, output_session, output_author, output_time, output_duplicate, output_exists,
  session, outbound_delivery, touch_at, run, update_run,
}

pub data OutboundDeliveryEnqueueStatus : Type 0 where
  queued already_queued : OutboundDeliveryEnqueueStatus

unfoldable pub validate_outbound_delivery_session :
    RuntimeState → OutboundDeliveryRecord → Result Error (Unit {0})
validate_outbound_delivery_session s d =
    fail_if (not (is_some (session s d.session_id))) unknown_session

unfoldable pub enqueue_outbound_delivery :
    RuntimeState
    → OutboundDeliveryRecord
    → ℕ
    → Result Error (RuntimeState × OutboundDeliveryEnqueueStatus)
unfolding validate_outbound_delivery_session touch_at
enqueue_outbound_delivery s d now = do
  map_err delivery_error (Outbox.validate d)
  validate_outbound_delivery_session s d
  fail_if (not (d.status == pending)) delivery_not_pending
  elim (outbound_delivery s d.id) [
    | some existing ↦ if existing == d then ok (s, already_queued) else err delivery_conflict
    | none ↦ ok (
      touch_at (record s { outbound_deliveries = s.outbound_deliveries ++ d ∷ [] })
          (max d.updated_at_unix now),
      queued,
    )
  ]

abbrev pub keep :
    OutboundDeliveryRecord
    → Option (OutboundDeliveryRecord × List OutboundDeliveryRecord)
    → Option (OutboundDeliveryRecord × List OutboundDeliveryRecord)
keep d none = none
keep d (some (c, ds)) = some (c, d ∷ ds)

-- The loop of `claim_next_outbound_delivery_where`: the first delivery that may begin and is
-- eligible begins. The result is the list after that, with the delivery begun.
unfoldable pub claim_first :
    (OutboundDeliveryRecord → Bool)
    → ℕ
    → List OutboundDeliveryRecord
    → Result Error (Option (OutboundDeliveryRecord × List OutboundDeliveryRecord))
claim_first is_eligible t [] = ok none
claim_first is_eligible t (d ∷ ds) =
    let rest = map_ok (keep d) (claim_first is_eligible t ds) in
    let here = map_ok (λ d'. some (d', d' ∷ ds)) (map_err delivery_error (begin_delivery d t)) in
    if can_begin d.status && is_eligible d then here else rest

-- What a claim returns: the state with the deliveries after the loop and the delivery begun.
unfoldable pub claimed_state :
    RuntimeState
    → Option (OutboundDeliveryRecord × List OutboundDeliveryRecord)
    → ℕ
    → RuntimeState × Option OutboundDeliveryRecord
unfolding touch_at
claimed_state s none now = (s, none)
claimed_state s (some (d, ds)) now =
    (touch_at (record s { outbound_deliveries = ds }) (max d.updated_at_unix now), some d)

unfoldable pub claim_next_outbound_delivery_where :
    RuntimeState
    → ℕ
    → (OutboundDeliveryRecord → Bool)
    → ℕ
    → Result Error (RuntimeState × Option OutboundDeliveryRecord)
unfolding claimed_state
claim_next_outbound_delivery_where s t is_eligible now = do
  found ← claim_first is_eligible t s.outbound_deliveries
  ok (claimed_state s found now)

-- `outbound_delivery_mut(id)?` and a transition of the delivery, then `touch_at`.
unfoldable pub update_delivery :
    RuntimeState
    → OutboundDeliveryId
    → (OutboundDeliveryRecord → Result Outbox.Error OutboundDeliveryRecord)
    → ℕ
    → Result Error (RuntimeState × OutboundDeliveryRecord)
unfolding touch_at
update_delivery s id f now = do
  d ← ok_or (outbound_delivery s id) unknown_delivery
  d' ← map_err delivery_error (f d)
  ok (
    touch_at
        (record s { outbound_deliveries = update_first (λ x. x.id == id) d' s.outbound_deliveries })
        (max d'.updated_at_unix now),
    d',
  )

unfoldable pub mark_outbound_delivery_delivered :
    RuntimeState → OutboundDeliveryId → ℕ → ℕ → Result Error (RuntimeState × OutboundDeliveryRecord)
unfolding update_delivery
mark_outbound_delivery_delivered s id t now =
    update_delivery s id (λ d. Outbox.mark_delivered d t) now

unfoldable pub mark_outbound_delivery_failed :
    RuntimeState
    → OutboundDeliveryId
    → ℕ
    → Text
    → ℕ
    → Result Error (RuntimeState × OutboundDeliveryRecord)
unfolding update_delivery
mark_outbound_delivery_failed s id t error now =
    update_delivery s id (λ d. Outbox.mark_failed d t error) now

unfoldable pub mark_outbound_delivery_uncertain :
    RuntimeState
    → OutboundDeliveryId
    → ℕ
    → Text
    → ℕ
    → Result Error (RuntimeState × OutboundDeliveryRecord)
unfolding update_delivery
mark_outbound_delivery_uncertain s id t error now =
    update_delivery s id (λ d. Outbox.mark_uncertain d t error) now

unfoldable pub resolve_outbound_delivery_as_delivered :
    RuntimeState → OutboundDeliveryId → ℕ → ℕ → Result Error (RuntimeState × OutboundDeliveryRecord)
unfolding update_delivery
resolve_outbound_delivery_as_delivered s id t now =
    update_delivery s id (λ d. Outbox.resolve_uncertain_as_delivered d t) now

unfoldable pub resolve_outbound_delivery_as_failed :
    RuntimeState
    → OutboundDeliveryId
    → ℕ
    → Text
    → ℕ
    → Result Error (RuntimeState × OutboundDeliveryRecord)
unfolding update_delivery
resolve_outbound_delivery_as_failed s id t reason now =
    update_delivery s id (λ d. Outbox.resolve_uncertain_as_failed d t reason) now

-- The checks of one output of a run, then those of the rest.
unfoldable pub check_outputs :
    RuntimeState
    → RunRecord
    → ℕ
    → List OutboundDeliveryId
    → List OutboundDeliveryRecord
    → Result Error (Unit {0})
unfolding validate_outbound_delivery_session
check_outputs s r finished_at_unix seen [] = ok tt
check_outputs s r finished_at_unix seen (d ∷ ds) = do
  map_err delivery_error (Outbox.validate d)
  validate_outbound_delivery_session s d
  fail_if (not (d.status == pending)) output_not_pending
  fail_if (not (d.session_id == r.session_id)) output_session
  fail_if (not (d.message.author == agent)) output_author
  fail_if (not (d.created_at_unix == finished_at_unix)) output_time
  fail_if (contains d.id seen) output_duplicate
  fail_if (is_some (outbound_delivery s d.id)) output_exists
  check_outputs s r finished_at_unix (d.id ∷ seen) ds

unfoldable pub complete_run_with_output_deliveries :
    RuntimeState
    → RunId
    → List OutboundDeliveryRecord
    → ℕ
    → ℕ
    → Result Error (RuntimeState × List OutboundDeliveryRecord)
unfolding check_outputs touch_at
complete_run_with_output_deliveries s id deliveries finished_at_unix now = do
  fail_if (is_nil deliveries) no_outputs
  r ← ok_or (run s id) unknown_run
  fail_if (not (Run.status_eq r.status running)) cannot_complete
  fail_if (ltb finished_at_unix r.updated_at_unix) completion_in_past
  check_outputs s r finished_at_unix [] deliveries
  s' ←
      update_run s id
        (λ x. Run.complete_with_output_deliveries x finished_at_unix (map (λ d. d.id) deliveries))
        (max finished_at_unix now)
  ok (record s' { outbound_deliveries = s'.outbound_deliveries ++ deliveries }, deliveries)
