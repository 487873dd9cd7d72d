-- ===== src/Store/Deliveries.antt =====
-- runtime/state/store/outbound.rs, outbound_resolution.rs, outbound_recovery.rs: the operations of the
-- store on outbound deliveries. The test-only `claim_next_outbound_delivery` is left out.
use ferris_agent_bridge.Outbox.Retry.{is_due, OutboundRetryPolicy}
use ferris_agent_bridge.Ids.{OutboundDeliveryId, is_blank}
use ferris_agent_bridge.State.{
  RuntimeState, outbound_delivery, session, unknown_delivery, unknown_session,
}
use ferris_agent_bridge.State.Deliveries.{
  claim_next_outbound_delivery_where, OutboundDeliveryEnqueueStatus, queued, already_queued,
}
use ferris_agent_bridge.Store.{
  Env, Disk, transact, Error, Effect, leave, write_state, confirm_file, cannot_resolve, state_error,
  delivery_error, resolution_empty, other_resolution, save_state,
}
use ferris_agent_bridge.Format.Current.{SerdeJson}
use ferris_agent_bridge.Base.Text.{text_partial_eq, Text}
use ferris_agent_bridge.Outbox.{
  pending, delivering, delivered, failed, uncertain, OutboundDeliveryRecord, attempt_from_record,
  OutboundDeliveryAttempt,
}
use ferris_agent_bridge.Base.{
  option_partial_eq, ℕ, ◌&&◌, Option, none, some, List, Result, ok, err, ◌>>=◌, ok_or, map_err,
  if◌then◌else◌, ◌==◌, nat_partial_eq,
}
use ferris_agent_bridge.State
use ferris_agent_bridge.State.Deliveries
use ferris_agent_bridge.State.Startup

-- What `claim_next_outbound_delivery_attempt` decides on the state.
unfoldable pub decide_claim :
    Env
    → ℕ
    → OutboundRetryPolicy
    → RuntimeState
    → Result Error (Effect × Option OutboundDeliveryAttempt)
unfolding claim_next_outbound_delivery_where is_due attempt_from_record
decide_claim e t retry_policy s = do
  (s', found) ←
      map_err state_error
        (claim_next_outbound_delivery_where s t (λ d. is_due retry_policy d t) e.now)
  elim found [
    | none ↦ ok (leave, none)
    | some d ↦ do
      x ← ok_or (session s' d.session_id) (state_error unknown_session)
      attempt ← map_err delivery_error (attempt_from_record d x.scope)
      ok (write_state s', some attempt)
  ]

-- A resolution that is written.
unfoldable pub resolved :
    Result State.Error (RuntimeState × OutboundDeliveryRecord)
    → Result Error (Effect × OutboundDeliveryRecord)
resolved m = do (s', d) ← map_err state_error m; ok (write_state s', d)

unfoldable pub decide_delivered :
    Env → OutboundDeliveryId → ℕ → RuntimeState → Result Error (Effect × OutboundDeliveryRecord)
unfolding resolved State.Deliveries.resolve_outbound_delivery_as_delivered
decide_delivered e id t s = do
  d ← ok_or (outbound_delivery s id) (state_error unknown_delivery)
  elim d.status [
    | uncertain ↦ resolved (State.Deliveries.resolve_outbound_delivery_as_delivered s id t e.now)
    | delivered ↦
        if d.delivered_at_unix == some t then ok (confirm_file, d) else err other_resolution
    | pending ↦ err cannot_resolve
    | delivering ↦ err cannot_resolve
    | failed ↦ err cannot_resolve
  ]

unfoldable pub decide_failed :
    Env
    → OutboundDeliveryId
    → ℕ
    → Text
    → RuntimeState
    → Result Error (Effect × OutboundDeliveryRecord)
unfolding resolved State.Deliveries.resolve_outbound_delivery_as_failed
decide_failed e id t reason s = do
  d ← ok_or (outbound_delivery s id) (state_error unknown_delivery)
  elim d.status [
    | uncertain ↦
        resolved (State.Deliveries.resolve_outbound_delivery_as_failed s id t reason e.now)
    | failed ↦
        if is_blank reason
        then err resolution_empty
        else if d.updated_at_unix == t && d.last_error == some reason
        then ok (confirm_file, d)
        else err other_resolution
    | pending ↦ err cannot_resolve
    | delivering ↦ err cannot_resolve
    | delivered ↦ err cannot_resolve
  ]

module _ (J : SerdeJson) where
  unfoldable pub enqueue_outbound_delivery :
      Env → Disk J → OutboundDeliveryRecord → Disk J × Result Error OutboundDeliveryEnqueueStatus
  unfolding transact State.Deliveries.enqueue_outbound_delivery
  enqueue_outbound_delivery e disk d = transact J e disk (λ s. do
    (s', status) ← map_err state_error (State.Deliveries.enqueue_outbound_delivery s d e.now)
    ok (elim status [ queued ↦ save_state s' | already_queued ↦ leave ], status))

  unfoldable pub claim_next_outbound_delivery_attempt :
      Env
      → Disk J
      → ℕ
      → OutboundRetryPolicy
      → Disk J × Result Error (Option OutboundDeliveryAttempt)
  unfolding transact decide_claim
  claim_next_outbound_delivery_attempt e disk started_at_unix retry_policy =
      transact J e disk (decide_claim e started_at_unix retry_policy)

  -- A mark of a delivery that is written at once.
  unfoldable pub write_marked :
      Env
      → Disk J
      → (RuntimeState → Result State.Error (RuntimeState × OutboundDeliveryRecord))
      → Disk J × Result Error OutboundDeliveryRecord
  unfolding transact
  write_marked e disk mark =
      transact J e disk (λ s. do (s', d) ← map_err state_error (mark s); ok (write_state s', d))

  unfoldable pub mark_outbound_delivery_delivered :
      Env → Disk J → OutboundDeliveryId → ℕ → Disk J × Result Error OutboundDeliveryRecord
  unfolding write_marked
  mark_outbound_delivery_delivered e disk id t =
      write_marked e disk (λ s. State.Deliveries.mark_outbound_delivery_delivered s id t e.now)

  unfoldable pub mark_outbound_delivery_failed :
      Env → Disk J → OutboundDeliveryId → ℕ → Text → Disk J × Result Error OutboundDeliveryRecord
  unfolding write_marked
  mark_outbound_delivery_failed e disk id t error =
      write_marked e disk (λ s. State.Deliveries.mark_outbound_delivery_failed s id t error e.now)

  unfoldable pub mark_outbound_delivery_uncertain :
      Env → Disk J → OutboundDeliveryId → ℕ → Text → Disk J × Result Error OutboundDeliveryRecord
  unfolding write_marked
  mark_outbound_delivery_uncertain e disk id t error =
      write_marked e disk
        (λ s. State.Deliveries.mark_outbound_delivery_uncertain s id t error e.now)

  unfoldable pub resolve_outbound_delivery_as_delivered :
      Env → Disk J → OutboundDeliveryId → ℕ → Disk J × Result Error OutboundDeliveryRecord
  unfolding transact decide_delivered
  resolve_outbound_delivery_as_delivered e disk id t = transact J e disk (decide_delivered e id t)

  unfoldable pub resolve_outbound_delivery_as_failed :
      Env → Disk J → OutboundDeliveryId → ℕ → Text → Disk J × Result Error OutboundDeliveryRecord
  unfolding transact decide_failed
  resolve_outbound_delivery_as_failed e disk id t reason =
      transact J e disk (decide_failed e id t reason)

  unfoldable pub reconcile_outbound_deliveries_at_startup :
      Env → Disk J → ℕ → Disk J × Result Error (List OutboundDeliveryId)
  unfolding transact State.Startup.reconcile_outbound_deliveries_at_startup
  reconcile_outbound_deliveries_at_startup e disk t = transact J e disk (λ s. do
    (s', report, changed) ←
        map_err state_error (State.Startup.reconcile_outbound_deliveries_at_startup s t)
    ok (if changed then write_state s' else confirm_file, report))
