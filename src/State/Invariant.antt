-- ===== src/State/Invariant.antt =====
-- Every state that the steps reach has its runs and its deliveries in order.
use ferris_agent_bridge.Base.{◌++◌, map, ℕ, max, ◌≡◌, refl, subst, ok, arith, inl, inr, ap, ◌∙◌}
use ferris_agent_bridge.Ids.{OutboundDeliveryId}
use ferris_agent_bridge.Session.{SessionId, Session}
use ferris_agent_bridge.Event.{Event, InboundEventRecordStatus}
use ferris_agent_bridge.Queue.{poll_where}
use ferris_agent_bridge.Run.{RunId, RunRecord}
use ferris_agent_bridge.Run
use ferris_agent_bridge.Run.Valid.{run_validate_iff}
use ferris_agent_bridge.Outbox.{OutboundDeliveryRecord}
use ferris_agent_bridge.Outbox
use ferris_agent_bridge.State.{
  RuntimeState, new, upsert_session, add_run, start_run, interrupt_run, complete_run, fail_run,
  cancel_run, update_run,
}
use ferris_agent_bridge.State.Inbound.{record_inbound_event}
use ferris_agent_bridge.State.Batches.{claim_message_batch, is_idle}
use ferris_agent_bridge.State.Deliveries.{
  update_delivery, mark_outbound_delivery_delivered, mark_outbound_delivery_failed,
  mark_outbound_delivery_uncertain, resolve_outbound_delivery_as_delivered,
  resolve_outbound_delivery_as_failed,
}
use ferris_agent_bridge.State.RunInvariant.{RunsOk, add_run-RunsOk, update_run-RunsOk}
use ferris_agent_bridge.State.DeliveryInvariant.{
  DeliveriesOk, enqueue-DeliveriesOk, claim_next-DeliveriesOk, update_delivery-DeliveriesOk,
}
use ferris_agent_bridge.Base.{inl, inr}
use ferris_agent_bridge.State.Outputs.{outputs-eq-ok, outputs-DeliveriesOk_from}
use ferris_agent_bridge.State.Steps.{
  RunStep, DeliveryStep, Step, Reachable, InOrder, on_runs, on_deliveries, upserted, event_recorded,
  initial, step,
}
use ferris_agent_bridge.State.Steps
use ferris_agent_bridge.Base.Text.{text_partial_eq}
use ferris_agent_bridge.State.Frames.{
  add_run-deliveries, update_run-deliveries, enqueue-runs, claim_next-runs, update_delivery-runs,
  claim_polled-eq-ok, record_inbound_event-keeps, upsert_session-keeps,
}

add_new_run-InOrder :
    (s : RuntimeState) (r : RunRecord) (now : ℕ) {s' : RuntimeState}
    → InOrder s
    → Run.validate r ≡ ok tt
    → add_run s r now ≡ ok s'
    → InOrder s'
add_new_run-InOrder s r now h v e = record {
  runs_ok = add_run-RunsOk s r now h.runs_ok ((run_validate_iff r).0 v) e;
  deliveries_ok = subst DeliveriesOk (add_run-deliveries s r now e) h.deliveries_ok;
}

update_run-InOrder :
    (s : RuntimeState) (id : RunId) (o : Run.Transition) (t : ℕ) {s' : RuntimeState}
    → InOrder s
    → update_run s id (Run.apply o) t ≡ ok s'
    → InOrder s'
update_run-InOrder s id o t h e = record {
  runs_ok = update_run-RunsOk s id o t h.runs_ok e;
  deliveries_ok = subst DeliveriesOk (update_run-deliveries s id (Run.apply o) t e) h.deliveries_ok;
}

update_delivery-InOrder :
    (s : RuntimeState) (id : OutboundDeliveryId) (o : Outbox.Transition) (now : ℕ)
    {s' : RuntimeState} {d : OutboundDeliveryRecord}
    → InOrder s
    → update_delivery s id (Outbox.apply o) now ≡ ok (s', d)
    → InOrder s'
update_delivery-InOrder s id o now h e = record {
  runs_ok = subst RunsOk (update_delivery-runs s id (Outbox.apply o) now e) h.runs_ok;
  deliveries_ok = update_delivery-DeliveriesOk s id o now h.deliveries_ok e;
}

new_run-valid : (id : RunId) (x : SessionId) (t : ℕ) → Run.validate (Run.new id x t) ≡ ok tt
unfolding Run.new
new_run-valid id x t = (run_validate_iff (Run.new id x t)).1 (record {
  distinct = tt;
  outputs = λ other. refl;
  ordered = ground arith;
  started = tt;
  finished = tt;
  start_first = tt;
  shape = ground arith;
})

RunStep-InOrder : (s s' : RuntimeState) → InOrder s → RunStep s s' → InOrder s'
unfolding start_run interrupt_run complete_run fail_run cancel_run claim_message_batch Run.apply
RunStep-InOrder s s' h (Steps.added r now v e) = add_new_run-InOrder s r now h v e
RunStep-InOrder s s' h (Steps.started id t now e) =
    update_run-InOrder s id (Run.start_at t) (max t now) h e
RunStep-InOrder s s' h (Steps.interrupted id t now e) =
    update_run-InOrder s id (Run.interrupt_at t) (max t now) h e
RunStep-InOrder s s' h (Steps.completed id t now e) =
    update_run-InOrder s id (Run.complete_at t) (max t now) h e
RunStep-InOrder s s' h (Steps.failed id t now e) =
    update_run-InOrder s id (Run.fail_at t) (max t now) h e
RunStep-InOrder s s' h (Steps.cancelled id t now e) =
    update_run-InOrder s id (Run.cancel_at t) (max t now) h e
RunStep-InOrder s s' h (Steps.claimed id policy t now found e) =
    elim (claim_polled-eq-ok s id (poll_where policy s.queued_messages t (is_idle s)) t now e) [
      | inl same ↦ subst InOrder same h
      | inr (x, a, done, same_runs, same_deliveries) ↦
          let k = add_new_run-InOrder s (Run.new id x t) now h (new_run-valid id x t) done in
          record {
            runs_ok = subst RunsOk same_runs k.runs_ok;
            deliveries_ok = subst DeliveriesOk same_deliveries k.deliveries_ok;
          }
    ]
RunStep-InOrder s s' h (Steps.completed_with id ds t now out e) =
    let (r, a, found, active, late, checks, done, same_runs, appended) =
      outputs-eq-ok s id ds t now e in
    let o = Run.complete_with t (map (λ d. d.id) ds) in
    let kept = update_run-deliveries s id (Run.apply o) (max t now) done in
    record {
      runs_ok = subst RunsOk same_runs (update_run-RunsOk s id o (max t now) h.runs_ok done);
      deliveries_ok =
          subst DeliveriesOk (ap (λ x. x ++ ds) kept ∙ appended)
            (outputs-DeliveriesOk_from s r t ds h.deliveries_ok checks);
    }

DeliveryStep-InOrder : (s s' : RuntimeState) → InOrder s → DeliveryStep s s' → InOrder s'
unfolding mark_outbound_delivery_delivered mark_outbound_delivery_failed
    mark_outbound_delivery_uncertain resolve_outbound_delivery_as_delivered
    resolve_outbound_delivery_as_failed Outbox.apply
DeliveryStep-InOrder s s' h (Steps.enqueued d now status e) = record {
  runs_ok = subst RunsOk (enqueue-runs s d now e) h.runs_ok;
  deliveries_ok = enqueue-DeliveriesOk s d now h.deliveries_ok e;
}
DeliveryStep-InOrder s s' h (Steps.begun t eligible now d e) = record {
  runs_ok = subst RunsOk (claim_next-runs s t eligible now e) h.runs_ok;
  deliveries_ok = claim_next-DeliveriesOk s t eligible now h.deliveries_ok e;
}
DeliveryStep-InOrder s s' h (Steps.delivered id t now d e) =
    update_delivery-InOrder s id (Outbox.delivered_at t) now h e
DeliveryStep-InOrder s s' h (Steps.failed id t error now d e) =
    update_delivery-InOrder s id (Outbox.failed_at t error) now h e
DeliveryStep-InOrder s s' h (Steps.uncertain id t error now d e) =
    update_delivery-InOrder s id (Outbox.uncertain_at t error) now h e
DeliveryStep-InOrder s s' h (Steps.resolved_delivered id t now d e) =
    update_delivery-InOrder s id (Outbox.resolve_delivered_at t) now h e
DeliveryStep-InOrder s s' h (Steps.resolved_failed id t reason now d e) =
    update_delivery-InOrder s id (Outbox.resolve_failed_at t reason) now h e

record_inbound_event-InOrder :
    (s : RuntimeState) (e : Event) (now : ℕ) {s' : RuntimeState} {status : InboundEventRecordStatus}
    → InOrder s
    → record_inbound_event s e now ≡ ok (s', status)
    → InOrder s'
record_inbound_event-InOrder s e now h k =
    let (same_runs, same_deliveries) = record_inbound_event-keeps s e now k in
    record {
      runs_ok = subst RunsOk same_runs h.runs_ok;
      deliveries_ok = subst DeliveriesOk same_deliveries h.deliveries_ok;
    }

upsert_session-InOrder :
    (s : RuntimeState) (x : Session) (now : ℕ) → InOrder s → InOrder (upsert_session s x now)
upsert_session-InOrder s x now h =
    let (same_runs, same_deliveries) = upsert_session-keeps s x now in
    record {
      runs_ok = subst RunsOk same_runs h.runs_ok;
      deliveries_ok = subst DeliveriesOk same_deliveries h.deliveries_ok;
    }

Step-InOrder : (s s' : RuntimeState) → InOrder s → Step s s' → InOrder s'
Step-InOrder s s' h (on_runs k) = RunStep-InOrder s s' h k
Step-InOrder s s' h (on_deliveries k) = DeliveryStep-InOrder s s' h k
Step-InOrder s s' h (upserted x now) = upsert_session-InOrder s x now h
Step-InOrder s s' h (event_recorded e now status k) = record_inbound_event-InOrder s e now h k

-- In every state that operations which succeed reach from a new state, where each run that is added
-- passes its validation, every run and every delivery is valid, no two runs and no two deliveries
-- have one id, and no session has two runs that are not terminal.
pub Reachable-InOrder : (created : ℕ) (s : RuntimeState) → Reachable created s → InOrder s
unfolding new
Reachable-InOrder created s initial = record {
  runs_ok = record { valid = tt; distinct = tt; exclusive = tt };
  deliveries_ok = record { valid = tt; distinct = tt };
}
Reachable-InOrder created s (step {s = before} r k) =
    Step-InOrder before s (Reachable-InOrder created before r) k
