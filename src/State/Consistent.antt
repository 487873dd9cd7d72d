-- ===== src/State/Consistent.antt =====
-- What `validate` guarantees of a state that it accepts.
use ferris_agent_bridge.Base.{
  ◌≡◌, sym, subst, [], ◌++◌, none, Result, ok, nat_partial_eq, All, Distinct, >>=-eq-ok,
  Distinct-append, All-append,
}
use ferris_agent_bridge.Base.Text.{text_partial_eq}
use ferris_agent_bridge.State.{RuntimeState, Error}
use ferris_agent_bridge.State.Inbound.{input_messages}
use ferris_agent_bridge.State.RunInvariant.{RunsOk}
use ferris_agent_bridge.State.DeliveryInvariant.{DeliveriesOk}
use ferris_agent_bridge.State.Validate.{
  check_sessions, check_runs, check_events, check_deliveries, check_owners, check_queued,
  check_inputs, nothing_owned, validate,
}
use mathlib.Core.List.{map-append}
use ferris_agent_bridge.State.ValidRuns.{
  check_runs-RunsFrom, check_deliveries-New, check_events-New, event_ids,
}
use ferris_agent_bridge.State.ValidMessages.{
  message_ids, IsRecorded, check_queued-New, check_inputs-New, claimed-Apart,
}

-- What `validate` guarantees: runs and deliveries are in order, no event is recorded twice, no
-- message is owned twice (by the queue or by the input of a run), and every message that the queue
-- or an input owns is recorded in the ledger.
pub record Consistent (s : RuntimeState) : Type 0 where
  pub runs_ok : RunsOk s.runs
  pub deliveries_ok : DeliveriesOk s.outbound_deliveries
  pub events : Distinct (event_ids s.inbound_events)
  pub owned_once : Distinct (message_ids (s.queued_messages ++ input_messages s.run_inputs))
  pub recorded : All (IsRecorded s) (s.queued_messages ++ input_messages s.run_inputs)

-- Every state that `validate` accepts is consistent.
pub validate-Consistent : (s : RuntimeState) → validate s ≡ ok tt → Consistent s
unfolding validate
validate-Consistent s h =
    let (_, sessions, h1) = >>=-eq-ok (check_sessions s.updated_at_unix [] s.sessions) _ h in
    let (owners, runs, h2) = >>=-eq-ok (check_runs s [] [] [] s.runs) _ h1 in
    let (_, events, h3) = >>=-eq-ok (check_events s.updated_at_unix [] s.inbound_events) _ h2 in
    let (_, deliveries, h4) = >>=-eq-ok (check_deliveries s [] s.outbound_deliveries) _ h3 in
    let (_, outputs, h5) = >>=-eq-ok (check_owners s owners) _ h4 in
    let (_, queued, h6) = >>=-eq-ok (check_queued s [] none [] s.queued_messages) _ h5 in
    let (o, inputs, h7) =
      >>=-eq-ok (check_inputs s (message_ids s.queued_messages) [] nothing_owned s.run_inputs) _
        h6 in
    let r = check_runs-RunsFrom s [] [] [] s.runs runs in
    let (ds, d) = check_deliveries-New s [] s.outbound_deliveries (unit_result deliveries) in
    let e = check_events-New s.updated_at_unix [] s.inbound_events (unit_result events) in
    let (q, qs) = check_queued-New s [] none [] s.queued_messages (unit_result queued) in
    let (i, is) =
      check_inputs-New s (message_ids s.queued_messages) [] nothing_owned s.run_inputs inputs in
    let (apart, recorded) =
      claimed-Apart s (message_ids s.queued_messages) (input_messages s.run_inputs) is in
    record {
      runs_ok = record { valid = r.valid; distinct = r.new.0; exclusive = r.exclusive };
      deliveries_ok = record { valid = ds; distinct = d.0 };
      events = e.0;
      owned_once =
          subst Distinct
            (sym (map-append (λ q. q.event_id) s.queued_messages (input_messages s.run_inputs)))
            (Distinct-append (message_ids s.queued_messages)
              (message_ids (input_messages s.run_inputs)) q.0 (i.0, apart));
      recorded =
          All-append (IsRecorded s) s.queued_messages (input_messages s.run_inputs) qs recorded;
    }
  where
    unit_result : {m : Result Error (Unit {0})} {u : Unit {0}} → m ≡ ok u → m ≡ ok tt
    unit_result e = e
