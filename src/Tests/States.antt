-- ===== src/Tests/States.antt =====
-- The runtime state: a run that is added, an event that comes twice, and a restart.
use ferris_agent_bridge.State.RecoveredRuns.{RunsRecovered}
use ferris_agent_bridge.Base.{
  ◌≡◌, refl, ◌∷◌, [], ok, some, none, Bool, true, false, All, List, arith,
}
use ferris_agent_bridge.Base.Text.{codes}
use ferris_agent_bridge.Event.{recorded, duplicate}
use ferris_agent_bridge.Run.{validate}
use ferris_agent_bridge.Run
use ferris_agent_bridge.Run.Valid.{run_validate_iff}
use ferris_agent_bridge.State.{RuntimeState, new, add_run, upsert_session}
use ferris_agent_bridge.State.Inbound.{record_inbound_event_at, message_record_for_event}
use ferris_agent_bridge.State.Steps.{Reachable, InOrder, initial, step, upserted, on_runs, added}
use ferris_agent_bridge.State.Invariant.{Reachable-InOrder}
use ferris_agent_bridge.State.Idempotence.{record_twice}
use ferris_agent_bridge.State.Startup.{
  reconcile_runs_at_startup, RunStartupRecoveryReport, has_run_input,
}
use ferris_agent_bridge.State.Recovery.{reconcile_settles, reconcile_twice}
use ferris_agent_bridge.Base.{◌++◌}
use ferris_agent_bridge.Run.{RunRecord}
use ferris_agent_bridge.Outbox.{OutboundDeliveryRecord}
use ferris_agent_bridge.State.{run}
use ferris_agent_bridge.State.Deliveries.{complete_run_with_output_deliveries}
use ferris_agent_bridge.State.Completion.{completes_with_outputs, completed_run, IsOutput}
use ferris_agent_bridge.Outbox
use ferris_agent_bridge.Outbox.Valid.{delivery_validate_iff}
use ferris_agent_bridge.State.Startup.{reconcile_outbound_deliveries_at_startup}
use ferris_agent_bridge.State.DeliveryRecovery.{deliveries-Reconciled, uncertain_ids, Reconciled}
use ferris_agent_bridge.Tests.Data.{begun_delivery}
use ferris_agent_bridge.Tests.Data
use ferris_agent_bridge.Tests.Data.{pending_delivery}
use ferris_agent_bridge.Tests.Data.{
  chat, chat_state, pending_run, running_run, question_event, queued_question,
}

abbrev state_with_run : RuntimeState
state_with_run = record chat_state { runs = pending_run ∷ []; updated_at_unix = 2 }

opened : upsert_session (new 0) chat 1 ≡ chat_state
unfolding upsert_session ferris_agent_bridge.Base.find new
opened = refl

pending_run-valid : validate pending_run ≡ ok tt
unfolding validate ferris_agent_bridge.Base.ensure_distinct
pending_run-valid = refl

run_added : add_run (upsert_session (new 0) chat 1) pending_run 2 ≡ ok state_with_run
unfolding add_run ferris_agent_bridge.State.session ferris_agent_bridge.Base.find upsert_session new
    ferris_agent_bridge.Base.list_eq ferris_agent_bridge.Base.any Run.is_terminal
run_added = refl

state_with_run-Reachable : Reachable 0 state_with_run
state_with_run-Reachable =
    step (step initial (upserted chat 1))
      (on_runs (added pending_run 2 pending_run-valid run_added))

Reachable-InOrder_example : InOrder state_with_run
Reachable-InOrder_example = Reachable-InOrder 0 state_with_run state_with_run-Reachable

abbrev state_with_question : RuntimeState
state_with_question = record chat_state {
  inbound_events = record { id = codes "e1"; received_at_unix = 3; recorded_at_unix = 4 } ∷ [];
  queued_messages = queued_question ∷ [];
  updated_at_unix = 4;
}

not_seen : message_record_for_event chat_state (codes "e1") ≡ none
unfolding message_record_for_event ferris_agent_bridge.Base.find
    ferris_agent_bridge.State.Inbound.claimed_message_for_event
    ferris_agent_bridge.State.Inbound.input_messages
not_seen = refl

question_recorded :
    record_inbound_event_at chat_state question_event 4 ≡ ok (state_with_question, recorded)
unfolding record_inbound_event_at ferris_agent_bridge.State.Inbound.queued_message_for_event
    ferris_agent_bridge.State.session ferris_agent_bridge.Base.find ferris_agent_bridge.Base.list_eq
    ferris_agent_bridge.Queue.from_event ferris_agent_bridge.Base.option_eq
    ferris_agent_bridge.State.Inbound.latest_enqueued
    ferris_agent_bridge.State.Inbound.session_messages ferris_agent_bridge.Base.retain
    ferris_agent_bridge.State.inbound_event ferris_agent_bridge.Event.from_event
    ferris_agent_bridge.State.touch_at ferris_agent_bridge.State.Inbound.push_queued
question_recorded = refl

record_twice_example :
    record_inbound_event_at state_with_question question_event 50
    ≡ ok (state_with_question, duplicate)
record_twice_example =
    record_twice chat_state question_event 4 50 state_with_question not_seen question_recorded

-- The bridge stopped while the run was running.
abbrev stopped : RuntimeState
stopped = record chat_state { runs = running_run ∷ []; updated_at_unix = 5 }

running_run-valid : validate running_run ≡ ok tt
unfolding validate ferris_agent_bridge.Base.ensure_distinct
running_run-valid = refl

stopped-IsValid : All Run.Valid.IsValid stopped.runs
stopped-IsValid = ((run_validate_iff running_run).0 running_run-valid, tt)

reconcile_settles_example :
    (s : RuntimeState) × (report : RunStartupRecoveryReport) × (changed : Bool)
    × (reconcile_runs_at_startup stopped 30 ≡ ok (s, report, changed))
    × RunsRecovered (has_run_input stopped) 30 stopped.runs s.runs report
reconcile_settles_example = reconcile_settles stopped 30 stopped-IsValid

abbrev restarted : RuntimeState
restarted = record stopped {
  runs = record running_run { status = Run.interrupted; updated_at_unix = 30 } ∷ [];
  updated_at_unix = 30;
}

abbrev restart_report : RunStartupRecoveryReport
restart_report = record {
  resumable_pending_run_ids = [];
  interrupted_run_ids = codes "r1" ∷ [];
  failed_run_ids = [];
}

restarts : reconcile_runs_at_startup stopped 30 ≡ ok (restarted, restart_report, true)
unfolding reconcile_runs_at_startup ferris_agent_bridge.State.Startup.run_action Run.interrupt
    ferris_agent_bridge.State.touch_at
restarts = refl

reconcile_twice_example :
    reconcile_runs_at_startup restarted 40 ≡ ok (restarted, restart_report, false)
reconcile_twice_example =
    reconcile_twice stopped 30 stopped-IsValid restarted restart_report true 40 restarts

-- The run of `stopped` completes with one output.
abbrev outputs : List OutboundDeliveryRecord
outputs = pending_delivery ∷ []

abbrev answered : RuntimeState
answered = record stopped {
  runs = Data.completed_run ∷ [];
  outbound_deliveries = outputs;
  updated_at_unix = 9;
}

answers :
    complete_run_with_output_deliveries stopped (codes "r1") outputs 9 0 ≡ ok (answered, outputs)
unfolding complete_run_with_output_deliveries run ferris_agent_bridge.State.find_run
    ferris_agent_bridge.Base.find ferris_agent_bridge.Base.list_eq
    ferris_agent_bridge.Outbox.validate ferris_agent_bridge.Base.option_eq
    ferris_agent_bridge.State.session ferris_agent_bridge.Base.contains
    ferris_agent_bridge.State.outbound_delivery ferris_agent_bridge.State.find_delivery
    ferris_agent_bridge.State.update_run Run.complete_with_output_deliveries
    ferris_agent_bridge.Base.ensure_distinct ferris_agent_bridge.Base.update_first
answers = refl

completes_with_outputs_example :
    (r : RunRecord) × (run stopped (codes "r1") ≡ some r)
    × (r.status ≡ Run.running)
    × (run answered (codes "r1") ≡ some (completed_run r 9 (codes "d1" ∷ [])))
    × (outputs ≡ [] ++ outputs)
    × All (IsOutput r 9) outputs
completes_with_outputs_example =
    completes_with_outputs stopped (codes "r1") outputs 9 0 answered outputs answers

-- The bridge stopped during an attempt.
abbrev in_flight : RuntimeState
in_flight = record chat_state { outbound_deliveries = begun_delivery ∷ []; updated_at_unix = 10 }

begun_delivery-accepted : Outbox.validate begun_delivery ≡ ok tt
unfolding Outbox.validate ferris_agent_bridge.Base.option_eq ferris_agent_bridge.Base.list_eq
begun_delivery-accepted = refl

deliveries-Reconciled_example :
    (s : RuntimeState) × (changed : Bool) × (reconcile_outbound_deliveries_at_startup in_flight 30
      ≡ ok (s, uncertain_ids s.outbound_deliveries, changed))
    × Reconciled 30 in_flight.outbound_deliveries s.outbound_deliveries
deliveries-Reconciled_example =
    deliveries-Reconciled in_flight 30
      ((delivery_validate_iff begun_delivery).0 begun_delivery-accepted, tt)
