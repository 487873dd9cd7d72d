-- ===== src/Store/Runs.antt =====
-- runtime/state/store/run.rs: the operations of the store on the runs of agents.
use ferris_agent_bridge.Queue.{RunInputRecord}
use ferris_agent_bridge.Ids.{OutboundDeliveryId}
use ferris_agent_bridge.Session.{SessionId}
use ferris_agent_bridge.Store.{
  Error, Env, transact, Disk, Effect, outcome_too_early, finished_elsewhere, lost_output,
  other_outputs, no_messages, other_output, not_agent_authored, not_of_session, write_state,
  confirm_file, other_outcome, state_error, delivery_error, input_session, no_input,
  start_too_early, missing_run, not_running,
}
use ferris_agent_bridge.Outbox.{has_same_enqueue_identity, OutboundDeliveryRecord}
use ferris_agent_bridge.Format.Current.{SerdeJson}
use ferris_agent_bridge.State.{
  fail_run, interrupt_run, start_run, RuntimeState, outbound_delivery, run, unknown_run, run_input,
}
use ferris_agent_bridge.State.Deliveries.{complete_run_with_output_deliveries}
use ferris_agent_bridge.Base.Text.{text_partial_eq, Text, codes}
use ferris_agent_bridge.Run.{
  pending, running, completed, interrupted, failed, cancelled, RunId, RunRecord,
}
use ferris_agent_bridge.Message.{author_partial_eq, Message, agent}
use ferris_agent_bridge.Base.{
  option_partial_eq, list_partial_eq, length, ◌/◌, ◌%◌, ℕ, zero, suc, ◌+◌, not, ◌&&◌, some, List,
  [], ◌∷◌, ◌++◌, map, Result, ok, err, ◌>>=◌, ◌>>◌, fail_if, ok_or, map_err, for_each,
  if◌then◌else◌, ltb, ◌==◌, nat_partial_eq, is_some, is_nil,
}
use ferris_agent_bridge.State
use ferris_agent_bridge.Outbox

-- The decimal digits of a number, before the text that follows it: a usize of 64 bits has 20 at most.
unfoldable pub decimal_from : ℕ → ℕ → Text → Text
decimal_from zero n rest = rest
decimal_from (suc fuel) n rest =
    let more = decimal_from fuel (n / 10) ((48 + n % 10) ∷ rest) in
    if ltb n 10 then (48 + n) ∷ rest else more

unfoldable pub output_delivery_id : RunId → ℕ → Result Error OutboundDeliveryId
unfolding decimal_from
output_delivery_id run_id index = map_err delivery_error (
    Outbox.new_delivery_id (
      codes "agent-run-output:"
      ++ decimal_from 20 (length run_id)
          (codes ":" ++ run_id ++ codes ":" ++ decimal_from 20 index [])))

-- The closure of `output_deliveries`.
unfoldable pub output_delivery :
    RunId → SessionId → ℕ → ℕ → Message → Result Error OutboundDeliveryRecord
unfolding output_delivery_id
output_delivery run_id session_id t index m = do
  fail_if (not (m.author == agent)) not_agent_authored
  fail_if (not (m.session_id == some session_id)) not_of_session
  id ← output_delivery_id run_id index
  map_err delivery_error (Outbox.new id session_id m t)

unfoldable pub output_deliveries_from :
    RunId → SessionId → ℕ → ℕ → List Message → Result Error (List OutboundDeliveryRecord)
unfolding output_delivery
output_deliveries_from run_id session_id t index [] = ok []
output_deliveries_from run_id session_id t index (m ∷ ms) = do
  d ← output_delivery run_id session_id t index m
  ds ← output_deliveries_from run_id session_id t (suc index) ms
  ok (d ∷ ds)

unfoldable pub output_deliveries :
    RunId → SessionId → List Message → ℕ → Result Error (List OutboundDeliveryRecord)
unfolding output_deliveries_from
output_deliveries run_id session_id messages t = do
  fail_if (is_nil messages) no_messages
  output_deliveries_from run_id session_id t 0 messages

-- The loop of `verify_completion_replay`.
unfoldable pub verify_outputs : RuntimeState → List OutboundDeliveryRecord → Result Error (Unit {0})
unfolding for_each has_same_enqueue_identity
verify_outputs s expected =
    for_each
      (λ x. do
        d ← ok_or (outbound_delivery s x.id) lost_output
        fail_if (not (has_same_enqueue_identity d x)) other_output)
      expected

unfoldable pub verify_completion_replay :
    RuntimeState → RunRecord → List OutboundDeliveryRecord → ℕ → Result Error (Unit {0})
unfolding verify_outputs
verify_completion_replay s r expected t = do
  fail_if (not (r.finished_at_unix == some t)) finished_elsewhere
  fail_if (not (r.output_delivery_ids == map (λ d. d.id) expected)) other_outputs
  verify_outputs s expected

unfoldable pub require_nondecreasing_outcome_time : RunRecord → ℕ → Result Error (Unit {0})
require_nondecreasing_outcome_time r t = fail_if (ltb t r.updated_at_unix) outcome_too_early

unfoldable pub decide_start :
    Env → RunId → ℕ → RuntimeState → Result Error (Effect × RunInputRecord)
unfolding start_run
decide_start e id t s = do
  r ← ok_or (run s id) (state_error unknown_run)
  i ← ok_or (run_input s id) no_input
  fail_if (not (i.session_id == r.session_id)) input_session
  fail_if (ltb t r.updated_at_unix) start_too_early
  s' ← map_err state_error (start_run s id t e.now)
  ok (write_state s', i)

-- The outputs of a completed run, looked up. `lost_output` stands for the panic of `expect`.
unfoldable pub outputs_of :
    RuntimeState → List OutboundDeliveryId → Result Error (List OutboundDeliveryRecord)
outputs_of s [] = ok []
outputs_of s (id ∷ ids) = do
  d ← ok_or (outbound_delivery s id) lost_output
  ds ← outputs_of s ids
  ok (d ∷ ds)

unfoldable pub decide_complete :
    Env
    → RunId
    → List Message
    → ℕ
    → RuntimeState
    → Result Error (Effect × List OutboundDeliveryRecord)
unfolding output_deliveries verify_completion_replay outputs_of complete_run_with_output_deliveries
decide_complete e id messages t s = do
  r ← ok_or (run s id) (state_error unknown_run)
  expected ← output_deliveries id r.session_id messages t
  elim r.status [
    | running ↦ do
      (s', outputs) ←
          map_err state_error (complete_run_with_output_deliveries s id expected t e.now)
      ok (write_state s', outputs)
    | completed ↦ do
      verify_completion_replay s r expected t
      ds ← outputs_of s r.output_delivery_ids
      ok (confirm_file, ds)
    | pending ↦ err not_running
    | interrupted ↦ err not_running
    | failed ↦ err not_running
    | cancelled ↦ err not_running
  ]

-- The state after an outcome, with the run in it. `missing_run` stands for the panic of `expect`.
unfoldable pub with_outcome :
    RunId → Result State.Error RuntimeState → Result Error (Effect × RunRecord)
with_outcome id m = do
  s' ← map_err state_error m
  r ← ok_or (run s' id) missing_run
  ok (write_state s', r)

unfoldable pub decide_fail : Env → RunId → ℕ → RuntimeState → Result Error (Effect × RunRecord)
unfolding require_nondecreasing_outcome_time with_outcome fail_run
decide_fail e id t s = do
  r ← ok_or (run s id) (state_error unknown_run)
  elim r.status [
    | running ↦ do require_nondecreasing_outcome_time r t; with_outcome id (fail_run s id t e.now)
    | failed ↦
        if is_some r.started_at_unix && r.finished_at_unix == some t
        then ok (confirm_file, r)
        else err other_outcome
    | pending ↦ err not_running
    | interrupted ↦ err not_running
    | completed ↦ err not_running
    | cancelled ↦ err not_running
  ]

unfoldable pub decide_interrupt : Env → RunId → ℕ → RuntimeState → Result Error (Effect × RunRecord)
unfolding require_nondecreasing_outcome_time with_outcome interrupt_run
decide_interrupt e id t s = do
  r ← ok_or (run s id) (state_error unknown_run)
  elim r.status [
    | running ↦ do
      require_nondecreasing_outcome_time r t
      with_outcome id (interrupt_run s id t e.now)
    | interrupted ↦
        if is_some r.started_at_unix && r.updated_at_unix == t
        then ok (confirm_file, r)
        else err other_outcome
    | pending ↦ err not_running
    | failed ↦ err not_running
    | completed ↦ err not_running
    | cancelled ↦ err not_running
  ]

module _ (J : SerdeJson) where
  unfoldable pub start_agent_run : Env → Disk J → RunId → ℕ → Disk J × Result Error RunInputRecord
  unfolding transact decide_start
  start_agent_run e disk id t = transact J e disk (decide_start e id t)

  unfoldable pub complete_agent_run :
      Env → Disk J → RunId → List Message → ℕ → Disk J × Result Error (List OutboundDeliveryRecord)
  unfolding transact decide_complete
  complete_agent_run e disk id messages t = transact J e disk (decide_complete e id messages t)

  unfoldable pub fail_agent_run : Env → Disk J → RunId → ℕ → Disk J × Result Error RunRecord
  unfolding transact decide_fail
  fail_agent_run e disk id t = transact J e disk (decide_fail e id t)

  unfoldable pub interrupt_agent_run : Env → Disk J → RunId → ℕ → Disk J × Result Error RunRecord
  unfolding transact decide_interrupt
  interrupt_agent_run e disk id t = transact J e disk (decide_interrupt e id t)
