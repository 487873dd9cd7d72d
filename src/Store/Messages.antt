-- ===== src/Store/Messages.antt =====
-- runtime/state/store/inbound.rs, queue.rs and recovery.rs: the operations of the store on inbound
-- events and the message queue, and the recovery of runs at startup.
use ferris_agent_bridge.State.Startup.{RunStartupRecoveryReport}
use ferris_agent_bridge.Queue.{
  MessageQueuePolicy, MessageQueuePoll, MessageBatchClaimOutcome, claimed, claim_waiting,
}
use ferris_agent_bridge.Run.{RunId}
use ferris_agent_bridge.Event.{Event, InboundEventRecordStatus, recorded, duplicate}
use ferris_agent_bridge.State.Inbound.{record_inbound_event}
use ferris_agent_bridge.Store.{
  load, transact, Env, Disk, Error, state_error, write_state, confirm_file, leave, save_state,
}
use ferris_agent_bridge.Format.Current.{SerdeJson}
use ferris_agent_bridge.Base.Text.{text_partial_eq}
use ferris_agent_bridge.Base.{ℕ, Result, ok, ◌>>=◌, map_err, if◌then◌else◌, nat_partial_eq}
use ferris_agent_bridge.State
use ferris_agent_bridge.State.Batches
use ferris_agent_bridge.State.Startup

module _ (J : SerdeJson) where
  unfoldable pub persist_inbound_event :
      Env → Disk J → Event → Disk J × Result Error InboundEventRecordStatus
  unfolding transact record_inbound_event
  persist_inbound_event e disk event = transact J e disk (λ s. do
    (s', status) ← map_err state_error (record_inbound_event s event e.now)
    ok (elim status [ recorded ↦ save_state s' | duplicate ↦ leave ], status))

  unfoldable pub poll_message_queue :
      Env → Disk J → MessageQueuePolicy → ℕ → Result Error MessageQueuePoll
  unfolding load State.poll_message_queue
  poll_message_queue e disk policy now_unix = do
    s ← load J e disk
    ok (State.poll_message_queue s policy now_unix)

  unfoldable pub claim_message_batch :
      Env → Disk J → RunId → MessageQueuePolicy → ℕ → Disk J × Result Error MessageBatchClaimOutcome
  unfolding transact State.Batches.claim_message_batch
  claim_message_batch e disk run_id policy now_unix = transact J e disk (λ s. do
    (s', outcome) ←
        map_err state_error (State.Batches.claim_message_batch s run_id policy now_unix e.now)
    ok (elim outcome [ claimed r input ↦ write_state s' | claim_waiting t ↦ leave ], outcome))

  unfoldable pub reconcile_runs_at_startup :
      Env → Disk J → ℕ → Disk J × Result Error RunStartupRecoveryReport
  unfolding transact State.Startup.reconcile_runs_at_startup
  reconcile_runs_at_startup e disk t = transact J e disk (λ s. do
    (s', report, changed) ← map_err state_error (State.Startup.reconcile_runs_at_startup s t)
    ok (if changed then write_state s' else confirm_file, report))
