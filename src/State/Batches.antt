-- ===== src/State/Batches.antt =====
-- `claim_message_batch` of runtime/state/model.rs: a batch of the queue becomes the input of a run.
use ferris_agent_bridge.Base.{
  ℕ, Bool, true, false, not, List, [], ◌∷◌, ◌++◌, map, Result, ok, ◌>>=◌, map_err, contains, retain,
}
use ferris_agent_bridge.Base.Text.{text_partial_eq}
use ferris_agent_bridge.Session.{SessionId}
use ferris_agent_bridge.Queue.{
  MessageBatch, MessageQueuePolicy, MessageQueuePoll, ready, waiting, MessageBatchClaimOutcome,
  claimed, claim_waiting, poll_where, from_batch,
}
use ferris_agent_bridge.Run.{RunId, RunRecord, is_terminal}
use ferris_agent_bridge.Run
use ferris_agent_bridge.State.{RuntimeState, Error, queue_error, touch_at, add_run}

-- The sessions that have a run which is not terminal.
unfoldable pub active_sessions : List RunRecord → List SessionId
active_sessions [] = []
active_sessions (r ∷ rs) =
    let rest = active_sessions rs in
    elim (is_terminal r) [ true ↦ rest | false ↦ r.session_id ∷ rest ]

-- `!active_sessions.contains(session_id)`
unfoldable pub is_idle : RuntimeState → SessionId → Bool
unfolding active_sessions
is_idle s id = not (contains id (active_sessions s.runs))

unfoldable pub claim_batch :
    RuntimeState
    → RunId
    → MessageBatch
    → ℕ
    → ℕ
    → Result Error (RuntimeState × MessageBatchClaimOutcome)
unfolding touch_at
claim_batch s run_id batch now_unix now = do
  let r = Run.new run_id batch.session_id now_unix
  input ← map_err queue_error (from_batch run_id batch now_unix)
  let claimed_event_ids = map (λ q. q.event_id) input.messages
  s' ← add_run s r now
  let queue = retain (λ q. not (contains q.event_id claimed_event_ids)) s'.queued_messages
  ok (
    touch_at (record s' { queued_messages = queue; run_inputs = s'.run_inputs ++ input ∷ [] })
        input.claimed_at_unix,
    claimed r input,
  )

-- The `match` on what the queue has.
unfoldable pub claim_polled :
    RuntimeState
    → RunId
    → MessageQueuePoll
    → ℕ
    → ℕ
    → Result Error (RuntimeState × MessageBatchClaimOutcome)
unfolding claim_batch
claim_polled s run_id (ready batch) now_unix now = claim_batch s run_id batch now_unix now
claim_polled s run_id (waiting next) now_unix now = ok (s, claim_waiting next)

unfoldable pub claim_message_batch :
    RuntimeState
    → RunId
    → MessageQueuePolicy
    → ℕ
    → ℕ
    → Result Error (RuntimeState × MessageBatchClaimOutcome)
unfolding claim_polled is_idle
claim_message_batch s run_id policy now_unix now =
    claim_polled s run_id (poll_where policy s.queued_messages now_unix (is_idle s)) now_unix now
