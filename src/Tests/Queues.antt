-- ===== src/Tests/Queues.antt =====
-- Polls of a queue with messages of two sessions.
use ferris_agent_bridge.Base.{
  ℕ, ◌≡◌, ◌≢◌, ◌≤◌, ◌<◌, ◌⊎◌, refl, ◌∷◌, [], true, false, some, is_nil, Ordering, arith,
}
use ferris_agent_bridge.Base.Text.{text_compare}
use ferris_agent_bridge.Session.{SessionId}
use ferris_agent_bridge.Queue.{poll_where, ready, waiting}
use ferris_agent_bridge.Queue.Grouping.{messages_of}
use ferris_agent_bridge.Queue.Poll.{
  BatchOf, ready_time, poll-BatchOf, poll_is_earliest, poll_waits, poll_wakes,
}
use ferris_agent_bridge.Tests.Data.{
  queue, queue_policy, every_session, first_batch, session_id, other_session_id,
}

-- At 10 both sessions are ready, and the first became ready at 6.
polled : poll_where queue_policy queue 10 every_session ≡ ready first_batch
unfolding poll_where ferris_agent_bridge.Queue.min_by ferris_agent_bridge.Queue.scan
    ferris_agent_bridge.Queue.group_by_session ferris_agent_bridge.Queue.entry_push
    ferris_agent_bridge.Base.list_eq ferris_agent_bridge.Queue.group_ready_at
    ferris_agent_bridge.Outbox.Retry.saturating_add ferris_agent_bridge.Queue.last_enqueued
    ferris_agent_bridge.Queue.earliest ferris_agent_bridge.Queue.before
polled = refl

poll-BatchOf_example : BatchOf queue_policy queue 10 every_session first_batch
poll-BatchOf_example = poll-BatchOf queue_policy queue 10 every_session first_batch polled

others_queued : is_nil (messages_of other_session_id queue) ≡ false
unfolding messages_of ferris_agent_bridge.Base.retain ferris_agent_bridge.Base.list_eq
others_queued = refl

other_time : ready_time queue_policy other_session_id queue ≡ 8
unfolding messages_of ferris_agent_bridge.Queue.group_ready_at ferris_agent_bridge.Base.retain
    ferris_agent_bridge.Base.list_eq ferris_agent_bridge.Outbox.Retry.saturating_add
    ferris_agent_bridge.Queue.last_enqueued
other_time = refl

other_ready : ready_time queue_policy other_session_id queue ≤ 10
other_ready = rw other_time (omega arith)

poll_is_earliest_example :
    (6 < ready_time queue_policy other_session_id queue)
    ⊎ ((6 ≡ ready_time queue_policy other_session_id queue)
        × (text_compare other_session_id session_id ≢ Ordering.lt))
poll_is_earliest_example =
    poll_is_earliest queue_policy queue 10 every_session first_batch other_session_id polled refl
      others_queued other_ready

-- At 5 none is ready, and the first becomes ready at 6.
waits : poll_where queue_policy queue 5 every_session ≡ waiting (some 6)
unfolding poll_where ferris_agent_bridge.Queue.min_by ferris_agent_bridge.Queue.scan
    ferris_agent_bridge.Queue.group_by_session ferris_agent_bridge.Queue.entry_push
    ferris_agent_bridge.Base.list_eq ferris_agent_bridge.Queue.group_ready_at
    ferris_agent_bridge.Outbox.Retry.saturating_add ferris_agent_bridge.Queue.last_enqueued
waits = refl

poll_waits_example :
    (5 < ready_time queue_policy other_session_id queue)
    × (t : ℕ) × (some 6 ≡ some t)
    × (t ≤ ready_time queue_policy other_session_id queue)
poll_waits_example =
    poll_waits queue_policy queue 5 every_session (some 6) other_session_id waits refl others_queued

poll_wakes_example :
    (s : SessionId) × (every_session s ≡ true)
    × (is_nil (messages_of s queue) ≡ false)
    × (ready_time queue_policy s queue ≡ 6)
poll_wakes_example = poll_wakes queue_policy queue 5 every_session 6 waits
