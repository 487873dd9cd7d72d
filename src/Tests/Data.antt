-- ===== src/Tests/Data.antt =====
-- The records of a small bridge: one chat session, its runs, its messages and its deliveries.
use ferris_agent_bridge.Base.{List, [], ◌∷◌, none, some, Bool, true}
use ferris_agent_bridge.Base.Text.{codes}
use ferris_agent_bridge.Session.{SessionScope, SessionId, Session}
use ferris_agent_bridge.Message.{Message, user, agent, text}
use ferris_agent_bridge.Event.{Event, message_received}
use ferris_agent_bridge.Event
use ferris_agent_bridge.Run.{RunRecord, RunId}
use ferris_agent_bridge.Run
use ferris_agent_bridge.Outbox.{OutboundDeliveryRecord, OutboundDeliveryStatus}
use ferris_agent_bridge.Outbox
use ferris_agent_bridge.Outbox.Retry.{OutboundRetryPolicy}
use ferris_agent_bridge.Queue.{QueuedMessage, MessageQueuePolicy, MessageBatch}
use ferris_agent_bridge.State.{RuntimeState}

abbrev pub session_id : SessionId
session_id = codes "s1"

abbrev pub other_session_id : SessionId
other_session_id = codes "s2"

abbrev pub chat_scope : SessionScope
chat_scope = record { platform = codes "chat"; scope = codes "room_1" }

abbrev pub chat : Session
chat = record { id = session_id; scope = chat_scope; created_at_unix = 1; updated_at_unix = 1 }

abbrev pub pending_run : RunRecord
pending_run = record {
  id = codes "r1";
  session_id = session_id;
  status = Run.pending;
  created_at_unix = 2;
  updated_at_unix = 2;
  started_at_unix = none;
  finished_at_unix = none;
  output_delivery_ids = [];
}

abbrev pub running_run : RunRecord
running_run = record pending_run {
  status = Run.running;
  updated_at_unix = 5;
  started_at_unix = some 5;
}

abbrev pub completed_run : RunRecord
completed_run = record running_run {
  status = Run.completed;
  updated_at_unix = 9;
  finished_at_unix = some 9;
  output_delivery_ids = codes "d1" ∷ [];
}

abbrev pub answer : Message
answer = record {
  id = codes "m9";
  session_id = some session_id;
  author = agent;
  content = text (codes "hello");
  created_at_unix = 9;
}

abbrev pub pending_delivery : OutboundDeliveryRecord
pending_delivery = record {
  id = codes "d1";
  session_id = session_id;
  message = answer;
  status = Outbox.pending;
  created_at_unix = 9;
  updated_at_unix = 9;
  delivery_attempts = 0;
  delivered_at_unix = none;
  last_error = none;
}

abbrev pub begun_delivery : OutboundDeliveryRecord
begun_delivery = record pending_delivery {
  status = Outbox.delivering;
  updated_at_unix = 10;
  delivery_attempts = 1;
}

abbrev pub failed_delivery : OutboundDeliveryRecord
failed_delivery = record begun_delivery {
  status = Outbox.failed;
  updated_at_unix = 12;
  last_error = some (codes "timeout");
}

abbrev pub uncertain_delivery : OutboundDeliveryRecord
uncertain_delivery = record begun_delivery {
  status = Outbox.uncertain;
  updated_at_unix = 12;
  last_error = some (codes "lost");
}

abbrev pub done_delivery : OutboundDeliveryRecord
done_delivery = record begun_delivery {
  status = Outbox.delivered;
  updated_at_unix = 20;
  delivery_attempts = 2;
  delivered_at_unix = some 20;
}

abbrev pub retry_policy : OutboundRetryPolicy
retry_policy = record { max_attempts = 5; initial_retry_delay_secs = 3; max_retry_delay_secs = 20 }

abbrev pub question : Message
question = record {
  id = codes "m1";
  session_id = some session_id;
  author = user;
  content = text (codes "hi");
  created_at_unix = 3;
}

abbrev pub question_event : Event
question_event = record {
  id = codes "e1";
  source = Event.platform;
  kind = message_received question;
  received_at_unix = 3;
}

abbrev pub queued_question : QueuedMessage
queued_question = record {
  event_id = codes "e1";
  session_id = session_id;
  message = question;
  received_at_unix = 3;
  enqueued_at_unix = 4;
}

abbrev pub later_question : QueuedMessage
later_question = record {
  event_id = codes "e2";
  session_id = other_session_id;
  message = record question { session_id = some other_session_id };
  received_at_unix = 6;
  enqueued_at_unix = 6;
}

abbrev pub queue : List QueuedMessage
queue = queued_question ∷ later_question ∷ []

abbrev pub queue_policy : MessageQueuePolicy
queue_policy = record { debounce_secs = 2; max_batch_size = 4 }

abbrev pub every_session : SessionId → Bool
every_session id = true

abbrev pub first_batch : MessageBatch
first_batch = record { session_id = session_id; messages = queued_question ∷ []; ready_at_unix = 6 }

abbrev pub empty_state : RuntimeState
empty_state = record {
  sessions = [];
  runs = [];
  run_inputs = [];
  inbound_events = [];
  queued_messages = [];
  outbound_deliveries = [];
  updated_at_unix = 0;
}

abbrev pub chat_state : RuntimeState
chat_state = record empty_state { sessions = chat ∷ []; updated_at_unix = 1 }
