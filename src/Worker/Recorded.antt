-- ===== src/Worker/Recorded.antt =====
-- The answer of the adapter, as a mark of the delivery in the state file, for runtime/outbox/worker.rs.
use ferris_agent_bridge.Adapter
use ferris_agent_bridge.Adapter.{ImAdapter, OutboundDeliveryFailure}
use ferris_agent_bridge.Worker
use ferris_agent_bridge.Worker.{finish, marked, Round, finished, OutboxWorkerOutcome}
use ferris_agent_bridge.Outbox
use ferris_agent_bridge.Outbox.{
  OutboundDeliveryAttempt, OutboundDeliveryRecord, OutboundDeliveryStatus, Transition,
}
use ferris_agent_bridge.Outbox.Answers.{mark_delivered-eq-ok, mark_unsuccessful-eq-ok}
use ferris_agent_bridge.Outbox.Retry.{OutboundRetryPolicy, next_attempt_at_unix}
use ferris_agent_bridge.Ids.{OutboundDeliveryId}
use ferris_agent_bridge.State
use ferris_agent_bridge.State.{RuntimeState, outbound_delivery, find_delivery, touch_at}
use ferris_agent_bridge.State.Deliveries.{update_delivery}
use ferris_agent_bridge.State.DeliveryInvariant.{update_delivery-eq-ok}
use ferris_agent_bridge.State.Validate.{validate}
use ferris_agent_bridge.Store.{Disk, Env, load}
use ferris_agent_bridge.Store.Marks.{IsMarked}
use ferris_agent_bridge.Format.Current.{SerdeJson, state_file_from_state}
use ferris_agent_bridge.Base.Text.{text_partial_eq, Text}
use ferris_agent_bridge.Base.{
  ℕ, max, ◌≡◌, sym, ap, ◌∙◌, none, some, Result, ok, err, ◌==◌, update_first, find, true,
  find-update_first, find-test,
}

abbrev pub Answer : Type 0
Answer = Result OutboundDeliveryFailure (Unit {0})

abbrev failed_status : Adapter.OutboundDeliveryFailureKind → OutboundDeliveryStatus
failed_status Adapter.retryable = Outbox.failed
failed_status Adapter.uncertain = Outbox.uncertain

-- The delivery with the answer: delivered at `t`, or failed or uncertain with the message of the adapter.
abbrev pub answered : ℕ → Answer → OutboundDeliveryRecord → OutboundDeliveryRecord
answered t (ok u) d = record d {
  status = Outbox.delivered;
  updated_at_unix = t;
  delivered_at_unix = some t;
  last_error = none;
}
answered t (err failure) d = record d {
  status = failed_status failure.kind;
  updated_at_unix = t;
  delivered_at_unix = none;
  last_error = some failure.message;
}

-- What a round returns for a delivery with the answer.
abbrev pub outcome_of :
    OutboundRetryPolicy
    → OutboundDeliveryAttempt
    → Answer
    → OutboundDeliveryRecord
    → OutboxWorkerOutcome
outcome_of policy a (ok u) d = Worker.delivered a.delivery_id a.attempt_number
outcome_of policy a (err failure) d = elim failure.kind [
  | Adapter.retryable ↦
      Worker.failed a.delivery_id a.attempt_number failure.message (next_attempt_at_unix policy d)
  | Adapter.uncertain ↦ Worker.uncertain a.delivery_id a.attempt_number failure.message
]

abbrev failed_transition : ℕ → Adapter.OutboundDeliveryFailureKind → Text → Transition
failed_transition t Adapter.retryable message = Outbox.failed_at t message
failed_transition t Adapter.uncertain message = Outbox.uncertain_at t message

abbrev pub transition_of : ℕ → Answer → Transition
transition_of t (ok u) = Outbox.delivered_at t
transition_of t (err failure) = failed_transition t failure.kind failure.message

-- What a delivery is where the transition succeeds, and how it is left.
transition_of-answered :
    (t : ℕ) (answer : Answer) (d : OutboundDeliveryRecord) {d' : OutboundDeliveryRecord}
    → Outbox.apply (transition_of t answer) d ≡ ok d'
    → (d.status ≡ Outbox.delivering) × (d' ≡ answered t answer d)
unfolding Outbox.apply Outbox.mark_failed Outbox.mark_uncertain
transition_of-answered t (ok u) d h = mark_delivered-eq-ok d t h
transition_of-answered t (err failure) d {d'} h = by_kind failure.kind h
  where
    by_kind :
        (kind : Adapter.OutboundDeliveryFailureKind)
        → Outbox.apply (failed_transition t kind failure.message) d ≡ ok d'
        → (d.status ≡ Outbox.delivering)
          × (d' ≡ record d {
            status = failed_status kind;
            updated_at_unix = t;
            delivered_at_unix = none;
            last_error = some failure.message;
          })
    by_kind Adapter.retryable k = mark_unsuccessful-eq-ok d Outbox.failed t failure.message k
    by_kind Adapter.uncertain k = mark_unsuccessful-eq-ok d Outbox.uncertain t failure.message k

-- The mark of the answer on a state.
abbrev pub marks :
    Env
    → OutboundDeliveryId
    → ℕ
    → Answer
    → RuntimeState
    → Result State.Error (RuntimeState × OutboundDeliveryRecord)
marks e id t answer s = update_delivery s id (Outbox.apply (transition_of t answer)) e.now

-- The answer is in the state file `left`: a valid state, which is the one that is loaded from `disk`
-- with the answer on the delivery, which was under way, and another update time.
pub record IsRecorded (J : SerdeJson) (e : Env) (disk left : Disk J) (id : OutboundDeliveryId)
    (t : ℕ) (answer : Answer) : Type 0 where
  pub loaded : RuntimeState
  pub loads : load J e disk ≡ ok loaded
  pub before : OutboundDeliveryRecord
  pub found_before : outbound_delivery loaded id ≡ some before
  pub under_way : before.status ≡ Outbox.delivering
  pub state : RuntimeState
  pub valid : validate state ≡ ok tt
  pub written : left ≡ some (state_file_from_state J state)
  pub found : outbound_delivery state id ≡ some (answered t answer before)
  pub others : state ≡ record loaded {
    outbound_deliveries =
        update_first (λ d. d.id == id) (answered t answer before) loaded.outbound_deliveries;
    updated_at_unix = state.updated_at_unix;
  }

pub marked-IsRecorded :
    (J : SerdeJson) (e : Env) (disk left : Disk J) (id : OutboundDeliveryId) (t : ℕ)
    (answer : Answer) (k : IsMarked J e disk (marks e id t answer) left)
    → (r : IsRecorded J e disk left id t answer) × (k.delivery ≡ answered t answer r.before)
unfolding outbound_delivery find_delivery touch_at
marked-IsRecorded J e disk left id t answer k =
    let (d, found, done, end) =
      update_delivery-eq-ok k.loaded id (Outbox.apply (transition_of t answer)) e.now k.marks in
    let (under_way, same) = transition_of-answered t answer d done in
    let replaced : k.state.outbound_deliveries
        ≡ update_first (λ x. x.id == id) (answered t answer d) k.loaded.outbound_deliveries =
      ap (λ x. x.outbound_deliveries) end
      ∙ ap (λ v. update_first (λ x. x.id == id) v k.loaded.outbound_deliveries) same in
    let here : (d.id == id) ≡ true =
      find-test (λ x. x.id == id) k.loaded.outbound_deliveries d found in
    (
      record {
        loaded = k.loaded;
        loads = k.loads;
        before = d;
        found_before = found;
        under_way = under_way;
        state = k.state;
        valid = k.valid;
        written = k.written;
        found =
            ap (λ l. find (λ x. x.id == id) l) replaced
            ∙ find-update_first (λ x. x.id == id) (answered t answer d) k.loaded.outbound_deliveries
                d found (same_id d here);
        others =
            end
            ∙ ap
                (λ v.
                  touch_at
                    (record k.loaded {
                      outbound_deliveries =
                          update_first (λ x. x.id == id) v k.loaded.outbound_deliveries;
                    })
                    (max k.delivery.updated_at_unix e.now))
                same
            ∙ ap
                (λ u. record k.loaded {
                  outbound_deliveries =
                      update_first (λ x. x.id == id) (answered t answer d)
                        k.loaded.outbound_deliveries;
                  updated_at_unix = u;
                })
                (sym (ap (λ x. x.updated_at_unix) end));
      },
      same,
    )
  where
    same_id :
        (d : OutboundDeliveryRecord) → (d.id == id) ≡ true → ((answered t answer d).id == id) ≡ true
    same_id d h = elim answer as (λ x. ((answered t x d).id == id) ≡ true) [ ok u ↦ h | err f ↦ h ]
