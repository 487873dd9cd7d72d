-- ===== src/Run.antt =====
-- runtime/run.rs: run records and their state machine. A method of `&mut self` returns the new
-- record; an `Err` leaves the caller's record as it was.
pub mod Valid
pub mod Descent
use ferris_agent_bridge.Base.{
  ℕ, max, Bool, true, false, ◌&&◌, ◌||◌, not, ◌≡◌, ◌↔◌, List, [], ◌∷◌, Option, none, some, Result,
  ok, err, ◌>>=◌, ◌>>◌, fail_if, when_some, ltb, PartialEq, ◌==◌, eq_iff, eq_refl, arith,
  ensure_distinct, nat_partial_eq, option_partial_eq, list_partial_eq, if◌then◌else◌, is_some,
  is_nil,
}
use ferris_agent_bridge.Base.Text.{Text, text_partial_eq}
use ferris_agent_bridge.Ids.{is_valid_id, OutboundDeliveryId}
use ferris_agent_bridge.Session.{SessionId}

abbrev pub RunId : Type 0
RunId = Text

pub data Error : Type 0 where
  invalid_run_id : Error
  cannot_start start_before_created : Error
  cannot_interrupt interrupt_before_created interrupt_before_started : Error
  cannot_complete duplicate_output : Error
  cannot_fail cannot_cancel : Error
  finish_before_created finish_before_started : Error
  unexpected_outputs : Error
  updated_before_created updated_before_started updated_before_finished : Error
  bad_pending bad_running bad_interrupted bad_completed bad_finished : Error

-- `RunId::new`
unfoldable pub new_run_id : Text → Result Error RunId
new_run_id value = do fail_if (not (is_valid_id value)) invalid_run_id; ok value

pub data RunStatus : Type 0 where
  pending running interrupted completed failed cancelled : RunStatus

-- `RunStatus::is_terminal`
unfoldable pub is_terminal_status : RunStatus → Bool
is_terminal_status completed = true
is_terminal_status failed = true
is_terminal_status cancelled = true
is_terminal_status _ = false

abbrev pub status_eq : RunStatus → RunStatus → Bool
status_eq pending pending = true
status_eq running running = true
status_eq interrupted interrupted = true
status_eq completed completed = true
status_eq failed failed = true
status_eq cancelled cancelled = true
status_eq _ _ = false

pub status_eq_iff : (a b : RunStatus) → (status_eq a b ≡ true) ↔ (a ≡ b)
status_eq_iff a b = (λ h. ground arith, λ h. ground arith)

instance abbrev pub status_partial_eq : PartialEq RunStatus
status_partial_eq = record { eq = status_eq; eq_iff = status_eq_iff }

pub record RunRecord : Type 0 where
  pub id : RunId
  pub session_id : SessionId
  pub status : RunStatus
  pub created_at_unix : ℕ
  pub updated_at_unix : ℕ
  pub started_at_unix : Option ℕ
  pub finished_at_unix : Option ℕ
  pub output_delivery_ids : List OutboundDeliveryId

-- The derived `PartialEq`.
abbrev record_eq : RunRecord → RunRecord → Bool
record_eq a b =
    a.id == b.id
    && a.session_id == b.session_id
    && a.status == b.status
    && a.created_at_unix == b.created_at_unix
    && a.updated_at_unix == b.updated_at_unix
    && a.started_at_unix == b.started_at_unix
    && a.finished_at_unix == b.finished_at_unix
    && a.output_delivery_ids == b.output_delivery_ids

pub record_eq_iff : (a b : RunRecord) → (record_eq a b ≡ true) ↔ (a ≡ b)
record_eq_iff a b = (
  λ h. ground (
    arith,
    eq_iff a.id b.id,
    eq_iff a.session_id b.session_id,
    eq_iff a.started_at_unix b.started_at_unix,
    eq_iff a.finished_at_unix b.finished_at_unix,
    eq_iff a.output_delivery_ids b.output_delivery_ids,
  ),
  λ h. rw h (
      simp (
        eq_refl b.id,
        eq_refl b.session_id,
        eq_refl b.status,
        eq_refl b.created_at_unix,
        eq_refl b.updated_at_unix,
        eq_refl b.started_at_unix,
        eq_refl b.finished_at_unix,
        eq_refl b.output_delivery_ids,
      )),
)

instance abbrev pub record_partial_eq : PartialEq RunRecord
record_partial_eq = record { eq = record_eq; eq_iff = record_eq_iff }

unfoldable pub new : RunId → SessionId → ℕ → RunRecord
new id session_id created_at_unix = record {
  id = id;
  session_id = session_id;
  status = pending;
  created_at_unix = created_at_unix;
  updated_at_unix = created_at_unix;
  started_at_unix = none;
  finished_at_unix = none;
  output_delivery_ids = [];
}

unfoldable pub is_terminal : RunRecord → Bool
unfolding is_terminal_status
is_terminal r = is_terminal_status r.status

touch_at : RunRecord → ℕ → RunRecord
touch_at r t = record r { updated_at_unix = max r.updated_at_unix t }

-- `matches!(status, Pending | Running)` and its like.
is_interruptible : RunStatus → Bool
is_interruptible pending = true
is_interruptible running = true
is_interruptible _ = false

unfoldable pub start : RunRecord → ℕ → Result Error RunRecord
unfolding touch_at
start r t = do
  fail_if (not (r.status == pending)) cannot_start
  fail_if (ltb t r.created_at_unix) start_before_created
  ok (touch_at (record r { status = running; started_at_unix = some t }) t)

unfoldable pub interrupt : RunRecord → ℕ → Result Error RunRecord
unfolding touch_at is_interruptible
interrupt r t = do
  fail_if (not (is_interruptible r.status)) cannot_interrupt
  fail_if (ltb t r.created_at_unix) interrupt_before_created
  when_some r.started_at_unix (λ s. fail_if (ltb t s) interrupt_before_started)
  ok (touch_at (record r { status = interrupted }) t)

unfoldable pub finish : RunRecord → RunStatus → ℕ → Result Error RunRecord
unfolding touch_at
finish r status t = do
  fail_if (ltb t r.created_at_unix) finish_before_created
  when_some r.started_at_unix (λ s. fail_if (ltb t s) finish_before_started)
  ok (touch_at (record r { status = status; finished_at_unix = some t }) t)

unfoldable pub complete_with_output_deliveries :
    RunRecord → ℕ → List OutboundDeliveryId → Result Error RunRecord
unfolding finish
complete_with_output_deliveries r t ids = do
  fail_if (not (r.status == running)) cannot_complete
  ensure_distinct duplicate_output [] ids
  r' ← finish r completed t
  ok (record r' { output_delivery_ids = ids })

unfoldable pub complete : RunRecord → ℕ → Result Error RunRecord
unfolding complete_with_output_deliveries
complete r t = complete_with_output_deliveries r t []

unfoldable pub fail : RunRecord → ℕ → Result Error RunRecord
unfolding finish is_terminal_status
fail r t = do fail_if (is_terminal_status r.status) cannot_fail; finish r failed t

unfoldable pub cancel : RunRecord → ℕ → Result Error RunRecord
unfolding finish is_terminal_status
cancel r t = do fail_if (is_terminal_status r.status) cannot_cancel; finish r cancelled t

-- The last `match` of `RunRecord::validate`.
unfoldable pub validate_status : RunRecord → Result Error (Unit {0})
validate_status r = elim r.status [
  | pending ↦ fail_if (is_some r.started_at_unix || is_some r.finished_at_unix) bad_pending
  | running ↦ do
    fail_if (not (is_some r.started_at_unix)) bad_running
    fail_if (is_some r.finished_at_unix) bad_running
  | interrupted ↦ fail_if (is_some r.finished_at_unix) bad_interrupted
  | completed ↦
      fail_if (not (is_some r.started_at_unix) || not (is_some r.finished_at_unix)) bad_completed
  | failed ↦ fail_if (not (is_some r.finished_at_unix)) bad_finished
  | cancelled ↦ fail_if (not (is_some r.finished_at_unix)) bad_finished
]

-- The two `if let` blocks on `started_at_unix` and `finished_at_unix`.
unfoldable pub validate_times : RunRecord → Result Error (Unit {0})
validate_times r = do
  fail_if (ltb r.updated_at_unix r.created_at_unix) updated_before_created
  when_some r.started_at_unix λ s. do
    fail_if (ltb s r.created_at_unix) start_before_created
    fail_if (ltb r.updated_at_unix s) updated_before_started
  when_some r.finished_at_unix λ f. do
    fail_if (ltb f r.created_at_unix) finish_before_created
    when_some r.started_at_unix (λ s. fail_if (ltb f s) finish_before_started)
    fail_if (ltb r.updated_at_unix f) updated_before_finished

unfoldable pub validate : RunRecord → Result Error (Unit {0})
unfolding validate_times validate_status
validate r = do
  ensure_distinct duplicate_output [] r.output_delivery_ids
  fail_if (not (r.status == completed) && not (is_nil r.output_delivery_ids)) unexpected_outputs
  validate_times r
  validate_status r

-- The `match previous.status` of `is_descendant_of`.
unfoldable pub status_descends : RunRecord → RunRecord → Bool
status_descends r previous = elim previous.status [
  | pending ↦ not (r.status == pending)
  | running ↦
      (r.status == interrupted
        || r.status == completed
        || r.status == failed
        || r.status == cancelled)
      && r.started_at_unix == previous.started_at_unix
  | interrupted ↦
      (r.status == failed || r.status == cancelled) && r.started_at_unix == previous.started_at_unix
  | completed ↦ false
  | failed ↦ false
  | cancelled ↦ false
]

unfoldable pub is_descendant_of : RunRecord → RunRecord → Bool
unfolding status_descends
is_descendant_of r previous =
    if not (r.id == previous.id)
      || not (r.session_id == previous.session_id)
      || not (r.created_at_unix == previous.created_at_unix)
      || ltb r.updated_at_unix previous.updated_at_unix
      || (not (r.status == completed)
          && not (r.output_delivery_ids == previous.output_delivery_ids))
    then false
    else status_descends r previous

-- The transitions of a record, by the method that makes each.
pub data Transition : Type 0 where
  start_at interrupt_at complete_at fail_at cancel_at : ℕ → Transition
  complete_with : ℕ → List OutboundDeliveryId → Transition

unfoldable pub apply : Transition → RunRecord → Result Error RunRecord
apply (start_at t) r = start r t
apply (interrupt_at t) r = interrupt r t
apply (complete_at t) r = complete r t
apply (fail_at t) r = fail r t
apply (cancel_at t) r = cancel r t
apply (complete_with t ids) r = complete_with_output_deliveries r t ids
