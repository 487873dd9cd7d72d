-- ===== src/Run/Valid.antt =====
-- What `RunRecord::validate` accepts, and that every transition keeps it.
use ferris_agent_bridge.Base.{
  ℕ, ◌≤◌, ◌≡◌, ◌≢◌, ◌↔◌, [], Option, none, some, ok, arith, true, Distinct, ensure_distinct,
  ensure_distinct_iff, >>-eq-ok, not, ◌==◌, List, fail_if, is_some,
}
use ferris_agent_bridge.Base.Text.{text_partial_eq}
use ferris_agent_bridge.Run.{
  RunRecord, RunStatus, pending, running, interrupted, completed, failed, cancelled, new, start,
  interrupt, validate, duplicate_output, Transition, start_at, interrupt_at, complete_at,
  complete_with, fail_at, cancel_at, apply, cannot_complete, status_partial_eq,
  complete_with_output_deliveries, complete, fail, cancel, OutboundDeliveryId,
}

-- A recorded time lies between the creation and the last update.
abbrev pub Within : ℕ → ℕ → Option ℕ → Type 0
Within lo hi none = Unit
Within lo hi (some t) = (lo ≤ t) × (t ≤ hi)

abbrev pub Ordered : Option ℕ → Option ℕ → Type 0
Ordered (some s) (some f) = s ≤ f
Ordered _ _ = Unit

-- The times that each status has.
abbrev pub Shape : RunStatus → Option ℕ → Option ℕ → Type 0
Shape pending s f = (s ≡ none) × (f ≡ none)
Shape running s f = (is_some s ≡ true) × (f ≡ none)
Shape interrupted s f = f ≡ none
Shape completed s f = (is_some s ≡ true) × (is_some f ≡ true)
Shape failed s f = is_some f ≡ true
Shape cancelled s f = is_some f ≡ true

pub record IsValid (r : RunRecord) : Type 0 where
  pub distinct : Distinct r.output_delivery_ids
  pub outputs : r.status ≢ completed → r.output_delivery_ids ≡ []
  pub ordered : r.created_at_unix ≤ r.updated_at_unix
  pub started : Within r.created_at_unix r.updated_at_unix r.started_at_unix
  pub finished : Within r.created_at_unix r.updated_at_unix r.finished_at_unix
  pub start_first : Ordered r.started_at_unix r.finished_at_unix
  pub shape : Shape r.status r.started_at_unix r.finished_at_unix

validate_sound : (r : RunRecord) → validate r ≡ ok tt → IsValid r
unfolding validate
validate_sound r h =
    let (d, rest) = >>-eq-ok (ensure_distinct duplicate_output [] r.output_delivery_ids) _ h in
    record {
      distinct = (ensure_distinct_iff duplicate_output r.output_delivery_ids).0 d;
      outputs = ground arith;
      ordered = ground arith;
      started = ground arith;
      finished = ground arith;
      start_first = ground arith;
      shape = ground arith;
    }

validate_complete : (r : RunRecord) → IsValid r → validate r ≡ ok tt
unfolding validate
validate_complete r v =
    rw ((ensure_distinct_iff duplicate_output r.output_delivery_ids).1 v.distinct) (ground arith)

-- `validate` accepts a run exactly when its times are ordered and fit its status, its outputs are
-- distinct, and it has none unless it is completed.
pub run_validate_iff : (r : RunRecord) → (validate r ≡ ok tt) ↔ IsValid r
run_validate_iff r = (validate_sound r, validate_complete r)

-- A new record is valid.
pub new-IsValid : (id session_id : _) (t : ℕ) → IsValid (new id session_id t)
unfolding new
new-IsValid id session_id t = ground arith

complete_with_output_deliveries-IsValid :
    (r : RunRecord) (t : ℕ) (ids : List OutboundDeliveryId) {r' : RunRecord}
    → IsValid r
    → complete_with_output_deliveries r t ids ≡ ok r'
    → IsValid r'
unfolding complete_with_output_deliveries
complete_with_output_deliveries-IsValid r t ids v h =
    let (_, rest) = >>-eq-ok (fail_if (not (r.status == running)) cannot_complete) _ h in
    let (d, _) = >>-eq-ok (ensure_distinct duplicate_output [] ids) _ rest in
    let distinct = (ensure_distinct_iff duplicate_output ids).0 d in ground (arith, distinct)

-- Every transition of a valid record that succeeds gives a valid record.
pub apply-IsValid :
    (o : Transition) (r : RunRecord) {r' : RunRecord} → IsValid r → apply o r ≡ ok r' → IsValid r'
unfolding apply start interrupt fail cancel
apply-IsValid (start_at t) r v h = ground arith
apply-IsValid (interrupt_at t) r v h = ground arith
apply-IsValid (complete_at t) r v h =
    complete_with_output_deliveries-IsValid r t [] v (unfold complete in h)
apply-IsValid (complete_with t ids) r v h = complete_with_output_deliveries-IsValid r t ids v h
apply-IsValid (fail_at t) r v h = ground arith
apply-IsValid (cancel_at t) r v h = ground arith

-- What `validate` accepts, it accepts after every transition that succeeds.
pub run_apply-validate :
    (o : Transition) (r r' : RunRecord)
    → validate r ≡ ok tt
    → apply o r ≡ ok r'
    → validate r' ≡ ok tt
run_apply-validate o r r' v h =
    (run_validate_iff r').1 (apply-IsValid o r ((run_validate_iff r).0 v) h)
