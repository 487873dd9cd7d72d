-- ===== src/Outbox/Valid.antt =====
-- What `OutboundDeliveryRecord::validate` accepts, and that every transition keeps it.
use ferris_agent_bridge.Base.{
  ℕ, ◌≤◌, ◌<◌, ◌≡◌, ◌≢◌, ◌↔◌, Option, none, some, ok, arith, true, false, is_some, eq_iff,
  nat_partial_eq, option_partial_eq,
}
use ferris_agent_bridge.Base.Text.{Text, text_partial_eq}
use ferris_agent_bridge.Ids.{is_blank}
use ferris_agent_bridge.Message.{user, author_partial_eq}
use ferris_agent_bridge.Outbox.{
  OutboundDeliveryRecord, OutboundDeliveryStatus, pending, delivering, delivered, failed, uncertain,
  validate, validate_status, Transition, begin_at, delivered_at, failed_at, uncertain_at,
  resolve_delivered_at, resolve_failed_at, apply, begin_delivery, mark_delivered, mark_failed,
  mark_uncertain, resolve_uncertain_as_delivered, resolve_uncertain_as_failed, status_partial_eq,
}

-- What the message and the creation time owe to one another.
pub record IsAddressed (d : OutboundDeliveryRecord) : Type 0 where
  pub session : d.message.session_id ≡ some d.session_id
  pub author : d.message.author ≢ user
  pub composed : d.message.created_at_unix ≤ d.created_at_unix

abbrev NotBlank : Option Text → Type 0
NotBlank none = Unit
NotBlank (some e) = is_blank e ≡ false

-- The attempts, delivery time and error of each status, at the time of the last update.
abbrev Shape : OutboundDeliveryStatus → ℕ → ℕ → Option ℕ → Option Text → Type 0
Shape pending updated n t e = (n ≡ 0) × (t ≡ none) × (e ≡ none)
Shape delivering updated n t e = (0 < n) × (t ≡ none) × (e ≡ none)
Shape delivered updated n t e = (0 < n) × (t ≡ some updated) × (e ≡ none)
Shape failed updated n t e = (0 < n) × (t ≡ none) × (is_some e ≡ true)
Shape uncertain updated n t e = (0 < n) × (t ≡ none) × (is_some e ≡ true)

pub record IsValid (d : OutboundDeliveryRecord) : Type 0 where
  pub addressed : IsAddressed d
  pub ordered : d.created_at_unix ≤ d.updated_at_unix
  pub explained : NotBlank d.last_error
  pub shape : Shape d.status d.updated_at_unix d.delivery_attempts d.delivered_at_unix d.last_error

module _ (d : OutboundDeliveryRecord) where
  validate_status_sound :
      validate_status d ≡ ok tt
      → Shape d.status d.updated_at_unix d.delivery_attempts d.delivered_at_unix d.last_error
  unfolding validate_status
  validate_status_sound h = ground (arith, eq_iff d.delivered_at_unix (some d.updated_at_unix))

  validate_status_complete :
      Shape d.status d.updated_at_unix d.delivery_attempts d.delivered_at_unix d.last_error
      → validate_status d ≡ ok tt
  unfolding validate_status
  validate_status_complete h = ground (arith, eq_iff d.delivered_at_unix (some d.updated_at_unix))

  validate_sound : validate d ≡ ok tt → IsValid d
  unfolding validate
  validate_sound h =
      let shape : validate_status d ≡ ok tt = ground arith in
      record {
        addressed = record {
          session = ground (arith, eq_iff d.message.session_id (some d.session_id));
          author = ground arith;
          composed = ground arith;
        };
        ordered = ground arith;
        explained = ground arith;
        shape = validate_status_sound shape;
      }

  validate_complete : IsValid d → validate d ≡ ok tt
  unfolding validate
  validate_complete v =
      ground
        (arith, eq_iff d.message.session_id (some d.session_id), validate_status_complete v.shape)

-- `validate` accepts a delivery exactly when its message is of its session, not by the user and not
-- newer than it, its update is not before its creation, a diagnostic is not blank, and its times,
-- attempts and diagnostics fit its status.
pub delivery_validate_iff : (d : OutboundDeliveryRecord) → (validate d ≡ ok tt) ↔ IsValid d
delivery_validate_iff d = (validate_sound d, validate_complete d)

-- Every transition of a valid record that succeeds gives a valid record.
pub apply-IsValid :
    (o : Transition) (d : OutboundDeliveryRecord) {d' : OutboundDeliveryRecord}
    → IsValid d
    → apply o d ≡ ok d'
    → IsValid d'
unfolding apply begin_delivery mark_delivered mark_failed mark_uncertain
    resolve_uncertain_as_delivered resolve_uncertain_as_failed
apply-IsValid (begin_at t) d v h = ground arith
apply-IsValid (delivered_at t) d v h = ground arith
apply-IsValid (failed_at t e) d v h = ground arith
apply-IsValid (uncertain_at t e) d v h = ground arith
apply-IsValid (resolve_delivered_at t) d v h = ground arith
apply-IsValid (resolve_failed_at t e) d v h = ground arith

-- What `validate` accepts, it accepts after every transition that succeeds.
pub delivery_apply-validate :
    (o : Transition) (d d' : OutboundDeliveryRecord)
    → validate d ≡ ok tt
    → apply o d ≡ ok d'
    → validate d' ≡ ok tt
delivery_apply-validate o d d' v h =
    (delivery_validate_iff d').1 (apply-IsValid o d ((delivery_validate_iff d).0 v) h)
