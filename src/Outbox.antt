-- ===== src/Outbox.antt =====
-- runtime/outbox.rs: outbound delivery records and their state machine. A method of `&mut self`
-- returns the new record; an `Err` leaves the caller's record as it was.
pub mod Valid
pub mod Life
pub mod Answers
pub mod Retry
pub mod Backoff
use ferris_agent_bridge.Base.{
  ℕ, ◌+◌, max, Bool, true, false, ◌&&◌, ◌||◌, not, ◌≡◌, ◌↔◌, List, [], ◌∷◌, Option, none, some,
  Result, ok, err, ◌>>=◌, ◌>>◌, fail_if, when_some, ltb, leb, PartialEq, ◌==◌, eq_iff, eq_refl,
  arith, nat_partial_eq, option_partial_eq, list_partial_eq, is_some,
}
use ferris_agent_bridge.Base.Text.{Text, text_partial_eq}
use ferris_agent_bridge.Ids.{is_valid_id, is_blank, OutboundDeliveryId}
use ferris_agent_bridge.Session.{SessionId, SessionScope, for_scope}
use ferris_agent_bridge.Message.{
  Message, MessageAuthor, user, author_partial_eq, message_partial_eq,
}

pub data Error : Type 0 where
  invalid_delivery_id : Error
  cannot_attempt scope_mismatch : Error
  cannot_start start_before_created start_before_updated attempts_overflowed : Error
  cannot_complete complete_before_created complete_before_updated : Error
  cannot_fail fail_before_created fail_before_updated failure_empty : Error
  cannot_resolve resolve_before_created resolve_before_updated resolution_empty : Error
  session_mismatch user_authored created_before_message updated_before_created : Error
  delivered_before_created updated_before_delivered last_error_empty : Error
  bad_pending bad_delivering bad_delivered delivered_not_updated bad_unsuccessful : Error

-- `OutboundDeliveryId::new`
unfoldable pub new_delivery_id : Text → Result Error OutboundDeliveryId
new_delivery_id value = do fail_if (not (is_valid_id value)) invalid_delivery_id; ok value

pub data OutboundDeliveryStatus : Type 0 where
  pending delivering delivered failed uncertain : OutboundDeliveryStatus

abbrev pub status_eq : OutboundDeliveryStatus → OutboundDeliveryStatus → Bool
status_eq pending pending = true
status_eq delivering delivering = true
status_eq delivered delivered = true
status_eq failed failed = true
status_eq uncertain uncertain = true
status_eq _ _ = false

pub status_eq_iff : (a b : OutboundDeliveryStatus) → (status_eq a b ≡ true) ↔ (a ≡ b)
status_eq_iff a b = (λ h. ground arith, λ h. ground arith)

instance abbrev pub status_partial_eq : PartialEq OutboundDeliveryStatus
status_partial_eq = record { eq = status_eq; eq_iff = status_eq_iff }

pub record OutboundDeliveryRecord : Type 0 where
  pub id : OutboundDeliveryId
  pub session_id : SessionId
  pub message : Message
  pub status : OutboundDeliveryStatus
  pub created_at_unix : ℕ
  pub updated_at_unix : ℕ
  pub delivery_attempts : ℕ  -- u32
  pub delivered_at_unix : Option ℕ
  pub last_error : Option Text

pub record OutboundDeliveryAttempt : Type 0 where
  pub delivery_id : OutboundDeliveryId
  pub session_scope : SessionScope
  pub message : Message
  pub attempt_number : ℕ

-- `OutboundDeliveryAttempt::from_record`
unfoldable pub attempt_from_record :
    OutboundDeliveryRecord → SessionScope → Result Error OutboundDeliveryAttempt
attempt_from_record d session_scope = do
  fail_if (not (d.status == delivering)) cannot_attempt
  fail_if (not (for_scope session_scope == d.session_id)) scope_mismatch
  ok (record {
    delivery_id = d.id;
    session_scope = session_scope;
    message = d.message;
    attempt_number = d.delivery_attempts;
  })

-- The last `match` of `OutboundDeliveryRecord::validate`.
unfoldable pub validate_status : OutboundDeliveryRecord → Result Error (Unit {0})
validate_status d = elim d.status [
  | pending ↦
      fail_if
        (not (d.delivery_attempts == 0) || is_some d.delivered_at_unix || is_some d.last_error)
        bad_pending
  | delivering ↦
      fail_if (d.delivery_attempts == 0 || is_some d.delivered_at_unix || is_some d.last_error)
        bad_delivering
  | delivered ↦ do
    fail_if (d.delivery_attempts == 0 || not (is_some d.delivered_at_unix) || is_some d.last_error)
        bad_delivered
    fail_if (not (d.delivered_at_unix == some d.updated_at_unix)) delivered_not_updated
  | failed ↦
      fail_if
        (d.delivery_attempts == 0 || is_some d.delivered_at_unix || not (is_some d.last_error))
        bad_unsuccessful
  | uncertain ↦
      fail_if
        (d.delivery_attempts == 0 || is_some d.delivered_at_unix || not (is_some d.last_error))
        bad_unsuccessful
]

unfoldable pub validate : OutboundDeliveryRecord → Result Error (Unit {0})
unfolding validate_status
validate d = do
  fail_if (not (d.message.session_id == some d.session_id)) session_mismatch
  fail_if (d.message.author == user) user_authored
  fail_if (ltb d.created_at_unix d.message.created_at_unix) created_before_message
  fail_if (ltb d.updated_at_unix d.created_at_unix) updated_before_created
  when_some d.delivered_at_unix λ t. do
    fail_if (ltb t d.created_at_unix) delivered_before_created
    fail_if (ltb d.updated_at_unix t) updated_before_delivered
  when_some d.last_error (λ e. fail_if (is_blank e) last_error_empty)
  validate_status d

unfoldable pub new :
    OutboundDeliveryId → SessionId → Message → ℕ → Result Error OutboundDeliveryRecord
new id session_id message created_at_unix = do
  let d : OutboundDeliveryRecord = record {
    id = id;
    session_id = session_id;
    message = message;
    status = pending;
    created_at_unix = created_at_unix;
    updated_at_unix = created_at_unix;
    delivery_attempts = 0;
    delivered_at_unix = none;
    last_error = none;
  }
  validate d
  ok d

-- The derived `PartialEq`.
abbrev record_eq : OutboundDeliveryRecord → OutboundDeliveryRecord → Bool
record_eq a b =
    a.id == b.id
    && a.session_id == b.session_id
    && a.message == b.message
    && a.status == b.status
    && a.created_at_unix == b.created_at_unix
    && a.updated_at_unix == b.updated_at_unix
    && a.delivery_attempts == b.delivery_attempts
    && a.delivered_at_unix == b.delivered_at_unix
    && a.last_error == b.last_error

pub record_eq_iff : (a b : OutboundDeliveryRecord) → (record_eq a b ≡ true) ↔ (a ≡ b)
record_eq_iff a b = (
  λ h. ground (
    arith,
    eq_iff a.id b.id,
    eq_iff a.session_id b.session_id,
    eq_iff a.message b.message,
    status_eq_iff a.status b.status,
    eq_iff a.delivered_at_unix b.delivered_at_unix,
    eq_iff a.last_error b.last_error,
  ),
  λ h. rw h (
      simp (
        eq_refl b.id,
        eq_refl b.session_id,
        eq_refl b.message,
        eq_refl b.status,
        eq_refl b.created_at_unix,
        eq_refl b.updated_at_unix,
        eq_refl b.delivery_attempts,
        eq_refl b.delivered_at_unix,
        eq_refl b.last_error,
      )),
)

instance abbrev pub record_partial_eq : PartialEq OutboundDeliveryRecord
record_partial_eq = record { eq = record_eq; eq_iff = record_eq_iff }

unfoldable pub has_same_enqueue_identity : OutboundDeliveryRecord → OutboundDeliveryRecord → Bool
has_same_enqueue_identity a b =
    a.id == b.id
    && a.session_id == b.session_id
    && a.message == b.message
    && a.created_at_unix == b.created_at_unix

touch_at : OutboundDeliveryRecord → ℕ → OutboundDeliveryRecord
touch_at d t = record d { updated_at_unix = max d.updated_at_unix t }

abbrev pub u32_max : ℕ
u32_max = 4294967295

-- `matches!(status, Pending | Failed)`
unfoldable pub can_begin : OutboundDeliveryStatus → Bool
can_begin pending = true
can_begin failed = true
can_begin _ = false

unfoldable pub begin_delivery : OutboundDeliveryRecord → ℕ → Result Error OutboundDeliveryRecord
unfolding touch_at can_begin
begin_delivery d t = do
  fail_if (not (can_begin d.status)) cannot_start
  fail_if (ltb t d.created_at_unix) start_before_created
  fail_if (ltb t d.updated_at_unix) start_before_updated
  fail_if (leb u32_max d.delivery_attempts) attempts_overflowed
  ok (
      touch_at
        (record d {
          status = delivering;
          delivery_attempts = d.delivery_attempts + 1;
          delivered_at_unix = none;
          last_error = none;
        })
        t)

unfoldable pub mark_delivered : OutboundDeliveryRecord → ℕ → Result Error OutboundDeliveryRecord
unfolding touch_at
mark_delivered d t = do
  fail_if (not (d.status == delivering)) cannot_complete
  fail_if (ltb t d.created_at_unix) complete_before_created
  fail_if (ltb t d.updated_at_unix) complete_before_updated
  ok (touch_at (record d { status = delivered; delivered_at_unix = some t; last_error = none }) t)

unfoldable pub mark_unsuccessful :
    OutboundDeliveryRecord → OutboundDeliveryStatus → ℕ → Text → Result Error OutboundDeliveryRecord
unfolding touch_at
mark_unsuccessful d status t error = do
  fail_if (not (d.status == delivering)) cannot_fail
  fail_if (ltb t d.created_at_unix) fail_before_created
  fail_if (ltb t d.updated_at_unix) fail_before_updated
  fail_if (is_blank error) failure_empty
  ok (touch_at (record d { status = status; delivered_at_unix = none; last_error = some error }) t)

unfoldable pub mark_failed : OutboundDeliveryRecord → ℕ → Text → Result Error OutboundDeliveryRecord
unfolding mark_unsuccessful
mark_failed d t error = mark_unsuccessful d failed t error

unfoldable pub mark_uncertain :
    OutboundDeliveryRecord → ℕ → Text → Result Error OutboundDeliveryRecord
unfolding mark_unsuccessful
mark_uncertain d t error = mark_unsuccessful d uncertain t error

unfoldable pub validate_resolution_time : OutboundDeliveryRecord → ℕ → Result Error (Unit {0})
validate_resolution_time d t = do
  fail_if (ltb t d.created_at_unix) resolve_before_created
  fail_if (ltb t d.updated_at_unix) resolve_before_updated

unfoldable pub resolve_uncertain_as_delivered :
    OutboundDeliveryRecord → ℕ → Result Error OutboundDeliveryRecord
unfolding touch_at validate_resolution_time
resolve_uncertain_as_delivered d t = do
  fail_if (not (d.status == uncertain)) cannot_resolve
  validate_resolution_time d t
  ok (touch_at (record d { status = delivered; delivered_at_unix = some t; last_error = none }) t)

unfoldable pub resolve_uncertain_as_failed :
    OutboundDeliveryRecord → ℕ → Text → Result Error OutboundDeliveryRecord
unfolding touch_at validate_resolution_time
resolve_uncertain_as_failed d t error = do
  fail_if (not (d.status == uncertain)) cannot_resolve
  validate_resolution_time d t
  fail_if (is_blank error) resolution_empty
  ok (touch_at (record d { status = failed; delivered_at_unix = none; last_error = some error }) t)

-- The transitions of a record, by the method that makes each.
pub data Transition : Type 0 where
  begin_at delivered_at resolve_delivered_at : ℕ → Transition
  failed_at uncertain_at resolve_failed_at : ℕ → Text → Transition

unfoldable pub apply : Transition → OutboundDeliveryRecord → Result Error OutboundDeliveryRecord
apply (begin_at t) d = begin_delivery d t
apply (delivered_at t) d = mark_delivered d t
apply (failed_at t error) d = mark_failed d t error
apply (uncertain_at t error) d = mark_uncertain d t error
apply (resolve_delivered_at t) d = resolve_uncertain_as_delivered d t
apply (resolve_failed_at t error) d = resolve_uncertain_as_failed d t error
