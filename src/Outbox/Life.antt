-- ===== src/Outbox/Life.antt =====
-- The life of a delivery: when each transition is possible, where it leads, and what a whole
-- history of transitions leaves behind.
use ferris_agent_bridge.Base.{
  ℕ, ◌+◌, ◌≤◌, ◌<◌, ◌≡◌, ◌↔◌, ◌⊎◌, refl, List, [], ◌∷◌, Result, ok, err, ◌>>=◌, arith, true, false,
  >>=-eq-ok, Bool,
}
use ferris_agent_bridge.Ids.{is_blank}
use ferris_agent_bridge.Outbox.{
  OutboundDeliveryRecord, OutboundDeliveryStatus, pending, delivering, delivered, failed, uncertain,
  u32_max, Transition, begin_at, delivered_at, failed_at, uncertain_at, resolve_delivered_at,
  resolve_failed_at, apply, begin_delivery, mark_delivered, mark_failed, mark_uncertain,
  resolve_uncertain_as_delivered, resolve_uncertain_as_failed, status_partial_eq, Error,
}

-- The status diagram: which statuses a transition leaves from and enters.
abbrev pub Moves : Transition → OutboundDeliveryStatus → OutboundDeliveryStatus → Type 0
Moves (begin_at t) s s' = ((s ≡ pending) ⊎ (s ≡ failed)) × (s' ≡ delivering)
Moves (delivered_at t) s s' = (s ≡ delivering) × (s' ≡ delivered)
Moves (failed_at t e) s s' = (s ≡ delivering) × (s' ≡ failed)
Moves (uncertain_at t e) s s' = (s ≡ delivering) × (s' ≡ uncertain)
Moves (resolve_delivered_at t) s s' = (s ≡ uncertain) × (s' ≡ delivered)
Moves (resolve_failed_at t e) s s' = (s ≡ uncertain) × (s' ≡ failed)

abbrev pub time_of : Transition → ℕ
time_of (begin_at t) = t
time_of (delivered_at t) = t
time_of (failed_at t e) = t
time_of (uncertain_at t e) = t
time_of (resolve_delivered_at t) = t
time_of (resolve_failed_at t e) = t

abbrev pub target : Transition → OutboundDeliveryStatus
target (begin_at t) = delivering
target (delivered_at t) = delivered
target (failed_at t e) = failed
target (uncertain_at t e) = uncertain
target (resolve_delivered_at t) = delivered
target (resolve_failed_at t e) = failed

-- What a transition wants beside its status and a time that is not in the past.
abbrev pub Extra : Transition → OutboundDeliveryRecord → Type 0
Extra (begin_at t) d = d.delivery_attempts < u32_max
Extra (delivered_at t) d = Unit
Extra (failed_at t e) d = is_blank e ≡ false
Extra (uncertain_at t e) d = is_blank e ≡ false
Extra (resolve_delivered_at t) d = Unit
Extra (resolve_failed_at t e) d = is_blank e ≡ false

pub record Enabled (o : Transition) (d : OutboundDeliveryRecord) : Type 0 where
  pub moves : Moves o d.status (target o)
  pub after_creation : d.created_at_unix ≤ time_of o
  pub after_update : d.updated_at_unix ≤ time_of o
  pub extra : Extra o d

apply-Enabled :
    (o : Transition) (d : OutboundDeliveryRecord) {d' : OutboundDeliveryRecord}
    → apply o d ≡ ok d'
    → Enabled o d
unfolding apply begin_delivery mark_delivered mark_failed mark_uncertain
    resolve_uncertain_as_delivered resolve_uncertain_as_failed
apply-Enabled (begin_at t) d h = ground arith
apply-Enabled (delivered_at t) d h = ground arith
apply-Enabled (failed_at t e) d h = ground arith
apply-Enabled (uncertain_at t e) d h = ground arith
apply-Enabled (resolve_delivered_at t) d h = ground arith
apply-Enabled (resolve_failed_at t e) d h = ground arith

abbrev pub is_ok : {E A : Type 0} → Result E A → Bool
is_ok (ok a) = true
is_ok (err e) = false

Enabled-is_ok :
    (o : Transition) (d : OutboundDeliveryRecord) → Enabled o d → is_ok (apply o d) ≡ true
unfolding apply begin_delivery mark_delivered mark_failed mark_uncertain
    resolve_uncertain_as_delivered resolve_uncertain_as_failed
Enabled-is_ok (begin_at t) d h = ground arith
Enabled-is_ok (delivered_at t) d h = ground arith
Enabled-is_ok (failed_at t e) d h = ground arith
Enabled-is_ok (uncertain_at t e) d h = ground arith
Enabled-is_ok (resolve_delivered_at t) d h = ground arith
Enabled-is_ok (resolve_failed_at t e) d h = ground arith

is_ok-Enabled :
    (o : Transition) (d : OutboundDeliveryRecord) → is_ok (apply o d) ≡ true → Enabled o d
is_ok-Enabled o d h = go (apply o d) refl
  where
    go : (r : Result _ OutboundDeliveryRecord) → apply o d ≡ r → Enabled o d
    go (ok d') e = apply-Enabled o d e
    go (err x) e = absurd (cc)

-- A transition succeeds exactly when the diagram has an edge for it from the present status, its
-- time is before neither the creation nor the last update, the attempt counter has room (to begin)
-- and the diagnostic is not blank (to fail or to become uncertain).
pub apply_ok_iff :
    (o : Transition) (d : OutboundDeliveryRecord) → (is_ok (apply o d) ≡ true) ↔ Enabled o d
apply_ok_iff o d = (is_ok-Enabled o d, Enabled-is_ok o d)

-- 1 for an attempt begun.
abbrev pub begins : Transition → ℕ
begins (begin_at t) = 1
begins _ = 0

pub record Effect (o : Transition) (d d' : OutboundDeliveryRecord) : Type 0 where
  pub moves : Moves o d.status d'.status
  pub attempts : d'.delivery_attempts ≡ begins o + d.delivery_attempts
  pub updated : d'.updated_at_unix ≡ time_of o
  pub same_id : d'.id ≡ d.id
  pub same_session : d'.session_id ≡ d.session_id
  pub same_message : d'.message ≡ d.message
  pub same_creation : d'.created_at_unix ≡ d.created_at_unix

-- A transition that succeeds follows an edge of the diagram, counts an attempt if it begins one,
-- sets the update time to its own, and keeps what identifies the delivery.
pub apply-Effect :
    (o : Transition) (d d' : OutboundDeliveryRecord) → apply o d ≡ ok d' → Effect o d d'
unfolding apply begin_delivery mark_delivered mark_failed mark_uncertain
    resolve_uncertain_as_delivered resolve_uncertain_as_failed
apply-Effect (begin_at t) d d' h = ground arith
apply-Effect (delivered_at t) d d' h = ground arith
apply-Effect (failed_at t e) d d' h = ground arith
apply-Effect (uncertain_at t e) d d' h = ground arith
apply-Effect (resolve_delivered_at t) d d' h = ground arith
apply-Effect (resolve_failed_at t e) d d' h = ground arith

-- A history of transitions, each on the record that the one before it left.
unfoldable pub apply_all :
    List Transition → OutboundDeliveryRecord → Result Error OutboundDeliveryRecord
apply_all [] d = ok d
apply_all (o ∷ os) d = do d' ← apply o d; apply_all os d'

pub total_begins : List Transition → ℕ
total_begins [] = 0
total_begins (o ∷ os) = begins o + total_begins os

-- What a whole history keeps.
pub record Lineage (os : List Transition) (d d' : OutboundDeliveryRecord) : Type 0 where
  pub attempts : d'.delivery_attempts ≡ total_begins os + d.delivery_attempts
  pub updated : d.updated_at_unix ≤ d'.updated_at_unix
  pub same_id : d'.id ≡ d.id
  pub same_session : d'.session_id ≡ d.session_id
  pub same_message : d'.message ≡ d.message
  pub same_creation : d'.created_at_unix ≡ d.created_at_unix

-- After any history of transitions that succeed, the attempt counter has grown by the number of
-- attempts begun, the update time has not gone back, and the delivery is still the same one.
pub apply_all-Lineage :
    (os : List Transition) (d d' : OutboundDeliveryRecord)
    → apply_all os d ≡ ok d'
    → Lineage os d d'
unfolding apply_all total_begins
apply_all-Lineage [] d d' h = ground arith
apply_all-Lineage (o ∷ os) d d' h =
    let (m, first, rest) = >>=-eq-ok (apply o d) (apply_all os) h in
    let effect = apply-Effect o d m first in
    let enabled = apply-Enabled o d first in
    let after = apply_all-Lineage os m d' rest in ground (arith, effect, enabled, after)

-- A delivered record is final: no history but the empty one succeeds on it.
pub delivered_is_final :
    (os : List Transition) (d d' : OutboundDeliveryRecord)
    → d.status ≡ delivered
    → apply_all os d ≡ ok d'
    → (os ≡ []) × (d' ≡ d)
unfolding apply_all
delivered_is_final [] d d' s h = (refl, cc)
delivered_is_final (o ∷ os) d d' s h =
    let (m, first, rest) = >>=-eq-ok (apply o d) (apply_all os) h in
    absurd (stuck o (apply-Enabled o d first).moves)
  where
    stuck : (o : Transition) → Moves o d.status (target o) → ⊥
    stuck (begin_at t) h = ground arith
    stuck (delivered_at t) h = ground arith
    stuck (failed_at t e) h = ground arith
    stuck (uncertain_at t e) h = ground arith
    stuck (resolve_delivered_at t) h = ground arith
    stuck (resolve_failed_at t e) h = ground arith

abbrev pub IsResolution : Transition → Type 0
IsResolution (resolve_delivered_at t) = Unit
IsResolution (resolve_failed_at t e) = Unit
IsResolution _ = ⊥

-- The first step of a history that succeeds on an uncertain record resolves it by hand: such a
-- record is not tried again before.
pub uncertain_needs-IsResolution :
    (o : Transition) (os : List Transition) (d d' : OutboundDeliveryRecord)
    → d.status ≡ uncertain
    → apply_all (o ∷ os) d ≡ ok d'
    → IsResolution o
unfolding apply_all
uncertain_needs-IsResolution o os d d' s h =
    let (m, first, rest) = >>=-eq-ok (apply o d) (apply_all os) h in
    resolves o (apply-Enabled o d first).moves
  where
    resolves : (o : Transition) → Moves o d.status (target o) → IsResolution o
    resolves (begin_at t) h = ground arith
    resolves (delivered_at t) h = ground arith
    resolves (failed_at t e) h = ground arith
    resolves (uncertain_at t e) h = ground arith
    resolves (resolve_delivered_at t) h = tt
    resolves (resolve_failed_at t e) h = tt
