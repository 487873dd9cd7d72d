-- ===== src/Run/Descent.antt =====
-- Transitions against `is_descendant_of`, the test by which two versions of a run are merged.
use ferris_agent_bridge.Base.{
  ℕ, ◌≤◌, ◌≡◌, ◌≢◌, List, [], ok, fail_if, arith, true, ensure_distinct, >>-eq-ok, eq_iff, eq_refl,
  list_partial_eq, option_partial_eq, nat_partial_eq, not, ◌==◌, false, Bool-cases, inl, inr,
}
use ferris_agent_bridge.Ids.{OutboundDeliveryId}
use ferris_agent_bridge.Base.Text.{text_partial_eq}
use ferris_agent_bridge.Run.{
  RunRecord, running, completed, start, interrupt, complete_with_output_deliveries, complete, fail,
  cancel, is_descendant_of, status_descends, Transition, start_at, interrupt_at, complete_at,
  complete_with, fail_at, cancel_at, apply, cannot_complete, status_partial_eq, duplicate_output,
  is_terminal,
}

-- `is_descendant_of` as a statement.
pub record Descends (r p : RunRecord) : Type 0 where
  pub same_id : r.id ≡ p.id
  pub same_session : r.session_id ≡ p.session_id
  pub same_creation : r.created_at_unix ≡ p.created_at_unix
  pub later : p.updated_at_unix ≤ r.updated_at_unix
  pub same_outputs : r.status ≢ completed → r.output_delivery_ids ≡ p.output_delivery_ids
  pub step : status_descends r p ≡ true

module _ (r p : RunRecord) where
  pub Descends-of : is_descendant_of r p ≡ true → Descends r p
  unfolding is_descendant_of
  Descends-of h = ground (
    arith,
    eq_iff r.id p.id,
    eq_iff r.session_id p.session_id,
    eq_iff r.output_delivery_ids p.output_delivery_ids,
  )

  pub is_descendant : Descends r p → is_descendant_of r p ≡ true
  unfolding is_descendant_of
  is_descendant d = ground (
    arith,
    eq_iff r.id p.id,
    eq_iff r.session_id p.session_id,
    eq_iff r.output_delivery_ids p.output_delivery_ids,
  )

complete_with-Descends :
    (r : RunRecord) (t : ℕ) (ids : List OutboundDeliveryId) {r' : RunRecord}
    → complete_with_output_deliveries r t ids ≡ ok r'
    → Descends r' r
unfolding complete_with_output_deliveries status_descends
complete_with-Descends r t ids h =
    let (run, rest) = >>-eq-ok (fail_if (not (r.status == running)) cannot_complete) _ h in
    let (d, done) = >>-eq-ok (ensure_distinct duplicate_output [] ids) _ rest in
    ground (arith, run, done, eq_refl r.started_at_unix)

pub apply-Descends :
    (o : Transition) (r : RunRecord) {r' : RunRecord} → apply o r ≡ ok r' → Descends r' r
unfolding apply start interrupt fail cancel status_descends
apply-Descends (start_at t) r h = ground arith
apply-Descends (interrupt_at t) r h = ground (arith, eq_refl r.started_at_unix)
apply-Descends (complete_at t) r h = complete_with-Descends r t [] (unfold complete in h)
apply-Descends (complete_with t ids) r h = complete_with-Descends r t ids h
apply-Descends (fail_at t) r h = ground (arith, eq_refl r.started_at_unix)
apply-Descends (cancel_at t) r h = ground (arith, eq_refl r.started_at_unix)

Descends-trans : (a b c : RunRecord) → Descends c b → Descends b a → Descends c a
unfolding status_descends
Descends-trans a b c h k = ground (
  arith,
  eq_iff c.started_at_unix b.started_at_unix,
  eq_iff b.started_at_unix a.started_at_unix,
  eq_iff c.started_at_unix a.started_at_unix,
)

Descends-asymm : (a b : RunRecord) → Descends a b → ¬ Descends b a
unfolding status_descends
Descends-asymm a b h k = ground arith

-- A transition that succeeds gives a record which the merge takes for a later version of the old one.
pub apply-is_descendant_of :
    (o : Transition) (r r' : RunRecord) → apply o r ≡ ok r' → is_descendant_of r' r ≡ true
apply-is_descendant_of o r r' h = is_descendant r' r (apply-Descends o r h)

-- Being a later version is a strict order: it is transitive, and a record is no later version of
-- one of its own later versions.
pub is_descendant_of_order :
    (a b c : RunRecord)
    → is_descendant_of b a ≡ true
    → is_descendant_of c b ≡ true
    → (is_descendant_of c a ≡ true) × (is_descendant_of a c ≡ false)
is_descendant_of_order a b c h k =
    let down = Descends-trans a b c (Descends-of c b k) (Descends-of b a h) in
    (is_descendant c a down, no_ascent down)
  where
    no_ascent : Descends c a → is_descendant_of a c ≡ false
    no_ascent down = elim (Bool-cases (is_descendant_of a c)) [
      | inl up ↦ absurd (Descends-asymm c a down (Descends-of a c up))
      | inr none_up ↦ none_up
    ]

terminal-not-Descends : (r' r : RunRecord) → is_terminal r ≡ true → ¬ Descends r' r
unfolding status_descends is_terminal
terminal-not-Descends r' r h d = ground arith

-- A completed, failed or cancelled record admits no transition and has no later version.
pub terminal_is_final :
    (o : Transition) (r r' : RunRecord)
    → is_terminal r ≡ true
    → (apply o r ≢ ok r') × (is_descendant_of r' r ≡ false)
terminal_is_final o r r' h = (
  λ e. terminal-not-Descends r' r h (apply-Descends o r e),
  elim (Bool-cases (is_descendant_of r' r)) [
    | inl down ↦ absurd (terminal-not-Descends r' r h (Descends-of r' r down))
    | inr no_descent ↦ no_descent
  ],
)
