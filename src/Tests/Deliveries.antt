-- ===== src/Tests/Deliveries.antt =====
-- Deliveries and their retries.
use ferris_agent_bridge.Base.{◌≡◌, ◌≤◌, ◌↔◌, ok, refl, ◌∷◌, [], true, List, some, arith}
use ferris_agent_bridge.Base.Text.{codes}
use ferris_agent_bridge.Outbox.{
  OutboundDeliveryRecord, Transition, begin_at, delivered_at, failed_at, uncertain_at,
  resolve_delivered_at, apply, validate, begin_delivery,
}
use ferris_agent_bridge.Outbox
use ferris_agent_bridge.Outbox.Valid.{IsValid, delivery_validate_iff, delivery_apply-validate}
use ferris_agent_bridge.Outbox.Life.{
  apply_ok_iff, apply-Effect, apply_all-Lineage, delivered_is_final, uncertain_needs-IsResolution,
  apply_all, Effect, Enabled, Lineage, IsResolution, is_ok,
}
use ferris_agent_bridge.Outbox.Retry.{retry_delay_secs, is_due}
use ferris_agent_bridge.Outbox.Backoff.{
  IsPolicy, DueAt, retry_delay_exact, retry_delay_bounds, is_due_iff, due_begins,
}
use ferris_agent_bridge.Tests.Data.{
  pending_delivery, begun_delivery, failed_delivery, uncertain_delivery, done_delivery,
  retry_policy,
}

begins : apply (begin_at 10) pending_delivery ≡ ok begun_delivery
unfolding apply begin_delivery
begins = refl

-- An attempt that fails and one that succeeds.
abbrev two_attempts : List Transition
two_attempts = begin_at 10 ∷ failed_at 12 (codes "timeout") ∷ begin_at 15 ∷ delivered_at 20 ∷ []

two_attempts_succeed : apply_all two_attempts pending_delivery ≡ ok done_delivery
unfolding apply_all apply begin_delivery Outbox.mark_failed ferris_agent_bridge.Ids.is_blank
    Outbox.mark_delivered
two_attempts_succeed = refl

failed_delivery-valid : validate failed_delivery ≡ ok tt
unfolding validate ferris_agent_bridge.Base.option_eq ferris_agent_bridge.Base.list_eq
    ferris_agent_bridge.Ids.is_blank
failed_delivery-valid = refl

retry_begins :
    apply (begin_at 15) failed_delivery
    ≡ ok (record begun_delivery { updated_at_unix = 15; delivery_attempts = 2 })
unfolding apply begin_delivery
retry_begins = refl

delivery_apply-validate_example :
    validate (record begun_delivery { updated_at_unix = 15; delivery_attempts = 2 }) ≡ ok tt
delivery_apply-validate_example =
    delivery_apply-validate (begin_at 15) failed_delivery
      (record begun_delivery { updated_at_unix = 15; delivery_attempts = 2 }) failed_delivery-valid
      retry_begins

delivery_validate_iff_example : (validate done_delivery ≡ ok tt) ↔ IsValid done_delivery
delivery_validate_iff_example = delivery_validate_iff done_delivery

apply_ok_iff_example :
    (is_ok (apply (begin_at 15) failed_delivery) ≡ true) ↔ Enabled (begin_at 15) failed_delivery
apply_ok_iff_example = apply_ok_iff (begin_at 15) failed_delivery

apply-Effect_example : Effect (begin_at 10) pending_delivery begun_delivery
apply-Effect_example = apply-Effect (begin_at 10) pending_delivery begun_delivery begins

apply_all-Lineage_example : Lineage two_attempts pending_delivery done_delivery
apply_all-Lineage_example =
    apply_all-Lineage two_attempts pending_delivery done_delivery two_attempts_succeed

abbrev no_steps : List Transition
no_steps = []

nothing_more : apply_all no_steps done_delivery ≡ ok done_delivery
unfolding apply_all
nothing_more = refl

delivered_is_final_example : (no_steps ≡ []) × (done_delivery ≡ done_delivery)
delivered_is_final_example =
    delivered_is_final no_steps done_delivery done_delivery refl nothing_more

resolves :
    apply_all (resolve_delivered_at 30 ∷ []) uncertain_delivery
    ≡ ok (record begun_delivery {
      status = Outbox.delivered;
      updated_at_unix = 30;
      delivered_at_unix = some 30;
    })
unfolding apply_all apply Outbox.resolve_uncertain_as_delivered
resolves = refl

uncertain_needs-IsResolution_example : IsResolution (resolve_delivered_at 30)
uncertain_needs-IsResolution_example =
    uncertain_needs-IsResolution (resolve_delivered_at 30) [] uncertain_delivery
      (record begun_delivery {
        status = Outbox.delivered;
        updated_at_unix = 30;
        delivered_at_unix = some 30;
      })
      refl resolves

retry_policy-IsPolicy : IsPolicy retry_policy
retry_policy-IsPolicy = ground arith

retry_delay_exact_example : retry_delay_secs retry_policy 3 ≡ 12
retry_delay_exact_example = retry_delay_exact retry_policy 3 retry_policy-IsPolicy

retry_delay_bounds_example :
    (3 ≤ retry_delay_secs retry_policy 2)
    × (retry_delay_secs retry_policy 2 ≤ retry_delay_secs retry_policy 4)
    × (retry_delay_secs retry_policy 4 ≤ 20)
retry_delay_bounds_example =
    retry_delay_bounds retry_policy 2 4 retry_policy-IsPolicy (ground arith)

is_due_iff_example :
    (is_due retry_policy failed_delivery 15 ≡ true) ↔ DueAt retry_policy failed_delivery 15
is_due_iff_example = is_due_iff retry_policy failed_delivery 15

failed_delivery-due : is_due retry_policy failed_delivery 15 ≡ true
unfolding is_due retry_delay_secs
failed_delivery-due = refl

due_begins_example :
    (d : OutboundDeliveryRecord) × (begin_delivery failed_delivery 15 ≡ ok d)
    × (d.delivery_attempts ≤ 5)
due_begins_example =
    due_begins retry_policy failed_delivery 15 retry_policy-IsPolicy (ground arith)
      ((delivery_validate_iff failed_delivery).0 failed_delivery-valid) (ground arith)
      failed_delivery-due
