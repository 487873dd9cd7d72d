-- ===== src/State/Outputs.antt =====
-- The completion of a run with its output deliveries.
use ferris_agent_bridge.Base.{
  ◌≤◌, ℕ, max, ◌≡◌, sym, subst, false, not, List, [], ◌∷◌, ◌++◌, map, some, ok, fail_if, ok_or,
  arith, find, is_some, is_nil, contains, ◌==◌, eq_iff, ltb, nat_partial_eq, >>=-eq-ok, ok_or-eq-ok,
}
use mathlib.Core.List.{append-nil, append_assoc}
use ferris_agent_bridge.Base.Text.{text_partial_eq}
use ferris_agent_bridge.Ids.{OutboundDeliveryId}
use ferris_agent_bridge.Outbox.{OutboundDeliveryRecord}
use ferris_agent_bridge.Outbox
use ferris_agent_bridge.Outbox.Valid.{delivery_validate_iff}
use ferris_agent_bridge.Run.{RunId, RunRecord, running}
use ferris_agent_bridge.Run
use ferris_agent_bridge.State.{
  RuntimeState, outbound_delivery, find_delivery, update_run, run, unknown_run, no_outputs,
  cannot_complete, completion_in_past,
}
use ferris_agent_bridge.State.Deliveries.{check_outputs, complete_run_with_output_deliveries}
use ferris_agent_bridge.State.DeliveryInvariant.{DeliveriesOk, DeliveriesOk-snoc}

check_outputs-cons :
    (s : RuntimeState) (r : RunRecord) (t : ℕ) (seen : List OutboundDeliveryId)
    (d : OutboundDeliveryRecord) (ds : List OutboundDeliveryRecord)
    → check_outputs s r t seen (d ∷ ds) ≡ ok tt
    → (Outbox.validate d ≡ ok tt)
      × (contains d.id seen ≡ false)
      × (is_some (outbound_delivery s d.id) ≡ false)
      × (check_outputs s r t (d.id ∷ seen) ds ≡ ok tt)
unfolding check_outputs
check_outputs-cons s r t seen d ds h = ground arith

find-snoc_none :
    (k : OutboundDeliveryId) (d : OutboundDeliveryRecord) (ds : List OutboundDeliveryRecord)
    → is_some (find (λ x. x.id == k) ds) ≡ false
    → (d.id == k) ≡ false
    → is_some (find (λ x. x.id == k) (ds ++ d ∷ [])) ≡ false
unfolding find
find-snoc_none k d [] h n = ground arith
find-snoc_none k d (x ∷ ds) h n = ground (arith, find-snoc_none k d ds)

-- Outputs that pass the checks can be appended: they are valid, and their ids are new and distinct.
outputs-DeliveriesOk :
    (s : RuntimeState) (r : RunRecord) (t : ℕ) (seen : List OutboundDeliveryId)
    (acc ds : List OutboundDeliveryRecord)
    → DeliveriesOk acc
    → ((k : OutboundDeliveryId)
        → contains k seen ≡ false
        → is_some (outbound_delivery s k) ≡ false
        → is_some (find (λ x. x.id == k) acc) ≡ false)
    → check_outputs s r t seen ds ≡ ok tt
    → DeliveriesOk (acc ++ ds)
unfolding contains
outputs-DeliveriesOk s r t seen acc [] h new e = subst DeliveriesOk (sym (append-nil acc)) h
outputs-DeliveriesOk s r t seen acc (d ∷ ds) h new e =
    let (valid, unseen, absent, rest) = check_outputs-cons s r t seen d ds e in
    let h' =
      DeliveriesOk-snoc d acc h ((delivery_validate_iff d).0 valid) (new d.id unseen absent) in
    let new' : (k : OutboundDeliveryId)
        → contains k (d.id ∷ seen) ≡ false
        → is_some (outbound_delivery s k) ≡ false
        → is_some (find (λ x. x.id == k) (acc ++ d ∷ [])) ≡ false =
      λ k u a.
        find-snoc_none k d acc (new k (ground arith) a)
          (ground (arith, eq_iff d.id k, eq_iff k d.id)) in
    subst DeliveriesOk (append_assoc acc (d ∷ []) ds)
      (outputs-DeliveriesOk s r t (d.id ∷ seen) (acc ++ d ∷ []) ds h' new' rest)

-- What a completion with outputs consists of.
pub outputs-eq-ok :
    (s : RuntimeState) (id : RunId) (ds : List OutboundDeliveryRecord) (t now : ℕ)
    {s' : RuntimeState} {out : List OutboundDeliveryRecord}
    → complete_run_with_output_deliveries s id ds t now ≡ ok (s', out)
    → (r : RunRecord) × (a : RuntimeState) × (run s id ≡ some r)
      × (r.status ≡ running)
      × (r.updated_at_unix ≤ t)
      × (check_outputs s r t [] ds ≡ ok tt)
      × (update_run s id (Run.apply (Run.complete_with t (map (λ d. d.id) ds))) (max t now) ≡ ok a)
      × (a.runs ≡ s'.runs)
      × (a.outbound_deliveries ++ ds ≡ s'.outbound_deliveries)
unfolding complete_run_with_output_deliveries Run.apply
outputs-eq-ok s id ds t now e =
    let (_, c0, e0) = >>=-eq-ok (fail_if (is_nil ds) no_outputs) _ e in
    let (r, found, e1) = >>=-eq-ok (ok_or (run s id) unknown_run) _ e0 in
    let (_, c2, e2) =
      >>=-eq-ok (fail_if (not (Run.status_eq r.status running)) cannot_complete) _ e1 in
    let (_, c3, e3) = >>=-eq-ok (fail_if (ltb t r.updated_at_unix) completion_in_past) _ e2 in
    let (_, checks, e4) = >>=-eq-ok (check_outputs s r t [] ds) _ e3 in
    let (a, done, e5) =
      >>=-eq-ok
        (update_run s id (λ x. Run.complete_with_output_deliveries x t (map (λ d. d.id) ds))
          (max t now))
        _ e4 in
    (
      r,
      a,
      ok_or-eq-ok (run s id) unknown_run found,
      ground arith,
      ground arith,
      checks,
      done,
      ground arith,
      ground arith,
    )

-- The outputs of a run keep the deliveries in order.
pub outputs-DeliveriesOk_from :
    (s : RuntimeState) (r : RunRecord) (t : ℕ) (ds : List OutboundDeliveryRecord)
    → DeliveriesOk s.outbound_deliveries
    → check_outputs s r t [] ds ≡ ok tt
    → DeliveriesOk (s.outbound_deliveries ++ ds)
unfolding outbound_delivery find_delivery
outputs-DeliveriesOk_from s r t ds h e =
    outputs-DeliveriesOk s r t [] s.outbound_deliveries ds h (λ k u a. a) e
