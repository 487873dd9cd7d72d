-- ===== src/Worker/Handoff.antt =====
-- The state file at the time when runtime/outbox/worker.rs calls the adapter.
use ferris_agent_bridge.Worker
use ferris_agent_bridge.Worker.Ending.{IsEnd, finish-IsEnd}
use ferris_agent_bridge.Store.Transact.{transact-eq-ok}
use ferris_agent_bridge.State.Consistent.{validate-Consistent}
use ferris_agent_bridge.Store.Save.{write_unlocked-eq-ok}
use ferris_agent_bridge.Adapter.{ImAdapter}
use ferris_agent_bridge.Worker.{
  after_claim, process_next, finish, Round, deferred, next_deferred, OutboxWorkerOutcome,
}
use ferris_agent_bridge.Outbox
use ferris_agent_bridge.State.Deliveries.{
  claim_next_outbound_delivery_where, claimed_state, claim_first,
}
use ferris_agent_bridge.Session.{SessionScope}
use ferris_agent_bridge.State.DeliveryInvariant.{delivery_ids, claim_first-begins}
use ferris_agent_bridge.State.Validate.{validate}
use ferris_agent_bridge.Outbox.Retry.{OutboundRetryPolicy, is_due}
use ferris_agent_bridge.Outbox.{
  OutboundDeliveryAttempt, OutboundDeliveryRecord, attempt_from_record, can_begin,
}
use ferris_agent_bridge.Format.Current.{SerdeJson, state_file_from_state}
use ferris_agent_bridge.Store.Deliveries.{claim_next_outbound_delivery_attempt, decide_claim}
use ferris_agent_bridge.Store.{
  transact, Disk, Env, Effect, perform, lock_error, both, load, write_state, leave,
}
use ferris_agent_bridge.State.{find_delivery, RuntimeState, outbound_delivery, touch_at, session}
use ferris_agent_bridge.Base.Text.{text_partial_eq}
use ferris_agent_bridge.Base.{
  ℕ, ◌≡◌, refl, sym, ap, ◌∙◌, subst, ◌⊎◌, inl, inr, Bool, ◌&&◌, Option, none, some, List, arith,
  Result, ok, err, ◌>>=◌, ok_or, map_err, ◌==◌, nat_partial_eq, find, >>=-eq-ok, map_err-eq-ok,
  update_first, Distinct, ok-inj, find_key-update_first, Result-cases,
}
use ferris_agent_bridge.State
use ferris_agent_bridge.Store

-- The state file holds the claim of the attempt: a valid state in which the delivery is under way, with
-- the number, the message and the id of the attempt.
pub record IsClaimed (J : SerdeJson) (disk : Disk J) (a : OutboundDeliveryAttempt) : Type 0 where
  pub state : RuntimeState
  pub valid : validate state ≡ ok tt
  pub written : disk ≡ some (state_file_from_state J state)
  pub delivery : OutboundDeliveryRecord
  pub found : outbound_delivery state a.delivery_id ≡ some delivery
  pub under_way : delivery.status ≡ Outbox.delivering
  pub numbered : a.attempt_number ≡ delivery.delivery_attempts
  pub same_message : a.message ≡ delivery.message

attempt_from_record-eq-ok :
    (d : OutboundDeliveryRecord) (x : SessionScope) {a : OutboundDeliveryAttempt}
    → attempt_from_record d x ≡ ok a
    → (d.status ≡ Outbox.delivering)
      × (a.delivery_id ≡ d.id)
      × (a.attempt_number ≡ d.delivery_attempts)
      × (a.message ≡ d.message)
unfolding attempt_from_record
attempt_from_record-eq-ok d x h = (ground arith, ground arith, ground arith, ground arith)

-- What a decision to hand over an attempt is.
decide_claim-eq-ok :
    (e : Env) (t : ℕ) (policy : OutboundRetryPolicy) (s : RuntimeState) {f : Effect}
    {a : OutboundDeliveryAttempt}
    → decide_claim e t policy s ≡ ok (f, some a)
    → (s' : RuntimeState) × (d : OutboundDeliveryRecord) × (claim_next_outbound_delivery_where s t
          (λ x. is_due policy x t)
          e.now
        ≡ ok (s', some d))
      × (f ≡ write_state s')
      × (x : SessionScope) × (attempt_from_record d x ≡ ok a)
unfolding decide_claim
decide_claim-eq-ok e t policy s {f} {a} h =
    let ((s', found), claimed, h1) =
      >>=-eq-ok
        (map_err Store.state_error
          (claim_next_outbound_delivery_where s t (λ x. is_due policy x t) e.now))
        _ h in
    after s' found (map_err-eq-ok Store.state_error _ claimed) h1
  where
    after :
        (s' : RuntimeState) (found : Option OutboundDeliveryRecord)
        → claim_next_outbound_delivery_where s t (λ x. is_due policy x t) e.now ≡ ok (s', found)
        → (elim found as (λ _. Result Store.Error (Effect × Option OutboundDeliveryAttempt)) [
          | none ↦ ok (leave, none)
          | some d ↦ do
            x ← ok_or (session s' d.session_id) (Store.state_error State.unknown_session)
            attempt ← map_err Store.delivery_error (attempt_from_record d x.scope)
            ok (write_state s', some attempt)
        ])
          ≡ ok (f, some a)
        → (s' : RuntimeState) × (d : OutboundDeliveryRecord) × (claim_next_outbound_delivery_where s
              t
              (λ x. is_due policy x t)
              e.now
            ≡ ok (s', some d))
          × (f ≡ write_state s')
          × (x : SessionScope) × (attempt_from_record d x ≡ ok a)
    after s' none c k = absurd (cc)
    after s' (some d) c k =
        let (x, known, k1) =
          >>=-eq-ok (ok_or (session s' d.session_id) (Store.state_error State.unknown_session)) _
            k in
        let (attempt, made, k2) =
          >>=-eq-ok (map_err Store.delivery_error (attempt_from_record d x.scope)) _ k1 in
        let same : attempt ≡ a = ground arith in
        (s', d, c, ground arith, x.scope, map_err-eq-ok Store.delivery_error _ made ∙ ap ok same)

-- The delivery that a claim returns is in the new state.
claimed-found :
    (s : RuntimeState) (t : ℕ) (eligible : OutboundDeliveryRecord → Bool) (now : ℕ)
    {s' : RuntimeState} {d : OutboundDeliveryRecord}
    → claim_next_outbound_delivery_where s t eligible now ≡ ok (s', some d)
    → Distinct (delivery_ids s'.outbound_deliveries)
    → outbound_delivery s' d.id ≡ some d
unfolding claim_next_outbound_delivery_where claimed_state touch_at outbound_delivery find_delivery
claimed-found s t eligible now {s'} {d} h distinct =
    let (c, found, end) = >>=-eq-ok (claim_first eligible t s.outbound_deliveries) _ h in
    after c found (ok-inj end)
  where
    after :
        (c : Option (OutboundDeliveryRecord × List OutboundDeliveryRecord))
        → claim_first eligible t s.outbound_deliveries ≡ ok c
        → claimed_state s c now ≡ (s', some d)
        → outbound_delivery s' d.id ≡ some d
    after none found end = absurd (cc)
    after (some (v, ds)) found end =
        let (x, at, begun, replaced) = claim_first-begins eligible t s.outbound_deliveries found in
        let v_d : v ≡ d = cc in
        let here : s'.outbound_deliveries
            ≡ update_first (λ y. can_begin y.status && eligible y) d s.outbound_deliveries =
          ground arith in
        ap (find (λ y. y.id == d.id)) here
        ∙ find_key-update_first (λ y. y.id) (λ y. can_begin y.status && eligible y) x d
            s.outbound_deliveries at (subst (λ l. Distinct (delivery_ids l)) here distinct)

claim-IsClaimed :
    (J : SerdeJson) (e : Env) (disk : Disk J) (t : ℕ) (policy : OutboundRetryPolicy)
    (a : OutboundDeliveryAttempt)
    → (claim_next_outbound_delivery_attempt J e disk t policy).1 ≡ ok (some a)
    → IsClaimed J (claim_next_outbound_delivery_attempt J e disk t policy).0 a
unfolding claim_next_outbound_delivery_attempt perform
claim-IsClaimed J e disk t policy a h =
    let (s, f, decided, done, left, _) = transact-eq-ok J e disk (decide_claim e t policy) h in
    let (s', d, claimed, writes, x, made) = decide_claim-eq-ok e t policy s decided in
    let (active, same_id, same_number, same_message) = attempt_from_record-eq-ok d x made in
    let (valid, file) =
      write_unlocked-eq-ok J e disk s' (ap (λ g. (perform J e disk g).1) (sym writes) ∙ done) in
    record {
      state = s';
      valid = valid;
      written = left ∙ ap (λ g. (perform J e disk g).0) writes ∙ file;
      delivery = d;
      found =
          ap (outbound_delivery s') same_id
          ∙ claimed-found s t _ e.now claimed (validate-Consistent s' valid).deliveries_ok.distinct;
      under_way = active;
      numbered = same_number;
      same_message = same_message;
    }

-- A round whose claim hands over no attempt returns the error of the claim, or is idle if the state can
-- be loaded.
abbrev pub IsQuiet :
    Result Store.Error (Option OutboundDeliveryAttempt)
    → Result Worker.Error OutboxWorkerOutcome
    → Type 0
IsQuiet claim m =
    ((x : Store.Error) × (claim ≡ err x) × (m ≡ err (Worker.claim_failed x)))
    ⊎ ((claim ≡ ok none)
        × (((x : Store.Error) × (m ≡ err (Worker.inspect_failed x)))
            ⊎ ((t : Option ℕ) × (m ≡ ok (Worker.idle t)))))

deferred-IsQuiet :
    (J : SerdeJson) (A : ImAdapter) (policy : OutboundRetryPolicy) (w : Round) (disk : Disk J)
    → IsQuiet (ok none) (deferred J A policy w disk)
unfolding deferred
deferred-IsQuiet J A policy w disk = elim (Result-cases (load J w.inspecting disk)) [
  | inl (s, loads) ↦ inr (refl, inr (next_deferred policy s.outbound_deliveries, rw loads refl))
  | inr (x, bad) ↦ inr (refl, inl (x, rw bad refl))
]

-- One round of the worker. Where the claim hands over no attempt, the adapter is left alone, and the
-- round returns an error or is idle. Otherwise the adapter is called once, with an attempt whose claim
-- is in the state file by then. After that either the round returns an error and leaves this file, for
-- one of the reasons for which the store refuses a mark; or the answer of the adapter is on the
-- delivery in the file of a valid state, the rest of which, but for its update time, is as it was
-- loaded from this file, and the round returns the outcome, or an error if the directory could not be
-- synchronized.
pub handoff-IsClaimed :
    (J : SerdeJson) (A : ImAdapter) (policy : OutboundRetryPolicy) (w : Round) (disk : Disk J)
    (adapter : A.Self)
    → let p = process_next J A policy w disk adapter in
      let claim = claim_next_outbound_delivery_attempt J w.claiming disk w.started policy in
      ((p.adapter ≡ adapter) × (p.disk ≡ claim.0) × IsQuiet claim.1 p.answer)
      ⊎ ((a : OutboundDeliveryAttempt) × (claim.1 ≡ ok (some a))
          × IsClaimed J claim.0 a
          × (p.adapter ≡ (A.deliver_outbound_message adapter a).0)
          × IsEnd J A policy w claim.0 a (A.deliver_outbound_message adapter a).1 p.disk p.answer)
unfolding process_next after_claim
handoff-IsClaimed J A policy w disk adapter =
    after (claim_next_outbound_delivery_attempt J w.claiming disk w.started policy)
      (claim-IsClaimed J w.claiming disk w.started policy)
  where
    after :
        (claim : Disk J × Result Store.Error (Option OutboundDeliveryAttempt))
        → ((a : OutboundDeliveryAttempt) → claim.1 ≡ ok (some a) → IsClaimed J claim.0 a)
        → let p = after_claim J A policy w adapter claim in
          ((p.adapter ≡ adapter) × (p.disk ≡ claim.0) × IsQuiet claim.1 p.answer)
          ⊎ ((a : OutboundDeliveryAttempt) × (claim.1 ≡ ok (some a))
              × IsClaimed J claim.0 a
              × (p.adapter ≡ (A.deliver_outbound_message adapter a).0)
              × IsEnd J A policy w claim.0 a
                  (A.deliver_outbound_message adapter a).1
                  p.disk
                  p.answer)
    after (d, err x) h = inl (refl, refl, inl (x, refl, refl))
    after (d, ok none) h = inl (refl, refl, deferred-IsQuiet J A policy w d)
    after (d, ok (some a)) h =
        let (adapter', answer) = A.deliver_outbound_message adapter a in
        let (called, ends) = finish-IsEnd J A policy w d a adapter' answer in
        inr (a, refl, h a refl, called, ends)
