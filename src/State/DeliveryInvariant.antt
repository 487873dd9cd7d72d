-- ===== src/State/DeliveryInvariant.antt =====
-- What holds of the deliveries of a state: they are valid and have distinct ids. Every operation
-- on deliveries keeps it.
use ferris_agent_bridge.Base.{
  ℕ, max, ◌≡◌, sym, ap, ◌∙◌, subst, Bool, false, ◌&&◌, ◌⊎◌, inl, inr, List, [], ◌∷◌, ◌++◌, map,
  Option, none, some, Result, ok, err, map_err, map_ok, All, arith, find, update_first, Distinct,
  ◌==◌, is_some, All-append, All-update_first, find-All, map-update_first, Bool-cases, >>=-eq-ok,
  map_err-eq-ok, ok_or, ok_or-eq-ok, Distinct-keys-snoc, find_key-contains, Option-cases,
}
use ferris_agent_bridge.Base.Text.{text_partial_eq}
use ferris_agent_bridge.Ids.{OutboundDeliveryId}
use ferris_agent_bridge.Message.{author_partial_eq}
use ferris_agent_bridge.Outbox.{
  OutboundDeliveryRecord, can_begin, begin_delivery, pending, status_partial_eq, record_partial_eq,
}
use ferris_agent_bridge.Outbox
use ferris_agent_bridge.Outbox.Valid.{IsValid, apply-IsValid, delivery_validate_iff}
use ferris_agent_bridge.Outbox.Life.{apply-Effect}
use ferris_agent_bridge.State.{
  RuntimeState, Error, delivery_error, unknown_delivery, touch_at, outbound_delivery, find_delivery,
}
use ferris_agent_bridge.State.Deliveries.{
  enqueue_outbound_delivery, keep, claim_first, claim_next_outbound_delivery_where, update_delivery,
  OutboundDeliveryEnqueueStatus, claimed_state,
}

abbrev pub delivery_ids : List OutboundDeliveryRecord → List OutboundDeliveryId
delivery_ids = map (λ d. d.id)

pub record DeliveriesOk (ds : List OutboundDeliveryRecord) : Type 0 where
  pub valid : All IsValid ds
  pub distinct : Distinct (delivery_ids ds)

pub DeliveriesOk-snoc :
    (d : OutboundDeliveryRecord) (ds : List OutboundDeliveryRecord)
    → DeliveriesOk ds
    → IsValid d
    → is_some (find (λ x. x.id == d.id) ds) ≡ false
    → DeliveriesOk (ds ++ d ∷ [])
DeliveriesOk-snoc d ds h v new = record {
  valid = All-append IsValid ds (d ∷ []) h.valid (v, tt);
  distinct =
      Distinct-keys-snoc (λ x. x.id) d ds h.distinct (find_key-contains (λ x. x.id) d.id ds new);
}

-- The update of the first delivery of a test by a transition keeps the deliveries in order.
pub DeliveriesOk-update_first :
    (p : OutboundDeliveryRecord → Bool) (o : Outbox.Transition) (d : OutboundDeliveryRecord)
    {d' : OutboundDeliveryRecord} (ds : List OutboundDeliveryRecord)
    → DeliveriesOk ds
    → find p ds ≡ some d
    → Outbox.apply o d ≡ ok d'
    → DeliveriesOk (update_first p d' ds)
DeliveriesOk-update_first p o d {d'} ds h found done =
    let valid = apply-IsValid o d (find-All IsValid p ds d h.valid found) done in
    let same = (apply-Effect o d d' done).same_id in
    record {
      valid = All-update_first IsValid p d' ds valid h.valid;
      distinct =
          subst Distinct (sym (map-update_first (λ x. x.id) p d' ds d found same)) h.distinct;
    }

pub update_delivery-eq-ok :
    (s : RuntimeState) (id : OutboundDeliveryId)
    (f : OutboundDeliveryRecord → Result Outbox.Error OutboundDeliveryRecord) (now : ℕ)
    {s' : RuntimeState} {d' : OutboundDeliveryRecord}
    → update_delivery s id f now ≡ ok (s', d')
    → (d : OutboundDeliveryRecord) × (find (λ x. x.id == id) s.outbound_deliveries ≡ some d)
      × (f d ≡ ok d')
      × (s'
          ≡ touch_at
              (record s {
                outbound_deliveries = update_first (λ x. x.id == id) d' s.outbound_deliveries;
              })
              (max d'.updated_at_unix now))
unfolding update_delivery outbound_delivery find_delivery
update_delivery-eq-ok s id f now {s'} {d'} e =
    let (d, found, rest) = >>=-eq-ok (ok_or (outbound_delivery s id) unknown_delivery) _ e in
    let (v, done, end) = >>=-eq-ok (map_err delivery_error (f d)) _ rest in
    let same : v ≡ d' = cc in
    (
      d,
      ok_or-eq-ok (outbound_delivery s id) unknown_delivery found,
      map_err-eq-ok delivery_error (f d) done ∙ ap ok same,
      ground arith,
    )

-- A transition of a delivery keeps the deliveries in order.
pub update_delivery-DeliveriesOk :
    (s : RuntimeState) (id : OutboundDeliveryId) (o : Outbox.Transition) (now : ℕ)
    {s' : RuntimeState} {d' : OutboundDeliveryRecord}
    → DeliveriesOk s.outbound_deliveries
    → update_delivery s id (Outbox.apply o) now ≡ ok (s', d')
    → DeliveriesOk s'.outbound_deliveries
unfolding touch_at
update_delivery-DeliveriesOk s id o now {s'} {d'} h e =
    let (d, found, done, after) = update_delivery-eq-ok s id (Outbox.apply o) now e in
    subst (λ x. DeliveriesOk x.outbound_deliveries) (sym after)
      (DeliveriesOk-update_first (λ x. x.id == id) o d s.outbound_deliveries h found done)

enqueue-eq-ok :
    (s : RuntimeState) (d : OutboundDeliveryRecord) (now : ℕ) {s' : RuntimeState}
    {status : OutboundDeliveryEnqueueStatus}
    → enqueue_outbound_delivery s d now ≡ ok (s', status)
    → (s'.outbound_deliveries ≡ s.outbound_deliveries)
      ⊎ ((Outbox.validate d ≡ ok tt)
          × (is_some (outbound_delivery s d.id) ≡ false)
          × (s'.outbound_deliveries ≡ s.outbound_deliveries ++ d ∷ []))
unfolding enqueue_outbound_delivery touch_at
enqueue-eq-ok s d now {s'} {status} e = elim (Option-cases (outbound_delivery s d.id)) [
  | inl none_found ↦ inr (ground arith)
  | inr (x, found) ↦ inl (ground arith)
]

-- A delivery that is enqueued keeps the deliveries in order.
pub enqueue-DeliveriesOk :
    (s : RuntimeState) (d : OutboundDeliveryRecord) (now : ℕ) {s' : RuntimeState}
    {status : OutboundDeliveryEnqueueStatus}
    → DeliveriesOk s.outbound_deliveries
    → enqueue_outbound_delivery s d now ≡ ok (s', status)
    → DeliveriesOk s'.outbound_deliveries
unfolding outbound_delivery find_delivery
enqueue-DeliveriesOk s d now {s'} h e = elim (enqueue-eq-ok s d now e) [
  | inl same ↦ subst DeliveriesOk (sym same) h
  | inr (checked, new, appended) ↦
      subst DeliveriesOk (sym appended)
        (DeliveriesOk-snoc d s.outbound_deliveries h ((delivery_validate_iff d).0 checked) new)
]

-- The loop of a claim begins one delivery and keeps the others.
pub claim_first-begins :
    (eligible : OutboundDeliveryRecord → Bool) (t : ℕ) (ds : List OutboundDeliveryRecord)
    {d' : OutboundDeliveryRecord} {ds' : List OutboundDeliveryRecord}
    → claim_first eligible t ds ≡ ok (some (d', ds'))
    → (d : OutboundDeliveryRecord) × (find (λ x. can_begin x.status && eligible x) ds ≡ some d)
      × (Outbox.begin_delivery d t ≡ ok d')
      × (ds' ≡ update_first (λ x. can_begin x.status && eligible x) d' ds)
unfolding claim_first find update_first
claim_first-begins eligible t [] e = absurd (cc)
claim_first-begins eligible t (x ∷ ds) {d'} {ds'} e =
    elim (Bool-cases (can_begin x.status && eligible x)) [
      | inl hit ↦
          let head : map_ok {B = Option (OutboundDeliveryRecord × List OutboundDeliveryRecord)}
                (λ a. some (a, a ∷ ds)) (map_err delivery_error (begin_delivery x t))
              ≡ ok (some (d', ds')) =
            ground arith in
          let (done, after) = map_ok_begin (begin_delivery x t) head in
          (x, ground arith, done, ground arith)
      | inr miss ↦
          let kept : map_ok (keep x) (claim_first eligible t ds) ≡ ok (some (d', ds')) =
            ground arith in
          let (rest, m, same) = map_ok_keep (claim_first eligible t ds) kept in
          let (d, found, done, after) = claim_first-begins eligible t ds m in
          (d, ground arith, done, ground arith)
    ]
  where
    map_ok_begin :
        (m : Result Outbox.Error OutboundDeliveryRecord)
        → map_ok {B = Option (OutboundDeliveryRecord × List OutboundDeliveryRecord)}
            (λ a. some (a, a ∷ ds))
            (map_err delivery_error m)
          ≡ ok (some (d', ds'))
        → (m ≡ ok d') × (ds' ≡ d' ∷ ds)
    map_ok_begin (ok a) h = (ground arith, ground arith)
    map_ok_begin (err b) h = absurd (cc)

    map_ok_keep :
        (m : Result Error (Option (OutboundDeliveryRecord × List OutboundDeliveryRecord)))
        → map_ok (keep x) m ≡ ok (some (d', ds'))
        → (rest : List OutboundDeliveryRecord) × (m ≡ ok (some (d', rest))) × (ds' ≡ x ∷ rest)
    map_ok_keep (ok none) h = absurd (cc)
    map_ok_keep (ok (some (c, rest))) h = (rest, ground arith, ground arith)
    map_ok_keep (err b) h = absurd (cc)

-- A claim keeps the deliveries in order.
pub claim_next-DeliveriesOk :
    (s : RuntimeState) (t : ℕ) (eligible : OutboundDeliveryRecord → Bool) (now : ℕ)
    {s' : RuntimeState} {d : Option OutboundDeliveryRecord}
    → DeliveriesOk s.outbound_deliveries
    → claim_next_outbound_delivery_where s t eligible now ≡ ok (s', d)
    → DeliveriesOk s'.outbound_deliveries
unfolding claim_next_outbound_delivery_where touch_at Outbox.apply claimed_state
claim_next-DeliveriesOk s t eligible now {s'} {d} h e =
    let (claimed, found, end) = >>=-eq-ok (claim_first eligible t s.outbound_deliveries) _ e in
    after_claim claimed found (ground arith)
  where
    after_claim :
        (c : Option (OutboundDeliveryRecord × List OutboundDeliveryRecord))
        → claim_first eligible t s.outbound_deliveries ≡ ok c
        → claimed_state s c now ≡ (s', d)
        → DeliveriesOk s'.outbound_deliveries
    after_claim none found end =
        let same : s ≡ s' = ground arith in subst (λ x. DeliveriesOk x.outbound_deliveries) same h
    after_claim (some (d', ds')) found end =
        let (x, at, done, after) = claim_first-begins eligible t s.outbound_deliveries found in
        let same : ds' ≡ s'.outbound_deliveries = ground arith in
        subst DeliveriesOk (sym after ∙ same) (
          DeliveriesOk-update_first (λ y. can_begin y.status && eligible y) (Outbox.begin_at t) x
            s.outbound_deliveries h at done)
