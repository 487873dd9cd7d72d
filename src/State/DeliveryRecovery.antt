-- ===== src/State/DeliveryRecovery.antt =====
-- Startup recovery of deliveries: it succeeds on valid records, and reports what someone has to
-- reconcile.
use ferris_agent_bridge.Base.{
  ℕ, max, ◌≡◌, ◌≢◌, refl, subst, Bool, false, List, [], ◌∷◌, map, Option, none, some, ok, All,
  arith, is_some, retain, ◌==◌,
}
use ferris_agent_bridge.Ids.{OutboundDeliveryId, is_blank}
use ferris_agent_bridge.Outbox.{
  OutboundDeliveryRecord, delivering, uncertain, status_partial_eq, mark_uncertain,
}
use ferris_agent_bridge.Outbox.Valid.{IsValid}
use ferris_agent_bridge.State.{RuntimeState, touch_at}
use ferris_agent_bridge.State.Startup.{
  latest_of, touch_latest, recover_delivery, required, recover_deliveries,
  reconcile_outbound_deliveries_at_startup, startup_recovery_diagnostic,
}

-- The delivery after one round: a delivery in flight is uncertain, from a time not before its last
-- update.
abbrev pub recovered_delivery : ℕ → OutboundDeliveryRecord → OutboundDeliveryRecord
recovered_delivery t d = elim d.status [
  | delivering ↦ record d {
    status = uncertain;
    updated_at_unix = max t d.updated_at_unix;
    delivered_at_unix = none;
    last_error = some startup_recovery_diagnostic;
  }
  | _ ↦ d
]

abbrev pub recovered_at : ℕ → OutboundDeliveryRecord → Option ℕ
recovered_at t d = elim d.status [ delivering ↦ some (max t d.updated_at_unix) | _ ↦ none ]

diagnostic_given : is_blank startup_recovery_diagnostic ≡ false
unfolding is_blank
diagnostic_given = refl

recover_delivery_lem :
    (t : ℕ) (d : OutboundDeliveryRecord)
    → IsValid d
    → recover_delivery t d ≡ ok (recovered_delivery t d, recovered_at t d)
unfolding recover_delivery mark_uncertain
recover_delivery_lem t d v = ground (arith, diagnostic_given)

-- The ids of the deliveries whose outcome is unknown.
abbrev pub uncertain_ids : List OutboundDeliveryRecord → List OutboundDeliveryId
uncertain_ids ds = map (λ d. d.id) (retain (λ d. d.status == uncertain) ds)

latest_recovered : ℕ → List OutboundDeliveryRecord → Option ℕ
latest_recovered t [] = none
latest_recovered t (d ∷ ds) = latest_of (recovered_at t d) (latest_recovered t ds)

recovered_delivery-IsValid :
    (t : ℕ) (d : OutboundDeliveryRecord) → IsValid d → IsValid (recovered_delivery t d)
recovered_delivery-IsValid t d v = ground (arith, diagnostic_given)

recovered_delivery-required :
    (t : ℕ) (d : OutboundDeliveryRecord) (ds : List OutboundDeliveryRecord)
    → required d (uncertain_ids ds) ≡ uncertain_ids (recovered_delivery t d ∷ ds)
unfolding retain
recovered_delivery-required t d ds = ground arith

recover_deliveries_lem :
    (t : ℕ) (ds : List OutboundDeliveryRecord)
    → All IsValid ds
    → recover_deliveries t ds
      ≡ ok (record {
        records = map (recovered_delivery t) ds;
        report = uncertain_ids (map (recovered_delivery t) ds);
        latest = latest_recovered t ds;
      })
unfolding recover_deliveries latest_recovered retain
recover_deliveries_lem t [] v = refl
recover_deliveries_lem t (d ∷ ds) v =
    rw
      (
        recover_delivery_lem t d v.0,
        recover_deliveries_lem t ds v.1,
        recovered_delivery-required t d (map (recovered_delivery t) ds),
      )
      refl

settled : (t : ℕ) (d : OutboundDeliveryRecord) → (recovered_delivery t d).status ≢ delivering
settled t d = ground arith

-- What recovery leaves of the deliveries.
pub record Reconciled (t : ℕ) (before after : List OutboundDeliveryRecord) : Type 0 where
  pub records : after ≡ map (recovered_delivery t) before
  pub valid : All IsValid after
  pub none_in_flight : All (λ d. d.status ≢ delivering) after

recovered-Reconciled :
    (t : ℕ) (ds : List OutboundDeliveryRecord)
    → All IsValid ds
    → Reconciled t ds (map (recovered_delivery t) ds)
recovered-Reconciled t ds v = record {
  records = refl;
  valid = all_valid ds v;
  none_in_flight = all_settled ds;
}
  where
    all_valid :
        (ds : List OutboundDeliveryRecord)
        → All IsValid ds
        → All IsValid (map (recovered_delivery t) ds)
    all_valid [] v = tt
    all_valid (d ∷ ds) v = (recovered_delivery-IsValid t d v.0, all_valid ds v.1)

    all_settled :
        (ds : List OutboundDeliveryRecord)
        → All (λ d. d.status ≢ delivering) (map (recovered_delivery t) ds)
    all_settled [] = tt
    all_settled (d ∷ ds) = (settled t d, all_settled ds)

touch_latest-deliveries :
    (s : RuntimeState) (l : Option ℕ)
    → s.outbound_deliveries ≡ (touch_latest s l).outbound_deliveries
unfolding touch_at
touch_latest-deliveries s none = refl
touch_latest-deliveries s (some t) = refl

-- On a state of valid deliveries recovery succeeds. It makes every delivery in flight uncertain and
-- leaves the others, keeps all of them valid, and reports exactly the ids of the deliveries that are
-- uncertain afterwards.
pub deliveries-Reconciled :
    (s : RuntimeState) (t : ℕ)
    → All IsValid s.outbound_deliveries
    → (s' : RuntimeState) × (changed : Bool) × (reconcile_outbound_deliveries_at_startup s t
        ≡ ok (s', uncertain_ids s'.outbound_deliveries, changed))
      × Reconciled t s.outbound_deliveries s'.outbound_deliveries
unfolding reconcile_outbound_deliveries_at_startup
deliveries-Reconciled s t v =
    let ds = s.outbound_deliveries in
    let ds' = map (recovered_delivery t) ds in
    let s' = touch_latest (record s { outbound_deliveries = ds' }) (latest_recovered t ds) in
    let same =
      touch_latest-deliveries (record s { outbound_deliveries = ds' }) (latest_recovered t ds) in
    (
      s',
      is_some (latest_recovered t ds),
      rw (← same, recover_deliveries_lem t ds v) refl,
      subst (Reconciled t ds) same (recovered-Reconciled t ds v),
    )
