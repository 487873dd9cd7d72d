-- ===== src/Store/Merging.antt =====
-- The chain of the `preserve` operations in `save_unlocked` of runtime/state/store/core.rs.
use ferris_agent_bridge.Run.{RunRecord}
use mathlib.Core.List.{append-nil, append_assoc}
use ferris_agent_bridge.Outbox.{OutboundDeliveryRecord}
use ferris_agent_bridge.Event.{InboundEventRecord, record_partial_eq}
use ferris_agent_bridge.Queue.{RunInputRecord, input_partial_eq, QueuedMessage}
use ferris_agent_bridge.Store.{merge_existing, merged}
use ferris_agent_bridge.State.Merge.{
  touch_all, merge_records, merge_runs, preserve_runs_from, merge_record, preserve_run_inputs_from,
  preserve_inbound_events_from, preserve_queued_messages_from, preserve_outbound_deliveries_from,
  validate_shared_inbound_event_identity, keep_unclaimed, add_candidates,
}
use ferris_agent_bridge.State.{touch_at, run, RuntimeState}
use ferris_agent_bridge.Base.Text.{text_partial_eq}
use ferris_agent_bridge.Base.{
  ℕ, ◌≡◌, refl, sym, ap, ◌∙◌, Option, none, some, List, [], ◌∷◌, ◌++◌, arith, ok, ◌==◌,
  nat_partial_eq, PartialEq, find, >>=-eq-ok, >>-eq-ok, ok-inj,
}
use ferris_agent_bridge.State
use ferris_agent_bridge.Outbox

pub touch_all-eq :
    {A : Type 0} (time : A → ℕ) (xs : List A) (s : RuntimeState)
    → (u : ℕ) × (touch_all time xs s ≡ record s { updated_at_unix = u })
unfolding touch_all touch_at
touch_all-eq time [] s = (s.updated_at_unix, refl)
touch_all-eq time (x ∷ xs) s = touch_all-eq time xs (touch_at s (time x))

pub merge_record-append :
    {A : Type 0} ⦃e : PartialEq A⦄ (x : State.Error) (c : A) (merged : List A) (found : Option A)
    {m : List A}
    → merge_record x c merged found ≡ ok m
    → (added : List A) × (m ≡ merged ++ added)
unfolding merge_record
merge_record-append x c merged none h = (c ∷ [], cc)
merge_record-append x c merged (some y) h = ([], ground (arith, append-nil merged))

-- What a loop that keeps the records of `existing` leaves: these records, and new ones after them.
pub merge_records-append :
    {A K : Type 0} ⦃e : PartialEq A⦄ ⦃k : PartialEq K⦄ (key : A → K) (x : State.Error)
    (existing merged cs : List A) {m : List A}
    → merge_records key x existing merged cs ≡ ok m
    → (added : List A) × (m ≡ merged ++ added)
unfolding merge_records
merge_records-append key x existing merged [] h = ([], ground (arith, append-nil merged))
merge_records-append key x existing merged (c ∷ cs) h =
    let found = find (λ y. key y == key c) existing in
    let (n, first, rest) = >>=-eq-ok (merge_record x c merged found) _ h in
    let (added, e) = merge_records-append key x existing n cs rest in
    let (here, e') = merge_record-append x c merged found first in
    (here ++ added, e ∙ ap (λ l. l ++ added) e' ∙ append_assoc merged here added)

pub preserve_runs_from-eq-ok :
    (s existing : RuntimeState) {s' : RuntimeState}
    → preserve_runs_from s existing ≡ ok s'
    → (m : List RunRecord) × (u : ℕ) × (merge_runs existing.runs s.runs ≡ ok m)
      × (s' ≡ record s { runs = m; updated_at_unix = u })
unfolding preserve_runs_from
preserve_runs_from-eq-ok s existing {s'} h =
    let (m, merged, end) = >>=-eq-ok (merge_runs existing.runs s.runs) _ h in
    let (u, same) = touch_all-eq (λ r. r.updated_at_unix) m s in
    (m, u, merged, ok-inj (sym end) ∙ ap (λ (x : RuntimeState). record x { runs = m }) same)

pub preserve_run_inputs_from-eq-ok :
    (s existing : RuntimeState) {s' : RuntimeState}
    → preserve_run_inputs_from s existing ≡ ok s'
    → (m : List RunInputRecord) × (u : ℕ) × (merge_records
          (λ i. i.run_id)
          State.conflicting_input
          existing.run_inputs
          existing.run_inputs
          s.run_inputs
        ≡ ok m)
      × (s' ≡ record s { run_inputs = m; updated_at_unix = u })
unfolding preserve_run_inputs_from
preserve_run_inputs_from-eq-ok s existing {s'} h =
    let (m, merged, end) =
      >>=-eq-ok
        (merge_records (λ i. i.run_id) State.conflicting_input existing.run_inputs
          existing.run_inputs s.run_inputs)
        _ h in
    let (u, same) = touch_all-eq (λ i. i.claimed_at_unix) m s in
    (m, u, merged, ok-inj (sym end) ∙ ap (λ (x : RuntimeState). record x { run_inputs = m }) same)

pub preserve_inbound_events_from-eq-ok :
    (s existing : RuntimeState) {s' : RuntimeState}
    → preserve_inbound_events_from s existing ≡ ok s'
    → (m : List InboundEventRecord) × (u : ℕ) × (merge_records
          (λ i. i.id)
          State.conflicting_event
          existing.inbound_events
          existing.inbound_events
          s.inbound_events
        ≡ ok m)
      × (s' ≡ record s { inbound_events = m; updated_at_unix = u })
unfolding preserve_inbound_events_from
preserve_inbound_events_from-eq-ok s existing {s'} h =
    let (m, merged, end) =
      >>=-eq-ok
        (merge_records (λ i. i.id) State.conflicting_event existing.inbound_events
          existing.inbound_events s.inbound_events)
        _ h in
    let (u, same) = touch_all-eq (λ e. e.recorded_at_unix) m s in
    (
      m,
      u,
      merged,
      ok-inj (sym end) ∙ ap (λ (x : RuntimeState). record x { inbound_events = m }) same,
    )

pub preserve_outbound_deliveries_from-eq-ok :
    (s existing : RuntimeState) {s' : RuntimeState}
    → preserve_outbound_deliveries_from s existing ≡ ok s'
    → (m : List OutboundDeliveryRecord) × (u : ℕ) × (merge_records ⦃e = Outbox.record_partial_eq⦄
          (λ i. i.id)
          State.conflicting_delivery
          existing.outbound_deliveries
          existing.outbound_deliveries
          s.outbound_deliveries
        ≡ ok m)
      × (s' ≡ record s { outbound_deliveries = m; updated_at_unix = u })
unfolding preserve_outbound_deliveries_from
preserve_outbound_deliveries_from-eq-ok s existing {s'} h =
    let (m, merged, end) =
      >>=-eq-ok
        (merge_records ⦃e = Outbox.record_partial_eq⦄ (λ i. i.id) State.conflicting_delivery
          existing.outbound_deliveries existing.outbound_deliveries s.outbound_deliveries)
        _ h in
    let (u, same) = touch_all-eq (λ d. d.updated_at_unix) m s in
    (
      m,
      u,
      merged,
      ok-inj (sym end) ∙ ap (λ (x : RuntimeState). record x { outbound_deliveries = m }) same,
    )

pub preserve_queued_messages_from-eq-ok :
    (s existing : RuntimeState) {s' : RuntimeState}
    → preserve_queued_messages_from s existing ≡ ok s'
    → (m : List QueuedMessage) × (u : ℕ) × (s'
        ≡ record s { queued_messages = m; updated_at_unix = u })
unfolding preserve_queued_messages_from
preserve_queued_messages_from-eq-ok s existing {s'} h =
    let (kept, first, h1) = >>=-eq-ok (keep_unclaimed s existing.queued_messages) _ h in
    let (m, merged, end) = >>=-eq-ok (add_candidates s existing kept _ s.queued_messages) _ h1 in
    let (u, same) = touch_all-eq (λ q. q.enqueued_at_unix) m s in
    (m, u, ok-inj (sym end) ∙ ap (λ (x : RuntimeState). record x { queued_messages = m }) same)

-- What a merge with `existing` leaves: its runs or later versions of them, and new run inputs, events
-- and deliveries after those of `existing`.
pub record Merged (existing s s' : RuntimeState) : Type 0 where
  pub runs : merge_runs existing.runs s.runs ≡ ok s'.runs
  pub new_inputs : List RunInputRecord
  pub inputs : s'.run_inputs ≡ existing.run_inputs ++ new_inputs
  pub merged_events :
      merge_records
        (λ i. i.id)
        State.conflicting_event
        existing.inbound_events
        existing.inbound_events
        s.inbound_events
      ≡ ok s'.inbound_events
  pub new_events : List InboundEventRecord
  pub events : s'.inbound_events ≡ existing.inbound_events ++ new_events
  pub new_deliveries : List OutboundDeliveryRecord
  pub deliveries : s'.outbound_deliveries ≡ existing.outbound_deliveries ++ new_deliveries

pub merge_existing-Merged :
    (s existing s' : RuntimeState) → merge_existing s existing ≡ ok s' → Merged existing s s'
unfolding merge_existing
merge_existing-Merged s existing s' h =
    let (shared, h0) = >>-eq-ok (validate_shared_inbound_event_identity s existing) _ h in
    let (s1, e1, h1) = >>=-eq-ok (preserve_runs_from s existing) _ h0 in
    let (s2, e2, h2) = >>=-eq-ok (preserve_run_inputs_from s1 existing) _ h1 in
    let (s3, e3, h3) = >>=-eq-ok (preserve_inbound_events_from s2 existing) _ h2 in
    let (s4, e4, h4) = >>=-eq-ok (preserve_queued_messages_from s3 existing) _ h3 in
    let (m1, u1, runs, f1) = preserve_runs_from-eq-ok s existing e1 in
    let (m2, u2, inputs, f2) = preserve_run_inputs_from-eq-ok s1 existing e2 in
    let (m3, u3, events, f3) = preserve_inbound_events_from-eq-ok s2 existing e3 in
    let (m4, u4, f4) = preserve_queued_messages_from-eq-ok s3 existing e4 in
    let (m5, u5, deliveries, f5) = preserve_outbound_deliveries_from-eq-ok s4 existing h4 in
    let (new_inputs, after_inputs) =
      merge_records-append (λ i. i.run_id) State.conflicting_input existing.run_inputs
        existing.run_inputs s1.run_inputs inputs in
    let (new_events, after_events) =
      merge_records-append (λ i. i.id) State.conflicting_event existing.inbound_events
        existing.inbound_events s2.inbound_events events in
    let (new_deliveries, after_deliveries) =
      merge_records-append ⦃e = Outbox.record_partial_eq⦄ (λ i. i.id) State.conflicting_delivery
        existing.outbound_deliveries existing.outbound_deliveries s4.outbound_deliveries
        deliveries in
    let same_events : s'.inbound_events ≡ m3 =
      ap (λ x. x.inbound_events) f5
      ∙ ap (λ x. x.inbound_events) f4
      ∙ ap (λ x. x.inbound_events) f3 in
    let same_runs : s'.runs ≡ m1 =
      ap (λ x. x.runs) f5
      ∙ ap (λ x. x.runs) f4
      ∙ ap (λ x. x.runs) f3
      ∙ ap (λ x. x.runs) f2
      ∙ ap (λ x. x.runs) f1 in
    record {
      runs = runs ∙ ap ok (sym same_runs);
      new_inputs = new_inputs;
      inputs =
          ap (λ x. x.run_inputs) f5
          ∙ ap (λ x. x.run_inputs) f4
          ∙ ap (λ x. x.run_inputs) f3
          ∙ ap (λ x. x.run_inputs) f2
          ∙ after_inputs;
      merged_events =
          ap
            (merge_records (λ i. i.id) State.conflicting_event existing.inbound_events
              existing.inbound_events)
            (sym (ap (λ x. x.inbound_events) f2 ∙ ap (λ x. x.inbound_events) f1))
          ∙ events
          ∙ ap ok (sym same_events);
      new_events = new_events;
      events = same_events ∙ after_events;
      new_deliveries = new_deliveries;
      deliveries = ap (λ x. x.outbound_deliveries) f5 ∙ after_deliveries;
    }
