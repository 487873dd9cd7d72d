-- ===== src/Orchestrator/Acknowledged.antt =====
-- The state file at the time when runtime/orchestrator.rs acknowledges a delivery.
use ferris_agent_bridge.Store.Transact.{transact-eq-ok}
use ferris_agent_bridge.Store.Replay.{load_written, load_again}
use ferris_agent_bridge.Format.Records.{IsFaithful}
use ferris_agent_bridge.Adapter.{ImAdapter, InboundDelivery}
use ferris_agent_bridge.State.Merge.{merge_records}
use ferris_agent_bridge.Store.Save.{chain-eq-ok, write_unlocked-eq-ok}
use ferris_agent_bridge.Orchestrator.{accept_inbound_delivery, acknowledge}
use ferris_agent_bridge.Store.Merging.{merge_existing-Merged}
use ferris_agent_bridge.Store.Messages.{persist_inbound_event}
use ferris_agent_bridge.State.Validate.{validate}
use ferris_agent_bridge.Queue.{QueuedMessage}
use ferris_agent_bridge.Format.Current.{SerdeJson, state_file_from_state}
use ferris_agent_bridge.State.{has_inbound_event, touch_at, inbound_event, RuntimeState}
use ferris_agent_bridge.State.Inbound.{
  push_queued, record_inbound_event, record_inbound_event_at, queued_message_for_event,
}
use ferris_agent_bridge.Store.{
  snapshot, merged, Env, Disk, leave, save_state, save_unlocked, merge_existing, perform,
  write_unlocked, load_existing_for_merge, load, validate_snapshot_outbound_additions,
  validate_snapshot_run_input_additions, Effect, validate_snapshot_agent_run_transitions,
  validate_snapshot_run_output_additions,
}
use ferris_agent_bridge.State.Idempotence.{first_arrival}
use ferris_agent_bridge.Store.Kept.{find-append_right, merge_records-has}
use ferris_agent_bridge.Event
use ferris_agent_bridge.Event.{
  record_partial_eq, recorded, duplicate, Event, EventId, InboundEventRecordStatus,
}
use mathlib.Core.List.{append-nil}
use ferris_agent_bridge.Base.Text.{text_partial_eq}
use ferris_agent_bridge.Base.{
  ℕ, ◌≡◌, refl, sym, ap, ◌∙◌, ◌⊎◌, inl, inr, true, false, Option, none, some, [], ◌∷◌, ◌++◌, arith,
  Result, ok, err, map_err, ◌==◌, nat_partial_eq, find, is_some, >>=-eq-ok, >>-eq-ok, map_err-eq-ok,
  eq_refl, ok-inj, Option-cases,
}
use ferris_agent_bridge.State
use ferris_agent_bridge.Store

push_queued-events :
    (s : RuntimeState) (q : Option QueuedMessage)
    → (push_queued s q).inbound_events ≡ s.inbound_events
unfolding push_queued touch_at
push_queued-events s none = refl
push_queued-events s (some q) = refl

-- A recorded event is in the ledger of the next state.
recorded-has_event :
    (s : RuntimeState) (ev : Event) (now : ℕ) {s' : RuntimeState}
    → record_inbound_event s ev now ≡ ok (s', recorded)
    → has_inbound_event s' ev.id ≡ true
unfolding record_inbound_event has_inbound_event inbound_event touch_at
recorded-has_event s ev now {s'} h =
    let (q, r, looked, first, same_id, received, after) = first_arrival s ev now h in
    let events : s'.inbound_events ≡ s.inbound_events ++ r ∷ [] =
      ap (λ x. x.inbound_events) after
      ∙ push_queued-events (record s { inbound_events = s.inbound_events ++ r ∷ [] }) q in
    ap (λ l. is_some (find (λ x. x.id == ev.id) l)) events
    ∙ find-append_right (λ x. x.id == ev.id) s.inbound_events r
        (ap (λ i. i == ev.id) same_id ∙ eq_refl ev.id)

-- A duplicate is in the ledger already, and changes nothing.
duplicate-has_event :
    (s : RuntimeState) (ev : Event) (now : ℕ) {s' : RuntimeState}
    → record_inbound_event s ev now ≡ ok (s', duplicate)
    → has_inbound_event s ev.id ≡ true
unfolding record_inbound_event record_inbound_event_at has_inbound_event Event.from_event Event.new
duplicate-has_event s ev now {s'} h =
    let (q, looked, rest) = >>=-eq-ok (queued_message_for_event s ev now) _ h in
    elim (Option-cases (inbound_event s ev.id)) [
      | inl first ↦ absurd (ground arith)
      | inr (x, found) ↦ ap is_some found
    ]

-- What a save keeps of the ledger of the state that is saved.
saved-has_event :
    (J : SerdeJson) (e : Env) (disk : Disk J) (s s' : RuntimeState) (id : EventId)
    → snapshot J e disk s ≡ ok s'
    → has_inbound_event s id ≡ true
    → has_inbound_event s' id ≡ true
unfolding snapshot merged has_inbound_event inbound_event
saved-has_event J e disk s s' id h has =
    let (found, loaded, h1) = >>=-eq-ok (load_existing_for_merge J e disk) _ h in
    let (a, h2) = >>-eq-ok (validate_snapshot_outbound_additions s found) _ h1 in
    let (b, h3) = >>-eq-ok (validate_snapshot_run_input_additions s found) _ h2 in
    let (c, h4) = >>-eq-ok (validate_snapshot_agent_run_transitions s found) _ h3 in
    let (d, h5) = >>-eq-ok (validate_snapshot_run_output_additions s found) _ h4 in after found h5
  where
    after : (found : Option RuntimeState) → merged s found ≡ ok s' → has_inbound_event s' id ≡ true
    after none k = ap (λ x. has_inbound_event x id) (sym (ok-inj k)) ∙ has
    after (some x) k =
        let m =
          merge_existing-Merged s x s' (map_err-eq-ok Store.state_error (merge_existing s x) k) in
        merge_records-has (λ i. i.id) State.conflicting_event x.inbound_events [] s.inbound_events
          id
          (ap
              (λ l.
                merge_records (λ i. i.id) State.conflicting_event x.inbound_events l
                  s.inbound_events)
              (append-nil x.inbound_events)
            ∙ m.merged_events)
          has

save_unlocked-eq-ok :
    (J : SerdeJson) (e : Env) (disk : Disk J) (s : RuntimeState) (id : EventId)
    → (save_unlocked J e disk s).1 ≡ ok tt
    → has_inbound_event s id ≡ true
    → (s' : RuntimeState) × (validate s' ≡ ok tt)
      × ((save_unlocked J e disk s).0 ≡ some (state_file_from_state J s'))
      × (has_inbound_event s' id ≡ true)
unfolding save_unlocked
save_unlocked-eq-ok J e disk s id done has =
    let (s', made, written, same) =
      chain-eq-ok (snapshot J e disk s) disk (λ x. x) (λ t. write_unlocked J e disk t) done in
    let (valid, file) = write_unlocked-eq-ok J e disk s' written in
    (s', valid, same ∙ file, saved-has_event J e disk s s' id made has)

new-has_event : (id : EventId) (t : ℕ) → has_inbound_event (State.new t) id ≡ false
unfolding has_inbound_event inbound_event find State.new
new-has_event id t = refl

-- What the file of a persisted event has.
persisted-has_event :
    (J : SerdeJson) (e again : Env) (disk : Disk J) (ev : Event) (status : InboundEventRecordStatus)
    → IsFaithful J
    → again.read_fails ≡ false
    → (persist_inbound_event J e disk ev).1 ≡ ok status
    → (s : RuntimeState) × (load J again (persist_inbound_event J e disk ev).0 ≡ ok s)
      × (has_inbound_event s ev.id ≡ true)
unfolding persist_inbound_event perform
persisted-has_event J e again disk ev status faithful reads h =
    let (s, f, decided, done, left, loaded) = transact-eq-ok J e disk _ h in
    let ((s', st), made, end) =
      >>=-eq-ok (map_err Store.state_error (record_inbound_event s ev e.now)) _ decided in
    after s f done left loaded s' st (map_err-eq-ok Store.state_error _ made) (ground arith)
  where
    after :
        (s : RuntimeState) (f : Effect)
        → (perform J e disk f).1 ≡ ok tt
        → (persist_inbound_event J e disk ev).0 ≡ (perform J e disk f).0
        → load J e disk ≡ ok s
        → (s' : RuntimeState) (st : InboundEventRecordStatus)
        → record_inbound_event s ev e.now ≡ ok (s', st)
        → (elim st as (λ _. Effect) [ recorded ↦ save_state s' | duplicate ↦ leave ]) ≡ f
        → (s : RuntimeState) × (load J again (persist_inbound_event J e disk ev).0 ≡ ok s)
          × (has_inbound_event s ev.id ≡ true)
    after s f done left loaded s' recorded made same =
        let (saved, valid, file, has) =
          save_unlocked-eq-ok J e disk s' ev.id (ap (λ g. (perform J e disk g).1) same ∙ done)
            (recorded-has_event s ev e.now made) in
        (
          saved,
          load_written J again _ saved faithful reads valid
              (left ∙ ap (λ g. (perform J e disk g).0) (sym same) ∙ file),
          has,
        )
    after s f done left loaded s' duplicate made same =
        let has = duplicate-has_event s ev e.now made in
        (
          s,
          ap (load J again) (left ∙ ap (λ g. (perform J e disk g).0) (sym same))
              ∙ load_again J e again disk s (λ x. has_inbound_event x ev.id) reads
                  (new-has_event ev.id) loaded has,
          has,
        )

-- The adapter is left alone, or the ledger in the state file has the event of the delivery: a later load
-- that can read the file finds it.
pub accept-acknowledged :
    (J : SerdeJson) (A : ImAdapter) (e again : Env) (disk : Disk J) (adapter : A.Self)
    (delivery : InboundDelivery)
    → IsFaithful J
    → again.read_fails ≡ false
    → ((accept_inbound_delivery J A e disk adapter delivery).adapter ≡ adapter)
      ⊎ ((s : RuntimeState) × (load J again
              (accept_inbound_delivery J A e disk adapter delivery).disk
            ≡ ok s)
          × (has_inbound_event s delivery.event.id ≡ true))
unfolding accept_inbound_delivery acknowledge
accept-acknowledged J A e again disk adapter delivery faithful reads =
    after (persist_inbound_event J e disk delivery.event)
      (λ status h. persisted-has_event J e again disk delivery.event status faithful reads h)
  where
    after :
        (p : Disk J × Result Store.Error InboundEventRecordStatus)
        → ((status : InboundEventRecordStatus)
            → p.1 ≡ ok status
            → (s : RuntimeState) × (load J again p.0 ≡ ok s)
              × (has_inbound_event s delivery.event.id ≡ true))
        → ((acknowledge J A delivery adapter p).adapter ≡ adapter)
          ⊎ ((s : RuntimeState) × (load J again (acknowledge J A delivery adapter p).disk ≡ ok s)
              × (has_inbound_event s delivery.event.id ≡ true))
    after (d, err x) h = inl refl
    after (d, ok status) h = inr (h status refl)
