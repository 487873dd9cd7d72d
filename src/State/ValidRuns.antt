-- ===== src/State/ValidRuns.antt =====
-- What the loops of `RuntimeState::validate` over runs, deliveries and events guarantee.
use ferris_agent_bridge.Base.{
  ℕ, ◌≡◌, refl, subst, true, false, List, [], ◌∷◌, map, ok, fail_if, map_err, contains, eq_iff,
  nat_partial_eq, ltb, arith, All, any, New, New-cons, >>=-eq-ok, >>-eq-ok, map_err-eq-ok,
  Bool-cases, inl, inr, ◌⊎◌,
}
use ferris_agent_bridge.Base.Text.{text_partial_eq}
use ferris_agent_bridge.Session.{SessionId}
use ferris_agent_bridge.Event.{EventId, InboundEventRecord}
use ferris_agent_bridge.Event
use ferris_agent_bridge.Run.{RunId, RunRecord, is_terminal}
use ferris_agent_bridge.Run
use ferris_agent_bridge.Run.Valid.{run_validate_iff}
use ferris_agent_bridge.Outbox.{OutboundDeliveryRecord}
use ferris_agent_bridge.Outbox
use ferris_agent_bridge.Outbox.Valid.{delivery_validate_iff}
use ferris_agent_bridge.State.{
  RuntimeState, event_error, run_error, delivery_error, duplicate_run, duplicate_event,
  duplicate_delivery, stale_for_run, stale_for_event, stale_for_delivery, validate_run_session,
  active_in, OutboundDeliveryId,
}
use ferris_agent_bridge.State.RunInvariant.{Exclusive, run_ids}
use ferris_agent_bridge.State.DeliveryInvariant.{delivery_ids}
use ferris_agent_bridge.State.Deliveries.{validate_outbound_delivery_session}
use ferris_agent_bridge.State.Validate.{
  Owners, check_owned, check_active, check_runs, check_events, check_deliveries,
}

-- No active run of the list is in one of the sessions.
abbrev pub Free : List SessionId → List RunRecord → Type 0
Free active = All (λ r. is_terminal r ≡ false → contains r.session_id active ≡ false)

Free-weaken :
    (x : SessionId) (active : List SessionId) (rs : List RunRecord)
    → Free (x ∷ active) rs
    → Free active rs
unfolding contains
Free-weaken x active [] h = tt
Free-weaken x active (r ∷ rs) h = (λ a. ground (arith, h.0 a), Free-weaken x active rs h.1)

Free-any :
    (x : SessionId) (active : List SessionId) (rs : List RunRecord)
    → Free (x ∷ active) rs
    → any (active_in x) rs ≡ false
unfolding any contains active_in
Free-any x active [] h = refl
Free-any x active (r ∷ rs) h = elim (Bool-cases (is_terminal r)) [
  | inl t ↦ ground (arith, Free-any x active rs h.1)
  | inr a ↦ ground (arith, Free-any x active rs h.1, h.0 a, eq_iff r.session_id x)
]

check_runs-cons :
    (s : RuntimeState) (seen : List RunId) (owners : Owners) (active : List SessionId)
    (r : RunRecord) (rs : List RunRecord) {owners' : Owners}
    → check_runs s seen owners active (r ∷ rs) ≡ ok owners'
    → (Run.validate r ≡ ok tt)
      × (contains r.id seen ≡ false)
      × (o : Owners) × (a : List SessionId) × (check_active r active ≡ ok a)
      × (check_runs s (r.id ∷ seen) o a rs ≡ ok owners')
unfolding check_runs
check_runs-cons s seen owners active r rs h =
    let (_, valid, h1) = >>=-eq-ok (map_err run_error (Run.validate r)) _ h in
    let (_, known, h2) = >>=-eq-ok (validate_run_session s r) _ h1 in
    let (_, fresh, h3) = >>=-eq-ok (fail_if (contains r.id seen) duplicate_run) _ h2 in
    let (o, owned, h4) = >>=-eq-ok (check_owned r.id owners r.output_delivery_ids) _ h3 in
    let (a, free, h5) = >>=-eq-ok (check_active r active) _ h4 in
    let (_, late, h6) =
      >>=-eq-ok (fail_if (ltb s.updated_at_unix r.updated_at_unix) stale_for_run) _ h5 in
    (map_err-eq-ok run_error (Run.validate r) (ground arith), ground arith, o, a, free, h6)

check_active_cases :
    (r : RunRecord) (active : List SessionId) {a : List SessionId}
    → check_active r active ≡ ok a
    → ((is_terminal r ≡ true) × (a ≡ active))
      ⊎ ((is_terminal r ≡ false)
          × (contains r.session_id active ≡ false)
          × (a ≡ r.session_id ∷ active))
unfolding check_active
check_active_cases r active e = ground arith

-- What the rest of the loop over the runs guarantees.
pub record RunsFrom (seen : List RunId) (active : List SessionId) (rs : List RunRecord)
    : Type 0 where
  pub valid : All Run.Valid.IsValid rs
  pub new : New seen (run_ids rs)
  pub exclusive : Exclusive rs
  pub free : Free active rs

pub check_runs-RunsFrom :
    (s : RuntimeState) (seen : List RunId) (owners : Owners) (active : List SessionId)
    (rs : List RunRecord) {owners' : Owners}
    → check_runs s seen owners active rs ≡ ok owners'
    → RunsFrom seen active rs
check_runs-RunsFrom s seen owners active [] h = record {
  valid = tt;
  new = (tt, tt);
  exclusive = tt;
  free = tt;
}
check_runs-RunsFrom s seen owners active (r ∷ rs) h =
    let (valid, fresh, o, a, entered, rest) = check_runs-cons s seen owners active r rs h in
    let k = check_runs-RunsFrom s (r.id ∷ seen) o a rs rest in
    let valid' : All Run.Valid.IsValid (r ∷ rs) = ((run_validate_iff r).0 valid, k.valid) in
    let new' = New-cons r.id seen (run_ids rs) fresh k.new in
    elim (check_active_cases r active entered) [
      | inl (terminal, same) ↦ record {
        valid = valid';
        new = new';
        exclusive = (λ running. cc, k.exclusive);
        free = (λ running. cc, subst (λ x. Free x rs) same k.free);
      }
      | inr (running, free, same) ↦
          let free' = subst (λ x. Free x rs) same k.free in
          record {
            valid = valid';
            new = new';
            exclusive = (λ _. Free-any r.session_id active rs free', k.exclusive);
            free = (λ _. free, Free-weaken r.session_id active rs free');
          }
    ]

pub check_deliveries-New :
    (s : RuntimeState) (seen : List OutboundDeliveryId) (ds : List OutboundDeliveryRecord)
    → check_deliveries s seen ds ≡ ok tt
    → All Outbox.Valid.IsValid ds × New seen (delivery_ids ds)
unfolding check_deliveries
check_deliveries-New s seen [] h = (tt, (tt, tt))
check_deliveries-New s seen (d ∷ ds) h =
    let (valid, h1) = >>-eq-ok (map_err delivery_error (Outbox.validate d)) _ h in
    let (fresh, h2) = >>-eq-ok (fail_if (contains d.id seen) duplicate_delivery) _ h1 in
    let (known, h3) = >>-eq-ok (validate_outbound_delivery_session s d) _ h2 in
    let (late, h4) =
      >>-eq-ok (fail_if (ltb s.updated_at_unix d.updated_at_unix) stale_for_delivery) _ h3 in
    let (rest, new) = check_deliveries-New s (d.id ∷ seen) ds h4 in
    (
      ((delivery_validate_iff d).0 (map_err-eq-ok delivery_error (Outbox.validate d) valid), rest),
      New-cons d.id seen (delivery_ids ds) (ground arith) new,
    )

abbrev pub event_ids : List InboundEventRecord → List EventId
event_ids = map (λ e. e.id)

pub check_events-New :
    (updated : ℕ) (seen : List EventId) (es : List InboundEventRecord)
    → check_events updated seen es ≡ ok tt
    → New seen (event_ids es)
unfolding check_events
check_events-New updated seen [] h = (tt, tt)
check_events-New updated seen (e ∷ es) h =
    let (valid, h1) = >>-eq-ok (map_err event_error (Event.validate e)) _ h in
    let (fresh, h2) = >>-eq-ok (fail_if (contains e.id seen) duplicate_event) _ h1 in
    let (late, h3) = >>-eq-ok (fail_if (ltb updated e.recorded_at_unix) stale_for_event) _ h2 in
    New-cons e.id seen (event_ids es) (ground arith) (check_events-New updated (e.id ∷ seen) es h3)
