-- ===== src/State/Completion.antt =====
-- What the completion of a run with its output deliveries leaves behind.
use ferris_agent_bridge.Base.{
  ◌≤◌, ℕ, max, ◌≡◌, sym, ap, ◌∙◌, true, List, [], ◌∷◌, ◌++◌, map, some, ok, arith, All, find, ◌==◌,
  find-update_first, find-test, eq_sound,
}
use ferris_agent_bridge.Base.Text.{text_partial_eq}
use ferris_agent_bridge.Ids.{OutboundDeliveryId}
use ferris_agent_bridge.Message.{agent, author_partial_eq}
use ferris_agent_bridge.Outbox.{OutboundDeliveryRecord, pending, status_partial_eq}
use ferris_agent_bridge.Outbox
use ferris_agent_bridge.Run.{RunId, RunRecord, running}
use ferris_agent_bridge.Run
use ferris_agent_bridge.State.{RuntimeState, run, find_run, touch_at}
use ferris_agent_bridge.State.Deliveries.{check_outputs, complete_run_with_output_deliveries}
use ferris_agent_bridge.State.RunInvariant.{update_run-eq-ok}
use ferris_agent_bridge.State.Outputs.{outputs-eq-ok}

-- What an output of the run `r` that finishes at `t` is.
pub record IsOutput (r : RunRecord) (t : ℕ) (d : OutboundDeliveryRecord) : Type 0 where
  pub valid : Outbox.validate d ≡ ok tt
  pub is_pending : d.status ≡ pending
  pub same_session : d.session_id ≡ r.session_id
  pub by_agent : d.message.author ≡ agent
  pub created : d.created_at_unix ≡ t

first-IsOutput :
    (s : RuntimeState) (r : RunRecord) (t : ℕ) (seen : List OutboundDeliveryId)
    (d : OutboundDeliveryRecord) (ds : List OutboundDeliveryRecord)
    → check_outputs s r t seen (d ∷ ds) ≡ ok tt
    → IsOutput r t d × (check_outputs s r t (d.id ∷ seen) ds ≡ ok tt)
unfolding check_outputs
first-IsOutput s r t seen d ds h = (
  record {
    valid = ground arith;
    is_pending = ground arith;
    same_session = eq_sound d.session_id r.session_id (ground arith);
    by_agent = ground arith;
    created = ground arith;
  },
  ground arith,
)

check_outputs-IsOutput :
    (s : RuntimeState) (r : RunRecord) (t : ℕ) (seen : List OutboundDeliveryId)
    (ds : List OutboundDeliveryRecord)
    → check_outputs s r t seen ds ≡ ok tt
    → All (IsOutput r t) ds
check_outputs-IsOutput s r t seen [] h = tt
check_outputs-IsOutput s r t seen (d ∷ ds) h =
    let (first, rest) = first-IsOutput s r t seen d ds h in
    (first, check_outputs-IsOutput s r t (d.id ∷ seen) ds rest)

-- The run `r` after its completion at `t` with outputs.
abbrev pub completed_run : RunRecord → ℕ → List OutboundDeliveryId → RunRecord
completed_run r t ids = record r {
  status = Run.completed;
  finished_at_unix = some t;
  updated_at_unix = t;
  output_delivery_ids = ids;
}

completed_run_lem :
    (r v : RunRecord) (t : ℕ) (ids : List OutboundDeliveryId)
    → r.updated_at_unix ≤ t
    → Run.apply (Run.complete_with t ids) r ≡ ok v
    → v ≡ completed_run r t ids
unfolding Run.apply Run.complete_with_output_deliveries
completed_run_lem r v t ids late e = ground arith

-- A completion with outputs that succeeds has found a running run. It leaves that run completed at
-- the given time with the ids of the outputs, and appends exactly the outputs, each one a valid
-- pending message of the agent in the session of the run.
pub completes_with_outputs :
    (s : RuntimeState) (id : RunId) (ds : List OutboundDeliveryRecord) (t now : ℕ)
    (s' : RuntimeState) (out : List OutboundDeliveryRecord)
    → complete_run_with_output_deliveries s id ds t now ≡ ok (s', out)
    → (r : RunRecord) × (run s id ≡ some r)
      × (r.status ≡ running)
      × (run s' id ≡ some (completed_run r t (map (λ d. d.id) ds)))
      × (s'.outbound_deliveries ≡ s.outbound_deliveries ++ ds)
      × All (IsOutput r t) ds
unfolding run find_run touch_at
completes_with_outputs s id ds t now s' out e =
    let (r, a, found, active, late, checks, done, same_runs, appended) =
      outputs-eq-ok s id ds t now e in
    let (x, v, at, made, after) =
      update_run-eq-ok s id (Run.apply (Run.complete_with t (map (λ d. d.id) ds))) (max t now)
        done in
    let same : x ≡ r = ground arith in
    let is_v =
      completed_run_lem r v t (map (λ d. d.id) ds) late
        (ap (Run.apply (Run.complete_with t (map (λ d. d.id) ds))) (sym same) ∙ made) in
    let test : (v.id == id) ≡ true =
      ap (λ y. y.id == id) is_v ∙ find-test (λ y. y.id == id) s.runs r (at ∙ ap some same) in
    let looked = find-update_first (λ y. y.id == id) v s.runs x at test in
    (
      r,
      found,
      active,
      ap (find (λ y. y.id == id)) (sym same_runs ∙ ap (λ y. y.runs) after) ∙ looked ∙ ap some is_v,
      sym appended ∙ ap (λ y. y.outbound_deliveries ++ ds) after,
      check_outputs-IsOutput s r t [] ds checks,
    )
