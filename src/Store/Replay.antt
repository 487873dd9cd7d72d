-- ===== src/Store/Replay.antt =====
-- Repetitions of `complete_agent_run` of runtime/state/store/run.rs.
use ferris_agent_bridge.Format.RoundTrip.{parse-state_file_from_state}
use ferris_agent_bridge.State.Consistent.{validate-Consistent}
use ferris_agent_bridge.Store.Save.{write_unlocked-eq-ok}
use ferris_agent_bridge.Format.Records.{IsFaithful}
use ferris_agent_bridge.State.Validate.{validate}
use ferris_agent_bridge.Store.Transact.{transact_lem, transact-eq-ok}
use ferris_agent_bridge.Format.Current.{SerdeJson, state_file_from_state, parse_state_file}
use ferris_agent_bridge.State.Completion.{completed_run, completes_with_outputs}
use ferris_agent_bridge.State.DeliveryInvariant.{delivery_ids}
use ferris_agent_bridge.State.Deliveries.{complete_run_with_output_deliveries, check_outputs}
use ferris_agent_bridge.Message.{Message, message_partial_eq}
use ferris_agent_bridge.Outbox.{has_same_enqueue_identity, OutboundDeliveryRecord}
use ferris_agent_bridge.Run.{RunId, RunRecord, RunStatus}
use ferris_agent_bridge.State.{RuntimeState, run, outbound_delivery, find_delivery, update_run}
use ferris_agent_bridge.Store.Runs.{
  verify_outputs, decide_complete, outputs_of, output_deliveries, verify_completion_replay,
  complete_agent_run,
}
use ferris_agent_bridge.Base.Text.{text_partial_eq}
use ferris_agent_bridge.Base.{
  ℕ, max, ◌≡◌, refl, sym, ap, ◌∙◌, subst, ◌⊎◌, inl, inr, true, false, not, Option, none, some, List,
  [], ◌∷◌, ◌++◌, map, arith, Result, ok, err, ◌>>=◌, ◌>>◌, fail_if, ok_or, map_err, for_each, ltb,
  nat_partial_eq, find, is_nil, All, Bool-cases, >>=-eq-ok, >>-eq-ok, ok_or-eq-ok, map_err-eq-ok,
  eq_refl, Distinct, find_key-All, option_partial_eq, list_partial_eq, is_some, Bool,
}
use ferris_agent_bridge.Store.{
  not_running, confirm_file, write_state, Env, Effect, transact, perform,
  confirm_existing_file_durable, Disk, load, parse_error, both, exists_error, read_to_string,
  sync_error, read_error,
}
use ferris_agent_bridge.State
use ferris_agent_bridge.Run
use ferris_agent_bridge.Store

-- An environment in which a load and a confirmation succeed.
pub record IsCalm (e : Env) : Type 0 where
  pub unlocked : e.lock_poisoned ≡ false
  pub reads : e.read_fails ≡ false
  pub exists : e.exists_fails ≡ false
  pub syncs : e.sync_fails ≡ false

-- A state in which the completion is done, as its repetition checks it.
record IsDone (s : RuntimeState) (id : RunId) (messages : List Message) (t : ℕ)
    (ds : List OutboundDeliveryRecord) : Type 0 where
  run_of : RunRecord
  found : run s id ≡ some run_of
  is_completed : run_of.status ≡ Run.completed
  expected : List OutboundDeliveryRecord
  made : output_deliveries id run_of.session_id messages t ≡ ok expected
  verified : verify_completion_replay s run_of expected t ≡ ok tt
  same : outputs_of s run_of.output_delivery_ids ≡ ok ds

-- What a decision to complete is: a completion, or a repetition of one.
decide_complete-eq-ok :
    (e : Env) (id : RunId) (messages : List Message) (t : ℕ) (s : RuntimeState) {f : Effect}
    {ds : List OutboundDeliveryRecord}
    → decide_complete e id messages t s ≡ ok (f, ds)
    → (r : RunRecord) × (run s id ≡ some r)
      × (expected : List OutboundDeliveryRecord) × (output_deliveries id r.session_id messages t
          ≡ ok expected)
      × (((s' : RuntimeState) × (complete_run_with_output_deliveries s id expected t e.now
              ≡ ok (s', ds))
            × (f ≡ write_state s'))
          ⊎ (IsDone s id messages t ds × (f ≡ confirm_file)))
unfolding decide_complete
decide_complete-eq-ok e id messages t s {f} {ds} h =
    let (r, found, h1) = >>=-eq-ok (ok_or (run s id) (Store.state_error State.unknown_run)) _ h in
    let (expected, made, h2) = >>=-eq-ok (output_deliveries id r.session_id messages t) _ h1 in
    let at = ok_or-eq-ok (run s id) (Store.state_error State.unknown_run) found in
    (r, at, expected, made, after r expected at made r.status refl h2)
  where
    after :
        (r : RunRecord) (expected : List OutboundDeliveryRecord)
        → run s id ≡ some r
        → output_deliveries id r.session_id messages t ≡ ok expected
        → (st : RunStatus) → r.status ≡ st
        → (elim st as (λ _. Result Store.Error (Effect × List OutboundDeliveryRecord)) [
          | Run.running ↦ do
            (s', outputs) ←
                map_err Store.state_error
                  (complete_run_with_output_deliveries s id expected t e.now)
            ok (write_state s', outputs)
          | Run.completed ↦ do
            verify_completion_replay s r expected t
            ds ← outputs_of s r.output_delivery_ids
            ok (confirm_file, ds)
          | Run.pending ↦ err not_running
          | Run.interrupted ↦ err not_running
          | Run.failed ↦ err not_running
          | Run.cancelled ↦ err not_running
        ])
          ≡ ok (f, ds)
        → ((s' : RuntimeState) × (complete_run_with_output_deliveries s id expected t e.now
              ≡ ok (s', ds))
            × (f ≡ write_state s'))
          ⊎ (IsDone s id messages t ds × (f ≡ confirm_file))
    after r expected at made Run.running st k =
        let ((s', outputs), done, k1) =
          >>=-eq-ok
            (map_err Store.state_error (complete_run_with_output_deliveries s id expected t e.now))
            _ k in
        let same : outputs ≡ ds = ground arith in
        inl (s', map_err-eq-ok Store.state_error _ done ∙ ap (λ o. ok (s', o)) same, ground arith)
    after r expected at made Run.completed st k =
        let (verified, k1) = >>-eq-ok (verify_completion_replay s r expected t) _ k in
        let (outputs, looked, k2) = >>=-eq-ok (outputs_of s r.output_delivery_ids) _ k1 in
        let same : outputs ≡ ds = ground arith in
        inr (
          record {
            run_of = r;
            found = at;
            is_completed = st;
            expected = expected;
            made = made;
            verified = verified;
            same = looked ∙ ap ok same;
          },
          ground arith,
        )
    after r expected at made Run.pending st k = absurd (cc)
    after r expected at made Run.interrupted st k = absurd (cc)
    after r expected at made Run.failed st k = absurd (cc)
    after r expected at made Run.cancelled st k = absurd (cc)

same_identity : (d : OutboundDeliveryRecord) → has_same_enqueue_identity d d ≡ true
unfolding has_same_enqueue_identity
same_identity d =
    rw (eq_refl d.id, eq_refl d.session_id, eq_refl d.message) (eq_refl d.created_at_unix)

-- The outputs are found in the state, so a repetition accepts them.
verify_outputs-found :
    (s : RuntimeState) (ds : List OutboundDeliveryRecord)
    → All (λ d. outbound_delivery s d.id ≡ some d) ds
    → (verify_outputs s ds ≡ ok tt) × (outputs_of s (map (λ d. d.id) ds) ≡ ok ds)
unfolding verify_outputs for_each outputs_of
verify_outputs-found s [] h = (refl, refl)
verify_outputs-found s (d ∷ ds) (here, there) =
    let (verified, looked) = verify_outputs-found s ds there in
    (rw here (rw (same_identity d) verified), rw here (rw looked refl))

All-suffix : {A : Type 0} (P : A → Type 0) (xs ys : List A) → All P (xs ++ ys) → All P ys
All-suffix P [] ys h = h
All-suffix P (x ∷ xs) ys h = All-suffix P xs ys h.1

verified_lem :
    (s : RuntimeState) (r : RunRecord) (t : ℕ) (expected : List OutboundDeliveryRecord)
    → verify_outputs s expected ≡ ok tt
    → verify_completion_replay s (completed_run r t (map (λ d. d.id) expected)) expected t ≡ ok tt
unfolding verify_completion_replay
verified_lem s r t expected h =
    rw (eq_refl (some t), eq_refl (map (λ (d : OutboundDeliveryRecord). d.id) expected)) h

-- A completion returns the outputs that it is given.
completed_outputs :
    (s : RuntimeState) (id : RunId) (expected : List OutboundDeliveryRecord) (t now : ℕ)
    {s' : RuntimeState} {ds : List OutboundDeliveryRecord}
    → complete_run_with_output_deliveries s id expected t now ≡ ok (s', ds)
    → ds ≡ expected
unfolding complete_run_with_output_deliveries
completed_outputs s id expected t now {s'} {ds} h =
    let (a, h1) = >>-eq-ok (fail_if (is_nil expected) State.no_outputs) _ h in
    let (r, b, h2) = >>=-eq-ok (ok_or (run s id) State.unknown_run) _ h1 in
    let (c, h3) =
      >>-eq-ok (fail_if (not (Run.status_eq r.status Run.running)) State.cannot_complete) _ h2 in
    let (d, h4) = >>-eq-ok (fail_if (ltb t r.updated_at_unix) State.completion_in_past) _ h3 in
    let (g, h5) = >>-eq-ok (check_outputs s r t [] expected) _ h4 in
    let (n, k, h6) = >>=-eq-ok (update_run s id _ (max t now)) _ h5 in ground arith

-- The state after a completion is one in which it is done.
completion-IsDone :
    (s : RuntimeState) (id : RunId) (r : RunRecord) (messages : List Message) (t now : ℕ)
    (expected : List OutboundDeliveryRecord) {s' : RuntimeState} {ds : List OutboundDeliveryRecord}
    → run s id ≡ some r
    → output_deliveries id r.session_id messages t ≡ ok expected
    → complete_run_with_output_deliveries s id expected t now ≡ ok (s', ds)
    → Distinct (delivery_ids s'.outbound_deliveries)
    → IsDone s' id messages t ds
unfolding outbound_delivery find_delivery
completion-IsDone s id r messages t now expected {s'} {ds} found made h distinct =
    let (r', found', active, at, appended, outputs) =
      completes_with_outputs s id expected t now s' ds h in
    let ids = map (λ (d : OutboundDeliveryRecord). d.id) expected in
    let same_run : r ≡ r' = cc in
    let all : All (λ d. outbound_delivery s' d.id ≡ some d) (s.outbound_deliveries ++ expected) =
      subst (All (λ d. outbound_delivery s' d.id ≡ some d)) appended
        (find_key-All (λ d. d.id) s'.outbound_deliveries distinct) in
    let (verified, looked) =
      verify_outputs-found s' expected
        (All-suffix (λ d. outbound_delivery s' d.id ≡ some d) s.outbound_deliveries expected all) in
    record {
      run_of = completed_run r' t ids;
      found = at;
      is_completed = refl;
      expected = expected;
      made = ap (λ x. output_deliveries id x.session_id messages t) (sym same_run) ∙ made;
      verified = verified_lem s' r' t expected verified;
      same = looked ∙ ap ok (sym (completed_outputs s id expected t now h));
    }

-- A repetition on a state in which the completion is done only confirms the file.
decide_complete-IsDone :
    (e : Env) (id : RunId) (messages : List Message) (t : ℕ) (s : RuntimeState)
    (ds : List OutboundDeliveryRecord)
    → IsDone s id messages t ds
    → decide_complete e id messages t s ≡ ok (confirm_file, ds)
unfolding decide_complete
decide_complete-IsDone e id messages t s ds h =
    rw (h.found, h.made, h.is_completed, h.verified, h.same) refl

confirmed :
    {B : Type 0} (e : Env) (disk : Option B)
    → IsCalm e
    → confirm_existing_file_durable e disk ≡ ok tt
unfolding confirm_existing_file_durable
confirmed e none calm = ap (λ b. fail_if b exists_error >> ok tt) calm.exists
confirmed e (some d) calm =
    ap (λ b. fail_if b exists_error >> fail_if e.sync_fails sync_error) calm.exists
    ∙ ap (λ b. fail_if b sync_error) calm.syncs

repeat_lem :
    (J : SerdeJson) (e : Env) (disk : Disk J) (id : RunId) (messages : List Message) (t : ℕ)
    (s : RuntimeState) (ds : List OutboundDeliveryRecord)
    → IsCalm e
    → load J e disk ≡ ok s
    → IsDone s id messages t ds
    → complete_agent_run J e disk id messages t ≡ (disk, ok ds)
unfolding complete_agent_run perform
repeat_lem J e disk id messages t s ds calm loaded h =
    transact_lem J e disk (decide_complete e id messages t) s calm.unlocked loaded
      (decide_complete-IsDone e id messages t s ds h)
    ∙ ap (λ m. both ds (disk, m)) (confirmed e disk calm)

-- A later load of a file in which an operation has found something.
pub load_again :
    (J : SerdeJson) (e again : Env) (disk : Disk J) (s : RuntimeState) (look : RuntimeState → Bool)
    → again.read_fails ≡ false
    → ((t : ℕ) → look (State.new t) ≡ false)
    → load J e disk ≡ ok s
    → look s ≡ true
    → load J again disk ≡ ok s
unfolding load read_to_string
load_again J e again none s look reads nothing loaded found = elim (Bool-cases e.read_fails) [
  | inl bad ↦ absurd (ground arith)
  | inr good ↦
      let empty : State.new e.created ≡ s = ground arith in
      let lost : look s ≡ false = ap look (sym empty) ∙ nothing e.created in absurd (cc)
]
load_again J e again (some bytes) s look reads nothing loaded found =
    elim (Bool-cases e.read_fails) [
      | inl bad ↦ absurd (ground arith)
      | inr good ↦
          let parsed : map_err parse_error (parse_state_file J bytes) ≡ ok s = ground arith in
          rw reads parsed
    ]

new-run : (id : RunId) (t : ℕ) → is_some (run (State.new t) id) ≡ false
unfolding run State.find_run find State.new
new-run id t = refl

pub load_written :
    (J : SerdeJson) (e : Env) (disk : Disk J) (s : RuntimeState)
    → IsFaithful J
    → e.read_fails ≡ false
    → validate s ≡ ok tt
    → disk ≡ some (state_file_from_state J s)
    → load J e disk ≡ ok s
unfolding load read_to_string
load_written J e disk s faithful reads valid file =
    rw (reads, file) (ap (map_err parse_error) (parse-state_file_from_state J s faithful valid))

-- A completion of an agent run that succeeded is repeated with the same outputs: where the load and the
-- confirmation of the file succeed, the repetition returns the same deliveries and leaves the file as
-- it is.
pub complete_agent_run_twice :
    (J : SerdeJson) (e again : Env) (disk : Disk J) (id : RunId) (messages : List Message) (t : ℕ)
    (ds : List OutboundDeliveryRecord)
    → IsFaithful J
    → IsCalm again
    → (complete_agent_run J e disk id messages t).1 ≡ ok ds
    → complete_agent_run J again (complete_agent_run J e disk id messages t).0 id messages t
      ≡ ((complete_agent_run J e disk id messages t).0, ok ds)
unfolding complete_agent_run perform
complete_agent_run_twice J e again disk id messages t ds faithful calm h =
    let (s, f, decided, done, left, loaded) =
      transact-eq-ok J e disk (decide_complete e id messages t) h in
    let (r, found, expected, made, which) = decide_complete-eq-ok e id messages t s decided in
    elim which [
      | inl (s', completed, writes) ↦
          let (valid, file) =
            write_unlocked-eq-ok J e disk s'
              (ap (λ g. (perform J e disk g).1) (sym writes) ∙ done) in
          let written = left ∙ ap (λ g. (perform J e disk g).0) writes ∙ file in
          repeat_lem J again _ id messages t s' ds calm
            (load_written J again _ s' faithful calm.reads valid written)
            (completion-IsDone s id r messages t e.now expected found made completed
              (validate-Consistent s' valid).deliveries_ok.distinct)
      | inr (is_done, confirms) ↦
          let same = left ∙ ap (λ g. (perform J e disk g).0) confirms in
          repeat_lem J again _ id messages t s ds calm
            (ap (load J again) same
              ∙ load_again J e again disk s (λ x. is_some (run x id)) calm.reads (new-run id) loaded
                  (ap is_some found))
            is_done
    ]
