-- ===== src/Store/Safety.antt =====
-- What the operations of runtime/state/store leave of the state file, whatever fails in them.
use ferris_agent_bridge.Format.Records.{IsFaithful}
use ferris_agent_bridge.State.Consistent.{Consistent, validate-Consistent}
use ferris_agent_bridge.Format.RoundTrip.{parse-state_file_from_state}
use ferris_agent_bridge.State.Validate.{validate}
use ferris_agent_bridge.State.{RuntimeState}
use ferris_agent_bridge.Store.Calls.{
  call, Call, forget, persist_inbound, claim_batch, reconcile_runs, reconcile_deliveries, enqueue,
  claim_delivery, mark_delivered, mark_failed, mark_uncertain, resolve_delivered, resolve_failed,
  start_run, complete_run, fail_run, interrupt_run, save_call, replay,
}
use ferris_agent_bridge.Store.{
  transact, write_json_atomic, perform, Disk, save_unlocked, Env, write_unlocked, save, Error,
  is_replaced, Effect, write_outcome, write_error, snapshot, lock_error,
  confirm_existing_file_durable, both, parent_sync, validate, save_state, state_error, write_state,
  leave, parent_dir, open_temp, permissions, write_all, sync_all, replace_file, WriteStep, load,
  confirm_file, read_to_string, parse_error,
}
use ferris_agent_bridge.Format.Current.{SerdeJson, state_file_from_state}
use ferris_agent_bridge.Base.Text.{text_partial_eq}
use ferris_agent_bridge.Base.{
  ℕ, ◌≡◌, refl, sym, ap, subst, ◌⊎◌, inl, inr, false, Option, none, some, List, [], ◌∷◌, Result, ok,
  err, ◌>>=◌, ◌>>◌, fail_if, map_err, if◌then◌else◌, nat_partial_eq, Bool-cases, Result-cases,
}
use ferris_agent_bridge.State
use ferris_agent_bridge.Store.Runs
use ferris_agent_bridge.Store.Deliveries
use ferris_agent_bridge.Store.Messages

-- The file of a valid state.
abbrev pub IsFile : (J : SerdeJson) → Disk J → Type 0
IsFile J disk =
    (s : RuntimeState) × (validate s ≡ ok tt) × (disk ≡ some (state_file_from_state J s))

-- What an operation on `disk` may leave: the file as it was or the file of a valid state, and the file
-- as it was where it fails before the replacement.
pub record Safe {A : Type 0} (J : SerdeJson) (disk : Disk J) (p : Disk J × Result Error A)
    : Type 0 where
  pub content : (p.0 ≡ disk) ⊎ IsFile J p.0
  pub unchanged : (x : Error) → p.1 ≡ err x → (p.0 ≡ disk) ⊎ (x ≡ write_error parent_sync)

new_valid : (t : ℕ) → validate (State.new t) ≡ ok tt
unfolding validate State.new
new_valid t = refl

module _ (J : SerdeJson) where
  kept-Safe : {A : Type 0} (disk : Disk J) (m : Result Error A) → Safe J disk (disk, m)
  kept-Safe disk m = record { content = inl refl; unchanged = λ x h. inl refl }

  replaced_Safe :
      (m : Option WriteStep) (disk : Disk J) (s : RuntimeState)
      → validate s ≡ ok tt
      → Safe J disk
          ((if is_replaced m then some (state_file_from_state J s) else disk), write_outcome m)
  unfolding is_replaced write_outcome
  replaced_Safe none disk s v = record {
    content = inr (s, v, refl);
    unchanged = λ x h. absurd (cc);
  }
  replaced_Safe (some parent_sync) disk s v = record {
    content = inr (s, v, refl);
    unchanged = λ x h. inr (cc);
  }
  replaced_Safe (some parent_dir) disk s v = kept-Safe disk _
  replaced_Safe (some open_temp) disk s v = kept-Safe disk _
  replaced_Safe (some permissions) disk s v = kept-Safe disk _
  replaced_Safe (some write_all) disk s v = kept-Safe disk _
  replaced_Safe (some sync_all) disk s v = kept-Safe disk _
  replaced_Safe (some replace_file) disk s v = kept-Safe disk _

  write_unlocked-Safe :
      (e : Env) (disk : Disk J) (s : RuntimeState) → Safe J disk (write_unlocked J e disk s)
  unfolding write_json_atomic write_unlocked
  write_unlocked-Safe e disk s = elim (Result-cases (validate s)) [
    | inl (u, v) ↦ rw (write_unlocked, v) (replaced_Safe e.write_fails disk s v)
    | inr (x, v) ↦ rw (write_unlocked, v) (kept-Safe disk (err (state_error x)))
  ]

  save_unlocked-Safe :
      (e : Env) (disk : Disk J) (s : RuntimeState) → Safe J disk (save_unlocked J e disk s)
  unfolding save_unlocked
  save_unlocked-Safe e disk s = elim (Result-cases (snapshot J e disk s)) [
    | inl (s', h) ↦ rw (save_unlocked, h) (write_unlocked-Safe e disk s')
    | inr (x, h) ↦ rw (save_unlocked, h) (kept-Safe disk (err x))
  ]

  save-Safe : (e : Env) (disk : Disk J) (s : RuntimeState) → Safe J disk (save J e disk s)
  unfolding save
  save-Safe e disk s = elim (Bool-cases e.lock_poisoned) [
    | inl h ↦ rw (save, h) (kept-Safe disk (err lock_error))
    | inr h ↦ rw (save, h) (save_unlocked-Safe e disk s)
  ]

  perform-Safe : (e : Env) (disk : Disk J) (f : Effect) → Safe J disk (perform J e disk f)
  unfolding perform
  perform-Safe e disk leave = kept-Safe disk (ok tt)
  perform-Safe e disk confirm_file = kept-Safe disk (confirm_existing_file_durable e disk)
  perform-Safe e disk (save_state s) = save_unlocked-Safe e disk s
  perform-Safe e disk (write_state s) = write_unlocked-Safe e disk s

  both-Safe :
      {A : Type 0} (disk : Disk J) (a : A) (p : Disk J × Result Error (Unit {0}))
      → Safe J disk p
      → Safe J disk (both a p)
  both-Safe disk a (d, ok u) h = record { content = h.content; unchanged = λ x e. absurd (cc) }
  both-Safe disk a (d, err x) h = record {
    content = h.content;
    unchanged = λ y e. h.unchanged y (cc);
  }

  forget-Safe :
      {A : Type 0} (disk : Disk J) (p : Disk J × Result Error A)
      → Safe J disk p
      → Safe J disk (forget p)
  forget-Safe disk (d, ok a) h = record { content = h.content; unchanged = λ x e. absurd (cc) }
  forget-Safe disk (d, err x) h = record {
    content = h.content;
    unchanged = λ y e. h.unchanged y (cc);
  }

  transact-Safe :
      {A : Type 0} (e : Env) (disk : Disk J) (decide : RuntimeState → Result Error (Effect × A))
      → Safe J disk (forget (transact J e disk decide))
  unfolding transact
  transact-Safe e disk decide =
      forget-Safe disk (transact J e disk decide)
        (elim (Result-cases (fail_if e.lock_poisoned lock_error >> (load J e disk >>= decide))) [
          | inl ((f, a), h) ↦
              rw (transact, h) (both-Safe disk a (perform J e disk f) (perform-Safe e disk f))
          | inr (x, h) ↦ rw (transact, h) (kept-Safe disk (err x))
        ])

  call-Safe : (e : Env) (disk : Disk J) (c : Call) → Safe J disk (call J e disk c)
  unfolding call Messages.persist_inbound_event Messages.claim_message_batch
      Messages.reconcile_runs_at_startup Deliveries.reconcile_outbound_deliveries_at_startup
      Deliveries.enqueue_outbound_delivery Deliveries.claim_next_outbound_delivery_attempt
      Deliveries.mark_outbound_delivery_delivered Deliveries.mark_outbound_delivery_failed
      Deliveries.mark_outbound_delivery_uncertain Deliveries.resolve_outbound_delivery_as_delivered
      Deliveries.resolve_outbound_delivery_as_failed Deliveries.write_marked Runs.start_agent_run
      Runs.complete_agent_run Runs.fail_agent_run Runs.interrupt_agent_run
  call-Safe e disk (save_call s) = save-Safe e disk s
  call-Safe e disk (persist_inbound x) = transact-Safe e disk _
  call-Safe e disk (claim_batch id policy t) = transact-Safe e disk _
  call-Safe e disk (reconcile_runs t) = transact-Safe e disk _
  call-Safe e disk (reconcile_deliveries t) = transact-Safe e disk _
  call-Safe e disk (enqueue d) = transact-Safe e disk _
  call-Safe e disk (claim_delivery t policy) = transact-Safe e disk _
  call-Safe e disk (mark_delivered id t) = transact-Safe e disk _
  call-Safe e disk (mark_failed id t error) = transact-Safe e disk _
  call-Safe e disk (mark_uncertain id t error) = transact-Safe e disk _
  call-Safe e disk (resolve_delivered id t) = transact-Safe e disk _
  call-Safe e disk (resolve_failed id t reason) = transact-Safe e disk _
  call-Safe e disk (start_run id t) = transact-Safe e disk _
  call-Safe e disk (complete_run id messages t) = transact-Safe e disk _
  call-Safe e disk (fail_run id t) = transact-Safe e disk _
  call-Safe e disk (interrupt_run id t) = transact-Safe e disk _

  replay-IsFile :
      (cs : List (Env × Call)) (disk : Disk J)
      → (disk ≡ none) ⊎ IsFile J disk
      → (replay J cs disk ≡ none) ⊎ IsFile J (replay J cs disk)
  unfolding replay
  replay-IsFile [] disk h = h
  replay-IsFile ((e, c) ∷ cs) disk h =
      replay-IsFile cs (call J e disk c).0 (elim (call-Safe e disk c).content [
        | inl same ↦ subst (λ d. (d ≡ none) ⊎ IsFile J d) (sym same) h
        | inr file ↦ inr file
      ])

  -- An operation that fails has left the state file as it was, unless what failed is the very last
  -- step, the synchronization of the directory after the new file is in place.
  pub failed_call_keeps_file :
      (e : Env) (disk : Disk J) (c : Call) (x : Error)
      → (call J e disk c).1 ≡ err x
      → ((call J e disk c).0 ≡ disk) ⊎ (x ≡ write_error parent_sync)
  failed_call_keeps_file e disk c x h = (call-Safe e disk c).unchanged x h

  -- After any history of operations on an empty disk, whatever fails in them, a `load` that can read
  -- the file returns a consistent state.
  pub replay-load :
      (cs : List (Env × Call)) (e : Env)
      → IsFaithful J
      → e.read_fails ≡ false
      → (s : RuntimeState) × (load J e (replay J cs none) ≡ ok s) × Consistent s
  unfolding load read_to_string
  replay-load cs e faithful reads = elim (replay-IsFile cs none (inl refl)) [
    | inl empty ↦ (
      State.new e.created,
      rw (reads, empty) refl,
      validate-Consistent (State.new e.created) (new_valid e.created),
    )
    | inr (s, v, file) ↦ (
      s,
      rw (reads, file) (ap (map_err parse_error) (parse-state_file_from_state J s faithful v)),
      validate-Consistent s v,
    )
  ]
