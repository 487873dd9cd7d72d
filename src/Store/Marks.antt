-- ===== src/Store/Marks.antt =====
-- `mark_outbound_delivery_delivered`, `_failed` and `_uncertain` of runtime/state/store/outbound.rs:
-- what they leave of the state file, and why one of them fails.
use ferris_agent_bridge.Store.{
  transact, Disk, Env, Effect, perform, lock_error, state_error, both, load, write_state,
  write_unlocked, write_json_atomic, is_replaced, write_outcome, WriteStep, parent_sync,
}
use ferris_agent_bridge.Store.Deliveries.{write_marked}
use ferris_agent_bridge.Store.Transact.{transact_lem}
use ferris_agent_bridge.State.Validate.{validate}
use ferris_agent_bridge.State.{RuntimeState}
use ferris_agent_bridge.Outbox.{OutboundDeliveryRecord}
use ferris_agent_bridge.Format.Current.{SerdeJson, state_file_from_state}
use ferris_agent_bridge.Base.{
  ◌≡◌, ◌≢◌, refl, sym, ap, ◌∙◌, subst, ◌⊎◌, inl, inr, true, false, Option, none, some, Result, ok,
  err, ◌>>=◌, ◌>>◌, fail_if, map_err, if◌then◌else◌, Bool-cases, Result-cases, arith,
}
use ferris_agent_bridge.State
use ferris_agent_bridge.Store

module _ (J : SerdeJson) (e : Env) (disk : Disk J)
    (mark : RuntimeState → Result State.Error (RuntimeState × OutboundDeliveryRecord)) where
  -- The mark of a delivery is in the state file `left`: the state that was loaded is the file's, with
  -- the delivery marked.
  pub record IsMarked (left : Disk J) : Type 0 where
    pub loaded : RuntimeState
    pub loads : load J e disk ≡ ok loaded
    pub state : RuntimeState
    pub delivery : OutboundDeliveryRecord
    pub marks : mark loaded ≡ ok (state, delivery)
    pub valid : validate state ≡ ok tt
    pub written : left ≡ some (state_file_from_state J state)

  -- What the mark decides on the state that was loaded.
  abbrev decide_mark : RuntimeState → Result Store.Error (Effect × OutboundDeliveryRecord)
  decide_mark s = do (s', d) ← map_err state_error (mark s); ok (write_state s', d)

  -- Why a mark is not written.
  pub data Refused : Type 0 where
    locked : e.lock_poisoned ≡ true → Refused
    unread : (x : Store.Error) → load J e disk ≡ err x → Refused
    not_marked :
        (s : RuntimeState) (x : State.Error) → load J e disk ≡ ok s → mark s ≡ err x → Refused
    invalid :
        (s s' : RuntimeState) (d : OutboundDeliveryRecord) (x : State.Error)
        → load J e disk ≡ ok s
        → mark s ≡ ok (s', d)
        → validate s' ≡ err x
        → Refused
    unwritten : (step : WriteStep) → e.write_fails ≡ some step → step ≢ parent_sync → Refused

  -- What `m` says of the mark of a delivery `d` that is in the file: it succeeds, unless the
  -- synchronization of the directory fails.
  abbrev pub IsAnswered :
      Result Store.Error OutboundDeliveryRecord → OutboundDeliveryRecord → Type 0
  IsAnswered m d =
      ((m ≡ ok d) × (e.write_fails ≡ none))
      ⊎ ((x : Store.Error) × (m ≡ err x) × (e.write_fails ≡ some parent_sync))

  abbrev pub Marking : Disk J × Result Store.Error OutboundDeliveryRecord → Type 0
  Marking p =
      ((p.0 ≡ disk) × ((x : Store.Error) × (p.1 ≡ err x)) × Refused)
      ⊎ ((k : IsMarked p.0) × IsAnswered p.1 k.delivery)

  failed-Marking :
      (x : Store.Error)
      → (fail_if e.lock_poisoned lock_error >> (load J e disk >>= decide_mark)) ≡ err x
      → Refused
      → Marking (write_marked J e disk mark)
  unfolding write_marked transact
  failed-Marking x h why =
      let eq : write_marked J e disk mark ≡ (disk, err x) = rw (transact, h) refl in
      subst Marking (sym eq) (inl (refl, (x, refl), why))

  locked_err :
      e.lock_poisoned ≡ true
      → (fail_if e.lock_poisoned lock_error >> (load J e disk >>= decide_mark)) ≡ err lock_error
  locked_err h = ap (λ b. fail_if b lock_error >> (load J e disk >>= decide_mark)) h

  decides :
      e.lock_poisoned ≡ false
      → (fail_if e.lock_poisoned lock_error >> (load J e disk >>= decide_mark))
        ≡ (load J e disk >>= decide_mark)
  decides h = ap (λ b. fail_if b lock_error >> (load J e disk >>= decide_mark)) h

  module _ (s s' : RuntimeState) (d : OutboundDeliveryRecord) (loads : load J e disk ≡ ok s)
      (marks : mark s ≡ ok (s', d)) where
    abbrev marked_file : validate s' ≡ ok tt → IsMarked (some (state_file_from_state J s'))
    marked_file valid = record {
      loaded = s;
      loads = loads;
      state = s';
      delivery = d;
      marks = marks;
      valid = valid;
      written = refl;
    }

    written-Marking :
        (step : Option WriteStep)
        → e.write_fails ≡ step
        → validate s' ≡ ok tt
        → Marking (
            both d (
              if is_replaced step then some (state_file_from_state J s') else disk,
              write_outcome step,
            ))
    unfolding write_outcome is_replaced
    written-Marking none fails valid = inr (marked_file valid, inl (refl, fails))
    written-Marking (some parent_sync) fails valid = inr (marked_file valid, inr (_, refl, fails))
    written-Marking (some step) fails valid =
        inl (refl, (_, refl), unwritten step fails (ground arith))

    performed-Marking : Marking (both d (perform J e disk (write_state s')))
    unfolding perform write_unlocked write_json_atomic
    performed-Marking = elim (Result-cases (validate s')) [
      | inl (u, valid) ↦
          let eq : perform J e disk (write_state s')
              ≡ write_json_atomic J e disk (state_file_from_state J s') =
            rw (perform, write_unlocked, valid) refl in
          subst (λ p. Marking (both d p)) (sym eq) (written-Marking e.write_fails refl valid)
      | inr (x, bad) ↦
          let eq : perform J e disk (write_state s') ≡ (disk, err (state_error x)) =
            rw (perform, write_unlocked, bad) refl in
          subst (λ p. Marking (both d p)) (sym eq)
            (inl (refl, (state_error x, refl), invalid s s' d x loads marks bad))
    ]

  decided-Marking :
      (free : e.lock_poisoned ≡ false) (s : RuntimeState) (loads : load J e disk ≡ ok s)
      → Marking (write_marked J e disk mark)
  unfolding write_marked
  decided-Marking free s loads = elim (Result-cases (mark s)) [
    | inl ((s', d), marks) ↦
        let decided : decide_mark s ≡ ok (write_state s', d) = rw marks refl in
        subst Marking (sym (transact_lem J e disk decide_mark s free loads decided))
          (performed-Marking s s' d loads marks)
    | inr (x, no_mark) ↦
        failed-Marking (state_error x)
          (decides free ∙ ap (λ m. m >>= decide_mark) loads ∙ rw no_mark refl)
          (not_marked s x loads no_mark)
  ]

  -- A mark is refused for one of these reasons and leaves the file, or it is in the file.
  pub write_marked-Marking : Marking (write_marked J e disk mark)
  write_marked-Marking = elim (Bool-cases e.lock_poisoned) [
    | inl poisoned ↦ failed-Marking lock_error (locked_err poisoned) (locked poisoned)
    | inr free ↦ elim (Result-cases (load J e disk)) [
      | inl (s, loads) ↦ decided-Marking free s loads
      | inr (x, bad) ↦
          failed-Marking x (decides free ∙ ap (λ m. m >>= decide_mark) bad) (unread x bad)
    ]
  ]
