-- ===== src/State/RunInvariant.antt =====
-- What holds of the runs of a state: they are valid, have distinct ids, and no session has two
-- active ones. Every operation on runs keeps it.
use ferris_agent_bridge.Base.{
  ℕ, ◌≡◌, refl, sym, subst, Bool, true, false, inl, inr, List, [], ◌∷◌, ◌++◌, map, some, Result, ok,
  map_err, All, arith, any, find, update_first, Distinct, ◌==◌, eq_iff, All-append,
  All-update_first, find-All, any-append, map-update_first, any-update_first, Bool-cases, >>=-eq-ok,
  map_err-eq-ok, ok_or, ok_or-eq-ok, Distinct-keys-snoc, any_key-contains,
}
use ferris_agent_bridge.Base.Text.{text_partial_eq}
use ferris_agent_bridge.Session.{SessionId}
use ferris_agent_bridge.Run.{RunId, RunRecord, is_terminal}
use ferris_agent_bridge.Run
use ferris_agent_bridge.Run.Valid.{IsValid, apply-IsValid}
use ferris_agent_bridge.Run.Descent.{apply-Descends, terminal_is_final, terminal_is_final}
use ferris_agent_bridge.State.{
  RuntimeState, run_error, unknown_run, touch_at, active_in, add_run, update_run, run, find_run,
}

-- No session has two runs that are not terminal.
abbrev pub Exclusive : List RunRecord → Type 0
Exclusive [] = Unit
Exclusive (r ∷ rs) =
    (is_terminal r ≡ false → any (active_in r.session_id) rs ≡ false) × Exclusive rs

abbrev pub run_ids : List RunRecord → List RunId
run_ids = map (λ r. r.id)

pub record RunsOk (rs : List RunRecord) : Type 0 where
  pub valid : All IsValid rs
  pub distinct : Distinct (run_ids rs)
  pub exclusive : Exclusive rs

module _ (r : RunRecord) where
  Exclusive-snoc :
      (rs : List RunRecord)
      → Exclusive rs
      → (is_terminal r ≡ false → any (active_in r.session_id) rs ≡ false)
      → Exclusive (rs ++ r ∷ [])
  unfolding any active_in
  Exclusive-snoc [] h k = (λ _. refl, tt)
  Exclusive-snoc (x ∷ rs) h k = (
    λ active. ground (
      arith,
      any-append (active_in x.session_id) rs (r ∷ []),
      h.0 active,
      k,
      eq_iff r.session_id x.session_id,
      eq_iff x.session_id r.session_id,
    ),
    Exclusive-snoc rs h.1 (λ active. ground (arith, k active)),
  )

  RunsOk-snoc :
      (rs : List RunRecord)
      → RunsOk rs
      → IsValid r
      → any (λ x. x.id == r.id) rs ≡ false
      → (is_terminal r ≡ false → any (active_in r.session_id) rs ≡ false)
      → RunsOk (rs ++ r ∷ [])
  RunsOk-snoc rs h v new free = record {
    valid = All-append IsValid rs (r ∷ []) h.valid (v, tt);
    distinct =
        Distinct-keys-snoc (λ x. x.id) r rs h.distinct (any_key-contains (λ x. x.id) r.id rs new);
    exclusive = Exclusive-snoc rs h.exclusive free;
  }

-- A run that is added keeps the runs in order.
pub add_run-RunsOk :
    (s : RuntimeState) (r : RunRecord) (now : ℕ) {s' : RuntimeState}
    → RunsOk s.runs
    → IsValid r
    → add_run s r now ≡ ok s'
    → RunsOk s'.runs
unfolding add_run
add_run-RunsOk s r now {s'} h v e =
    subst RunsOk (runs_after e) (RunsOk-snoc r s.runs h v (ground arith) (λ active. ground arith))
  where
    runs_after : add_run s r now ≡ ok s' → s.runs ++ r ∷ [] ≡ s'.runs
    runs_after e = ground arith

-- What a transition of the run `r` into `v` tells the other runs.
pub record Succeeds (r v : RunRecord) : Type 0 where
  pub same_id : v.id ≡ r.id
  pub same_session : v.session_id ≡ r.session_id
  pub stays_terminal : is_terminal r ≡ true → is_terminal v ≡ true

apply-Succeeds :
    (o : Run.Transition) (r : RunRecord) {v : RunRecord} → Run.apply o r ≡ ok v → Succeeds r v
apply-Succeeds o r {v} e =
    let d = apply-Descends o r e in
    record {
      same_id = d.same_id;
      same_session = d.same_session;
      stays_terminal = λ t. absurd ((terminal_is_final o r v t).0 e);
    }

module _ (p : RunRecord → Bool) (r v : RunRecord) (k : Succeeds r v) where
  active-false : (id : SessionId) → active_in id r ≡ false → active_in id v ≡ false
  unfolding active_in
  active-false id h = ground (arith, k.same_session, k.stays_terminal)

  Exclusive-update_first :
      (rs : List RunRecord) → find p rs ≡ some r → Exclusive rs → Exclusive (update_first p v rs)
  unfolding find update_first
  Exclusive-update_first [] e h = tt
  Exclusive-update_first (x ∷ rs) e h = elim (Bool-cases (p x)) [
    | inl hit ↦
        let same : x ≡ r = ground arith in
        rw hit (λ active. rw k.same_session (rw same at (h.0 (rw same (not_terminal active)))), h.1)
    | inr miss ↦
        let later : find p rs ≡ some r = ground arith in
        rw miss (
          λ active.
              any-update_first (active_in x.session_id) p v rs r later (active-false x.session_id)
                (h.0 active),
          Exclusive-update_first rs later h.1,
        )
  ]
    where
      not_terminal : is_terminal v ≡ false → is_terminal r ≡ false
      not_terminal active = elim (Bool-cases (is_terminal r)) [
        | inl t ↦ absurd (cc (k.stays_terminal t))
        | inr t ↦ t
      ]

  RunsOk-update_first :
      (rs : List RunRecord)
      → find p rs ≡ some r
      → IsValid v
      → RunsOk rs
      → RunsOk (update_first p v rs)
  RunsOk-update_first rs e valid h = record {
    valid = All-update_first IsValid p v rs valid h.valid;
    distinct = subst Distinct (sym (map-update_first (λ x. x.id) p v rs r e k.same_id)) h.distinct;
    exclusive = Exclusive-update_first rs e h.exclusive;
  }

pub update_run-eq-ok :
    (s : RuntimeState) (id : RunId) (f : RunRecord → Result Run.Error RunRecord) (t : ℕ)
    {s' : RuntimeState}
    → update_run s id f t ≡ ok s'
    → (r : RunRecord) × (v : RunRecord) × (find (λ x. x.id == id) s.runs ≡ some r)
      × (f r ≡ ok v)
      × (s' ≡ touch_at (record s { runs = update_first (λ x. x.id == id) v s.runs }) t)
unfolding update_run run find_run
update_run-eq-ok s id f t e =
    let (r, found, rest) = >>=-eq-ok (ok_or (run s id) unknown_run) _ e in
    let (v, done, end) = >>=-eq-ok (map_err run_error (f r)) _ rest in
    (r, v, ok_or-eq-ok (run s id) unknown_run found, map_err-eq-ok run_error (f r) done, cc)

-- A transition of a run keeps the runs in order.
pub update_run-RunsOk :
    (s : RuntimeState) (id : RunId) (o : Run.Transition) (t : ℕ) {s' : RuntimeState}
    → RunsOk s.runs
    → update_run s id (Run.apply o) t ≡ ok s'
    → RunsOk s'.runs
unfolding touch_at
update_run-RunsOk s id o t h e =
    let (r, v, found, done, after) = update_run-eq-ok s id (Run.apply o) t e in
    let valid =
      apply-IsValid o r (find-All IsValid (λ x. x.id == id) s.runs r h.valid found) done in
    subst (λ x. RunsOk x.runs) (sym after)
      (RunsOk-update_first (λ x. x.id == id) r v (apply-Succeeds o r done) s.runs found valid h)
