-- ===== src/State/Sessions.antt =====
-- `upsert_session` of runtime/state/model.rs, and the debug assertions of `Session::refresh_from`
-- (runtime/session.rs) where it calls it.
use ferris_agent_bridge.Base.Text.{text_partial_eq}
use ferris_agent_bridge.Session
use ferris_agent_bridge.Session.{Session, SessionId, for_scope, refresh_from}
use ferris_agent_bridge.Session.Identity.{IsScope, for_scope-injective}
use ferris_agent_bridge.State.{RuntimeState, upsert_session, touch_at, session}
use ferris_agent_bridge.Base.{
  ℕ, max, ◌≤◌, ◌≡◌, refl, sym, ap, ◌∙◌, subst, ◌⊎◌, inl, inr, Bool, Option-cases, true, List, [],
  ◌∷◌, ◌++◌, map, none, some, ok, ◌==◌, eq_refl, eq_sound, eq_iff, arith, All, All-append,
  All-update_first, find-All, find-test, find-update_first, find, update_first, map-update_first,
  Distinct, Distinct-keys-snoc, find_key-contains, is_some,
}

-- A search that fails finds what is put at the end.
find-snoc :
    {A : Type 0} (p : A → Bool) (xs : List A) (x : A)
    → find p xs ≡ none
    → p x ≡ true
    → find p (xs ++ x ∷ []) ≡ some x
unfolding find
find-snoc p [] x h here = rw here refl
find-snoc p (y ∷ xs) x h here = ground (arith, find-snoc p xs x)

-- A session that `validate` accepts, with a scope of bytes.
pub record IsSession (x : Session) : Type 0 where
  pub valid : Session.validate x ≡ ok tt
  pub bytes : IsScope x.scope

-- The sessions are in order: each is valid, and their ids are distinct.
pub record SessionsOk (xs : List Session) : Type 0 where
  pub all : All IsSession xs
  pub distinct : Distinct (map (λ x. x.id) xs)

-- What an upsert of `x` leaves: sessions in order, with one of the id and the scope of `x`. It is `x`
-- itself if the id was new. Otherwise it is the one that was there, which has the id and the scope of
-- `x`, with the later of the two update times, and no id is added.
pub record Upserted (x : Session) (before after : RuntimeState) : Type 0 where
  pub in_order : SessionsOk after.sessions
  pub kept : Session
  pub found : session after x.id ≡ some kept
  pub same_scope : kept.scope ≡ x.scope
  pub refreshed : x.updated_at_unix ≤ kept.updated_at_unix
  pub not_stale : kept.updated_at_unix ≤ after.updated_at_unix
  pub from :
      ((session before x.id ≡ none) × (kept ≡ x))
      ⊎ ((e : Session) × (session before x.id ≡ some e)
          × (e.id ≡ x.id)
          × (e.scope ≡ x.scope)
          × (kept.created_at_unix ≡ e.created_at_unix)
          × (kept.updated_at_unix ≡ max e.updated_at_unix x.updated_at_unix)
          × (map (λ z. z.id) after.sessions ≡ map (λ z. z.id) before.sessions))

session_id-for_scope : (x : Session) → IsSession x → x.id ≡ for_scope x.scope
unfolding Session.validate
session_id-for_scope x h = let v = h.valid in ground (arith, eq_iff x.id (for_scope x.scope))

-- Two sessions in order with one id have one scope.
same_scope_lem : (x y : Session) → IsSession x → IsSession y → x.id ≡ y.id → x.scope ≡ y.scope
same_scope_lem x y h k e =
    for_scope-injective x.scope y.scope h.bytes k.bytes
      (sym (session_id-for_scope x h) ∙ e ∙ session_id-for_scope y k)

refresh_from-IsSession : (x y : Session) → IsSession x → IsSession (refresh_from x y)
unfolding Session.validate refresh_from
refresh_from-IsSession x y h = record { valid = let v = h.valid in ground arith; bytes = h.bytes }

module _ (s : RuntimeState) (x : Session) (now : ℕ) (ok_s : SessionsOk s.sessions)
    (h : IsSession x) where
  inserted-Upserted :
      session s x.id ≡ none
      → Upserted x s
          (touch_at (record s { sessions = s.sessions ++ x ∷ [] }) (max x.updated_at_unix now))
  unfolding session touch_at
  inserted-Upserted absent = record {
    in_order = record {
      all = All-append IsSession s.sessions (x ∷ []) ok_s.all (h, tt);
      distinct =
          Distinct-keys-snoc (λ z. z.id) x s.sessions ok_s.distinct
            (find_key-contains (λ z. z.id) x.id s.sessions (ap is_some absent));
    };
    kept = x;
    found = find-snoc (λ z. z.id == x.id) s.sessions x absent (eq_refl x.id);
    same_scope = refl;
    refreshed = omega arith;
    not_stale = omega arith;
    from = inl (absent, refl);
  }

  refreshed-Upserted :
      (e : Session)
      → session s x.id ≡ some e
      → let y = refresh_from e x in
        Upserted x s (
          touch_at
            (record s { sessions = update_first (λ z. z.id == x.id) y s.sessions })
            (max y.updated_at_unix now))
  unfolding session touch_at refresh_from
  refreshed-Upserted e there =
      let here : (e.id == x.id) ≡ true = find-test (λ z. z.id == x.id) s.sessions e there in
      let same_id : e.id ≡ x.id = eq_sound e.id x.id here in
      let is_e : IsSession e = find-All IsSession (λ z. z.id == x.id) s.sessions e ok_s.all there in
      let same_scope : e.scope ≡ x.scope = same_scope_lem e x is_e h same_id in
      let y = refresh_from e x in
      let same_ids = map-update_first (λ z. z.id) (λ z. z.id == x.id) y s.sessions e there refl in
      record {
        in_order = record {
          all =
              All-update_first IsSession (λ z. z.id == x.id) y s.sessions
                (refresh_from-IsSession e x is_e) ok_s.all;
          distinct = subst Distinct (sym same_ids) ok_s.distinct;
        };
        kept = y;
        found = find-update_first (λ z. z.id == x.id) y s.sessions e there here;
        same_scope = same_scope;
        refreshed = omega arith;
        not_stale = omega arith;
        from = inr (e, there, same_id, same_scope, refl, refl, same_ids);
      }

  -- An upsert of a valid session with a scope of bytes, in a state whose sessions are such and have
  -- distinct ids, keeps them so. Afterwards a session of its id and its scope is found. It is the new
  -- session if the id was new; otherwise it is the one that was there, which had the same id and the
  -- same scope, with its creation time and the later of the two update times, and the ids are the same.
  pub upsert_session-Upserted : Upserted x s (upsert_session s x now)
  unfolding upsert_session session
  upsert_session-Upserted = elim (Option-cases (find (λ y. y.id == x.id) s.sessions)) [
    | inl absent ↦
        let eq : touch_at (record s { sessions = s.sessions ++ x ∷ [] }) (max x.updated_at_unix now)
            ≡ upsert_session s x now =
          rw (upsert_session, absent) refl in
        subst (Upserted x s) eq (inserted-Upserted absent)
    | inr (e, there) ↦
        let y = refresh_from e x in
        let eq : touch_at (record s { sessions = update_first (λ z. z.id == x.id) y s.sessions })
              (max y.updated_at_unix now)
            ≡ upsert_session s x now =
          rw (upsert_session, there) refl in
        subst (Upserted x s) eq (refreshed-Upserted e there)
  ]
