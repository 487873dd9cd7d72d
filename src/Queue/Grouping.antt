-- ===== src/Queue/Grouping.antt =====
-- What the map of `poll_where` holds: for each eligible session its messages, in queue order.
use mathlib.Core.List.{append_assoc, append-nil}
use ferris_agent_bridge.Base.{
  ◌≡◌, ◌≢◌, refl, ap, Bool, true, false, ◌||◌, inl, inr, List, [], ◌∷◌, ◌++◌, arith, ◌==◌, eq_iff,
  eq_refl, retain, All, if◌then◌else◌, is_nil, Bool-cases,
}
use ferris_agent_bridge.Base.Text.{text_partial_eq}
use ferris_agent_bridge.Session.{SessionId}
use ferris_agent_bridge.Queue.{QueuedMessage, Group, entry_push, group_by_session}

-- The messages of a session in a queue.
unfoldable pub messages_of : SessionId → List QueuedMessage → List QueuedMessage
messages_of s = retain (λ q. q.session_id == s)

messages_of-append :
    (s : SessionId) (xs ys : List QueuedMessage)
    → messages_of s (xs ++ ys) ≡ messages_of s xs ++ messages_of s ys
unfolding messages_of retain
messages_of-append s [] ys = refl
messages_of-append s (x ∷ xs) ys = ground (arith, messages_of-append s xs ys)

messages_of-snoc :
    (s : SessionId) (xs : List QueuedMessage) (q : QueuedMessage)
    → messages_of s (xs ++ q ∷ [])
      ≡ (if q.session_id == s then messages_of s xs ++ q ∷ [] else messages_of s xs)
unfolding messages_of retain
messages_of-snoc s xs q =
    ground (arith, messages_of-append s xs (q ∷ []), append-nil (messages_of s xs))

unfoldable pub has_key : SessionId → List Group → Bool
has_key s [] = false
has_key s (g ∷ gs) = s == g.session_id || has_key s gs

abbrev Keys : List Group → Type 0
Keys [] = Unit
Keys (g ∷ gs) = (has_key g.session_id gs ≡ false) × Keys gs

-- One entry of the map, after the messages of `qs` were read.
abbrev pub GroupOf : (SessionId → Bool) → List QueuedMessage → Group → Type 0
GroupOf eligible qs g =
    (eligible g.session_id ≡ true)
    × (g.messages ≡ messages_of g.session_id qs)
    × (is_nil g.messages ≡ false)

has_key-entry_push :
    (s : SessionId) (q : QueuedMessage) (gs : List Group)
    → has_key s (entry_push q gs) ≡ (s == q.session_id || has_key s gs)
unfolding has_key entry_push
has_key-entry_push s q [] = ground arith
has_key-entry_push s q (g ∷ gs) =
    ground (arith, has_key-entry_push s q gs, eq_iff q.session_id g.session_id)

Keys-entry_push : (q : QueuedMessage) (gs : List Group) → Keys gs → Keys (entry_push q gs)
unfolding entry_push has_key
Keys-entry_push q [] h = (refl, tt)
Keys-entry_push q (g ∷ gs) h = ground (
  arith,
  Keys-entry_push q gs h.1,
  has_key-entry_push g.session_id q gs,
  eq_iff q.session_id g.session_id,
  eq_iff g.session_id q.session_id,
)

is_nil-snoc : (xs : List QueuedMessage) (q : QueuedMessage) → is_nil (xs ++ q ∷ []) ≡ false
is_nil-snoc [] q = refl
is_nil-snoc (x ∷ xs) q = refl

hit_messages :
    (qs : List QueuedMessage) (q : QueuedMessage) (g : Group)
    → (q.session_id == g.session_id) ≡ true
    → g.messages ≡ messages_of g.session_id qs
    → g.messages ++ q ∷ [] ≡ messages_of g.session_id (qs ++ q ∷ [])
hit_messages qs q g hit e = ground (arith, messages_of-snoc g.session_id qs q)

module _ (eligible : SessionId → Bool) where
  -- The entries after the message `q` of an eligible session was read.
  snoc-GroupOf :
      (qs : List QueuedMessage) (q : QueuedMessage) (g : Group)
      → q.session_id ≢ g.session_id
      → GroupOf eligible qs g
      → GroupOf eligible (qs ++ q ∷ []) g
  snoc-GroupOf qs q g other h =
      ground (arith, messages_of-snoc g.session_id qs q, eq_iff q.session_id g.session_id)

  rest-GroupOf :
      (qs : List QueuedMessage) (q : QueuedMessage) (gs : List Group)
      → has_key q.session_id gs ≡ false
      → All (GroupOf eligible qs) gs
      → All (GroupOf eligible (qs ++ q ∷ [])) gs
  unfolding has_key
  rest-GroupOf qs q [] k h = tt
  rest-GroupOf qs q (g ∷ gs) k h = (
    snoc-GroupOf qs q g (λ e. ground (arith, eq_iff q.session_id g.session_id)) h.0,
    rest-GroupOf qs q gs (ground arith) h.1,
  )

  entry_push-GroupOf :
      (qs : List QueuedMessage) (q : QueuedMessage) (gs : List Group)
      → eligible q.session_id ≡ true
      → (has_key q.session_id gs ≡ false → messages_of q.session_id qs ≡ [])
      → Keys gs
      → All (GroupOf eligible qs) gs
      → All (GroupOf eligible (qs ++ q ∷ [])) (entry_push q gs)
  unfolding entry_push has_key
  entry_push-GroupOf qs q [] el fresh k h = (
    (
      el,
      ground (arith, messages_of-snoc q.session_id qs q, eq_refl q.session_id, fresh refl),
      refl,
    ),
    tt,
  )
  entry_push-GroupOf qs q (g ∷ gs) el fresh k h = elim (Bool-cases (q.session_id == g.session_id)) [
    | inl hit ↦ rw hit (
      (h.0.0, hit_messages qs q g hit h.0.1, is_nil-snoc g.messages q),
      rest-GroupOf qs q gs (ground (arith, eq_iff q.session_id g.session_id)) h.1,
    )
    | inr miss ↦ rw miss (
      snoc-GroupOf qs q g (λ e. ground (arith, eq_iff q.session_id g.session_id)) h.0,
      entry_push-GroupOf qs q gs el (λ e. fresh (ground arith)) k.1 h.1,
    )
  ]

  -- What holds of the map when the messages of `qs` were read: its keys are distinct, each entry
  -- holds the messages of its eligible session, and no eligible session with messages is missing.
  pub record MapOf (qs : List QueuedMessage) (gs : List Group) : Type 0 where
    pub keys : Keys gs
    pub groups : All (GroupOf eligible qs) gs
    pub missing : (s : SessionId) → eligible s ≡ true → has_key s gs ≡ false → messages_of s qs ≡ []

  skip-GroupOf :
      (qs : List QueuedMessage) (q : QueuedMessage) (gs : List Group)
      → eligible q.session_id ≡ false
      → All (GroupOf eligible qs) gs
      → All (GroupOf eligible (qs ++ q ∷ [])) gs
  skip-GroupOf qs q [] el h = tt
  skip-GroupOf qs q (g ∷ gs) el h = (
    snoc-GroupOf qs q g (λ e. ground (arith, h.0.0, ap eligible e)) h.0,
    skip-GroupOf qs q gs el h.1,
  )

  MapOf-step :
      (qs : List QueuedMessage) (q : QueuedMessage) (gs : List Group)
      → MapOf qs gs
      → MapOf (qs ++ q ∷ []) (if eligible q.session_id then entry_push q gs else gs)
  MapOf-step qs q gs m = elim (Bool-cases (eligible q.session_id)) [
    | inl el ↦ rw el (record {
      keys = Keys-entry_push q gs m.keys;
      groups = entry_push-GroupOf qs q gs el (m.missing q.session_id el) m.keys m.groups;
      missing = λ s es k. ground (
        arith,
        has_key-entry_push s q gs,
        messages_of-snoc s qs q,
        m.missing s es,
        eq_iff s q.session_id,
        eq_iff q.session_id s,
      );
    })
    | inr el ↦ rw el (record {
      keys = m.keys;
      groups = skip-GroupOf qs q gs el m.groups;
      missing = λ s es k. ground (
        arith,
        messages_of-snoc s qs q,
        m.missing s es,
        eq_iff q.session_id s,
        λ (e : q.session_id ≡ s). ap eligible e,
      );
    })
  ]

  group_by_session-MapOf :
      (done qs : List QueuedMessage) (gs : List Group)
      → MapOf done gs
      → MapOf (done ++ qs) (group_by_session eligible gs qs)
  unfolding group_by_session
  group_by_session-MapOf done [] gs m = rw (append-nil done) m
  group_by_session-MapOf done (q ∷ qs) gs m = rw (← append_assoc done (q ∷ []) qs) (
      group_by_session-MapOf (done ++ q ∷ []) qs
        (if eligible q.session_id then entry_push q gs else gs) (MapOf-step done q gs m))

  -- The map of a whole queue.
  pub group_by_session_lem : (qs : List QueuedMessage) → MapOf qs (group_by_session eligible [] qs)
  group_by_session_lem qs =
      group_by_session-MapOf [] qs []
        (record { keys = tt; groups = tt; missing = λ s es k. none_yet s })
    where
      none_yet : (s : SessionId) → messages_of s [] ≡ []
      none_yet s = unfold messages_of retain in refl
