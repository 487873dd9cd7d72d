-- ===== src/Queue/Poll.antt =====
-- What a poll promises: the batch of the session that became ready first, or the next ready time.
use ferris_agent_bridge.Base.{
  ℕ, ◌≤◌, ◌<◌, Ordering, ◌≡◌, ◌≢◌, refl, sym, ap, subst, Bool, true, false, ◌⊎◌, inl, inr, List, [],
  Option, none, some, arith, All, Bool-cases, take, is_nil, ◌∙◌,
}
use ferris_agent_bridge.Base.Text.{text_partial_eq, text_compare}
use ferris_agent_bridge.Session.{SessionId}
use ferris_agent_bridge.Queue.{
  QueuedMessage, MessageQueuePolicy, MessageBatch, ready, waiting, Group, Candidate, before, min_by,
  outcome, group_ready_at, group_by_session, poll_where,
}
use ferris_agent_bridge.Queue.Grouping.{messages_of, has_key, GroupOf, MapOf, group_by_session_lem}
use ferris_agent_bridge.Queue.Choice.{min_by-All, min_by-not_before, min_by-none}
use ferris_agent_bridge.Queue.Scan.{
  All-zip, All-has_key, candidate, is_ready, candidates, next_time, scan_lem, GoodCandidate,
  candidates-All, candidates-NoneBefore, candidates-nil, next_time-bound, next_time-attained,
}

-- The candidate that a session would be, over the messages it has in the queue.
abbrev pub ready_time : MessageQueuePolicy → SessionId → List QueuedMessage → ℕ
ready_time p s qs = group_ready_at p (messages_of s qs)

module _ (p : MessageQueuePolicy) (qs : List QueuedMessage) (now : ℕ)
    (eligible : SessionId → Bool) where
  groups : List Group
  groups = group_by_session eligible [] qs

  groups-MapOf : MapOf eligible qs groups
  unfolding groups
  groups-MapOf = group_by_session_lem eligible qs

  poll_where_lem :
      poll_where p qs now eligible
      ≡ outcome p (next_time p now none groups) (min_by (candidates p now groups))
  unfolding poll_where groups
  poll_where_lem = rw (scan_lem p now (group_by_session eligible [] qs) [] none)

  present :
      (s : SessionId)
      → eligible s ≡ true
      → is_nil (messages_of s qs) ≡ false
      → has_key s groups ≡ true
  present s es some_messages = elim (Bool-cases (has_key s groups)) [
    | inl e ↦ e
    | inr e ↦ absurd (cc (ap is_nil (groups-MapOf.missing s es e)))
  ]

  -- A session with messages has its entry in the map.
  entry :
      (P : Group → Type 0) (s : SessionId)
      → All P groups
      → eligible s ≡ true
      → is_nil (messages_of s qs) ≡ false
      → (g : Group) × (g.session_id ≡ s) × (g.messages ≡ messages_of s qs) × P g
  entry P s h es some_messages =
      let found =
        All-has_key (λ g. GroupOf eligible qs g × P g) s groups
          (All-zip (GroupOf eligible qs) P groups groups-MapOf.groups h)
          (present s es some_messages) in
      (found.0, found.1, found.2.0.1 ∙ ap (λ x. messages_of x qs) found.1, found.2.1)

  -- What a batch is: the first messages of an eligible session, which is ready by now.
  pub record BatchOf (b : MessageBatch) : Type 0 where
    pub is_eligible : eligible b.session_id ≡ true
    pub messages : b.messages ≡ take p.max_batch_size (messages_of b.session_id qs)
    pub some_messages : is_nil (messages_of b.session_id qs) ≡ false
    pub ready_at : b.ready_at_unix ≡ ready_time p b.session_id qs
    pub by_now : b.ready_at_unix ≤ now

  abbrev batch_of : Candidate → MessageBatch
  batch_of c = record {
    session_id = c.session_id;
    messages = take p.max_batch_size c.messages;
    ready_at_unix = c.ready_at_unix;
  }

  chosen :
      (o : Option Candidate) (b : MessageBatch)
      → min_by (candidates p now groups) ≡ o
      → outcome p (next_time p now none groups) o ≡ ready b
      → (c : Candidate) × (min_by (candidates p now groups) ≡ some c) × (b ≡ batch_of c)
  chosen none b e f = absurd (cc)
  chosen (some c) b e f = (c, e, ground arith)

  -- A poll with a batch chose a candidate of which it is the batch.
  poll-chosen :
      (b : MessageBatch)
      → poll_where p qs now eligible ≡ ready b
      → (c : Candidate) × (min_by (candidates p now groups) ≡ some c) × (b ≡ batch_of c)
  poll-chosen b e = chosen (min_by (candidates p now groups)) b refl (sym poll_where_lem ∙ e)

  good-BatchOf :
      (c : Candidate) (b : MessageBatch)
      → GoodCandidate p now eligible qs c
      → b ≡ batch_of c
      → BatchOf b
  good-BatchOf c b good e = subst BatchOf (sym e) (record {
    is_eligible = good.0;
    messages = ap (take p.max_batch_size) good.1;
    some_messages = ap is_nil (sym good.1) ∙ good.2;
    ready_at = good.3 ∙ ap (group_ready_at p) good.1;
    by_now = good.4;
  })

  -- A poll that returns a batch returns the first messages of one eligible session, in queue order
  -- and no more than the batch size, with the ready time of that session, which has come.
  pub poll-BatchOf : (b : MessageBatch) → poll_where p qs now eligible ≡ ready b → BatchOf b
  poll-BatchOf b e =
      let (c, least, shape) = poll-chosen b e in
      good-BatchOf c b
        (min_by-All (GoodCandidate p now eligible qs) (candidates p now groups)
          (candidates-All p now eligible qs groups groups-MapOf.groups) least)
        shape

  least_key :
      (c d : Candidate)
      → before d c ≡ false
      → (c.ready_at_unix < d.ready_at_unix)
        ⊎ ((c.ready_at_unix ≡ d.ready_at_unix)
            × (text_compare d.session_id c.session_id ≢ Ordering.lt))
  unfolding before
  least_key c d h = ground arith

  abbrev Earliest : SessionId → MessageBatch → Type 0
  Earliest s b =
      (b.ready_at_unix < ready_time p s qs)
      ⊎ ((b.ready_at_unix ≡ ready_time p s qs) × (text_compare s b.session_id ≢ Ordering.lt))

  Earliest-transport :
      (s : SessionId) (c : Candidate) (g : Group)
      → g.session_id ≡ s
      → group_ready_at p g.messages ≡ ready_time p s qs
      → (c.ready_at_unix < group_ready_at p g.messages)
        ⊎ ((c.ready_at_unix ≡ group_ready_at p g.messages)
            × (text_compare g.session_id c.session_id ≢ Ordering.lt))
      → Earliest s (batch_of c)
  Earliest-transport s c g key same (inl h) = inl (omega arith)
  Earliest-transport s c g key same (inr h) =
      inr (h.0 ∙ same, subst (λ k. text_compare k c.session_id ≢ Ordering.lt) key h.1)

  -- No eligible session that is ready goes before the one polled: its ready time is later, or the
  -- same with a session id that is not smaller.
  pub poll_is_earliest :
      (b : MessageBatch) (s : SessionId)
      → poll_where p qs now eligible ≡ ready b
      → eligible s ≡ true
      → is_nil (messages_of s qs) ≡ false
      → ready_time p s qs ≤ now
      → (b.ready_at_unix < ready_time p s qs)
        ⊎ ((b.ready_at_unix ≡ ready_time p s qs) × (text_compare s b.session_id ≢ Ordering.lt))
  unfolding is_ready candidate
  poll_is_earliest b s e es some_messages due =
      let (c, least, shape) = poll-chosen b e in
      let (g, key, messages, not_first) =
        entry (λ g. is_ready p now g ≡ true → before (candidate p now g) c ≡ false) s
          (candidates-NoneBefore p now c groups (min_by-not_before (candidates p now groups) least))
          es some_messages in
      let same : group_ready_at p g.messages ≡ ready_time p s qs = ap (group_ready_at p) messages in
      let first = least_key c (candidate p now g) (not_first (ground (arith, same))) in
      subst (Earliest s) (sym shape) (Earliest-transport s c g key same first)

  idle :
      (o : Option Candidate) (next : Option ℕ)
      → min_by (candidates p now groups) ≡ o
      → outcome p (next_time p now none groups) o ≡ waiting next
      → (candidates p now groups ≡ []) × (next_time p now none groups ≡ next)
  idle none next e f = (min_by-none (candidates p now groups) e, ground arith)
  idle (some c) next e f = absurd (cc)

  not_ready-lt : (g : Group) → is_ready p now g ≡ false → now < group_ready_at p g.messages
  unfolding is_ready
  not_ready-lt g h = ground arith

  -- While a poll waits, no eligible session with messages is ready, and the time it gives is not
  -- after the ready time of any.
  pub poll_waits :
      (next : Option ℕ) (s : SessionId)
      → poll_where p qs now eligible ≡ waiting next
      → eligible s ≡ true
      → is_nil (messages_of s qs) ≡ false
      → (now < ready_time p s qs) × (t : ℕ) × (next ≡ some t) × (t ≤ ready_time p s qs)
  poll_waits next s e es some_messages =
      let (no_candidate, next_is) =
        idle (min_by (candidates p now groups)) next refl (sym poll_where_lem ∙ e) in
      let found =
        entry
          (λ g.
            (is_ready p now g ≡ false)
            × (is_ready p now g ≡ false
                → (t : ℕ) × (next_time p now none groups ≡ some t)
                  × (t ≤ group_ready_at p g.messages)))
          s
          (All-zip (λ g. is_ready p now g ≡ false)
            (λ g.
              is_ready p now g ≡ false
              → (t : ℕ) × (next_time p now none groups ≡ some t)
                × (t ≤ group_ready_at p g.messages))
            groups (candidates-nil p now groups no_candidate) (next_time-bound p now groups none))
          es some_messages in
      let bound = found.3.1 found.3.0 in
      let same : group_ready_at p found.0.messages ≡ ready_time p s qs =
        ap (group_ready_at p) found.2 in
      let late = not_ready-lt found.0 found.3.0 in
      (omega arith, bound.0, sym next_is ∙ bound.1, omega (arith, bound.2))

  -- The time that a waiting poll gives is the ready time of an eligible session with messages.
  pub poll_wakes :
      (t : ℕ)
      → poll_where p qs now eligible ≡ waiting (some t)
      → (s : SessionId) × (eligible s ≡ true)
        × (is_nil (messages_of s qs) ≡ false)
        × (ready_time p s qs ≡ t)
  poll_wakes t e =
      let (_, next_is) =
        idle (min_by (candidates p now groups)) (some t) refl (sym poll_where_lem ∙ e) in
      elim (next_time-attained p now (GroupOf eligible qs) groups none t groups-MapOf.groups
        next_is) [
          | inl never ↦ absurd (cc)
          | inr (g, good, at) ↦ (
            g.session_id,
            good.0,
            ap is_nil (sym good.1) ∙ good.2,
            ap (group_ready_at p) (sym good.1) ∙ at,
          )
        ]
