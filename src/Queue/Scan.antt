-- ===== src/Queue/Scan.antt =====
-- The scan of `poll_where` over the groups: its candidates and its next ready time.
use mathlib.Core.List.{append-nil, append_assoc}
use ferris_agent_bridge.Base.{
  ℕ, min, ◌≤◌, ◌≡◌, refl, Bool, true, false, ◌⊎◌, inl, inr, List, [], ◌∷◌, ◌++◌, Option, none, some,
  arith, All, if◌then◌else◌, Bool-cases, leb, is_nil, ◌==◌, eq_iff,
}
use ferris_agent_bridge.Base.Text.{text_partial_eq}
use ferris_agent_bridge.Session.{SessionId}
use ferris_agent_bridge.Queue.{
  QueuedMessage, MessageQueuePolicy, Group, Candidate, before, scan, sooner, group_ready_at,
}
use ferris_agent_bridge.Queue.Grouping.{messages_of, has_key, GroupOf}
use ferris_agent_bridge.Queue.Choice.{NoneBefore}

sooner-le : (next : Option ℕ) (t : ℕ) → sooner next t ≤ t
sooner-le none t = omega arith
sooner-le (some u) t = omega arith

sooner-cases :
    (next : Option ℕ) (r t : ℕ) → some (sooner next r) ≡ some t → (next ≡ some t) ⊎ (r ≡ t)
sooner-cases none r t e = inr (ground arith)
sooner-cases (some u) r t e = elim (Bool-cases (leb u r)) [
  | inl h ↦ inl (ground arith)
  | inr h ↦ inr (ground arith)
]

pub All-zip :
    (P Q : Group → Type 0) (gs : List Group) → All P gs → All Q gs → All (λ g. P g × Q g) gs
All-zip P Q [] h k = tt
All-zip P Q (g ∷ gs) h k = ((h.0, k.0), All-zip P Q gs h.1 k.1)

pub All-has_key :
    (P : Group → Type 0) (s : SessionId) (gs : List Group)
    → All P gs
    → has_key s gs ≡ true
    → (g : Group) × (g.session_id ≡ s) × P g
unfolding has_key
All-has_key P s [] h k = absurd (cc)
All-has_key P s (g ∷ gs) h k = elim (Bool-cases (s == g.session_id)) [
  | inl e ↦ (g, ground (arith, eq_iff s g.session_id), h.0)
  | inr e ↦ All-has_key P s gs h.1 (ground arith)
]

module _ (p : MessageQueuePolicy) (now : ℕ) where
  unfoldable pub candidate : Group → Candidate
  candidate g = record {
    ready_at_unix = group_ready_at p g.messages;
    session_id = g.session_id;
    messages = g.messages;
  }

  unfoldable pub is_ready : Group → Bool
  is_ready g = leb (group_ready_at p g.messages) now

  -- The candidates that the scan adds, and the next time that it finds.
  pub candidates : List Group → List Candidate
  candidates [] = []
  candidates (g ∷ gs) = let rest = candidates gs in if is_ready g then candidate g ∷ rest else rest

  pub next_time : Option ℕ → List Group → Option ℕ
  next_time next [] = next
  next_time next (g ∷ gs) =
      next_time (if is_ready g then next else some (sooner next (group_ready_at p g.messages))) gs

  pub scan_lem :
      (gs : List Group) (cs : List Candidate) (next : Option ℕ)
      → scan p now gs cs next ≡ (cs ++ candidates gs, next_time next gs)
  unfolding scan candidates next_time is_ready candidate
  scan_lem [] cs next = rw (append-nil cs)
  scan_lem (g ∷ gs) cs next = ground (
    arith,
    scan_lem gs (cs ++ candidate g ∷ []) next,
    scan_lem gs cs (some (sooner next (group_ready_at p g.messages))),
    append_assoc cs (candidate g ∷ []) (candidates gs),
  )

  -- What a candidate is, over the queue `qs`.
  abbrev pub GoodCandidate : (SessionId → Bool) → List QueuedMessage → Candidate → Type 0
  GoodCandidate eligible qs c =
      (eligible c.session_id ≡ true)
      × (c.messages ≡ messages_of c.session_id qs)
      × (is_nil c.messages ≡ false)
      × (c.ready_at_unix ≡ group_ready_at p c.messages)
      × (c.ready_at_unix ≤ now)

  pub candidates-All :
      (eligible : SessionId → Bool) (qs : List QueuedMessage) (gs : List Group)
      → All (GroupOf eligible qs) gs
      → All (GoodCandidate eligible qs) (candidates gs)
  unfolding candidates is_ready candidate
  candidates-All eligible qs [] h = tt
  candidates-All eligible qs (g ∷ gs) h = elim (Bool-cases (is_ready g)) [
    | inl r ↦ rw r ((h.0.0, h.0.1, h.0.2, refl, ground arith), candidates-All eligible qs gs h.1)
    | inr r ↦ rw r (candidates-All eligible qs gs h.1)
  ]

  pub candidates-NoneBefore :
      (c : Candidate) (gs : List Group)
      → NoneBefore (candidates gs) c
      → All (λ g. is_ready g ≡ true → before (candidate g) c ≡ false) gs
  unfolding candidates
  candidates-NoneBefore c [] h = tt
  candidates-NoneBefore c (g ∷ gs) h = first_group (is_ready g) refl h (candidates-NoneBefore c gs)
    where
      first_group :
          (b : Bool)
          → is_ready g ≡ b
          → NoneBefore (if b then candidate g ∷ candidates gs else candidates gs) c
          → (NoneBefore (candidates gs) c
              → All (λ g'. is_ready g' ≡ true → before (candidate g') c ≡ false) gs)
          → All (λ g'. is_ready g' ≡ true → before (candidate g') c ≡ false) (g ∷ gs)
      first_group true e k rest = (λ _. k.0, rest k.1)
      first_group false e k rest = (λ f. absurd (cc), rest k)

  pub candidates-nil : (gs : List Group) → candidates gs ≡ [] → All (λ g. is_ready g ≡ false) gs
  unfolding candidates
  candidates-nil [] h = tt
  candidates-nil (g ∷ gs) h = (ground arith, candidates-nil gs (ground arith))

  next_time-le : (gs : List Group) (u : ℕ) → (t : ℕ) × (next_time (some u) gs ≡ some t) × (t ≤ u)
  unfolding next_time
  next_time-le [] u = (u, refl, omega arith)
  next_time-le (g ∷ gs) u = elim (Bool-cases (is_ready g)) [
    | inl r ↦ rw r (next_time-le gs u)
    | inr r ↦
        let (t, e, l) = next_time-le gs (min u (group_ready_at p g.messages)) in
        rw r (t, e, omega arith)
  ]

  pub next_time-bound :
      (gs : List Group) (next : Option ℕ)
      → All
          (λ g.
            is_ready g ≡ false
            → (t : ℕ) × (next_time next gs ≡ some t) × (t ≤ group_ready_at p g.messages))
          gs
  unfolding next_time
  next_time-bound [] next = tt
  next_time-bound (g ∷ gs) next = (
    first_group,
    next_time-bound gs
        (if is_ready g then next else some (sooner next (group_ready_at p g.messages))),
  )
    where
      first_group :
          is_ready g ≡ false
          → (t : ℕ) × (next_time
                (if is_ready g then next else some (sooner next (group_ready_at p g.messages)))
                gs
              ≡ some t)
            × (t ≤ group_ready_at p g.messages)
      first_group r =
          let (t, e, l) = next_time-le gs (sooner next (group_ready_at p g.messages)) in
          rw r (t, e, omega (arith, sooner-le next (group_ready_at p g.messages)))

  -- Where no group is ready, the next time is the ready time of one of them.
  pub next_time-attained :
      (P : Group → Type 0) (gs : List Group) (next : Option ℕ) (t : ℕ)
      → All P gs
      → next_time next gs ≡ some t
      → (next ≡ some t) ⊎ ((g : Group) × P g × (group_ready_at p g.messages ≡ t))
  unfolding next_time
  next_time-attained P [] next t h e = inl e
  next_time-attained P (g ∷ gs) next t h e = elim (Bool-cases (is_ready g)) [
    | inl r ↦ next_time-attained P gs next t h.1 (rw r at e)
    | inr r ↦
        elim (next_time-attained P gs (some (sooner next (group_ready_at p g.messages))) t h.1
          (rw r at e)) [
            | inr found ↦ inr found
            | inl first ↦ elim (sooner-cases next (group_ready_at p g.messages) t first) [
              | inl old ↦ inl old
              | inr new ↦ inr (g, h.0, new)
            ]
          ]
  ]
