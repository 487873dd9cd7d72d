-- ===== src/Format/Fields.antt =====
-- The fields of the file that a version has.
use ferris_agent_bridge.Format.{
  WireField, RuntimeStateFileWire, PersistedCollections, output_linked_runs, Collection, is_present,
  interrupted_runs, value, runtime_state_file_version, into_required, missing, null,
}
use ferris_agent_bridge.Run.{RunRecord, interrupted}
use ferris_agent_bridge.Format.Versioned.{
  absent, reject_interrupted_runs, reject_output_linked_runs, required,
}
use ferris_agent_bridge.Base.Text.{text_partial_eq}
use ferris_agent_bridge.Base.{
  ℕ, ◌≤◌, ◌<◌, ◌≡◌, sym, ap, ◌∙◌, ◌⊎◌, inl, inr, Bool, true, false, not, List, [], ◌∷◌, arith, ok,
  ltb, nat_partial_eq, any, is_nil, All, All-map, fail_if-eq-ok,
}
use ferris_agent_bridge.Run

-- A run as the files before the version 7 could hold it.
abbrev pub NotInterrupted : RunRecord → Type 0
NotInterrupted r = Run.status_eq r.status interrupted ≡ false

abbrev pub NoOutputs : RunRecord → Type 0
NoOutputs r = is_nil r.output_delivery_ids ≡ true

-- What a version can hold: a kind of record is empty in every version before the one that brought it,
-- and is what the field of the file holds from then on.
abbrev pub Since : {A : Type 0} → ℕ → ℕ → WireField (List A) → List A → Type 0
Since first version field xs =
    ((version < first) × (xs ≡ []) × (is_present field ≡ false))
    ⊎ ((first ≤ version) × (field ≡ value xs))

pub record Decoded (w : RuntimeStateFileWire) (c : PersistedCollections) : Type 0 where
  pub oldest : 1 ≤ w.version
  pub newest : w.version ≤ runtime_state_file_version
  pub runs : Since 2 w.version w.runs c.runs
  pub inbound_events : Since 3 w.version w.inbound_events c.inbound_events
  pub outbound_deliveries : Since 4 w.version w.outbound_deliveries c.outbound_deliveries
  pub queued_messages : Since 5 w.version w.queued_messages c.queued_messages
  pub run_inputs : Since 6 w.version w.run_inputs c.run_inputs
  pub interrupted_late : (7 ≤ w.version) ⊎ All NotInterrupted c.runs
  pub outputs_late : (8 ≤ w.version) ⊎ All NoOutputs c.runs
  pub normalized : c.normalize_aggregate_updated_at ≡ ltb w.version 3

pub absent-eq-ok :
    {A : Type 0} (v : ℕ) (c : Collection) (field : WireField A)
    → absent v c field ≡ ok tt
    → is_present field ≡ false
unfolding absent
absent-eq-ok v c field h = fail_if-eq-ok (is_present field) _ h

pub required-eq-ok :
    {A : Type 0} (v : ℕ) (c : Collection) (field : WireField A) {a : A}
    → required v c field ≡ ok a
    → field ≡ value a
unfolding required into_required
required-eq-ok v c missing h = absurd (cc)
required-eq-ok v c null h = absurd (cc)
required-eq-ok v c (value b) h = cc

pub any-All :
    {A : Type 0} (p : A → Bool) (xs : List A) → any p xs ≡ false → All (λ x. p x ≡ false) xs
unfolding any
any-All p [] h = tt
any-All p (x ∷ xs) h = (ground arith, any-All p xs (ground arith))

pub interrupted-All :
    (v : ℕ) (rs : List RunRecord) → reject_interrupted_runs v rs ≡ ok tt → All NotInterrupted rs
unfolding reject_interrupted_runs
interrupted-All v rs h = any-All _ rs (fail_if-eq-ok _ (interrupted_runs v) h)

pub linked-All :
    (v : ℕ) (rs : List RunRecord) → reject_output_linked_runs v rs ≡ ok tt → All NoOutputs rs
unfolding reject_output_linked_runs
linked-All v rs h =
    All-map (λ r. not (is_nil r.output_delivery_ids) ≡ false) NoOutputs rs (λ r e. ground arith)
      (any-All _ rs (fail_if-eq-ok _ (output_linked_runs v) h))

pub not_yet :
    {A : Type 0} {version first v : ℕ} (c : Collection) (field : WireField (List A)) (xs : List A)
    → version ≡ v
    → v < first
    → absent v c field ≡ ok tt
    → xs ≡ []
    → Since first version field xs
not_yet {v} c field xs at early h e = inl (ground arith, e, absent-eq-ok v c field h)

pub by_now :
    {A : Type 0} {version first v : ℕ} (c : Collection) (field : WireField (List A))
    (found xs : List A)
    → version ≡ v
    → first ≤ v
    → required v c field ≡ ok found
    → xs ≡ found
    → Since first version field xs
by_now {v} c field found xs at late h e =
    inr (ground arith, required-eq-ok v c field h ∙ ap value (sym e))
