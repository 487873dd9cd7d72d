-- ===== src/State/Parts.antt =====
-- runtime/state/model.rs: a state from the parts that a file holds.
use ferris_agent_bridge.State.Validate.{validate}
use ferris_agent_bridge.Base.Text.{text_partial_eq}
use ferris_agent_bridge.State.{RuntimeState, Error}
use ferris_agent_bridge.Base.{
  Result, ℕ, List, Bool, ◌∷◌, max, [], ok, ◌>>◌, if◌then◌else◌, nat_partial_eq,
}

pub record PersistedStateParts : Type 0 where
  pub state : RuntimeState
  pub normalize_aggregate_updated_at : Bool

-- `fold(updated_at_unix, u64::max)` over the times of a list.
unfoldable pub latest : {A : Type 0} → (A → ℕ) → List A → ℕ → ℕ
latest time [] t = t
latest time (x ∷ xs) t = latest time xs (max t (time x))

unfoldable pub normalize_migrated_aggregate_updated_at : RuntimeState → RuntimeState
unfolding latest
normalize_migrated_aggregate_updated_at s =
    let t1 = latest (λ x. x.updated_at_unix) s.sessions s.updated_at_unix in
    let t2 = latest (λ r. r.updated_at_unix) s.runs t1 in
    let t3 = latest (λ i. i.claimed_at_unix) s.run_inputs t2 in
    let t4 = latest (λ e. e.recorded_at_unix) s.inbound_events t3 in
    let t5 = latest (λ d. d.updated_at_unix) s.outbound_deliveries t4 in
    record s { updated_at_unix = latest (λ q. q.enqueued_at_unix) s.queued_messages t5 }

unfoldable pub from_persisted_parts : PersistedStateParts → Result Error RuntimeState
unfolding normalize_migrated_aggregate_updated_at
from_persisted_parts p = do
  let s =
      if p.normalize_aggregate_updated_at
      then normalize_migrated_aggregate_updated_at p.state
      else p.state
  validate s
  ok s
