-- ===== src/Worker.antt =====
-- runtime/outbox/worker.rs: one round of the outbox worker. `started` and `finished` are the readings
-- of the clock; each operation of the store has an `Env` of its own.
pub mod Recorded
pub mod Ending
pub mod Handoff
use ferris_agent_bridge.Adapter
use ferris_agent_bridge.Outbox.{OutboundDeliveryRecord, OutboundDeliveryAttempt}
use ferris_agent_bridge.Adapter.{ImAdapter, OutboundDeliveryFailure}
use ferris_agent_bridge.Store.{Env, load, Disk}
use ferris_agent_bridge.Format.Current.{SerdeJson}
use ferris_agent_bridge.Ids.{OutboundDeliveryId}
use ferris_agent_bridge.Outbox.Retry.{next_attempt_at_unix, OutboundRetryPolicy}
use ferris_agent_bridge.Base.Text.{text_partial_eq, Text}
use ferris_agent_bridge.Base.{
  ℕ, zero, suc, ◌+◌, ◌-◌, ◌≤◌, ◌<◌, max, ◌≡◌, ◌≢◌, refl, sym, ap, ◌∙◌, subst, ◌↔◌, ◌⊎◌, inl, inr,
  Bool, true, false, not, ◌&&◌, ◌||◌, Option, none, some, List, [], ◌∷◌, ◌++◌, map, arith, Result,
  ok, err, ◌>>=◌, ◌>>◌, fail_if, ok_or, map_err, map_ok, when_some, for_each, if◌then◌else◌, ltb,
  leb, ◌==◌, nat_partial_eq, PartialEq, find, any, is_some, is_nil, contains, All, All-map,
  All-append, Bool-cases, >>=-eq-ok, >>-eq-ok, fail_if-eq-ok, ok_or-eq-ok, map_err-eq-ok, eq_refl,
  eq_sound, min,
}
use ferris_agent_bridge.Store
use ferris_agent_bridge.Store.Deliveries

pub data Error : Type 0 where
  claim_failed inspect_failed : Store.Error → Error
  delivered_unconfirmed failed_unconfirmed uncertain_unconfirmed : Store.Error → Error

pub data OutboxWorkerOutcome : Type 0 where
  idle : Option ℕ → OutboxWorkerOutcome
  delivered : OutboundDeliveryId → ℕ → OutboxWorkerOutcome
  failed : OutboundDeliveryId → ℕ → Text → Option ℕ → OutboxWorkerOutcome
  uncertain : OutboundDeliveryId → ℕ → Text → OutboxWorkerOutcome

-- `Iterator::min` of `filter_map`.
unfoldable pub earliest : Option ℕ → Option ℕ → Option ℕ
earliest none t = t
earliest (some t) none = some t
earliest (some t) (some u) = some (min t u)

unfoldable pub next_deferred : OutboundRetryPolicy → List OutboundDeliveryRecord → Option ℕ
unfolding earliest next_attempt_at_unix
next_deferred policy [] = none
next_deferred policy (d ∷ ds) = earliest (next_attempt_at_unix policy d) (next_deferred policy ds)

-- What a round of the worker may meet.
pub record Round : Type 0 where
  pub claiming : Env
  pub inspecting : Env
  pub marking : Env
  pub started : ℕ
  pub clock : ℕ

module _ (J : SerdeJson) (A : ImAdapter) (retry_policy : OutboundRetryPolicy) where
  -- The state file and the adapter after the round, and what it returns.
  pub record Progress : Type 0 where
    pub disk : Disk J
    pub adapter : A.Self
    pub answer : Result Error OutboxWorkerOutcome

  -- `finished_at_unix`
  abbrev pub finished : Round → ℕ
  finished w = max w.clock w.started

  unfoldable pub deferred : Round → Disk J → Result Error OutboxWorkerOutcome
  unfolding next_deferred load
  deferred w disk = do
    s ← map_err inspect_failed (load J w.inspecting disk)
    ok (idle (next_deferred retry_policy s.outbound_deliveries))

  -- The mark of the outcome of an attempt, and what the worker returns then.
  unfoldable pub marked :
      A.Self
      → Disk J × Result Store.Error OutboundDeliveryRecord
      → (Store.Error → Error)
      → (OutboundDeliveryRecord → OutboxWorkerOutcome)
      → Progress
  marked adapter (disk, m) unconfirmed outcome = record {
    disk = disk;
    adapter = adapter;
    answer = map_ok outcome (map_err unconfirmed m);
  }

  -- The `match adapter_result`.
  unfoldable pub finish :
      Round
      → Disk J
      → OutboundDeliveryAttempt
      → A.Self × Result OutboundDeliveryFailure (Unit {0})
      → Progress
  unfolding marked next_attempt_at_unix Deliveries.mark_outbound_delivery_delivered
      Deliveries.mark_outbound_delivery_failed Deliveries.mark_outbound_delivery_uncertain
  finish w disk attempt (adapter, ok u) =
      marked adapter
        (Deliveries.mark_outbound_delivery_delivered J w.marking disk attempt.delivery_id
          (finished w))
        delivered_unconfirmed (λ d. delivered attempt.delivery_id attempt.attempt_number)
  finish w disk attempt (adapter, err failure) = elim failure.kind [
    | Adapter.retryable ↦
        marked adapter
          (Deliveries.mark_outbound_delivery_failed J w.marking disk attempt.delivery_id
            (finished w) failure.message)
          failed_unconfirmed
          (λ d.
            failed attempt.delivery_id attempt.attempt_number failure.message
              (next_attempt_at_unix retry_policy d))
    | Adapter.uncertain ↦
        marked adapter
          (Deliveries.mark_outbound_delivery_uncertain J w.marking disk attempt.delivery_id
            (finished w) failure.message)
          uncertain_unconfirmed
          (λ d. uncertain attempt.delivery_id attempt.attempt_number failure.message)
  ]

  -- What follows the claim.
  unfoldable pub after_claim :
      Round → A.Self → Disk J × Result Store.Error (Option OutboundDeliveryAttempt) → Progress
  unfolding deferred finish
  after_claim w adapter (disk, err x) = record {
    disk = disk;
    adapter = adapter;
    answer = err (claim_failed x);
  }
  after_claim w adapter (disk, ok none) = record {
    disk = disk;
    adapter = adapter;
    answer = deferred w disk;
  }
  after_claim w adapter (disk, ok (some attempt)) =
      finish w disk attempt (A.deliver_outbound_message adapter attempt)

  unfoldable pub process_next : Round → Disk J → A.Self → Progress
  unfolding after_claim Deliveries.claim_next_outbound_delivery_attempt
  process_next w disk adapter =
      after_claim w adapter
        (Deliveries.claim_next_outbound_delivery_attempt J w.claiming disk w.started retry_policy)
