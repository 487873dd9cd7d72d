-- ===== src/State/Startup.antt =====
-- Startup recovery of runtime/state/model.rs: runs and deliveries that a crash left in flight.
use ferris_agent_bridge.Base.{
  ℕ, max, Bool, true, false, List, [], ◌∷◌, map, Option, none, some, Result, ok, ◌>>=◌, map_err,
  contains, is_some,
}
use ferris_agent_bridge.Base.Text.{Text, codes, text_partial_eq}
use ferris_agent_bridge.Ids.{OutboundDeliveryId}
use ferris_agent_bridge.Outbox.{OutboundDeliveryRecord, delivering, uncertain}
use ferris_agent_bridge.Outbox
use ferris_agent_bridge.Run.{RunId, RunRecord, RunStatus}
use ferris_agent_bridge.Run
use ferris_agent_bridge.State.{RuntimeState, Error, run_error, delivery_error, touch_at}

-- `RunStartupRecoveryReport` of runtime/run.rs.
pub record RunStartupRecoveryReport : Type 0 where
  pub resumable_pending_run_ids : List RunId
  pub interrupted_run_ids : List RunId
  pub failed_run_ids : List RunId

-- What a loop over the records leaves behind: the records, its report, and the latest time at
-- which it changed a record. `changed` of the source is set exactly where that time is.
pub record Recovery (A R : Type 0) : Type 0 where
  pub records : List A
  pub report : R
  pub latest : Option ℕ

-- `Some(latest.unwrap_or(t).max(t))`, and nothing where there is no time.
abbrev pub latest_of : Option ℕ → Option ℕ → Option ℕ
latest_of none l = l
latest_of (some t) none = some t
latest_of (some t) (some u) = some (max t u)

-- What the loop does to one run.
pub data RunAction : Type 0 where
  resume interrupt_now report_interrupted report_failed leave : RunAction

unfoldable pub run_action : RunStatus → Bool → RunAction
run_action Run.pending true = resume
run_action Run.pending false = interrupt_now
run_action Run.running has_input = interrupt_now
run_action Run.interrupted has_input = report_interrupted
run_action Run.failed has_input = report_failed
run_action Run.completed has_input = leave
run_action Run.cancelled has_input = leave

abbrev pub reported : RunAction → RunId → RunStartupRecoveryReport → RunStartupRecoveryReport
reported resume id p = record p { resumable_pending_run_ids = id ∷ p.resumable_pending_run_ids }
reported interrupt_now id p = record p { interrupted_run_ids = id ∷ p.interrupted_run_ids }
reported report_interrupted id p = record p { interrupted_run_ids = id ∷ p.interrupted_run_ids }
reported report_failed id p = record p { failed_run_ids = id ∷ p.failed_run_ids }
reported leave id p = p

-- One round of the loop: the run after it, and the time if it was interrupted.
unfoldable pub recover_run : RunAction → ℕ → RunRecord → Result Error (RunRecord × Option ℕ)
recover_run interrupt_now t r = do
  let at = max t r.updated_at_unix
  r' ← map_err run_error (Run.interrupt r at)
  ok (r', some at)
recover_run _ t r = ok (r, none)

abbrev pub action_of : (RunId → Bool) → RunRecord → RunAction
action_of has_input r = run_action r.status (has_input r.id)

unfoldable pub recover_runs :
    (RunId → Bool) → ℕ → List RunRecord → Result Error (Recovery RunRecord RunStartupRecoveryReport)
unfolding recover_run
recover_runs has_input t [] = ok (record {
  records = [];
  report = record { resumable_pending_run_ids = []; interrupted_run_ids = []; failed_run_ids = [] };
  latest = none;
})
recover_runs has_input t (r ∷ rs) = do
  (r', at) ← recover_run (action_of has_input r) t r
  rest ← recover_runs has_input t rs
  ok (record {
    records = r' ∷ rest.records;
    report = reported (action_of has_input r) r.id rest.report;
    latest = latest_of at rest.latest;
  })

abbrev pub touch_latest : RuntimeState → Option ℕ → RuntimeState
touch_latest s none = s
touch_latest s (some t) = touch_at s t

-- `run_input_ids.contains(id)`
unfoldable pub has_run_input : RuntimeState → RunId → Bool
has_run_input s id = contains id (map (λ i. i.run_id) s.run_inputs)

unfoldable pub reconcile_runs_at_startup :
    RuntimeState → ℕ → Result Error (RuntimeState × RunStartupRecoveryReport × Bool)
unfolding recover_runs has_run_input
reconcile_runs_at_startup s t = do
  found ← recover_runs (has_run_input s) t s.runs
  ok (
    touch_latest (record s { runs = found.records }) found.latest,
    found.report,
    is_some found.latest,
  )

abbrev pub startup_recovery_diagnostic : Text
startup_recovery_diagnostic = codes "delivery outcome is unknown after startup recovery"

-- One round of the loop over the deliveries.
unfoldable pub recover_delivery :
    ℕ → OutboundDeliveryRecord → Result Error (OutboundDeliveryRecord × Option ℕ)
recover_delivery t d = elim d.status [
  | delivering ↦ do
    let at = max t d.updated_at_unix
    d' ← map_err delivery_error (Outbox.mark_uncertain d at startup_recovery_diagnostic)
    ok (d', some at)
  | _ ↦ ok (d, none)
]

-- The ids of the deliveries that someone has to reconcile.
abbrev pub required : OutboundDeliveryRecord → List OutboundDeliveryId → List OutboundDeliveryId
required d ids = elim d.status [ delivering ↦ d.id ∷ ids | uncertain ↦ d.id ∷ ids | _ ↦ ids ]

unfoldable pub recover_deliveries :
    ℕ
    → List OutboundDeliveryRecord
    → Result Error (Recovery OutboundDeliveryRecord (List OutboundDeliveryId))
unfolding recover_delivery
recover_deliveries t [] = ok (record { records = []; report = []; latest = none })
recover_deliveries t (d ∷ ds) = do
  (d', at) ← recover_delivery t d
  rest ← recover_deliveries t ds
  ok (record {
    records = d' ∷ rest.records;
    report = required d rest.report;
    latest = latest_of at rest.latest;
  })

unfoldable pub reconcile_outbound_deliveries_at_startup :
    RuntimeState → ℕ → Result Error (RuntimeState × List OutboundDeliveryId × Bool)
unfolding recover_deliveries
reconcile_outbound_deliveries_at_startup s t = do
  found ← recover_deliveries t s.outbound_deliveries
  ok (
    touch_latest (record s { outbound_deliveries = found.records }) found.latest,
    found.report,
    is_some found.latest,
  )
