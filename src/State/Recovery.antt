-- ===== src/State/Recovery.antt =====
-- Startup recovery always succeeds on valid records, leaves nothing in flight, and is idempotent.
use ferris_agent_bridge.State.RecoveredRuns.{
  IsLeft, report_of, recovered_runs, latest_interrupted, recover_runs_lem, recovered_runs-IsLeft,
  recovered_runs-report, recover-IsLeft, RunsRecovered, recovered_runs-RunsRecovered,
}
use mathlib.Core.Path.{ap₂, subst₂}
use ferris_agent_bridge.Base.{
  ℕ, ◌≡◌, refl, sym, ap, ◌∙◌, subst, Bool, false, map, Option, none, some, ok, All, is_some,
  contains,
}
use ferris_agent_bridge.Base.Text.{text_partial_eq}
use ferris_agent_bridge.Run.{RunId, RunRecord, RunStatus}
use ferris_agent_bridge.Run
use ferris_agent_bridge.State.{RuntimeState, touch_at}
use ferris_agent_bridge.State.Startup.{
  RunStartupRecoveryReport, touch_latest, has_run_input, reconcile_runs_at_startup,
}

touch_latest-keeps :
    (s : RuntimeState) (l : Option ℕ)
    → ((touch_latest s l).runs ≡ s.runs)
      × ((touch_latest s l).run_inputs ≡ s.run_inputs)
      × ((touch_latest s l).outbound_deliveries ≡ s.outbound_deliveries)
unfolding touch_at
touch_latest-keeps s none = (refl, refl, refl)
touch_latest-keeps s (some t) = (refl, refl, refl)

has_run_input-cong :
    (s s' : RuntimeState) → s.run_inputs ≡ s'.run_inputs → has_run_input s ≡ has_run_input s'
unfolding has_run_input
has_run_input-cong s s' e = ap (λ is id. contains id (map (λ i. i.run_id) is)) e

IsLeft-state :
    (s : RuntimeState) (t : ℕ)
    → All (IsLeft (has_run_input s)) s.runs
    → reconcile_runs_at_startup s t ≡ ok (s, report_of (has_run_input s) s.runs, false)
unfolding reconcile_runs_at_startup
IsLeft-state s t h = rw (recover-IsLeft (has_run_input s) t s.runs h)

module _ (s : RuntimeState) (t : ℕ) (v : All Run.Valid.IsValid s.runs) where
  -- The state after recovery.
  abbrev pub recovered_state : RuntimeState
  recovered_state =
      touch_latest (record s { runs = recovered_runs (has_run_input s) t s.runs })
        (latest_interrupted (has_run_input s) t s.runs)

  reconcile_runs_lem :
      reconcile_runs_at_startup s t
      ≡ ok (
        recovered_state,
        report_of (has_run_input s) s.runs,
        is_some (latest_interrupted (has_run_input s) t s.runs),
      )
  unfolding reconcile_runs_at_startup
  reconcile_runs_lem = rw (recover_runs_lem (has_run_input s) t s.runs v)

  kept_runs : recovered_state.runs ≡ recovered_runs (has_run_input s) t s.runs
  kept_runs =
      (touch_latest-keeps (record s { runs = recovered_runs (has_run_input s) t s.runs })
        (latest_interrupted (has_run_input s) t s.runs)).0

  -- On a state of valid runs recovery succeeds. It interrupts each running run and each pending one
  -- without a run input, leaves the others, keeps all of them valid, so that none is running and none
  -- pending without a run input afterwards, and reports exactly the ids of the runs that are pending,
  -- interrupted and failed then.
  pub reconcile_settles :
      (s' : RuntimeState) × (report : RunStartupRecoveryReport) × (changed : Bool)
      × (reconcile_runs_at_startup s t ≡ ok (s', report, changed))
      × RunsRecovered (has_run_input s) t s.runs s'.runs report
  reconcile_settles = (
    recovered_state,
    report_of (has_run_input s) s.runs,
    is_some (latest_interrupted (has_run_input s) t s.runs),
    reconcile_runs_lem,
    subst (λ rs. RunsRecovered (has_run_input s) t s.runs rs (report_of (has_run_input s) s.runs))
        (sym kept_runs) (recovered_runs-RunsRecovered (has_run_input s) t s.runs v),
  )

  kept_inputs : has_run_input recovered_state ≡ has_run_input s
  kept_inputs =
      has_run_input-cong recovered_state s
        (touch_latest-keeps (record s { runs = recovered_runs (has_run_input s) t s.runs })
          (latest_interrupted (has_run_input s) t s.runs)).1

  again :
      (t' : ℕ)
      → reconcile_runs_at_startup recovered_state t'
        ≡ ok (recovered_state, report_of (has_run_input s) s.runs, false)
  again t' =
      IsLeft-state recovered_state t'
        (rw (kept_inputs, kept_runs) (recovered_runs-IsLeft (has_run_input s) t s.runs))
      ∙ ap (λ report. ok (recovered_state, report, false)) same_report
    where
      same_report :
          report_of (has_run_input recovered_state) recovered_state.runs
          ≡ report_of (has_run_input s) s.runs
      same_report =
          ap₂ report_of kept_inputs kept_runs ∙ recovered_runs-report (has_run_input s) t s.runs

  -- Recovery is idempotent: a second one, at any time, changes nothing and gives the same report.
  pub reconcile_twice :
      (s' : RuntimeState) (report : RunStartupRecoveryReport) (changed : Bool) (t' : ℕ)
      → reconcile_runs_at_startup s t ≡ ok (s', report, changed)
      → reconcile_runs_at_startup s' t' ≡ ok (s', report, false)
  reconcile_twice s' report changed t' e =
      let same : recovered_state ≡ s' = cc reconcile_runs_lem in
      let same_report : report_of (has_run_input s) s.runs ≡ report = cc reconcile_runs_lem in
      subst₂ (λ x r. reconcile_runs_at_startup x t' ≡ ok (x, r, false)) same same_report (again t')
