-- ===== src/State/RecoveredRuns.antt =====
-- The loop of startup recovery (runtime/state/model.rs) over a list of runs, and what it makes of
-- each run by its status.
use ferris_agent_bridge.Base.{
  ℕ, max, ◌≡◌, ◌≢◌, refl, sym, ap, ◌∙◌, Bool, List, [], ◌∷◌, map, Option, none, some, ok, All,
  arith, retain, All-map, if◌then◌else◌, ◌⊎◌, true,
}
use ferris_agent_bridge.Base.Text.{text_partial_eq}
use ferris_agent_bridge.Run.{RunId, RunRecord, RunStatus}
use ferris_agent_bridge.Run
use ferris_agent_bridge.State.Startup.{
  RunStartupRecoveryReport, RunAction, interrupt_now, latest_of, run_action, reported, recover_run,
  action_of, recover_runs,
}

-- A run that the loop leaves as it is.
abbrev pub IsLeft : (RunId → Bool) → RunRecord → Type 0
IsLeft has_input r = action_of has_input r ≢ interrupt_now

-- The run after one round of the recovery: interrupted at a time not before its last update, if
-- it was in flight.
abbrev pub recovered : RunAction → ℕ → RunRecord → RunRecord
recovered interrupt_now t r = record r {
  status = Run.interrupted;
  updated_at_unix = max r.updated_at_unix (max t r.updated_at_unix);
}
recovered _ t r = r

abbrev pub interrupted_at : RunAction → ℕ → RunRecord → Option ℕ
interrupted_at interrupt_now t r = some (max t r.updated_at_unix)
interrupted_at _ t r = none

module _ (has_input : RunId → Bool) (t : ℕ) where
  recover_run_lem :
      (r : RunRecord)
      → Run.Valid.IsValid r
      → recover_run (action_of has_input r) t r
        ≡ ok (recovered (action_of has_input r) t r, interrupted_at (action_of has_input r) t r)
  unfolding recover_run Run.interrupt run_action
  recover_run_lem r v = ground arith

  recovered-IsLeft : (r : RunRecord) → IsLeft has_input (recovered (action_of has_input r) t r)
  unfolding run_action
  recovered-IsLeft r = ground arith

  recovered-reported :
      (r : RunRecord) (p : RunStartupRecoveryReport)
      → let r' = recovered (action_of has_input r) t r in
        reported (action_of has_input r') r'.id p ≡ reported (action_of has_input r) r.id p
  unfolding run_action
  recovered-reported r p = ground arith

  recovered-IsValid :
      (r : RunRecord)
      → Run.Valid.IsValid r
      → Run.Valid.IsValid (recovered (action_of has_input r) t r)
  unfolding run_action
  recovered-IsValid r v = ground arith

abbrev pub empty_report : RunStartupRecoveryReport
empty_report = record {
  resumable_pending_run_ids = [];
  interrupted_run_ids = [];
  failed_run_ids = [];
}

abbrev pub report_of : (RunId → Bool) → List RunRecord → RunStartupRecoveryReport
report_of has_input [] = empty_report
report_of has_input (r ∷ rs) = reported (action_of has_input r) r.id (report_of has_input rs)

abbrev pub recovered_runs : (RunId → Bool) → ℕ → List RunRecord → List RunRecord
recovered_runs has_input t [] = []
recovered_runs has_input t (r ∷ rs) =
    recovered (action_of has_input r) t r ∷ recovered_runs has_input t rs

abbrev pub latest_interrupted : (RunId → Bool) → ℕ → List RunRecord → Option ℕ
latest_interrupted has_input t [] = none
latest_interrupted has_input t (r ∷ rs) =
    latest_of (interrupted_at (action_of has_input r) t r) (latest_interrupted has_input t rs)

pub recover_runs_lem :
    (has_input : RunId → Bool) (t : ℕ) (rs : List RunRecord)
    → All Run.Valid.IsValid rs
    → recover_runs has_input t rs
      ≡ ok (record {
        records = recovered_runs has_input t rs;
        report = report_of has_input rs;
        latest = latest_interrupted has_input t rs;
      })
unfolding recover_runs
recover_runs_lem has_input t [] v = refl
recover_runs_lem has_input t (r ∷ rs) v =
    rw (recover_run_lem has_input t r v.0, recover_runs_lem has_input t rs v.1)

pub recovered_runs-IsLeft :
    (has_input : RunId → Bool) (t : ℕ) (rs : List RunRecord)
    → All (IsLeft has_input) (recovered_runs has_input t rs)
recovered_runs-IsLeft has_input t [] = tt
recovered_runs-IsLeft has_input t (r ∷ rs) =
    (recovered-IsLeft has_input t r, recovered_runs-IsLeft has_input t rs)

pub recovered_runs-report :
    (has_input : RunId → Bool) (t : ℕ) (rs : List RunRecord)
    → report_of has_input (recovered_runs has_input t rs) ≡ report_of has_input rs
recovered_runs-report has_input t [] = refl
recovered_runs-report has_input t (r ∷ rs) =
    recovered-reported has_input t r (report_of has_input (recovered_runs has_input t rs))
    ∙ ap (reported (action_of has_input r) r.id) (recovered_runs-report has_input t rs)

pub recovered_runs-IsValid :
    (has_input : RunId → Bool) (t : ℕ) (rs : List RunRecord)
    → All Run.Valid.IsValid rs
    → All Run.Valid.IsValid (recovered_runs has_input t rs)
recovered_runs-IsValid has_input t [] v = tt
recovered_runs-IsValid has_input t (r ∷ rs) v =
    (recovered-IsValid has_input t r v.0, recovered_runs-IsValid has_input t rs v.1)

-- Recovery of such runs changes nothing, valid or not.
pub recover-IsLeft :
    (has_input : RunId → Bool) (t : ℕ) (rs : List RunRecord)
    → All (IsLeft has_input) rs
    → recover_runs has_input t rs
      ≡ ok (record { records = rs; report = report_of has_input rs; latest = none })
unfolding recover_runs
recover-IsLeft has_input t [] h = refl
recover-IsLeft has_input t (r ∷ rs) h = rw (settled_round r h.0, recover-IsLeft has_input t rs h.1)
  where
    settled_round :
        (r : RunRecord)
        → IsLeft has_input r
        → recover_run (action_of has_input r) t r ≡ ok (r, none)
    settled_round r h = unfold recover_run in ground arith

-- A run that was in flight, after recovery.
abbrev interrupted_run : ℕ → RunRecord → RunRecord
interrupted_run t r = record r {
  status = Run.interrupted;
  updated_at_unix = max t r.updated_at_unix;
}

-- A run after recovery, by its status before: a running one is interrupted, and a pending one is if it
-- has no input.
abbrev pub after_restart : (RunId → Bool) → ℕ → RunRecord → RunRecord
after_restart has_input t r = elim r.status [
  | Run.running ↦ interrupted_run t r
  | Run.pending ↦ if has_input r.id then r else interrupted_run t r
  | _ ↦ r
]

-- The ids of the runs with a status.
abbrev pub ids_with : RunStatus → List RunRecord → List RunId
ids_with status rs = map (λ r. r.id) (retain (λ r. Run.status_eq r.status status) rs)

-- What recovery leaves of the runs, and what it reports.
pub record RunsRecovered (has_input : RunId → Bool) (t : ℕ) (before after : List RunRecord)
    (report : RunStartupRecoveryReport) : Type 0 where
  pub records : after ≡ map (after_restart has_input t) before
  pub valid : All Run.Valid.IsValid after
  pub none_running : All (λ r. r.status ≢ Run.running) after
  pub resumable : All (λ r. (r.status ≢ Run.pending) ⊎ (has_input r.id ≡ true)) after
  pub reported_pending : report.resumable_pending_run_ids ≡ ids_with Run.pending after
  pub reported_interrupted : report.interrupted_run_ids ≡ ids_with Run.interrupted after
  pub reported_failed : report.failed_run_ids ≡ ids_with Run.failed after

module _ (has_input : RunId → Bool) (t : ℕ) where
  recovered-eq-after_restart :
      (r : RunRecord) → recovered (action_of has_input r) t r ≡ after_restart has_input t r
  unfolding run_action
  recovered-eq-after_restart r = ground arith

  recovered_runs-eq-map :
      (rs : List RunRecord) → recovered_runs has_input t rs ≡ map (after_restart has_input t) rs
  recovered_runs-eq-map [] = refl
  recovered_runs-eq-map (r ∷ rs) = rw (recovered-eq-after_restart r, recovered_runs-eq-map rs) refl

  IsLeft-cases :
      (r : RunRecord)
      → IsLeft has_input r
      → (r.status ≢ Run.running) × ((r.status ≢ Run.pending) ⊎ (has_input r.id ≡ true))
  unfolding run_action
  IsLeft-cases r h = ground arith

  report_of-ids :
      (rs : List RunRecord)
      → All (IsLeft has_input) rs
      → report_of has_input rs ≡ record {
        resumable_pending_run_ids = ids_with Run.pending rs;
        interrupted_run_ids = ids_with Run.interrupted rs;
        failed_run_ids = ids_with Run.failed rs;
      }
  unfolding run_action retain
  report_of-ids [] h = refl
  report_of-ids (r ∷ rs) h = rw (report_of-ids rs h.1) (ground arith)

  pub recovered_runs-RunsRecovered :
      (rs : List RunRecord)
      → All Run.Valid.IsValid rs
      → RunsRecovered has_input t rs (recovered_runs has_input t rs) (report_of has_input rs)
  recovered_runs-RunsRecovered rs v =
      let left = recovered_runs-IsLeft has_input t rs in
      let after = recovered_runs has_input t rs in
      let report = sym (recovered_runs-report has_input t rs) ∙ report_of-ids after left in
      let cases = All-map (IsLeft has_input) _ after IsLeft-cases left in
      record {
        records = recovered_runs-eq-map rs;
        valid = recovered_runs-IsValid has_input t rs v;
        none_running = All-map _ _ after (λ r h. h.0) cases;
        resumable = All-map _ _ after (λ r h. h.1) cases;
        reported_pending = ap (λ p. p.resumable_pending_run_ids) report;
        reported_interrupted = ap (λ p. p.interrupted_run_ids) report;
        reported_failed = ap (λ p. p.failed_run_ids) report;
      }
