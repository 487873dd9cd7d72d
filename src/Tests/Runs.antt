-- ===== src/Tests/Runs.antt =====
-- Runs.
use ferris_agent_bridge.Base.{◌≡◌, ok, refl, ◌∷◌, [], ◌↔◌, true, ◌≢◌, false}
use ferris_agent_bridge.Run.{
  validate, apply, complete_with, start_at, is_descendant_of, is_terminal,
}
use ferris_agent_bridge.Run
use ferris_agent_bridge.Run.Valid.{IsValid, run_validate_iff, run_apply-validate}
use ferris_agent_bridge.Run.Descent.{
  apply-is_descendant_of, is_descendant_of_order, terminal_is_final,
}
use ferris_agent_bridge.Base.Text.{codes}
use ferris_agent_bridge.Tests.Data.{pending_run, running_run, completed_run}

running_run-valid : validate running_run ≡ ok tt
unfolding validate ferris_agent_bridge.Base.ensure_distinct
running_run-valid = refl

completes : apply (complete_with 9 (codes "d1" ∷ [])) running_run ≡ ok completed_run
unfolding apply Run.complete_with_output_deliveries ferris_agent_bridge.Base.ensure_distinct
    ferris_agent_bridge.Base.contains
completes = refl

starts : apply (start_at 5) pending_run ≡ ok running_run
unfolding apply Run.start
starts = refl

run_apply-validate_example : validate completed_run ≡ ok tt
run_apply-validate_example =
    run_apply-validate (complete_with 9 (codes "d1" ∷ [])) running_run completed_run
      running_run-valid completes

run_validate_iff_example : (validate running_run ≡ ok tt) ↔ IsValid running_run
run_validate_iff_example = run_validate_iff running_run

apply-is_descendant_of_example : is_descendant_of completed_run running_run ≡ true
apply-is_descendant_of_example =
    apply-is_descendant_of (complete_with 9 (codes "d1" ∷ [])) running_run completed_run completes

running_descends : is_descendant_of running_run pending_run ≡ true
unfolding is_descendant_of ferris_agent_bridge.Base.list_eq
running_descends = refl

completed_descends : is_descendant_of completed_run running_run ≡ true
unfolding is_descendant_of ferris_agent_bridge.Base.list_eq ferris_agent_bridge.Base.option_eq
completed_descends = refl

is_descendant_of_order_example :
    (is_descendant_of completed_run pending_run ≡ true)
    × (is_descendant_of pending_run completed_run ≡ false)
is_descendant_of_order_example =
    is_descendant_of_order pending_run running_run completed_run running_descends completed_descends

completed_run-terminal : is_terminal completed_run ≡ true
unfolding is_terminal
completed_run-terminal = refl

terminal_is_final_example :
    (apply (start_at 12) completed_run ≢ ok running_run)
    × (is_descendant_of running_run completed_run ≡ false)
terminal_is_final_example =
    terminal_is_final (start_at 12) completed_run running_run completed_run-terminal
