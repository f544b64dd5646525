-- ===== src/Examples/Persistent.antt =====
-- Executions of g502x_onboard/application/persistent.py at concrete inputs.
use g502x_onboard.Base.{◌≡◌, refl, true, false, none, some, List, [], ◌∷◌, ◌++◌, map}
use g502x_onboard.Models.{
  PersistentPhase, confirming, revalidating, armed, writing, reconciling, post_validating,
  apply_config,
}
use g502x_onboard.Tui.Model.{
  TuiModel, initial_model, confirmation_submitted, ForegroundOperation, prepare_persistent,
}
use g502x_onboard.Tui.Update.{run, update}
use g502x_onboard.Tui.Endings.{on_persistent_completed}
use g502x_onboard.Persistent.{BackendRun, returned, backend_failed, execute_accepted}
use g502x_onboard.Persistent.Complete.{IsAccounted, execute_accepted-IsAccounted}
use g502x_onboard.Persistent.Progress.{Shows}
use g502x_onboard.Persistent.Report.{Reports, completed-Reports}
use g502x_onboard.Persistent.Progress.{Executes, progress, run-Executes}
use g502x_onboard.Examples.Tui.{id, reviewed, confirm}

abbrev stages : List PersistentPhase
stages = armed ∷ writing ∷ reconciling ∷ post_validating ∷ []

abbrev whole_run : BackendRun
whole_run = (stages, returned (1 ∷ 2 ∷ 3 ∷ []) (some "backup") true true)

abbrev broken_run : BackendRun
broken_run = (armed ∷ writing ∷ [], backend_failed false true)

whole_run-succeeds : (execute_accepted reviewed false whole_run).success ≡ true
unfolding execute_accepted g502x_onboard.Persistent.conclude g502x_onboard.Persistent.has_phase
    g502x_onboard.Persistent.add_phases g502x_onboard.Persistent.add_phase
    g502x_onboard.Persistent.last_is g502x_onboard.Persistent.terminal
whole_run-succeeds = refl

broken_run-status :
    (execute_accepted reviewed false broken_run).pre_write_status ≡ "failed-after-write"
unfolding execute_accepted g502x_onboard.Persistent.conclude g502x_onboard.Persistent.terminal
    g502x_onboard.Persistent.has_phase g502x_onboard.Persistent.add_phases
    g502x_onboard.Persistent.add_phase g502x_onboard.Persistent.last_is
broken_run-status = refl

execute_accepted-IsAccounted_example :
    IsAccounted false whole_run.0 whole_run.1 (execute_accepted reviewed false whole_run)
execute_accepted-IsAccounted_example =
    execute_accepted-IsAccounted reviewed false whole_run.0 whole_run.1

abbrev submitted : TuiModel
submitted = run initial_model (confirm ++ (confirmation_submitted id ∷ []))

abbrev running : ForegroundOperation
running = record {
  operation_id = id;
  action = prepare_persistent;
  hardware_affecting = true;
  persistent_kind = some apply_config;
  phase = some confirming;
  started = false;
  cancellation_requested = false;
  cancellation_acknowledged = false;
  cancellation_deferred = false;
  application_cancellation_allowed = none;
  execution_requested = true;
  worker_fault_unresolved = false;
}

submitted-active : submitted.active ≡ some running
unfolding run update g502x_onboard.Tui.Operations.on_confirmation_submitted
    g502x_onboard.Tui.Operations.on_confirmation_changed
    g502x_onboard.Tui.Operations.on_review_acknowledged g502x_onboard.Tui.Operations.on_enter_review
    g502x_onboard.Tui.Operations.on_prepared_received g502x_onboard.Tui.Operations.receive_for
    g502x_onboard.Tui.Operations.on_operation_requested g502x_onboard.Tui.Operations.take_prepared
    g502x_onboard.Text.strip g502x_onboard.Text.strip_left g502x_onboard.Text.is_space
    g502x_onboard.Persistent.has_phase
submitted-active = refl

submitted-Executes : Executes submitted id reviewed confirming
unfolding run update g502x_onboard.Tui.Operations.on_confirmation_submitted
    g502x_onboard.Tui.Operations.on_confirmation_changed
    g502x_onboard.Tui.Operations.on_review_acknowledged g502x_onboard.Tui.Operations.on_enter_review
    g502x_onboard.Tui.Operations.on_prepared_received g502x_onboard.Tui.Operations.receive_for
    g502x_onboard.Tui.Operations.on_operation_requested g502x_onboard.Tui.Operations.take_prepared
    g502x_onboard.Text.strip g502x_onboard.Text.strip_left g502x_onboard.Text.is_space
    g502x_onboard.Persistent.has_phase
submitted-Executes = record {
  active = running;
  is_current = refl;
  requested = refl;
  kind = refl;
  in_phase = refl;
  cancellation = refl;
}

completed-Reports_example :
    Reports
      (on_persistent_completed submitted id (execute_accepted reviewed false whole_run)).0
      (execute_accepted reviewed false whole_run)
unfolding run update g502x_onboard.Tui.Operations.on_confirmation_submitted
    g502x_onboard.Tui.Operations.on_confirmation_changed
    g502x_onboard.Tui.Operations.on_review_acknowledged g502x_onboard.Tui.Operations.on_enter_review
    g502x_onboard.Tui.Operations.on_prepared_received g502x_onboard.Tui.Operations.receive_for
    g502x_onboard.Tui.Operations.on_operation_requested g502x_onboard.Tui.Operations.take_prepared
    g502x_onboard.Text.strip g502x_onboard.Text.strip_left g502x_onboard.Text.is_space
    g502x_onboard.Persistent.has_phase
completed-Reports_example =
    completed-Reports submitted id running reviewed false whole_run refl refl refl

-- The service skips no phase: the second report of the armed phase and the early one of the
-- validation change nothing.
abbrev reported : List PersistentPhase
reported = revalidating ∷ armed ∷ armed ∷ post_validating ∷ writing ∷ revalidating ∷ []

run-Executes_example :
    (last : PersistentPhase) × Shows confirming reported last
    × Executes (run submitted (map (progress id reviewed) reported)) id reviewed last
run-Executes_example = run-Executes submitted id reviewed confirming reported submitted-Executes

-- Those reports leave the interface in the writing phase.
reported-phase :
    (run submitted (map (progress id reviewed) reported)).active
    ≡ some (record running { phase = some writing; application_cancellation_allowed = some false })
unfolding run update g502x_onboard.Tui.Operations.on_persistent_progress
    g502x_onboard.Tui.Operations.on_confirmation_submitted
    g502x_onboard.Tui.Operations.on_confirmation_changed
    g502x_onboard.Tui.Operations.on_review_acknowledged g502x_onboard.Tui.Operations.on_enter_review
    g502x_onboard.Tui.Operations.on_prepared_received g502x_onboard.Tui.Operations.receive_for
    g502x_onboard.Tui.Operations.on_operation_requested g502x_onboard.Tui.Operations.take_prepared
    g502x_onboard.Text.strip g502x_onboard.Text.strip_left g502x_onboard.Text.is_space
    g502x_onboard.Tui.Operations.accept_progress g502x_onboard.Persistent.has_phase
reported-phase = refl
