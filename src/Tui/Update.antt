-- ===== src/Tui/Update.antt =====
-- g502x_onboard/tui/update.py, `update`: the handler of each event.
pub mod Confirmed
pub mod Disclosable
pub mod Execution
pub mod Privacy
pub mod Quiet
pub mod Safety
use g502x_onboard.Tui.Model.{
  TuiModel, Effect, Event, navigate, set_help, set_disclosure, change_privacy_surface,
  config_path_changed, backup_path_changed, profile_target_changed, profile_confirmation_changed,
  compatibility_changed, operation_requested, operation_started, prepared_received, enter_review,
  review_acknowledged, confirmation_changed, confirmation_submitted, persistent_progress,
  application_completed, persistent_completed, application_failed, worker_transport_fault,
  preparation_invalidated, cancellation_requested, cancellation_acknowledged, refresh_requested,
}
use g502x_onboard.Tui.Inputs.{
  Outcome, on_navigate, on_set_help, on_set_disclosure, on_change_privacy_surface,
  on_config_path_changed, on_backup_path_changed, on_profile_target_changed,
  on_profile_confirmation_changed, on_compatibility_changed,
}
use g502x_onboard.Tui.Operations.{
  on_operation_requested, on_operation_started, on_prepared_received, on_enter_review,
  on_review_acknowledged, on_confirmation_changed, on_confirmation_submitted,
  on_persistent_progress, on_cancellation_requested, on_cancellation_acknowledged,
  on_refresh_requested,
}
use g502x_onboard.Tui.Endings.{
  on_application_completed, on_application_failed, on_worker_transport_fault,
  on_preparation_invalidated, on_persistent_completed,
}
use g502x_onboard.Base.{List, [], ◌∷◌, ◌++◌}

unfoldable pub update : TuiModel → Event → Outcome
update model (navigate route focus) = on_navigate model route focus
update model (set_help shown) = on_set_help model shown
update model (set_disclosure payload) = on_set_disclosure model payload
update model (change_privacy_surface privacy) = on_change_privacy_surface model privacy
update model (config_path_changed value) = on_config_path_changed model value
update model (backup_path_changed value) = on_backup_path_changed model value
update model (profile_target_changed value) = on_profile_target_changed model value
update model (profile_confirmation_changed value) = on_profile_confirmation_changed model value
update model (compatibility_changed read_only reason) =
    on_compatibility_changed model read_only reason
update model (operation_requested id action hardware kind) =
    on_operation_requested model id action hardware kind
update model (operation_started id) = on_operation_started model id
update model (prepared_received id received) = on_prepared_received model id received
update model (enter_review id) = on_enter_review model id
update model (review_acknowledged id acknowledged) = on_review_acknowledged model id acknowledged
update model (confirmation_changed id value) = on_confirmation_changed model id value
update model (confirmation_submitted id) = on_confirmation_submitted model id
update model (persistent_progress id snapshot) = on_persistent_progress model id snapshot
update model (application_completed id message privacy) =
    on_application_completed model id message privacy
update model (persistent_completed id r) = on_persistent_completed model id r
update model (application_failed id e) = on_application_failed model id e
update model (worker_transport_fault id e) = on_worker_transport_fault model id e
update model (preparation_invalidated id e) = on_preparation_invalidated model id e
update model (cancellation_requested id) = on_cancellation_requested model id
update model (cancellation_acknowledged id) = on_cancellation_acknowledged model id
update model (refresh_requested id) = on_refresh_requested model id

-- The loop of the runner over a sequence of events.
unfoldable pub run : TuiModel → List Event → TuiModel
run model [] = model
run model (event ∷ events) = run (update model event).0 events

-- The effects of that loop, in their order.
unfoldable pub run_effects : TuiModel → List Event → List Effect
run_effects model [] = []
run_effects model (event ∷ events) =
    (update model event).1 ++ run_effects (update model event).0 events
