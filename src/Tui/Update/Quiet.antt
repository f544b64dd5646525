-- ===== src/Tui/Update/Quiet.antt =====
-- The events that ask for no execution.
use g502x_onboard.Base.{Exists, inl, inr, String, ◌≡◌, Bool, Option, List, [], ◌∷◌, arith}
use g502x_onboard.Text.{Text}
use g502x_onboard.Models.{
  PrivacyClass, ApplicationError, PreparedOperation, PersistentPhaseSnapshot,
  PersistentExecutionResult, PersistentOperationKind,
}
use g502x_onboard.Tui.Model.{
  Effect, execute_prepared_operation, PresentationPayload, Route, FocusIntent, OperationAction,
  TuiModel, OperationId,
}
use g502x_onboard.Tui.Inputs.{
  clear_disallowed, on_navigate, on_set_help, on_set_disclosure, on_change_privacy_surface,
  on_config_path_changed, on_backup_path_changed, on_profile_target_changed,
  on_profile_confirmation_changed, on_compatibility_changed,
}
use g502x_onboard.Tui.Operations.{
  take_prepared, receive_for, request_cancellation, on_operation_requested, on_operation_started,
  on_prepared_received, on_enter_review, on_review_acknowledged, on_confirmation_changed,
  on_persistent_progress, on_cancellation_requested, on_cancellation_acknowledged,
  on_refresh_requested,
}
use g502x_onboard.Tui.Endings.{
  close_completed, on_application_completed, on_persistent_completed, on_application_failed,
  on_worker_transport_fault, on_preparation_invalidated,
}
use g502x_onboard.Tui.Update.Execution.{executions}

pub on_navigate-quiet :
    (m : TuiModel) (r : Route) (f : FocusIntent) → executions (on_navigate m r f).1 ≡ 0
unfolding on_navigate executions
on_navigate-quiet m r f = ground arith

pub on_set_help-quiet : (m : TuiModel) (shown : Bool) → executions (on_set_help m shown).1 ≡ 0
unfolding on_set_help executions
on_set_help-quiet m shown = ground arith

pub on_set_disclosure-quiet :
    (m : TuiModel) (payload : Option PresentationPayload)
    → executions (on_set_disclosure m payload).1 ≡ 0
unfolding on_set_disclosure executions
on_set_disclosure-quiet m payload = ground arith

pub on_change_privacy_surface-quiet :
    (m : TuiModel) (privacy : PrivacyClass) → executions (on_change_privacy_surface m privacy).1 ≡ 0
unfolding on_change_privacy_surface clear_disallowed executions
on_change_privacy_surface-quiet m privacy = ground arith

pub on_config_path_changed-quiet :
    (m : TuiModel) (value : Text) → executions (on_config_path_changed m value).1 ≡ 0
unfolding on_config_path_changed executions
on_config_path_changed-quiet m value = ground arith

pub on_backup_path_changed-quiet :
    (m : TuiModel) (value : Text) → executions (on_backup_path_changed m value).1 ≡ 0
unfolding on_backup_path_changed executions
on_backup_path_changed-quiet m value = ground arith

pub on_profile_target_changed-quiet :
    (m : TuiModel) (value : Text) → executions (on_profile_target_changed m value).1 ≡ 0
unfolding on_profile_target_changed executions
on_profile_target_changed-quiet m value = ground arith

pub on_profile_confirmation_changed-quiet :
    (m : TuiModel) (value : Text) → executions (on_profile_confirmation_changed m value).1 ≡ 0
unfolding on_profile_confirmation_changed executions
on_profile_confirmation_changed-quiet m value = ground arith

pub on_compatibility_changed-quiet :
    (m : TuiModel) (read_only : Bool) (reason : Option ApplicationError)
    → executions (on_compatibility_changed m read_only reason).1 ≡ 0
unfolding on_compatibility_changed executions
on_compatibility_changed-quiet m read_only reason = ground arith

pub on_operation_requested-quiet :
    (m : TuiModel) (id : OperationId) (action : OperationAction) (hardware : Bool)
    (kind : Option PersistentOperationKind)
    → executions (on_operation_requested m id action hardware kind).1 ≡ 0
unfolding on_operation_requested executions
on_operation_requested-quiet m id action hardware kind = ground arith

pub on_operation_started-quiet :
    (m : TuiModel) (id : OperationId) → executions (on_operation_started m id).1 ≡ 0
unfolding on_operation_started executions
on_operation_started-quiet m id = ground arith

pub on_prepared_received-quiet :
    (m : TuiModel) (id : OperationId) (received : PreparedOperation)
    → executions (on_prepared_received m id received).1 ≡ 0
unfolding on_prepared_received receive_for take_prepared executions
on_prepared_received-quiet m id received = ground arith

pub on_enter_review-quiet :
    (m : TuiModel) (id : OperationId) → executions (on_enter_review m id).1 ≡ 0
unfolding on_enter_review executions
on_enter_review-quiet m id = ground arith

pub on_review_acknowledged-quiet :
    (m : TuiModel) (id : OperationId) (acknowledged : Bool)
    → executions (on_review_acknowledged m id acknowledged).1 ≡ 0
unfolding on_review_acknowledged executions
on_review_acknowledged-quiet m id acknowledged = ground arith

pub on_confirmation_changed-quiet :
    (m : TuiModel) (id : OperationId) (value : Text)
    → executions (on_confirmation_changed m id value).1 ≡ 0
unfolding on_confirmation_changed executions
on_confirmation_changed-quiet m id value = ground arith

pub on_persistent_progress-quiet :
    (m : TuiModel) (id : OperationId) (snapshot : PersistentPhaseSnapshot)
    → executions (on_persistent_progress m id snapshot).1 ≡ 0
unfolding on_persistent_progress executions
on_persistent_progress-quiet m id snapshot = ground arith

pub on_application_completed-quiet :
    (m : TuiModel) (id : OperationId) (message : String) (privacy : PrivacyClass)
    → executions (on_application_completed m id message privacy).1 ≡ 0
unfolding on_application_completed executions
on_application_completed-quiet m id message privacy = ground arith

pub on_persistent_completed-quiet :
    (m : TuiModel) (id : OperationId) (r : PersistentExecutionResult)
    → executions (on_persistent_completed m id r).1 ≡ 0
unfolding on_persistent_completed close_completed executions
on_persistent_completed-quiet m id r = ground arith

pub on_application_failed-quiet :
    (m : TuiModel) (id : OperationId) (e : ApplicationError)
    → executions (on_application_failed m id e).1 ≡ 0
unfolding on_application_failed executions
on_application_failed-quiet m id e = ground arith

pub on_worker_transport_fault-quiet :
    (m : TuiModel) (id : OperationId) (e : ApplicationError)
    → executions (on_worker_transport_fault m id e).1 ≡ 0
unfolding on_worker_transport_fault on_application_failed executions
on_worker_transport_fault-quiet m id e = ground arith

pub on_preparation_invalidated-quiet :
    (m : TuiModel) (id : OperationId) (e : ApplicationError)
    → executions (on_preparation_invalidated m id e).1 ≡ 0
unfolding on_preparation_invalidated executions
on_preparation_invalidated-quiet m id e = ground arith

pub on_cancellation_requested-quiet :
    (m : TuiModel) (id : OperationId) → executions (on_cancellation_requested m id).1 ≡ 0
unfolding on_cancellation_requested request_cancellation executions
on_cancellation_requested-quiet m id = ground arith

pub on_cancellation_acknowledged-quiet :
    (m : TuiModel) (id : OperationId) → executions (on_cancellation_acknowledged m id).1 ≡ 0
unfolding on_cancellation_acknowledged executions
on_cancellation_acknowledged-quiet m id = ground arith

pub on_refresh_requested-quiet :
    (m : TuiModel) (id : OperationId) → executions (on_refresh_requested m id).1 ≡ 0
unfolding on_refresh_requested executions
on_refresh_requested-quiet m id = ground arith

pub quiet_lem :
    (effects : List Effect) (id : OperationId) (reviewed : PreparedOperation) (confirmation : Text)
    → executions effects ≡ 0
    → ¬ Exists (λ effect. effect ≡ execute_prepared_operation id reviewed confirmation) effects
unfolding executions
quiet_lem [] id reviewed confirmation q among = absurd among
quiet_lem (effect ∷ effects) id reviewed confirmation q (inl e) = ground arith
quiet_lem (effect ∷ effects) id reviewed confirmation q (inr among) =
    quiet_lem effects id reviewed confirmation (ground arith) among
