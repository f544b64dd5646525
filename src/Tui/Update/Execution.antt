-- ===== src/Tui/Update/Execution.antt =====
-- How often an execution is asked for.
use g502x_onboard.Base.{
  ℕ, String, ◌≡◌, suc, Bool, true, false, not, ◌&&◌, Option, none, some, List, [], ◌∷◌,
  if◌then◌else◌, arith, ◌≤◌, ◌+◌, ◌++◌,
}
use g502x_onboard.Text.{Text}
use g502x_onboard.Models.{
  PrivacyClass, ApplicationError, PreparedOperation, PersistentPhaseSnapshot,
  PersistentExecutionResult, PersistentOperationKind,
}
use g502x_onboard.Tui.Model.{
  navigate, set_help, set_disclosure, change_privacy_surface, config_path_changed,
  backup_path_changed, profile_target_changed, profile_confirmation_changed, compatibility_changed,
  operation_requested, operation_started, prepared_received, enter_review, review_acknowledged,
  confirmation_changed, confirmation_submitted, persistent_progress, application_completed,
  persistent_completed, application_failed, worker_transport_fault, preparation_invalidated,
  cancellation_requested, cancellation_acknowledged, refresh_requested, ForegroundOperation, Effect,
  execute_prepared_operation, PresentationPayload, Route, FocusIntent, OperationAction,
  prepare_persistent, TuiModel, Event, OperationId,
}
use g502x_onboard.Tui.Update.{update, run_effects}
use g502x_onboard.Tui.Inputs.{
  Outcome, is_pre_execution, clear_disallowed, on_navigate, on_set_help, on_set_disclosure,
  on_change_privacy_surface, on_config_path_changed, on_backup_path_changed,
  on_profile_target_changed, on_profile_confirmation_changed, on_compatibility_changed,
}
use g502x_onboard.Tui.Operations.{
  take_prepared, receive_for, request_cancellation, on_operation_requested, on_operation_started,
  on_prepared_received, on_enter_review, on_review_acknowledged, on_confirmation_changed,
  on_confirmation_submitted, on_persistent_progress, on_cancellation_requested,
  on_cancellation_acknowledged, on_refresh_requested,
}
use g502x_onboard.Tui.Endings.{
  close_completed, on_application_completed, on_persistent_completed, on_application_failed,
  on_worker_transport_fault, on_preparation_invalidated,
}

abbrev pub is_execution : Effect → Bool
is_execution (execute_prepared_operation id reviewed confirmation) = true
is_execution _ = false

-- How many of the effects ask for the execution of a prepared operation.
unfoldable pub executions : List Effect → ℕ
executions [] = 0
executions (effect ∷ effects) =
    if is_execution effect then suc (executions effects) else executions effects

-- 1 where the operation may still be executed: it has not been yet and is in a phase before that.
abbrev pub pending_operation : Option ForegroundOperation → ℕ
pending_operation none = 0
pending_operation (some active) =
    if not active.execution_requested && is_pre_execution active.phase then 1 else 0

abbrev pub pending : TuiModel → ℕ
pending model = pending_operation model.active

abbrev pub preparation : OperationAction → ℕ
preparation prepare_persistent = 1
preparation _ = 0

-- 1 for the request of a persistent preparation.
abbrev pub requests : Event → ℕ
requests (operation_requested id action hardware kind) = preparation action
requests _ = 0

abbrev pub all_requests : List Event → ℕ
all_requests [] = 0
all_requests (event ∷ events) = requests event + all_requests events

-- What an outcome spends and leaves is within the given credit.
abbrev Within : Outcome → ℕ → Type 0
Within outcome credit = executions outcome.1 + pending outcome.0 ≤ credit

on_navigate-Within :
    (m : TuiModel) (r : Route) (f : FocusIntent) → Within (on_navigate m r f) (pending m)
unfolding on_navigate executions
on_navigate-Within m r f = ground arith

on_set_help-Within : (m : TuiModel) (shown : Bool) → Within (on_set_help m shown) (pending m)
unfolding on_set_help executions
on_set_help-Within m shown = ground arith

on_set_disclosure-Within :
    (m : TuiModel) (payload : Option PresentationPayload)
    → Within (on_set_disclosure m payload) (pending m)
unfolding on_set_disclosure executions
on_set_disclosure-Within m payload = ground arith

on_change_privacy_surface-Within :
    (m : TuiModel) (privacy : PrivacyClass)
    → Within (on_change_privacy_surface m privacy) (pending m)
unfolding on_change_privacy_surface clear_disallowed executions
on_change_privacy_surface-Within m privacy = ground arith

on_config_path_changed-Within :
    (m : TuiModel) (value : Text) → Within (on_config_path_changed m value) (pending m)
unfolding on_config_path_changed executions
on_config_path_changed-Within m value = ground arith

on_backup_path_changed-Within :
    (m : TuiModel) (value : Text) → Within (on_backup_path_changed m value) (pending m)
unfolding on_backup_path_changed executions
on_backup_path_changed-Within m value = ground arith

on_profile_target_changed-Within :
    (m : TuiModel) (value : Text) → Within (on_profile_target_changed m value) (pending m)
unfolding on_profile_target_changed executions
on_profile_target_changed-Within m value = ground arith

on_profile_confirmation_changed-Within :
    (m : TuiModel) (value : Text) → Within (on_profile_confirmation_changed m value) (pending m)
unfolding on_profile_confirmation_changed executions
on_profile_confirmation_changed-Within m value = ground arith

on_compatibility_changed-Within :
    (m : TuiModel) (read_only : Bool) (reason : Option ApplicationError)
    → Within (on_compatibility_changed m read_only reason) (pending m)
unfolding on_compatibility_changed executions
on_compatibility_changed-Within m read_only reason = ground arith

on_operation_requested-Within :
    (m : TuiModel) (id : OperationId) (action : OperationAction) (hardware : Bool)
    (kind : Option PersistentOperationKind)
    → Within (on_operation_requested m id action hardware kind) (pending m + preparation action)
unfolding on_operation_requested executions
on_operation_requested-Within m id action hardware kind = ground arith

on_operation_started-Within :
    (m : TuiModel) (id : OperationId) → Within (on_operation_started m id) (pending m)
unfolding on_operation_started executions
on_operation_started-Within m id = ground arith

on_prepared_received-Within :
    (m : TuiModel) (id : OperationId) (received : PreparedOperation)
    → Within (on_prepared_received m id received) (pending m)
unfolding on_prepared_received receive_for take_prepared executions
on_prepared_received-Within m id received = ground arith

on_enter_review-Within :
    (m : TuiModel) (id : OperationId) → Within (on_enter_review m id) (pending m)
unfolding on_enter_review executions
on_enter_review-Within m id = ground arith

on_review_acknowledged-Within :
    (m : TuiModel) (id : OperationId) (acknowledged : Bool)
    → Within (on_review_acknowledged m id acknowledged) (pending m)
unfolding on_review_acknowledged executions
on_review_acknowledged-Within m id acknowledged = ground arith

on_confirmation_changed-Within :
    (m : TuiModel) (id : OperationId) (value : Text)
    → Within (on_confirmation_changed m id value) (pending m)
unfolding on_confirmation_changed executions
on_confirmation_changed-Within m id value = ground arith

on_confirmation_submitted-Within :
    (m : TuiModel) (id : OperationId) → Within (on_confirmation_submitted m id) (pending m)
unfolding on_confirmation_submitted executions
on_confirmation_submitted-Within m id = ground arith

on_persistent_progress-Within :
    (m : TuiModel) (id : OperationId) (snapshot : PersistentPhaseSnapshot)
    → Within (on_persistent_progress m id snapshot) (pending m)
unfolding on_persistent_progress executions
on_persistent_progress-Within m id snapshot = ground arith

on_application_completed-Within :
    (m : TuiModel) (id : OperationId) (message : String) (privacy : PrivacyClass)
    → Within (on_application_completed m id message privacy) (pending m)
unfolding on_application_completed executions
on_application_completed-Within m id message privacy = ground arith

on_persistent_completed-Within :
    (m : TuiModel) (id : OperationId) (r : PersistentExecutionResult)
    → Within (on_persistent_completed m id r) (pending m)
unfolding on_persistent_completed close_completed executions
on_persistent_completed-Within m id r = ground arith

on_application_failed-Within :
    (m : TuiModel) (id : OperationId) (e : ApplicationError)
    → Within (on_application_failed m id e) (pending m)
unfolding on_application_failed executions
on_application_failed-Within m id e = ground arith

on_worker_transport_fault-Within :
    (m : TuiModel) (id : OperationId) (e : ApplicationError)
    → Within (on_worker_transport_fault m id e) (pending m)
unfolding on_worker_transport_fault on_application_failed executions
on_worker_transport_fault-Within m id e = ground arith

on_preparation_invalidated-Within :
    (m : TuiModel) (id : OperationId) (e : ApplicationError)
    → Within (on_preparation_invalidated m id e) (pending m)
unfolding on_preparation_invalidated executions
on_preparation_invalidated-Within m id e = ground arith

on_cancellation_requested-Within :
    (m : TuiModel) (id : OperationId) → Within (on_cancellation_requested m id) (pending m)
unfolding on_cancellation_requested request_cancellation executions
on_cancellation_requested-Within m id = ground arith

on_cancellation_acknowledged-Within :
    (m : TuiModel) (id : OperationId) → Within (on_cancellation_acknowledged m id) (pending m)
unfolding on_cancellation_acknowledged executions
on_cancellation_acknowledged-Within m id = ground arith

on_refresh_requested-Within :
    (m : TuiModel) (id : OperationId) → Within (on_refresh_requested m id) (pending m)
unfolding on_refresh_requested executions
on_refresh_requested-Within m id = ground arith

update-Within :
    (m : TuiModel) (event : Event) → Within (update m event) (pending m + requests event)
unfolding update
update-Within m (navigate route focus) = let w = on_navigate-Within m route focus in omega arith
update-Within m (set_help shown) = let w = on_set_help-Within m shown in omega arith
update-Within m (set_disclosure payload) = let w = on_set_disclosure-Within m payload in omega arith
update-Within m (change_privacy_surface privacy) =
    let w = on_change_privacy_surface-Within m privacy in omega arith
update-Within m (config_path_changed value) =
    let w = on_config_path_changed-Within m value in omega arith
update-Within m (backup_path_changed value) =
    let w = on_backup_path_changed-Within m value in omega arith
update-Within m (profile_target_changed value) =
    let w = on_profile_target_changed-Within m value in omega arith
update-Within m (profile_confirmation_changed value) =
    let w = on_profile_confirmation_changed-Within m value in omega arith
update-Within m (compatibility_changed read_only reason) =
    let w = on_compatibility_changed-Within m read_only reason in omega arith
update-Within m (operation_requested id action hardware kind) =
    let w = on_operation_requested-Within m id action hardware kind in omega arith
update-Within m (operation_started id) = let w = on_operation_started-Within m id in omega arith
update-Within m (prepared_received id received) =
    let w = on_prepared_received-Within m id received in omega arith
update-Within m (enter_review id) = let w = on_enter_review-Within m id in omega arith
update-Within m (review_acknowledged id acknowledged) =
    let w = on_review_acknowledged-Within m id acknowledged in omega arith
update-Within m (confirmation_changed id value) =
    let w = on_confirmation_changed-Within m id value in omega arith
update-Within m (confirmation_submitted id) =
    let w = on_confirmation_submitted-Within m id in omega arith
update-Within m (persistent_progress id snapshot) =
    let w = on_persistent_progress-Within m id snapshot in omega arith
update-Within m (application_completed id message privacy) =
    let w = on_application_completed-Within m id message privacy in omega arith
update-Within m (persistent_completed id r) =
    let w = on_persistent_completed-Within m id r in omega arith
update-Within m (application_failed id e) =
    let w = on_application_failed-Within m id e in omega arith
update-Within m (worker_transport_fault id e) =
    let w = on_worker_transport_fault-Within m id e in omega arith
update-Within m (preparation_invalidated id e) =
    let w = on_preparation_invalidated-Within m id e in omega arith
update-Within m (cancellation_requested id) =
    let w = on_cancellation_requested-Within m id in omega arith
update-Within m (cancellation_acknowledged id) =
    let w = on_cancellation_acknowledged-Within m id in omega arith
update-Within m (refresh_requested id) = let w = on_refresh_requested-Within m id in omega arith

executions-++ : (xs ys : List Effect) → executions (xs ++ ys) ≡ executions xs + executions ys
unfolding executions
executions-++ [] ys = omega arith
executions-++ (effect ∷ xs) ys = let ih = executions-++ xs ys in ground arith

-- Over any sequence of events the model asks for no more executions of prepared operations than
-- persistent preparations were requested, and one more if an operation was pending at the start.
pub run-executions :
    (m : TuiModel) (events : List Event)
    → executions (run_effects m events) ≤ pending m + all_requests events
unfolding run_effects executions
run-executions m [] = omega arith
run-executions m (event ∷ events) =
    let step = update-Within m event in
    let rest = run-executions (update m event).0 events in
    let sum = executions-++ (update m event).1 (run_effects (update m event).0 events) in
    omega arith
