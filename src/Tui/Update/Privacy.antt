-- ===== src/Tui/Update/Privacy.antt =====
-- What is shown never passes the privacy of the surface.
use g502x_onboard.Base.{String, Bool, not, Option, none, some, List, [], ◌∷◌, arith}
use g502x_onboard.Text.{Text}
use g502x_onboard.Models.{
  PrivacyClass, ApplicationError, PersistentPhaseSnapshot, PersistentExecutionResult,
  PersistentOperationKind,
}
use g502x_onboard.Tui.Model.{
  navigate, set_help, set_disclosure, change_privacy_surface, config_path_changed,
  backup_path_changed, profile_target_changed, profile_confirmation_changed, compatibility_changed,
  operation_requested, operation_started, prepared_received, enter_review, review_acknowledged,
  confirmation_changed, confirmation_submitted, persistent_progress, application_completed,
  persistent_completed, application_failed, worker_transport_fault, preparation_invalidated,
  cancellation_requested, cancellation_acknowledged, refresh_requested, ForegroundOperation,
  non_cancellable, cancellation_available, OperationAction, TuiModel, Event, OperationId,
}
use g502x_onboard.Tui.Update.{update, run}
use g502x_onboard.Tui.Inputs.{current}
use g502x_onboard.Tui.Operations.{
  request_cancellation, notice, on_operation_requested, on_enter_review, on_review_acknowledged,
  on_confirmation_changed, on_confirmation_submitted, on_persistent_progress,
  on_cancellation_requested, on_cancellation_acknowledged, on_refresh_requested,
}
use g502x_onboard.Tui.Endings.{
  on_application_completed, on_application_failed, on_worker_transport_fault,
  on_preparation_invalidated, on_persistent_completed, close_completed,
}
use g502x_onboard.Tui.Update.Disclosable.{
  IsDisclosable, if-IsDisclosable, on_navigate-IsDisclosable, on_set_help-IsDisclosable,
  on_set_disclosure-IsDisclosable, on_change_privacy_surface-IsDisclosable,
  on_config_path_changed-IsDisclosable, on_backup_path_changed-IsDisclosable,
  on_profile_target_changed-IsDisclosable, on_profile_confirmation_changed-IsDisclosable,
  on_compatibility_changed-IsDisclosable, on_operation_started-IsDisclosable,
  on_prepared_received-IsDisclosable,
}

on_enter_review-IsDisclosable :
    (m : TuiModel) (id : OperationId) → IsDisclosable m → IsDisclosable (on_enter_review m id).0
unfolding on_enter_review
on_enter_review-IsDisclosable m id h = ground arith

on_review_acknowledged-IsDisclosable :
    (m : TuiModel) (id : OperationId) (acknowledged : Bool)
    → IsDisclosable m
    → IsDisclosable (on_review_acknowledged m id acknowledged).0
unfolding on_review_acknowledged
on_review_acknowledged-IsDisclosable m id acknowledged h = ground arith

on_confirmation_changed-IsDisclosable :
    (m : TuiModel) (id : OperationId) (value : Text)
    → IsDisclosable m
    → IsDisclosable (on_confirmation_changed m id value).0
unfolding on_confirmation_changed
on_confirmation_changed-IsDisclosable m id value h = ground arith

on_confirmation_submitted-IsDisclosable :
    (m : TuiModel) (id : OperationId)
    → IsDisclosable m
    → IsDisclosable (on_confirmation_submitted m id).0
unfolding on_confirmation_submitted
on_confirmation_submitted-IsDisclosable m id h = ground arith

on_persistent_progress-IsDisclosable :
    (m : TuiModel) (id : OperationId) (snapshot : PersistentPhaseSnapshot)
    → IsDisclosable m
    → IsDisclosable (on_persistent_progress m id snapshot).0
unfolding on_persistent_progress
on_persistent_progress-IsDisclosable m id snapshot h = ground arith

on_application_completed-IsDisclosable :
    (m : TuiModel) (id : OperationId) (message : String) (privacy : PrivacyClass)
    → IsDisclosable m
    → IsDisclosable (on_application_completed m id message privacy).0
unfolding on_application_completed
on_application_completed-IsDisclosable m id message privacy h = ground arith

close_completed-IsDisclosable :
    (m : TuiModel) (r : PersistentExecutionResult)
    → IsDisclosable m
    → IsDisclosable (close_completed m r)
unfolding close_completed
close_completed-IsDisclosable m r h = ground arith

on_application_failed-IsDisclosable :
    (m : TuiModel) (id : OperationId) (e : ApplicationError)
    → IsDisclosable m
    → IsDisclosable (on_application_failed m id e).0
unfolding on_application_failed
on_application_failed-IsDisclosable m id e h = ground arith

on_worker_transport_fault-IsDisclosable :
    (m : TuiModel) (id : OperationId) (e : ApplicationError)
    → IsDisclosable m
    → IsDisclosable (on_worker_transport_fault m id e).0
unfolding on_worker_transport_fault
on_worker_transport_fault-IsDisclosable m id e h = ground arith

on_preparation_invalidated-IsDisclosable :
    (m : TuiModel) (id : OperationId) (e : ApplicationError)
    → IsDisclosable m
    → IsDisclosable (on_preparation_invalidated m id e).0
unfolding on_preparation_invalidated
on_preparation_invalidated-IsDisclosable m id e h = ground arith

active-IsDisclosable :
    (m : TuiModel) (active : Option ForegroundOperation)
    → IsDisclosable m
    → IsDisclosable (record m { active = active })
active-IsDisclosable m active h = ground arith

notice-IsDisclosable :
    (m : TuiModel) (active : Option ForegroundOperation) (message : String)
    → IsDisclosable m
    → IsDisclosable (record m { active = active; transient_notice = some (notice message) })
notice-IsDisclosable m active message h = ground arith

request_cancellation-IsDisclosable :
    (m : TuiModel) (id : OperationId) (o : Option ForegroundOperation)
    → IsDisclosable m
    → IsDisclosable (request_cancellation m id o).0
unfolding request_cancellation
request_cancellation-IsDisclosable m id none h = h
request_cancellation-IsDisclosable m id (some active) h =
    if-IsDisclosable (non_cancellable active) _ _ (notice-IsDisclosable m _ _ h) (
      if-IsDisclosable (not (cancellation_available active)) _ _ (notice-IsDisclosable m _ _ h)
        (active-IsDisclosable m _ h))

on_cancellation_requested-IsDisclosable :
    (m : TuiModel) (id : OperationId)
    → IsDisclosable m
    → IsDisclosable (on_cancellation_requested m id).0
unfolding on_cancellation_requested
on_cancellation_requested-IsDisclosable m id h =
    request_cancellation-IsDisclosable m id (current m id) h

on_cancellation_acknowledged-IsDisclosable :
    (m : TuiModel) (id : OperationId)
    → IsDisclosable m
    → IsDisclosable (on_cancellation_acknowledged m id).0
unfolding on_cancellation_acknowledged
on_cancellation_acknowledged-IsDisclosable m id h = ground arith

on_refresh_requested-IsDisclosable :
    (m : TuiModel) (id : OperationId)
    → IsDisclosable m
    → IsDisclosable (on_refresh_requested m id).0
unfolding on_refresh_requested
on_refresh_requested-IsDisclosable m id h = ground arith

on_operation_requested-IsDisclosable :
    (m : TuiModel) (id : OperationId) (action : OperationAction) (hardware : Bool)
    (kind : Option PersistentOperationKind)
    → IsDisclosable m
    → IsDisclosable (on_operation_requested m id action hardware kind).0
unfolding on_operation_requested
on_operation_requested-IsDisclosable m id action hardware kind h = ground arith

on_persistent_completed-IsDisclosable :
    (m : TuiModel) (id : OperationId) (r : PersistentExecutionResult)
    → IsDisclosable m
    → IsDisclosable (on_persistent_completed m id r).0
unfolding on_persistent_completed
on_persistent_completed-IsDisclosable m id r h =
    let d = close_completed-IsDisclosable m r h in ground arith

-- No event makes the model show more than its privacy surface allows: where every result, error,
-- reason, disclosure, notice and preparation that it holds may be shown on the surface, and a
-- shareable surface holds no path that was typed, that is so of the model after any event.
update-IsDisclosable :
    (m : TuiModel) (event : Event) → IsDisclosable m → IsDisclosable (update m event).0
unfolding update
update-IsDisclosable m (navigate route focus) h = on_navigate-IsDisclosable m route focus h
update-IsDisclosable m (set_help shown) h = on_set_help-IsDisclosable m shown h
update-IsDisclosable m (set_disclosure payload) h = on_set_disclosure-IsDisclosable m payload h
update-IsDisclosable m (change_privacy_surface privacy) h =
    on_change_privacy_surface-IsDisclosable m privacy h
update-IsDisclosable m (config_path_changed value) h =
    on_config_path_changed-IsDisclosable m value h
update-IsDisclosable m (backup_path_changed value) h =
    on_backup_path_changed-IsDisclosable m value h
update-IsDisclosable m (profile_target_changed value) h =
    on_profile_target_changed-IsDisclosable m value h
update-IsDisclosable m (profile_confirmation_changed value) h =
    on_profile_confirmation_changed-IsDisclosable m value h
update-IsDisclosable m (compatibility_changed read_only reason) h =
    on_compatibility_changed-IsDisclosable m read_only reason h
update-IsDisclosable m (operation_requested id action hardware kind) h =
    on_operation_requested-IsDisclosable m id action hardware kind h
update-IsDisclosable m (operation_started id) h = on_operation_started-IsDisclosable m id h
update-IsDisclosable m (prepared_received id received) h =
    on_prepared_received-IsDisclosable m id received h
update-IsDisclosable m (enter_review id) h = on_enter_review-IsDisclosable m id h
update-IsDisclosable m (review_acknowledged id acknowledged) h =
    on_review_acknowledged-IsDisclosable m id acknowledged h
update-IsDisclosable m (confirmation_changed id value) h =
    on_confirmation_changed-IsDisclosable m id value h
update-IsDisclosable m (confirmation_submitted id) h =
    on_confirmation_submitted-IsDisclosable m id h
update-IsDisclosable m (persistent_progress id snapshot) h =
    on_persistent_progress-IsDisclosable m id snapshot h
update-IsDisclosable m (application_completed id message privacy) h =
    on_application_completed-IsDisclosable m id message privacy h
update-IsDisclosable m (persistent_completed id r) h =
    on_persistent_completed-IsDisclosable m id r h
update-IsDisclosable m (application_failed id e) h = on_application_failed-IsDisclosable m id e h
update-IsDisclosable m (worker_transport_fault id e) h =
    on_worker_transport_fault-IsDisclosable m id e h
update-IsDisclosable m (preparation_invalidated id e) h =
    on_preparation_invalidated-IsDisclosable m id e h
update-IsDisclosable m (cancellation_requested id) h =
    on_cancellation_requested-IsDisclosable m id h
update-IsDisclosable m (cancellation_acknowledged id) h =
    on_cancellation_acknowledged-IsDisclosable m id h
update-IsDisclosable m (refresh_requested id) h = on_refresh_requested-IsDisclosable m id h

-- A model that shows only what its surface allows does so after any sequence of events.
pub run-IsDisclosable :
    (m : TuiModel) (events : List Event) → IsDisclosable m → IsDisclosable (run m events)
unfolding run
run-IsDisclosable m [] h = h
run-IsDisclosable m (event ∷ events) h =
    run-IsDisclosable (update m event).0 events (update-IsDisclosable m event h)
