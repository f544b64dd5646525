-- ===== src/Tui/Update/Safety.antt =====
-- A transaction that writes is never given up.
use g502x_onboard.Base.{
  String, ◌≡◌, refl, Bool, true, false, not, ◌&&◌, Option, none, some, List, [], ◌∷◌, arith,
}
use g502x_onboard.Text.{Text}
use g502x_onboard.Models.{
  PrivacyClass, ApplicationError, PreparedOperation, PersistentPhaseSnapshot,
  PersistentOperationKind,
}
use g502x_onboard.Tui.Model.{
  navigate, set_help, set_disclosure, change_privacy_surface, config_path_changed,
  backup_path_changed, profile_target_changed, profile_confirmation_changed, compatibility_changed,
  operation_requested, operation_started, prepared_received, enter_review, review_acknowledged,
  confirmation_changed, confirmation_submitted, persistent_progress, application_completed,
  persistent_completed, application_failed, worker_transport_fault, preparation_invalidated,
  cancellation_requested, cancellation_acknowledged, refresh_requested, ForegroundOperation,
  is_safety_phase, PresentationPayload, Route, FocusIntent, OperationAction, TuiModel, Event,
  OperationId,
}
use g502x_onboard.Tui.Update.{update, run, run_effects}
use g502x_onboard.Tui.Inputs.{
  Outcome, is_some, clear_disallowed, on_navigate, on_set_help, on_set_disclosure,
  on_change_privacy_surface, on_config_path_changed, on_backup_path_changed,
  on_profile_target_changed, on_profile_confirmation_changed, on_compatibility_changed,
}
use g502x_onboard.Tui.Operations.{
  take_prepared, receive_for, request_cancellation, accept_progress, on_operation_requested,
  on_operation_started, on_prepared_received, on_enter_review, on_review_acknowledged,
  on_confirmation_changed, on_confirmation_submitted, on_persistent_progress,
  on_cancellation_requested, on_cancellation_acknowledged, on_refresh_requested,
}
use g502x_onboard.Tui.Endings.{
  on_application_completed, on_application_failed, on_worker_transport_fault,
  on_preparation_invalidated,
}

-- The operation `id` is being executed and is in a phase in which the hardware may change.
abbrev pub Holds : OperationId → Option ForegroundOperation → Type 0
Holds id none = ⊥
Holds id (some active) =
    (active.operation_id ≡ id)
    × ((active.execution_requested ≡ true)
        × ((is_some active.persistent_kind ≡ true) × (is_safety_phase active.phase ≡ true)))

abbrev pub Kept : OperationId → Outcome → Type 0
Kept id outcome = Holds id outcome.0.active × (outcome.1 ≡ [])

on_navigate-Kept :
    (m : TuiModel) (id : OperationId) (r : Route) (f : FocusIntent)
    → Holds id m.active
    → Kept id (on_navigate m r f)
unfolding on_navigate
on_navigate-Kept m id r f h = ground arith

on_set_help-Kept :
    (m : TuiModel) (id : OperationId) (shown : Bool)
    → Holds id m.active
    → Kept id (on_set_help m shown)
unfolding on_set_help
on_set_help-Kept m id shown h = ground arith

on_set_disclosure-Kept :
    (m : TuiModel) (id : OperationId) (payload : Option PresentationPayload)
    → Holds id m.active
    → Kept id (on_set_disclosure m payload)
unfolding on_set_disclosure
on_set_disclosure-Kept m id payload h = ground arith

on_change_privacy_surface-Kept :
    (m : TuiModel) (id : OperationId) (privacy : PrivacyClass)
    → Holds id m.active
    → Kept id (on_change_privacy_surface m privacy)
unfolding on_change_privacy_surface clear_disallowed
on_change_privacy_surface-Kept m id privacy h = ground arith

on_config_path_changed-Kept :
    (m : TuiModel) (id : OperationId) (value : Text)
    → Holds id m.active
    → Kept id (on_config_path_changed m value)
unfolding on_config_path_changed
on_config_path_changed-Kept m id value h = ground arith

on_backup_path_changed-Kept :
    (m : TuiModel) (id : OperationId) (value : Text)
    → Holds id m.active
    → Kept id (on_backup_path_changed m value)
unfolding on_backup_path_changed
on_backup_path_changed-Kept m id value h = ground arith

on_profile_target_changed-Kept :
    (m : TuiModel) (id : OperationId) (value : Text)
    → Holds id m.active
    → Kept id (on_profile_target_changed m value)
unfolding on_profile_target_changed
on_profile_target_changed-Kept m id value h = ground arith

on_profile_confirmation_changed-Kept :
    (m : TuiModel) (id : OperationId) (value : Text)
    → Holds id m.active
    → Kept id (on_profile_confirmation_changed m value)
unfolding on_profile_confirmation_changed
on_profile_confirmation_changed-Kept m id value h = ground arith

on_compatibility_changed-Kept :
    (m : TuiModel) (id : OperationId) (read_only : Bool) (reason : Option ApplicationError)
    → Holds id m.active
    → Kept id (on_compatibility_changed m read_only reason)
unfolding on_compatibility_changed
on_compatibility_changed-Kept m id read_only reason h = ground arith

on_operation_requested-Kept :
    (m : TuiModel) (id : OperationId) (at : OperationId) (action : OperationAction)
    (hardware : Bool) (kind : Option PersistentOperationKind)
    → Holds id m.active
    → Kept id (on_operation_requested m at action hardware kind)
unfolding on_operation_requested
on_operation_requested-Kept m id at action hardware kind h = ground arith

on_operation_started-Kept :
    (m : TuiModel) (id : OperationId) (at : OperationId)
    → Holds id m.active
    → Kept id (on_operation_started m at)
unfolding on_operation_started
on_operation_started-Kept m id at h = ground arith

on_prepared_received-Kept :
    (m : TuiModel) (id : OperationId) (at : OperationId) (received : PreparedOperation)
    → Holds id m.active
    → Kept id (on_prepared_received m at received)
unfolding on_prepared_received receive_for take_prepared
on_prepared_received-Kept m id at received h = ground arith

on_enter_review-Kept :
    (m : TuiModel) (id : OperationId) (at : OperationId)
    → Holds id m.active
    → Kept id (on_enter_review m at)
unfolding on_enter_review
on_enter_review-Kept m id at h = ground arith

on_review_acknowledged-Kept :
    (m : TuiModel) (id : OperationId) (at : OperationId) (acknowledged : Bool)
    → Holds id m.active
    → Kept id (on_review_acknowledged m at acknowledged)
unfolding on_review_acknowledged
on_review_acknowledged-Kept m id at acknowledged h = ground arith

on_confirmation_changed-Kept :
    (m : TuiModel) (id : OperationId) (at : OperationId) (value : Text)
    → Holds id m.active
    → Kept id (on_confirmation_changed m at value)
unfolding on_confirmation_changed
on_confirmation_changed-Kept m id at value h = ground arith

on_confirmation_submitted-Kept :
    (m : TuiModel) (id : OperationId) (at : OperationId)
    → Holds id m.active
    → Kept id (on_confirmation_submitted m at)
unfolding on_confirmation_submitted
on_confirmation_submitted-Kept m id at h = ground arith

on_persistent_progress-Kept :
    (m : TuiModel) (id : OperationId) (at : OperationId) (snapshot : PersistentPhaseSnapshot)
    → Holds id m.active
    → Kept id (on_persistent_progress m at snapshot)
unfolding on_persistent_progress accept_progress
on_persistent_progress-Kept m id at snapshot h = ground arith

on_application_completed-Kept :
    (m : TuiModel) (id : OperationId) (at : OperationId) (message : String) (privacy : PrivacyClass)
    → Holds id m.active
    → Kept id (on_application_completed m at message privacy)
unfolding on_application_completed
on_application_completed-Kept m id at message privacy h = ground arith

on_application_failed-Kept :
    (m : TuiModel) (id : OperationId) (at : OperationId) (e : ApplicationError)
    → Holds id m.active
    → Kept id (on_application_failed m at e)
unfolding on_application_failed
on_application_failed-Kept m id at e h = ground arith

on_worker_transport_fault-Kept :
    (m : TuiModel) (id : OperationId) (at : OperationId) (e : ApplicationError)
    → Holds id m.active
    → Kept id (on_worker_transport_fault m at e)
unfolding on_worker_transport_fault on_application_failed
on_worker_transport_fault-Kept m id at e h = ground arith

on_preparation_invalidated-Kept :
    (m : TuiModel) (id : OperationId) (at : OperationId) (e : ApplicationError)
    → Holds id m.active
    → Kept id (on_preparation_invalidated m at e)
unfolding on_preparation_invalidated
on_preparation_invalidated-Kept m id at e h = ground arith

on_cancellation_requested-Kept :
    (m : TuiModel) (id : OperationId) (at : OperationId)
    → Holds id m.active
    → Kept id (on_cancellation_requested m at)
unfolding on_cancellation_requested request_cancellation
on_cancellation_requested-Kept m id at h = ground arith

on_cancellation_acknowledged-Kept :
    (m : TuiModel) (id : OperationId) (at : OperationId)
    → Holds id m.active
    → Kept id (on_cancellation_acknowledged m at)
unfolding on_cancellation_acknowledged
on_cancellation_acknowledged-Kept m id at h = ground arith

on_refresh_requested-Kept :
    (m : TuiModel) (id : OperationId) (at : OperationId)
    → Holds id m.active
    → Kept id (on_refresh_requested m at)
unfolding on_refresh_requested
on_refresh_requested-Kept m id at h = ground arith

-- Whether the event reports the end of a persistent execution.
abbrev pub is_completion : Event → Bool
is_completion (persistent_completed id r) = true
is_completion _ = false

update-Kept :
    (m : TuiModel) (id : OperationId) (event : Event)
    → is_completion event ≡ false
    → Holds id m.active
    → Kept id (update m event)
unfolding update
update-Kept m id (navigate route focus) c h = on_navigate-Kept m id route focus h
update-Kept m id (set_help shown) c h = on_set_help-Kept m id shown h
update-Kept m id (set_disclosure payload) c h = on_set_disclosure-Kept m id payload h
update-Kept m id (change_privacy_surface privacy) c h =
    on_change_privacy_surface-Kept m id privacy h
update-Kept m id (config_path_changed value) c h = on_config_path_changed-Kept m id value h
update-Kept m id (backup_path_changed value) c h = on_backup_path_changed-Kept m id value h
update-Kept m id (profile_target_changed value) c h = on_profile_target_changed-Kept m id value h
update-Kept m id (profile_confirmation_changed value) c h =
    on_profile_confirmation_changed-Kept m id value h
update-Kept m id (compatibility_changed read_only reason) c h =
    on_compatibility_changed-Kept m id read_only reason h
update-Kept m id (operation_requested at action hardware kind) c h =
    on_operation_requested-Kept m id at action hardware kind h
update-Kept m id (operation_started at) c h = on_operation_started-Kept m id at h
update-Kept m id (prepared_received at received) c h = on_prepared_received-Kept m id at received h
update-Kept m id (enter_review at) c h = on_enter_review-Kept m id at h
update-Kept m id (review_acknowledged at acknowledged) c h =
    on_review_acknowledged-Kept m id at acknowledged h
update-Kept m id (confirmation_changed at value) c h = on_confirmation_changed-Kept m id at value h
update-Kept m id (confirmation_submitted at) c h = on_confirmation_submitted-Kept m id at h
update-Kept m id (persistent_progress at snapshot) c h =
    on_persistent_progress-Kept m id at snapshot h
update-Kept m id (application_completed at message privacy) c h =
    on_application_completed-Kept m id at message privacy h
update-Kept m id (persistent_completed at r) c h = ground arith
update-Kept m id (application_failed at e) c h = on_application_failed-Kept m id at e h
update-Kept m id (worker_transport_fault at e) c h = on_worker_transport_fault-Kept m id at e h
update-Kept m id (preparation_invalidated at e) c h = on_preparation_invalidated-Kept m id at e h
update-Kept m id (cancellation_requested at) c h = on_cancellation_requested-Kept m id at h
update-Kept m id (cancellation_acknowledged at) c h = on_cancellation_acknowledged-Kept m id at h
update-Kept m id (refresh_requested at) c h = on_refresh_requested-Kept m id at h

abbrev pub no_completion : List Event → Bool
no_completion [] = true
no_completion (event ∷ events) = not (is_completion event) && no_completion events

-- Once an operation is in a phase in which the hardware may change, every sequence of events that
-- does not report the end of a persistent execution leaves the same operation active, requested
-- and in such a phase, and asks for no effect at all: nothing is cancelled, retried or started.
pub run-Holds :
    (m : TuiModel) (id : OperationId) (events : List Event)
    → no_completion events ≡ true
    → Holds id m.active
    → Holds id (run m events).active × (run_effects m events ≡ [])
unfolding run run_effects
run-Holds m id [] quiet h = (h, refl)
run-Holds m id (event ∷ events) quiet h =
    let kept = update-Kept m id event (ground arith) h in
    let rest = run-Holds (update m event).0 id events (ground arith) kept.0 in
    (rest.0, ground arith)
