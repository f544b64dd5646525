-- ===== src/Tui/Update/Confirmed.antt =====
-- What an execution needs.
use g502x_onboard.Base.{
  Exists, Option-cases, ◌≡◌, true, false, some, arith, ap, List, bytes_eq, inl, inr,
}
use g502x_onboard.Text.{Text, strip}
use g502x_onboard.Models.{PreparedOperation}
use g502x_onboard.Tui.Model.{
  navigate, set_help, set_disclosure, change_privacy_surface, config_path_changed,
  backup_path_changed, profile_target_changed, profile_confirmation_changed, compatibility_changed,
  operation_requested, operation_started, prepared_received, enter_review, review_acknowledged,
  confirmation_changed, confirmation_submitted, persistent_progress, application_completed,
  persistent_completed, application_failed, worker_transport_fault, preparation_invalidated,
  cancellation_requested, cancellation_acknowledged, refresh_requested, ForegroundOperation,
  execute_prepared_operation, TuiModel, Event, OperationId, Effect,
}
use g502x_onboard.Tui.Update.{update}
use g502x_onboard.Tui.Operations.{on_confirmation_submitted}
use g502x_onboard.Models.{confirming}
use g502x_onboard.Tui.Model.{same_id}
use g502x_onboard.Tui.Update.Quiet.{
  quiet_lem, on_navigate-quiet, on_set_help-quiet, on_set_disclosure-quiet,
  on_change_privacy_surface-quiet, on_config_path_changed-quiet, on_backup_path_changed-quiet,
  on_profile_target_changed-quiet, on_profile_confirmation_changed-quiet,
  on_compatibility_changed-quiet, on_operation_requested-quiet, on_operation_started-quiet,
  on_prepared_received-quiet, on_enter_review-quiet, on_review_acknowledged-quiet,
  on_confirmation_changed-quiet, on_persistent_progress-quiet, on_application_completed-quiet,
  on_persistent_completed-quiet, on_application_failed-quiet, on_worker_transport_fault-quiet,
  on_preparation_invalidated-quiet, on_cancellation_requested-quiet,
  on_cancellation_acknowledged-quiet, on_refresh_requested-quiet,
}

-- What an execution needs: the operation is current, was neither executed nor cancelled, is in the
-- confirmation phase with its review acknowledged, and the phrase was typed.
pub record IsConfirmed (m : TuiModel) (id : OperationId) (reviewed : PreparedOperation)
    (confirmation : Text) : Type 0 where
  pub holds_prepared : m.prepared ≡ some reviewed
  pub acknowledged : m.review_acknowledged ≡ true
  pub typed : confirmation ≡ m.confirmation_input
  pub phrase : bytes_eq (strip confirmation) reviewed.required_confirmation_phrase ≡ true
  pub operation : ForegroundOperation
  pub is_active : m.active ≡ some operation
  pub is_current : same_id operation.operation_id id ≡ true
  pub not_requested : operation.execution_requested ≡ false
  pub not_cancelled : operation.cancellation_requested ≡ false
  pub is_confirming : operation.phase ≡ some confirming

-- `effects` has the execution of what the user confirmed.
abbrev pub Executed : OperationId → PreparedOperation → Text → List Effect → Type 0
Executed id reviewed confirmation effects =
    Exists (λ effect. effect ≡ execute_prepared_operation id reviewed confirmation) effects

on_confirmation_submitted-IsConfirmed :
    (m : TuiModel) (at id : OperationId) (reviewed : PreparedOperation) (confirmation : Text)
    → Executed id reviewed confirmation (on_confirmation_submitted m at).1
    → (at ≡ id) × IsConfirmed m id reviewed confirmation
unfolding on_confirmation_submitted
on_confirmation_submitted-IsConfirmed m at id reviewed confirmation e =
    elim (Option-cases m.active) [
      | inl a ↦ ground arith
      | inr (op, a) ↦ (
        ground arith,
        record {
          holds_prepared = ground arith;
          acknowledged = ground arith;
          typed = ground arith;
          phrase = ground arith;
          operation = op;
          is_active = a;
          is_current = ground arith;
          not_requested = ground arith;
          not_cancelled = ground arith;
          is_confirming = ground arith;
        },
      )
    ]

-- If the execution of a prepared operation is among the effects of an event, whatever the event and
-- the other effects, then the event is the submission of the confirmation of that operation, and the
-- operation is the current one, neither executed nor cancelled, in its confirmation phase with its
-- review acknowledged, and the typed text is the phrase that the preparation requires.
pub update-IsConfirmed :
    (m : TuiModel) (event : Event) (id : OperationId) (reviewed : PreparedOperation)
    (confirmation : Text)
    → Executed id reviewed confirmation (update m event).1
    → (event ≡ confirmation_submitted id) × IsConfirmed m id reviewed confirmation
unfolding update
update-IsConfirmed m (navigate route focus) id reviewed confirmation e =
    absurd (quiet_lem _ id reviewed confirmation (on_navigate-quiet m route focus) e)
update-IsConfirmed m (set_help shown) id reviewed confirmation e =
    absurd (quiet_lem _ id reviewed confirmation (on_set_help-quiet m shown) e)
update-IsConfirmed m (set_disclosure payload) id reviewed confirmation e =
    absurd (quiet_lem _ id reviewed confirmation (on_set_disclosure-quiet m payload) e)
update-IsConfirmed m (change_privacy_surface privacy) id reviewed confirmation e =
    absurd (quiet_lem _ id reviewed confirmation (on_change_privacy_surface-quiet m privacy) e)
update-IsConfirmed m (config_path_changed value) id reviewed confirmation e =
    absurd (quiet_lem _ id reviewed confirmation (on_config_path_changed-quiet m value) e)
update-IsConfirmed m (backup_path_changed value) id reviewed confirmation e =
    absurd (quiet_lem _ id reviewed confirmation (on_backup_path_changed-quiet m value) e)
update-IsConfirmed m (profile_target_changed value) id reviewed confirmation e =
    absurd (quiet_lem _ id reviewed confirmation (on_profile_target_changed-quiet m value) e)
update-IsConfirmed m (profile_confirmation_changed value) id reviewed confirmation e =
    absurd (quiet_lem _ id reviewed confirmation (on_profile_confirmation_changed-quiet m value) e)
update-IsConfirmed m (compatibility_changed read_only reason) id reviewed confirmation e =
    absurd
      (quiet_lem _ id reviewed confirmation (on_compatibility_changed-quiet m read_only reason) e)
update-IsConfirmed m (operation_requested at action hardware kind) id reviewed confirmation e =
    absurd (
      quiet_lem _ id reviewed confirmation (on_operation_requested-quiet m at action hardware kind)
        e)
update-IsConfirmed m (operation_started at) id reviewed confirmation e =
    absurd (quiet_lem _ id reviewed confirmation (on_operation_started-quiet m at) e)
update-IsConfirmed m (prepared_received at received) id reviewed confirmation e =
    absurd (quiet_lem _ id reviewed confirmation (on_prepared_received-quiet m at received) e)
update-IsConfirmed m (enter_review at) id reviewed confirmation e =
    absurd (quiet_lem _ id reviewed confirmation (on_enter_review-quiet m at) e)
update-IsConfirmed m (review_acknowledged at acknowledged) id reviewed confirmation e =
    absurd (quiet_lem _ id reviewed confirmation (on_review_acknowledged-quiet m at acknowledged) e)
update-IsConfirmed m (confirmation_changed at value) id reviewed confirmation e =
    absurd (quiet_lem _ id reviewed confirmation (on_confirmation_changed-quiet m at value) e)
update-IsConfirmed m (confirmation_submitted at) id reviewed confirmation e =
    let (same, confirmed) = on_confirmation_submitted-IsConfirmed m at id reviewed confirmation e in
    (ap confirmation_submitted same, confirmed)
update-IsConfirmed m (persistent_progress at snapshot) id reviewed confirmation e =
    absurd (quiet_lem _ id reviewed confirmation (on_persistent_progress-quiet m at snapshot) e)
update-IsConfirmed m (application_completed at message privacy) id reviewed confirmation e =
    absurd
      (quiet_lem _ id reviewed confirmation (on_application_completed-quiet m at message privacy) e)
update-IsConfirmed m (persistent_completed at r) id reviewed confirmation e =
    absurd (quiet_lem _ id reviewed confirmation (on_persistent_completed-quiet m at r) e)
update-IsConfirmed m (application_failed at fault) id reviewed confirmation e =
    absurd (quiet_lem _ id reviewed confirmation (on_application_failed-quiet m at fault) e)
update-IsConfirmed m (worker_transport_fault at fault) id reviewed confirmation e =
    absurd (quiet_lem _ id reviewed confirmation (on_worker_transport_fault-quiet m at fault) e)
update-IsConfirmed m (preparation_invalidated at fault) id reviewed confirmation e =
    absurd (quiet_lem _ id reviewed confirmation (on_preparation_invalidated-quiet m at fault) e)
update-IsConfirmed m (cancellation_requested at) id reviewed confirmation e =
    absurd (quiet_lem _ id reviewed confirmation (on_cancellation_requested-quiet m at) e)
update-IsConfirmed m (cancellation_acknowledged at) id reviewed confirmation e =
    absurd (quiet_lem _ id reviewed confirmation (on_cancellation_acknowledged-quiet m at) e)
update-IsConfirmed m (refresh_requested at) id reviewed confirmation e =
    absurd (quiet_lem _ id reviewed confirmation (on_refresh_requested-quiet m at) e)
