-- ===== src/Tui/Endings.antt =====
-- g502x_onboard/tui/update.py, the events that end an operation.
use g502x_onboard.Base.{
  String, Bool, true, false, not, ◌&&◌, ◌||◌, Option, none, some, [], if◌then◌else◌,
}
use text.Mathlib.Text.{◌==◌ as str_eq}
use g502x_onboard.Models.{
  PrivacyClass, shareable, ErrorCode, backend_failure, PersistentPhase, preparing, succeeded,
  failed, ApplicationError, PersistentExecutionResult,
}
use g502x_onboard.Tui.Model.{
  home, operation, result, OperationAction, profile_switch, success, failure, OperationId,
  PresentationPayload, non_cancellable, TerminalState, TuiModel,
}
use g502x_onboard.Tui.Inputs.{
  Outcome, stay, current, payload_for_surface, error_for_surface, is_some, is_shareable,
}
use g502x_onboard.Tui.Operations.{notice, kind_differs}

abbrev is_profile_switch : OperationAction → Bool
is_profile_switch profile_switch = true
is_profile_switch _ = false

unfoldable pub on_application_completed : TuiModel → OperationId → String → PrivacyClass → Outcome
on_application_completed model id message privacy = elim (current model id) [
  | none ↦ stay model
  | some active ↦
      if is_some active.persistent_kind
      then stay model
      else stay (record model {
        active = none;
        terminal = some record {
          outcome = success;
          persistent_phase = none;
          error_code = none;
          writing_started = false;
          reconciliation_completed = false;
          post_validation_completed = false;
        };
        last_result =
            payload_for_surface (some record { message = message; privacy = privacy })
              model.surface_privacy;
        last_error = none;
        profile_confirmation_input =
            if is_profile_switch active.action then [] else model.profile_confirmation_input;
        route = result;
      })
]

abbrev is_preparing : Option PersistentPhase → Bool
is_preparing (some preparing) = true
is_preparing _ = false

abbrev pub failure_of : Option PersistentPhase → ErrorCode → Bool → Bool → Bool → TerminalState
failure_of phase code wrote reconciled validated = record {
  outcome = failure;
  persistent_phase = phase;
  error_code = some code;
  writing_started = wrote;
  reconciliation_completed = reconciled;
  post_validation_completed = validated;
}

unfoldable pub on_application_failed : TuiModel → OperationId → ApplicationError → Outcome
on_application_failed model id e = elim (current model id) [
  | none ↦ stay model
  | some active ↦
      let persistent = is_some active.persistent_kind in
      if non_cancellable active
        || (persistent && (not active.execution_requested && not (is_preparing active.phase)))
      then stay model
      else stay (record model {
        active = none;
        prepared = if persistent then none else model.prepared;
        review_acknowledged = if persistent then false else model.review_acknowledged;
        confirmation_input = if persistent then [] else model.confirmation_input;
        config_path_input = if persistent then [] else model.config_path_input;
        backup_path_input = if persistent then [] else model.backup_path_input;
        profile_confirmation_input =
            if is_profile_switch active.action then [] else model.profile_confirmation_input;
        terminal = some (failure_of none e.code false false false);
        last_result = none;
        last_error = error_for_surface (some e) model.surface_privacy;
        route = result;
      })
]

abbrev pub unresolved_error : ApplicationError
unresolved_error = record {
  code = backend_failure;
  message =
      "adapter transport fault during a non-cancellable transaction; hardware outcome is unresolved";
  privacy = shareable;
  detail = none;
}

unfoldable pub on_worker_transport_fault : TuiModel → OperationId → ApplicationError → Outcome
unfolding on_application_failed
on_worker_transport_fault model id e = elim (current model id) [
  | none ↦ stay model
  | some active ↦
      if is_some active.persistent_kind && (active.execution_requested && non_cancellable active)
      then stay (record model {
        active = some (record active { worker_fault_unresolved = true });
        last_error = some (if is_shareable e.privacy then e else unresolved_error);
        transient_notice = some (
            notice
              "UNRESOLVED ADAPTER FAULT: keep this process open; do not retry while hardware outcome is unknown");
        terminal = none;
        route = operation;
      })
      else on_application_failed model id e
]

unfoldable pub on_preparation_invalidated : TuiModel → OperationId → ApplicationError → Outcome
on_preparation_invalidated model id e = elim (current model id) [
  | none ↦ stay model
  | some active ↦
      if non_cancellable active
      then stay model
      else stay (record model {
        active = none;
        prepared = none;
        review_acknowledged = false;
        confirmation_input = [];
        config_path_input = [];
        backup_path_input = [];
        last_result = none;
        last_error = error_for_surface (some e) model.surface_privacy;
        terminal = some (failure_of (some failed) e.code false false false);
        route = home;
      })
]

abbrev is_succeeded : PersistentPhase → Bool
is_succeeded succeeded = true
is_succeeded _ = false

abbrev pub success_consistent : PersistentExecutionResult → Bool
success_consistent r =
    r.success
    && (is_succeeded r.terminal_phase
        && (r.writing_started && (r.reconciliation_completed && r.post_validation_completed)))

-- `result.error_code or ErrorCode.BACKEND_FAILURE`
abbrev code_or_failure : Option ErrorCode → ErrorCode
code_or_failure none = backend_failure
code_or_failure (some code) = code

abbrev message_or : String → String
message_or message = if str_eq message "" then "persistent operation failed" else message

-- What the three branches share: the operation and what was prepared for it are gone.
abbrev pub closed :
    TuiModel → TerminalState → Option PresentationPayload → Option ApplicationError → TuiModel
closed model terminal shown e = record model {
  active = none;
  prepared = none;
  review_acknowledged = false;
  confirmation_input = [];
  config_path_input = [];
  backup_path_input = [];
  terminal = some terminal;
  last_result = shown;
  last_error = e;
  route = result;
}

unfoldable pub close_completed : TuiModel → PersistentExecutionResult → TuiModel
close_completed model r =
    if success_consistent r
    then closed model
        (record {
          outcome = success;
          persistent_phase = some succeeded;
          error_code = none;
          writing_started = true;
          reconciliation_completed = true;
          post_validation_completed = true;
        })
        (payload_for_surface (some record { message = r.message; privacy = r.privacy })
          model.surface_privacy)
        none
    else if r.success
    then closed model
        (failure_of (some failed) backend_failure r.writing_started r.reconciliation_completed
          r.post_validation_completed)
        none
        (error_for_surface
          (some record {
            code = backend_failure;
            message = "inconsistent terminal success evidence";
            privacy = r.privacy;
            detail = none;
          })
          model.surface_privacy)
    else closed model
        (failure_of (some failed) (code_or_failure r.error_code) r.writing_started
          r.reconciliation_completed r.post_validation_completed)
        none
        (error_for_surface
          (some record {
            code = code_or_failure r.error_code;
            message = message_or r.message;
            privacy = r.privacy;
            detail = none;
          })
          model.surface_privacy)

unfoldable pub on_persistent_completed :
    TuiModel → OperationId → PersistentExecutionResult → Outcome
on_persistent_completed model id r = elim (current model id) [
  | none ↦ stay model
  | some active ↦
      if active.execution_requested && not (kind_differs active.persistent_kind r.operation_kind)
      then stay (close_completed model r)
      else stay model
]
