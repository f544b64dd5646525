-- ===== src/Tui/Model.antt =====
-- g502x_onboard/tui/model.py, events.py and effects.py: the state, what happens to it and what it asks
-- for.
use g502x_onboard.Base.{
  ℕ, String, Bool, true, false, ◌&&◌, ◌||◌, Option, none, some, ◌==◌, if◌then◌else◌, bytes_eq, [],
  ◌∷◌,
}
use g502x_onboard.Text.{Text}
use g502x_onboard.Action.{ℤ}
use g502x_onboard.Models.{
  PrivacyClass, shareable, local_sensitive, private_diagnostic, ErrorCode, PersistentOperationKind,
  PersistentPhase, writing, reconciling, post_validating, succeeded, failed, ApplicationError,
  PreparedOperation, PersistentPhaseSnapshot, PersistentExecutionResult,
}

pub data Route : Type 0 where
  home operation review confirmation result : Route

pub data FocusIntent : Type 0 where
  primary review_focus confirmation_focus help : FocusIntent

pub data OperationAction : Type 0 where
  probe status validate plan profile_switch report prepare_persistent refresh : OperationAction

pub data TerminalOutcome : Type 0 where
  success failure : TerminalOutcome

-- Two operation ids are equal if the token and the issuance number are.
pub record OperationId : Type 0 where
  pub value : Text
  pub issuance : ℕ

abbrev pub same_id : OperationId → OperationId → Bool
same_id a b = bytes_eq a.value b.value && a.issuance == b.issuance

pub record PresentationPayload : Type 0 where
  pub message : String
  pub privacy : PrivacyClass

pub record ForegroundOperation : Type 0 where
  pub operation_id : OperationId
  pub action : OperationAction
  pub hardware_affecting : Bool
  pub persistent_kind : Option PersistentOperationKind
  pub phase : Option PersistentPhase
  pub started : Bool
  pub cancellation_requested : Bool
  pub cancellation_acknowledged : Bool
  pub cancellation_deferred : Bool
  pub application_cancellation_allowed : Option Bool
  pub execution_requested : Bool
  pub worker_fault_unresolved : Bool

abbrev pub is_safety_phase : Option PersistentPhase → Bool
is_safety_phase (some writing) = true
is_safety_phase (some reconciling) = true
is_safety_phase (some post_validating) = true
is_safety_phase _ = false

abbrev pub is_terminal_phase : Option PersistentPhase → Bool
is_terminal_phase (some succeeded) = true
is_terminal_phase (some failed) = true
is_terminal_phase _ = false

abbrev pub non_cancellable : ForegroundOperation → Bool
non_cancellable op = is_safety_phase op.phase

abbrev pub allowed_or : Option Bool → Bool → Bool
allowed_or none d = d
allowed_or (some b) d = b

abbrev pub cancellation_available : ForegroundOperation → Bool
cancellation_available op =
    if non_cancellable op || is_terminal_phase op.phase
    then false
    else allowed_or op.application_cancellation_allowed true

pub record TerminalState : Type 0 where
  pub outcome : TerminalOutcome
  pub persistent_phase : Option PersistentPhase
  pub error_code : Option ErrorCode
  pub writing_started : Bool
  pub reconciliation_completed : Bool
  pub post_validation_completed : Bool

pub record TuiModel : Type 0 where
  pub route : Route
  pub focus : FocusIntent
  pub surface_privacy : PrivacyClass
  pub read_only : Bool
  pub read_only_reason : Option ApplicationError
  pub active : Option ForegroundOperation
  pub prepared : Option PreparedOperation
  pub review_acknowledged : Bool
  pub confirmation_input : Text
  pub config_path_input : Text
  pub backup_path_input : Text
  pub profile_target_input : Text
  pub profile_confirmation_input : Text
  pub last_result : Option PresentationPayload
  pub last_error : Option ApplicationError
  pub terminal : Option TerminalState
  pub help_open : Bool
  pub disclosure : Option PresentationPayload
  pub transient_notice : Option PresentationPayload

-- The defaults of the fields; the profile is "1".
abbrev pub initial_model : TuiModel
initial_model = record {
  route = home;
  focus = primary;
  surface_privacy = shareable;
  read_only = false;
  read_only_reason = none;
  active = none;
  prepared = none;
  review_acknowledged = false;
  confirmation_input = [];
  config_path_input = [];
  backup_path_input = [];
  profile_target_input = b'1' ∷ [];
  profile_confirmation_input = [];
  last_result = none;
  last_error = none;
  terminal = none;
  help_open = false;
  disclosure = none;
  transient_notice = none;
}

abbrev pub privacy_allows : PrivacyClass → PrivacyClass → Bool
privacy_allows private_diagnostic payload = true
privacy_allows local_sensitive private_diagnostic = false
privacy_allows local_sensitive payload = true
privacy_allows shareable shareable = true
privacy_allows shareable payload = false

pub data Event : Type 0 where
  navigate : Route → FocusIntent → Event
  set_help : Bool → Event
  set_disclosure : Option PresentationPayload → Event
  change_privacy_surface : PrivacyClass → Event
  config_path_changed backup_path_changed profile_target_changed : Text → Event
  profile_confirmation_changed : Text → Event
  compatibility_changed : Bool → Option ApplicationError → Event
  operation_requested :
      OperationId → OperationAction → Bool → Option PersistentOperationKind → Event
  operation_started : OperationId → Event
  prepared_received : OperationId → PreparedOperation → Event
  enter_review : OperationId → Event
  review_acknowledged : OperationId → Bool → Event
  confirmation_changed : OperationId → Text → Event
  confirmation_submitted : OperationId → Event
  persistent_progress : OperationId → PersistentPhaseSnapshot → Event
  application_completed : OperationId → String → PrivacyClass → Event
  persistent_completed : OperationId → PersistentExecutionResult → Event
  application_failed worker_transport_fault preparation_invalidated :
      OperationId → ApplicationError → Event
  cancellation_requested cancellation_acknowledged refresh_requested : OperationId → Event

pub data Effect : Type 0 where
  start_foreground_operation :
      (id : OperationId) (action : OperationAction) (config_path : Option Text)
      (profile_target : Option ℤ) (confirmation : Option Text)
      → Effect
  prepare_persistent_operation :
      (id : OperationId) (kind : PersistentOperationKind) (config_path backup_path : Option Text)
      → Effect
  execute_prepared_operation :
      (id : OperationId) (prepared : PreparedOperation) (confirmation : Text) → Effect
  request_cooperative_cancellation : OperationId → Effect
  request_explicit_refresh : OperationId → Effect
