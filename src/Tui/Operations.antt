-- ===== src/Tui/Operations.antt =====
-- g502x_onboard/tui/update.py, the life of an operation from its request to its cancellation.
use g502x_onboard.Base.{
  String, Bool, true, false, not, ◌&&◌, ◌||◌, Option, none, some, [], ◌∷◌, if◌then◌else◌, bytes_eq,
}
use g502x_onboard.Text.{Text, is_blank, strip, parse_int}
use g502x_onboard.Models.{
  PrivacyClass, shareable, private_diagnostic, invalid_input, PersistentOperationKind, apply_config,
  restore_backup, PersistentPhase, preparing, prepared, reviewing, confirming, revalidating, armed,
  writing, reconciling, post_validating, same_kind, same_phase, ApplicationError, PreparedOperation,
  PersistentPhaseSnapshot,
}
use g502x_onboard.Tui.Model.{
  operation, review, confirmation, review_focus, confirmation_focus, OperationAction, plan,
  profile_switch, prepare_persistent, refresh, OperationId, PresentationPayload,
  ForegroundOperation, non_cancellable, cancellation_available, is_terminal_phase, TuiModel,
  privacy_allows, start_foreground_operation, prepare_persistent_operation,
  execute_prepared_operation, request_cooperative_cancellation, request_explicit_refresh,
}
use g502x_onboard.Tui.Inputs.{Outcome, stay, current, is_pre_execution, is_some}

abbrev pub notice : String → PresentationPayload
notice message = record { message = message; privacy = shareable }

abbrev pub new_operation :
    OperationId
    → OperationAction
    → Bool
    → Option PersistentOperationKind
    → Option PersistentPhase
    → ForegroundOperation
new_operation id action hardware kind phase = record {
  operation_id = id;
  action = action;
  hardware_affecting = hardware;
  persistent_kind = kind;
  phase = phase;
  started = false;
  cancellation_requested = false;
  cancellation_acknowledged = false;
  cancellation_deferred = false;
  application_cancellation_allowed = none;
  execution_requested = false;
  worker_fault_unresolved = false;
}

abbrev text_or_none : Text → Option Text
text_or_none value = if is_blank value then none else some value

abbrev initial_phase : OperationAction → Option PersistentPhase
initial_phase prepare_persistent = some preparing
initial_phase _ = none

abbrev pub requested : TuiModel → ForegroundOperation → TuiModel
requested model active = record model {
  active = some active;
  route = operation;
  terminal = none;
  last_result = none;
  last_error = none;
  transient_notice = none;
}

abbrev needs_kind : ApplicationError
needs_kind = record {
  code = invalid_input;
  message = "persistent preparation requires an operation kind";
  privacy = shareable;
  detail = none;
}

-- The effect of the new operation, by its action; the operation is given up where a persistent
-- preparation names no kind.
abbrev pub dispatch_request :
    TuiModel → TuiModel → OperationId → OperationAction → Option PersistentOperationKind → Outcome
dispatch_request model next id prepare_persistent none =
    stay (record next { active = none; last_error = some needs_kind })
dispatch_request model next id prepare_persistent (some kind) = (
  next,
  prepare_persistent_operation id kind
        (if same_kind kind apply_config then text_or_none model.config_path_input else none)
        (if same_kind kind restore_backup then text_or_none model.backup_path_input else none)
      ∷ [],
)
dispatch_request model next id refresh kind = (next, request_explicit_refresh id ∷ [])
dispatch_request model next id profile_switch kind = (
  next,
  start_foreground_operation id profile_switch none (parse_int model.profile_target_input)
        (some model.profile_confirmation_input)
      ∷ [],
)
dispatch_request model next id plan kind =
    (next, start_foreground_operation id plan (text_or_none model.config_path_input) none none ∷ [])
dispatch_request model next id action kind =
    (next, start_foreground_operation id action none none none ∷ [])

unfoldable pub on_operation_requested :
    TuiModel → OperationId → OperationAction → Bool → Option PersistentOperationKind → Outcome
on_operation_requested model id action hardware kind =
    if is_some model.active
    then stay (record model {
      transient_notice = some (notice "another foreground hardware operation is already active");
    })
    else dispatch_request model
        (requested model (new_operation id action hardware kind (initial_phase action))) id action
        kind

unfoldable pub on_operation_started : TuiModel → OperationId → Outcome
on_operation_started model id = elim (current model id) [
  | none ↦ stay model
  | some active ↦ stay (record model { active = some (record active { started = true }) })
]

abbrev pub kind_differs : Option PersistentOperationKind → PersistentOperationKind → Bool
kind_differs none kind = false
kind_differs (some expected) kind = not (same_kind kind expected)

-- The surface after a preparation arrives, or `none` where it is refused.
abbrev pub surface_for_prepared : PrivacyClass → PrivacyClass → Option PrivacyClass
surface_for_prepared surface privacy =
    if privacy_allows surface privacy
    then some surface
    else elim privacy [ private_diagnostic ↦ none | other ↦ some other ]

-- The preparation is shown on `surface`, or refused where there is none.
unfoldable pub take_prepared :
    TuiModel → PreparedOperation → ForegroundOperation → Option PrivacyClass → Outcome
take_prepared model received active none = stay model
take_prepared model received active (some surface) = stay (record model {
  active = some (record active { phase = some prepared; persistent_kind = some received.kind });
  surface_privacy = surface;
  prepared = some received;
  review_acknowledged = false;
  confirmation_input = [];
  route = review;
})

unfoldable pub receive_for : TuiModel → PreparedOperation → Option ForegroundOperation → Outcome
receive_for model received none = stay model
receive_for model received (some active) =
    if active.execution_requested
      || (not (is_pre_execution active.phase) || kind_differs active.persistent_kind received.kind)
    then stay model
    else take_prepared model received active
        (surface_for_prepared model.surface_privacy received.privacy)

unfoldable pub on_prepared_received : TuiModel → OperationId → PreparedOperation → Outcome
on_prepared_received model id received = receive_for model received (current model id)

-- The guard of the three review events.
abbrev pub under_review : TuiModel → OperationId → Option ForegroundOperation
under_review model id = elim (current model id) [
  | none ↦ none
  | some active ↦
      if is_some model.prepared && (not active.execution_requested && is_pre_execution active.phase)
      then some active
      else none
]

unfoldable pub on_enter_review : TuiModel → OperationId → Outcome
on_enter_review model id = elim (under_review model id) [
  | none ↦ stay model
  | some active ↦ stay (record model {
    active = some (record active { phase = some reviewing });
    route = review;
    focus = review_focus;
  })
]

unfoldable pub on_review_acknowledged : TuiModel → OperationId → Bool → Outcome
on_review_acknowledged model id acknowledged = elim (under_review model id) [
  | none ↦ stay model
  | some active ↦ stay (record model { review_acknowledged = acknowledged })
]

unfoldable pub on_confirmation_changed : TuiModel → OperationId → Text → Outcome
on_confirmation_changed model id value = elim (under_review model id) [
  | none ↦ stay model
  | some active ↦ stay (record model {
    active = some (record active { phase = some confirming });
    confirmation_input = value;
    route = confirmation;
    focus = confirmation_focus;
  })
]

abbrev is_confirming : Option PersistentPhase → Bool
is_confirming (some confirming) = true
is_confirming _ = false

unfoldable pub on_confirmation_submitted : TuiModel → OperationId → Outcome
on_confirmation_submitted model id = elim (current model id) [
  | none ↦ stay model
  | some active ↦ elim model.prepared [
    | none ↦ stay model
    | some reviewed ↦
        if model.review_acknowledged
          && (not active.execution_requested
              && (not active.cancellation_requested
                  && (is_confirming active.phase
                      && bytes_eq (strip model.confirmation_input)
                          reviewed.required_confirmation_phrase)))
        then (
          record model {
            active = some (record active { phase = some confirming; execution_requested = true });
          },
          execute_prepared_operation id reviewed model.confirmation_input ∷ [],
        )
        else stay model
  ]
]

-- The table `_PROGRESS_NEXT`.
abbrev pub progress_next : PersistentPhase → Option PersistentPhase
progress_next confirming = some revalidating
progress_next revalidating = some armed
progress_next armed = some writing
progress_next writing = some reconciling
progress_next reconciling = some post_validating
progress_next _ = none

abbrev pub is_phase : Option PersistentPhase → PersistentPhase → Bool
is_phase none phase = false
is_phase (some expected) phase = same_phase expected phase

-- `_accept_progress`
unfoldable pub accept_progress : Option PersistentPhase → PersistentPhase → Bool
accept_progress none new = false
accept_progress (some phase) new =
    not (is_terminal_phase (some new))
    && (not (is_terminal_phase (some phase))
        && (same_phase new phase || is_phase (progress_next phase) new))

unfoldable pub on_persistent_progress : TuiModel → OperationId → PersistentPhaseSnapshot → Outcome
on_persistent_progress model id snapshot = elim (current model id) [
  | none ↦ stay model
  | some active ↦
      if active.execution_requested
        && (not (kind_differs active.persistent_kind snapshot.kind)
            && accept_progress active.phase snapshot.phase)
      then stay (record model {
        active = some (record active {
          phase = some snapshot.phase;
          application_cancellation_allowed = some snapshot.cancellation_allowed;
        });
      })
      else stay model
]

unfoldable pub request_cancellation : TuiModel → OperationId → Option ForegroundOperation → Outcome
request_cancellation model id none = stay model
request_cancellation model id (some active) =
    if non_cancellable active
    then stay (record model {
      active = some (record active { cancellation_deferred = true });
      transient_notice = some (notice "transaction is in a non-cancellable safety phase");
    })
    else if not (cancellation_available active)
    then stay (record model {
      transient_notice =
          some (notice "cooperative cancellation is unavailable for the current phase");
    })
    else (
      record model { active = some (record active { cancellation_requested = true }) },
      request_cooperative_cancellation id ∷ [],
    )

unfoldable pub on_cancellation_requested : TuiModel → OperationId → Outcome
on_cancellation_requested model id = request_cancellation model id (current model id)

unfoldable pub on_cancellation_acknowledged : TuiModel → OperationId → Outcome
on_cancellation_acknowledged model id = elim (current model id) [
  | none ↦ stay model
  | some active ↦
      if not active.cancellation_requested
        || (non_cancellable active || active.cancellation_deferred)
      then stay model
      else stay
          (record model { active = some (record active { cancellation_acknowledged = true }) })
]

unfoldable pub on_refresh_requested : TuiModel → OperationId → Outcome
on_refresh_requested model id =
    if is_some model.active
    then stay (record model {
      transient_notice =
          some (notice "refresh unavailable while a foreground hardware operation is active");
    })
    else (
      record model { active = some (new_operation id refresh true none none); route = operation },
      request_explicit_refresh id ∷ [],
    )
