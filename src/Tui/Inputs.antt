-- ===== src/Tui/Inputs.antt =====
-- g502x_onboard/tui/update.py, the events that change what is shown and typed, and the guards that the
-- other events share.
use g502x_onboard.Base.{Bool, true, false, not, ◌&&◌, Option, none, some, List, [], if◌then◌else◌}
use g502x_onboard.Text.{Text, is_blank}
use g502x_onboard.Models.{
  PrivacyClass, shareable, local_sensitive, PersistentPhase, preparing, prepared, reviewing,
  confirming, ApplicationError, PreparedOperation,
}
use g502x_onboard.Tui.Model.{
  Route, FocusIntent, help, OperationId, same_id, PresentationPayload, ForegroundOperation,
  TuiModel, privacy_allows, Effect,
}

abbrev pub Outcome : Type 0
Outcome = TuiModel × List Effect

-- `return model, ()`
abbrev pub stay : TuiModel → Outcome
stay model = (model, [])

-- `model.active` if `_is_current(model, operation_id)`.
abbrev pub current : TuiModel → OperationId → Option ForegroundOperation
current model id = elim model.active [
  | none ↦ none
  | some active ↦ if same_id active.operation_id id then some active else none
]

-- The set `_PRE_EXECUTION_PHASES`.
abbrev pub is_pre_execution : Option PersistentPhase → Bool
is_pre_execution (some preparing) = true
is_pre_execution (some prepared) = true
is_pre_execution (some reviewing) = true
is_pre_execution (some confirming) = true
is_pre_execution _ = false

-- `_payload_for_surface`, of a presentation payload and of an error.
abbrev pub payload_for_surface :
    Option PresentationPayload → PrivacyClass → Option PresentationPayload
payload_for_surface none surface = none
payload_for_surface (some payload) surface =
    if privacy_allows surface payload.privacy then some payload else none

abbrev pub error_for_surface : Option ApplicationError → PrivacyClass → Option ApplicationError
error_for_surface none surface = none
error_for_surface (some e) surface = if privacy_allows surface e.privacy then some e else none

abbrev pub prepared_for_surface : Option PreparedOperation → PrivacyClass → Option PreparedOperation
prepared_for_surface none surface = none
prepared_for_surface (some p) surface = if privacy_allows surface p.privacy then some p else none

abbrev pub is_some {ℓ} : {A : Type ℓ} → Option A → Bool
is_some none = false
is_some (some a) = true

abbrev pub is_shareable : PrivacyClass → Bool
is_shareable shareable = true
is_shareable _ = false

-- The phases in which a cleared preparation ends the operation.
abbrev is_under_review : Option PersistentPhase → Bool
is_under_review (some prepared) = true
is_under_review (some reviewing) = true
is_under_review (some confirming) = true
is_under_review _ = false

abbrev pub active_after_clear : Bool → Option ForegroundOperation → Option ForegroundOperation
active_after_clear cleared none = none
active_after_clear cleared (some active) =
    if cleared && (not active.execution_requested && is_under_review active.phase)
    then none
    else some active

-- `_clear_disallowed`
unfoldable pub clear_disallowed : TuiModel → PrivacyClass → TuiModel
clear_disallowed model surface =
    let kept = prepared_for_surface model.prepared surface in
    let cleared = is_some model.prepared && not (is_some kept) in
    let clear_local = is_shareable surface in
    record model {
      active = active_after_clear cleared model.active;
      surface_privacy = surface;
      prepared = kept;
      review_acknowledged = if is_some kept then model.review_acknowledged else false;
      confirmation_input = if is_some kept then model.confirmation_input else [];
      config_path_input = if clear_local then [] else model.config_path_input;
      backup_path_input = if clear_local then [] else model.backup_path_input;
      profile_confirmation_input = if clear_local then [] else model.profile_confirmation_input;
      last_result = payload_for_surface model.last_result surface;
      last_error = error_for_surface model.last_error surface;
      read_only_reason = error_for_surface model.read_only_reason surface;
      disclosure = payload_for_surface model.disclosure surface;
      transient_notice = payload_for_surface model.transient_notice surface;
    }

-- `_local_surface_for_input`
abbrev pub local_surface_for_input : TuiModel → Text → PrivacyClass
local_surface_for_input model value =
    if not (is_blank value) && is_shareable model.surface_privacy
    then local_sensitive
    else model.surface_privacy

unfoldable pub on_navigate : TuiModel → Route → FocusIntent → Outcome
on_navigate model route focus = stay (record model { route = route; focus = focus })

unfoldable pub on_set_help : TuiModel → Bool → Outcome
on_set_help model shown =
    stay (record model { help_open = shown; focus = if shown then help else model.focus })

unfoldable pub on_set_disclosure : TuiModel → Option PresentationPayload → Outcome
on_set_disclosure model payload =
    stay (record model { disclosure = payload_for_surface payload model.surface_privacy })

unfoldable pub on_change_privacy_surface : TuiModel → PrivacyClass → Outcome
on_change_privacy_surface model privacy = stay (clear_disallowed model privacy)

unfoldable pub on_config_path_changed : TuiModel → Text → Outcome
on_config_path_changed model value =
    if is_some model.active
    then stay model
    else stay (record model {
      config_path_input = value;
      surface_privacy = local_surface_for_input model value;
    })

unfoldable pub on_backup_path_changed : TuiModel → Text → Outcome
on_backup_path_changed model value =
    if is_some model.active
    then stay model
    else stay (record model {
      backup_path_input = value;
      surface_privacy = local_surface_for_input model value;
    })

unfoldable pub on_profile_target_changed : TuiModel → Text → Outcome
on_profile_target_changed model value =
    if is_some model.active
    then stay model
    else stay (record model { profile_target_input = value })

unfoldable pub on_profile_confirmation_changed : TuiModel → Text → Outcome
on_profile_confirmation_changed model value =
    if is_some model.active
    then stay model
    else stay (record model { profile_confirmation_input = value })

unfoldable pub on_compatibility_changed : TuiModel → Bool → Option ApplicationError → Outcome
on_compatibility_changed model read_only reason = stay (record model {
  read_only = read_only;
  read_only_reason = error_for_surface reason model.surface_privacy;
})
