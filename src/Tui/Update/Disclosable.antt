-- ===== src/Tui/Update/Disclosable.antt =====
-- What a model may show, and that the events of the inputs and of a preparation keep it.
use g502x_onboard.Base.{refl, ◌≡◌, Bool, true, false, Option, none, some, [], if◌then◌else◌, arith}
use g502x_onboard.Text.{Text}
use g502x_onboard.Models.{PrivacyClass, shareable, ApplicationError, PreparedOperation}
use g502x_onboard.Tui.Model.{
  ForegroundOperation, review, PresentationPayload, Route, FocusIntent, TuiModel, privacy_allows,
  OperationId,
}
use g502x_onboard.Tui.Inputs.{
  Outcome, stay, current, clear_disallowed, on_navigate, on_set_help, on_set_disclosure,
  on_change_privacy_surface, on_config_path_changed, on_backup_path_changed,
  on_profile_target_changed, on_profile_confirmation_changed, on_compatibility_changed,
}
use g502x_onboard.Tui.Operations.{
  take_prepared, receive_for, surface_for_prepared, on_operation_started, on_prepared_received,
}

abbrev pub Shown : PrivacyClass → Option PresentationPayload → Type 0
Shown surface none = Unit
Shown surface (some p) = privacy_allows surface p.privacy ≡ true

abbrev pub ErrorShown : PrivacyClass → Option ApplicationError → Type 0
ErrorShown surface none = Unit
ErrorShown surface (some e) = privacy_allows surface e.privacy ≡ true

abbrev pub PreparedShown : PrivacyClass → Option PreparedOperation → Type 0
PreparedShown surface none = Unit
PreparedShown surface (some p) = privacy_allows surface p.privacy ≡ true

-- Every payload that the model holds may be shown on its surface, and a shareable surface holds no
-- path that the user typed.
pub record IsDisclosable (m : TuiModel) : Type 0 where
  pub result_shown : Shown m.surface_privacy m.last_result
  pub error_shown : ErrorShown m.surface_privacy m.last_error
  pub reason_shown : ErrorShown m.surface_privacy m.read_only_reason
  pub disclosure_shown : Shown m.surface_privacy m.disclosure
  pub notice_shown : Shown m.surface_privacy m.transient_notice
  pub prepared_shown : PreparedShown m.surface_privacy m.prepared
  pub no_config_path : m.surface_privacy ≡ shareable → m.config_path_input ≡ []
  pub no_backup_path : m.surface_privacy ≡ shareable → m.backup_path_input ≡ []

pub if-IsDisclosable :
    (test : Bool) (x y : Outcome)
    → IsDisclosable x.0
    → IsDisclosable y.0
    → IsDisclosable (if test then x else y).0
if-IsDisclosable true x y hx hy = hx
if-IsDisclosable false x y hx hy = hy

pub on_navigate-IsDisclosable :
    (m : TuiModel) (r : Route) (f : FocusIntent)
    → IsDisclosable m
    → IsDisclosable (on_navigate m r f).0
unfolding on_navigate
on_navigate-IsDisclosable m r f h = ground arith

pub on_set_help-IsDisclosable :
    (m : TuiModel) (shown : Bool) → IsDisclosable m → IsDisclosable (on_set_help m shown).0
unfolding on_set_help
on_set_help-IsDisclosable m shown h = ground arith

pub on_set_disclosure-IsDisclosable :
    (m : TuiModel) (payload : Option PresentationPayload)
    → IsDisclosable m
    → IsDisclosable (on_set_disclosure m payload).0
unfolding on_set_disclosure
on_set_disclosure-IsDisclosable m payload h = ground arith

pub on_change_privacy_surface-IsDisclosable :
    (m : TuiModel) (privacy : PrivacyClass)
    → IsDisclosable m
    → IsDisclosable (on_change_privacy_surface m privacy).0
unfolding on_change_privacy_surface clear_disallowed
on_change_privacy_surface-IsDisclosable m privacy h = ground arith

pub on_config_path_changed-IsDisclosable :
    (m : TuiModel) (value : Text)
    → IsDisclosable m
    → IsDisclosable (on_config_path_changed m value).0
unfolding on_config_path_changed
on_config_path_changed-IsDisclosable m value h = ground arith

pub on_backup_path_changed-IsDisclosable :
    (m : TuiModel) (value : Text)
    → IsDisclosable m
    → IsDisclosable (on_backup_path_changed m value).0
unfolding on_backup_path_changed
on_backup_path_changed-IsDisclosable m value h = ground arith

pub on_profile_target_changed-IsDisclosable :
    (m : TuiModel) (value : Text)
    → IsDisclosable m
    → IsDisclosable (on_profile_target_changed m value).0
unfolding on_profile_target_changed
on_profile_target_changed-IsDisclosable m value h = ground arith

pub on_profile_confirmation_changed-IsDisclosable :
    (m : TuiModel) (value : Text)
    → IsDisclosable m
    → IsDisclosable (on_profile_confirmation_changed m value).0
unfolding on_profile_confirmation_changed
on_profile_confirmation_changed-IsDisclosable m value h = ground arith

pub on_compatibility_changed-IsDisclosable :
    (m : TuiModel) (read_only : Bool) (reason : Option ApplicationError)
    → IsDisclosable m
    → IsDisclosable (on_compatibility_changed m read_only reason).0
unfolding on_compatibility_changed
on_compatibility_changed-IsDisclosable m read_only reason h = ground arith

pub on_operation_started-IsDisclosable :
    (m : TuiModel) (id : OperationId)
    → IsDisclosable m
    → IsDisclosable (on_operation_started m id).0
unfolding on_operation_started
on_operation_started-IsDisclosable m id h = ground arith

-- The surface widens to take a preparation, and never so far that what it showed is lost.
widened-allows :
    (surface privacy other next : PrivacyClass)
    → surface_for_prepared surface privacy ≡ some next
    → privacy_allows surface other ≡ true
    → privacy_allows next other ≡ true
widened-allows surface privacy other next w h = ground arith

widened-Shown :
    (surface privacy next : PrivacyClass) (p : Option PresentationPayload)
    → surface_for_prepared surface privacy ≡ some next
    → Shown surface p
    → Shown next p
widened-Shown surface privacy next none w h = tt
widened-Shown surface privacy next (some p) w h = widened-allows surface privacy p.privacy next w h

widened-ErrorShown :
    (surface privacy next : PrivacyClass) (e : Option ApplicationError)
    → surface_for_prepared surface privacy ≡ some next
    → ErrorShown surface e
    → ErrorShown next e
widened-ErrorShown surface privacy next none w h = tt
widened-ErrorShown surface privacy next (some e) w h =
    widened-allows surface privacy e.privacy next w h

widened_self :
    (surface privacy next : PrivacyClass)
    → surface_for_prepared surface privacy ≡ some next
    → privacy_allows next privacy ≡ true
widened_self surface privacy next w = ground arith

widened_shareable :
    (surface privacy next : PrivacyClass)
    → surface_for_prepared surface privacy ≡ some next
    → next ≡ shareable
    → surface ≡ shareable
widened_shareable surface privacy next w h = ground arith

widened-IsDisclosable :
    (m : TuiModel) (active : Option ForegroundOperation) (received : PreparedOperation)
    (next : PrivacyClass)
    → surface_for_prepared m.surface_privacy received.privacy ≡ some next
    → IsDisclosable m
    → IsDisclosable (record m {
      active = active;
      surface_privacy = next;
      prepared = some received;
      review_acknowledged = false;
      confirmation_input = [];
      route = review;
    })
widened-IsDisclosable m active received next w h =
    let surface = m.surface_privacy in
    let privacy = received.privacy in
    record {
      result_shown = widened-Shown surface privacy next m.last_result w h.result_shown;
      error_shown = widened-ErrorShown surface privacy next m.last_error w h.error_shown;
      reason_shown = widened-ErrorShown surface privacy next m.read_only_reason w h.reason_shown;
      disclosure_shown = widened-Shown surface privacy next m.disclosure w h.disclosure_shown;
      notice_shown = widened-Shown surface privacy next m.transient_notice w h.notice_shown;
      prepared_shown = widened_self surface privacy next w;
      no_config_path = λ s. h.no_config_path (widened_shareable surface privacy next w s);
      no_backup_path = λ s. h.no_backup_path (widened_shareable surface privacy next w s);
    }

take_prepared-IsDisclosable :
    (m : TuiModel) (received : PreparedOperation) (active : ForegroundOperation)
    (o : Option PrivacyClass)
    → surface_for_prepared m.surface_privacy received.privacy ≡ o
    → IsDisclosable m
    → IsDisclosable (take_prepared m received active o).0
unfolding take_prepared
take_prepared-IsDisclosable m received active none w h = h
take_prepared-IsDisclosable m received active (some next) w h =
    widened-IsDisclosable m _ received next w h

receive_for-IsDisclosable :
    (m : TuiModel) (received : PreparedOperation) (o : Option ForegroundOperation)
    → IsDisclosable m
    → IsDisclosable (receive_for m received o).0
unfolding receive_for
receive_for-IsDisclosable m received none h = h
receive_for-IsDisclosable m received (some active) h =
    if-IsDisclosable _ (stay m) _ h (take_prepared-IsDisclosable m received active _ refl h)

pub on_prepared_received-IsDisclosable :
    (m : TuiModel) (id : OperationId) (received : PreparedOperation)
    → IsDisclosable m
    → IsDisclosable (on_prepared_received m id received).0
unfolding on_prepared_received
on_prepared_received-IsDisclosable m id received h =
    receive_for-IsDisclosable m received (current m id) h
