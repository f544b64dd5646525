-- ===== src/Examples/Tui.antt =====
-- Sequences of events of g502x_onboard/tui/update.py at concrete inputs.
use g502x_onboard.Base.{inl, ◌≤◌, ◌+◌, ◌≡◌, refl, true, false, some, List, [], ◌∷◌, ◌++◌}
use g502x_onboard.Text.{Text}
use g502x_onboard.Models.{
  shareable, local_sensitive, apply_config, prepared, revalidating, armed, writing, eligible,
  PersistentPhase, PreparedOperation, restore_baseline_review,
}
use g502x_onboard.Tui.Model.{
  OperationId, prepare_persistent, initial_model, Event, operation_requested, prepared_received,
  enter_review, review_acknowledged, confirmation_changed, confirmation_submitted,
  persistent_progress, cancellation_requested, refresh_requested, change_privacy_surface,
}
use g502x_onboard.Tui.Update.{update, run, run_effects}
use g502x_onboard.Tui.Update.Execution.{executions, pending, all_requests, run-executions}
use g502x_onboard.Tui.Update.Confirmed.{IsConfirmed, update-IsConfirmed}
use g502x_onboard.Tui.Update.Safety.{Holds, run-Holds}
use g502x_onboard.Tui.Update.Disclosable.{IsDisclosable}
use g502x_onboard.Tui.Update.Privacy.{run-IsDisclosable}

abbrev pub id : OperationId
id = record { value = b'o' ∷ b'p' ∷ []; issuance = 1 }

abbrev pub phrase : Text
phrase = b'A' ∷ b'P' ∷ b'P' ∷ b'L' ∷ b'Y' ∷ []

abbrev pub reviewed : PreparedOperation
reviewed = record {
  preparation_id = "p";
  kind = apply_config;
  review = restore_baseline_review [] [] "d";
  target_digest = "d";
  compatibility = record {
    architecture = "a";
    transport = "usb";
    identity = "g502x";
    write_allowed = true;
    eligibility = eligible;
  };
  observed_preconditions = [];
  host_guard_clear = true;
  required_confirmation_phrase = phrase;
  phase = prepared;
  privacy = local_sensitive;
}

-- Up to the typed phrase, with a space before it.
abbrev pub confirm : List Event
confirm =
    operation_requested id prepare_persistent true (some apply_config)
    ∷ prepared_received id reviewed
    ∷ enter_review id
    ∷ review_acknowledged id true
    ∷ confirmation_changed id (0x20 ∷ phrase)
    ∷ []

abbrev pub moved : PersistentPhase → Event
moved phase =
    persistent_progress id record {
      phase = phase;
      kind = apply_config;
      cancellation_allowed = false;
      privacy = shareable;
    }

abbrev pub write : List Event
write =
    confirm ++ (confirmation_submitted id ∷ moved revalidating ∷ moved armed ∷ moved writing ∷ [])

update-IsConfirmed_example :
    (confirmation_submitted id ≡ confirmation_submitted id)
    × IsConfirmed (run initial_model confirm) id reviewed (0x20 ∷ phrase)
unfolding run update g502x_onboard.Tui.Operations.on_confirmation_submitted
    g502x_onboard.Tui.Operations.on_confirmation_changed
    g502x_onboard.Tui.Operations.on_review_acknowledged g502x_onboard.Tui.Operations.on_enter_review
    g502x_onboard.Tui.Operations.on_prepared_received g502x_onboard.Tui.Operations.receive_for
    g502x_onboard.Tui.Operations.on_operation_requested g502x_onboard.Tui.Operations.take_prepared
    g502x_onboard.Text.strip g502x_onboard.Text.strip_left g502x_onboard.Text.is_space
update-IsConfirmed_example =
    update-IsConfirmed (run initial_model confirm) (confirmation_submitted id) id reviewed
      (0x20 ∷ phrase) (inl refl)

-- A second submission is not executed.
abbrev twice : List Event
twice = confirm ++ (confirmation_submitted id ∷ confirmation_submitted id ∷ [])

executed_once : executions (run_effects initial_model twice) ≡ 1
unfolding executions run_effects update g502x_onboard.Tui.Operations.on_operation_requested
    g502x_onboard.Tui.Operations.on_prepared_received g502x_onboard.Tui.Operations.receive_for
    g502x_onboard.Tui.Operations.take_prepared g502x_onboard.Tui.Operations.on_enter_review
    g502x_onboard.Tui.Operations.on_review_acknowledged
    g502x_onboard.Tui.Operations.on_confirmation_changed
    g502x_onboard.Tui.Operations.on_confirmation_submitted g502x_onboard.Text.strip
    g502x_onboard.Text.strip_left g502x_onboard.Text.is_space
executed_once = refl

run-executions_example :
    executions (run_effects initial_model twice) ≤ pending initial_model + all_requests twice
run-executions_example = run-executions initial_model twice

abbrev disturbances : List Event
disturbances =
    cancellation_requested id
    ∷ refresh_requested id
    ∷ change_privacy_surface shareable
    ∷ confirmation_submitted id
    ∷ []

run-Holds_example :
    Holds id (run (run initial_model write) disturbances).active
    × (run_effects (run initial_model write) disturbances ≡ [])
unfolding run update g502x_onboard.Tui.Operations.on_persistent_progress
    g502x_onboard.Tui.Operations.on_confirmation_submitted
    g502x_onboard.Tui.Operations.on_confirmation_changed
    g502x_onboard.Tui.Operations.on_review_acknowledged g502x_onboard.Tui.Operations.on_enter_review
    g502x_onboard.Tui.Operations.on_prepared_received g502x_onboard.Tui.Operations.receive_for
    g502x_onboard.Tui.Operations.on_operation_requested g502x_onboard.Tui.Operations.take_prepared
    g502x_onboard.Text.strip g502x_onboard.Text.strip_left g502x_onboard.Text.is_space
    g502x_onboard.Tui.Operations.accept_progress
run-Holds_example =
    run-Holds (run initial_model write) id disturbances refl (refl, (refl, (refl, refl)))

initial-IsDisclosable : IsDisclosable initial_model
initial-IsDisclosable = record {
  result_shown = tt;
  error_shown = tt;
  reason_shown = tt;
  disclosure_shown = tt;
  notice_shown = tt;
  prepared_shown = tt;
  no_config_path = λ s. refl;
  no_backup_path = λ s. refl;
}

run-IsDisclosable_example : IsDisclosable (run initial_model write)
run-IsDisclosable_example = run-IsDisclosable initial_model write initial-IsDisclosable
