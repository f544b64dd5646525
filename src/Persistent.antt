-- ===== src/Persistent.antt =====
-- g502x_onboard/application/persistent.py, `_terminal` and `_execute_accepted`: the execution of an
-- accepted preparation. What the backend does is a parameter: the phases that it emits and how it
-- ends. The observer sees one snapshot for each phase emitted, and what it raises is dropped.
pub mod Phases
pub mod Evidence
pub mod Complete
pub mod Report
pub mod Progress
pub mod Registry
use g502x_onboard.Base.{
  ℕ, String, Bool, true, false, not, ◌&&◌, ◌||◌, Option, none, some, List, [], ◌∷◌, ◌++◌,
  if◌then◌else◌, map,
}
use g502x_onboard.Models.{
  PrivacyClass, local_sensitive, ErrorCode, backend_failure, cancelled, PersistentPhase, preparing,
  prepared, reviewing, confirming, revalidating, armed, writing, reconciling, post_validating,
  succeeded, failed, same_phase, PreparedOperation, PersistentPhaseSnapshot,
  PersistentExecutionResult,
}

-- `phase in trace`
unfoldable pub has_phase : PersistentPhase → List PersistentPhase → Bool
has_phase phase [] = false
has_phase phase (first ∷ trace) = same_phase phase first || has_phase phase trace

-- `trace and trace[-1] is phase`
unfoldable pub last_is : PersistentPhase → List PersistentPhase → Bool
last_is phase [] = false
last_is phase (first ∷ []) = same_phase first phase
last_is phase (first ∷ next ∷ trace) = last_is phase (next ∷ trace)

-- `if not trace or trace[-1] is not phase: trace.append(phase)`
unfoldable pub add_phase : List PersistentPhase → PersistentPhase → List PersistentPhase
add_phase trace phase = if last_is phase trace then trace else trace ++ phase ∷ []

unfoldable pub add_phases : List PersistentPhase → List PersistentPhase → List PersistentPhase
add_phases trace [] = trace
add_phases trace (phase ∷ phases) = add_phases (add_phase trace phase) phases

-- The arguments of `_terminal` that have defaults.
pub record Reached : Type 0 where
  pub writing_started : Bool
  pub reconciliation_completed : Bool
  pub post_validation_completed : Bool
  pub enabled_profiles : List ℕ
  pub safety_backup_name : Option String

abbrev pub no_evidence : Reached
no_evidence = record {
  writing_started = false;
  reconciliation_completed = false;
  post_validation_completed = false;
  enabled_profiles = [];
  safety_backup_name = none;
}

abbrev pub terminal_phase_of : Bool → PersistentPhase
terminal_phase_of success = if success then succeeded else failed

unfoldable pub terminal :
    PreparedOperation
    → Bool
    → String
    → Option ErrorCode
    → String
    → List PersistentPhase
    → Reached
    → PersistentExecutionResult
terminal operation success status error_code message trace evidence = record {
  operation_kind = operation.kind;
  terminal_phase = terminal_phase_of success;
  success = success;
  pre_write_status = status;
  writing_started = evidence.writing_started;
  reconciliation_completed = evidence.reconciliation_completed;
  post_validation_completed = evidence.post_validation_completed;
  enabled_profiles = evidence.enabled_profiles;
  safety_backup_name = evidence.safety_backup_name;
  error_code = error_code;
  message = message;
  phase_trace = add_phase trace (terminal_phase_of success);
  privacy = local_sensitive;
}

-- How `backend.execute_persistent` ends: with a PersistentBackendResult, or with one of three
-- exceptions.
pub data BackendEnd : Type 0 where
  returned :
      (enabled_profiles : List ℕ) (safety_backup_name : Option String)
      (reconciliation_completed post_validation_completed : Bool)
      → BackendEnd
  cooperative_cancellation : BackendEnd
  backend_failed : (reconciliation_completed post_validation_completed : Bool) → BackendEnd
  raised : BackendEnd

-- The phases that a run of the backend emits, and its end.
abbrev pub BackendRun : Type 0
BackendRun = List PersistentPhase × BackendEnd

abbrev pub cancellation_allowed_in : PersistentPhase → Bool
cancellation_allowed_in phase =
    has_phase phase (preparing ∷ prepared ∷ reviewing ∷ confirming ∷ revalidating ∷ armed ∷ [])

abbrev pub snapshot : PreparedOperation → PersistentPhase → PersistentPhaseSnapshot
snapshot operation phase = record {
  phase = phase;
  kind = operation.kind;
  cancellation_allowed = cancellation_allowed_in phase;
  privacy = local_sensitive;
}

-- The result of a failed or incomplete run.
abbrev pub refused :
    PreparedOperation → List PersistentPhase → Bool → Bool → PersistentExecutionResult
refused operation trace reconciled post_validated =
    terminal operation false
      (if has_phase writing trace then "failed-after-write" else "revalidation-refused")
      (some backend_failure) "persistent operation refused or failed" trace
      (record no_evidence {
        writing_started = has_phase writing trace;
        reconciliation_completed = reconciled;
        post_validation_completed = post_validated;
      })

abbrev pub lifecycle_complete : List PersistentPhase → Bool
lifecycle_complete trace =
    has_phase armed trace
    && (has_phase writing trace && (has_phase reconciling trace && has_phase post_validating trace))

-- The result, from the phases emitted and the end of the backend.
unfoldable pub conclude :
    PreparedOperation → List PersistentPhase → BackendEnd → PersistentExecutionResult
conclude operation trace cooperative_cancellation =
    terminal operation false "cancelled-before-write" (some cancelled)
      "operation cancelled before the first persistent write" trace
      (record no_evidence { writing_started = has_phase writing trace })
conclude operation trace (backend_failed reconciled validated) =
    refused operation trace reconciled (validated && reconciled)
conclude operation trace raised = refused operation trace false false
conclude operation trace (returned profiles backup reconciled validated) =
    if not (reconciled && ((validated && reconciled) && lifecycle_complete trace))
    then refused operation trace reconciled (validated && reconciled)
    else terminal operation true "completed" none
        "persistent operation completed and fully validated" trace
        record {
          writing_started = true;
          reconciliation_completed = true;
          post_validation_completed = true;
          enabled_profiles = profiles;
          safety_backup_name = backup;
        }

-- `_execute_accepted`, from the trace that `execute_prepared` starts with.
unfoldable pub execute_accepted : PreparedOperation → Bool → BackendRun → PersistentExecutionResult
execute_accepted operation is_cancelled (emitted, ended) =
    let trace = add_phase (confirming ∷ []) revalidating in
    if is_cancelled
    then terminal operation false "cancelled-before-write" (some cancelled)
        "operation cancelled during revalidation" trace no_evidence
    else conclude operation (add_phases trace emitted) ended

-- What the observer of that execution sees.
unfoldable pub observed : PreparedOperation → Bool → BackendRun → List PersistentPhaseSnapshot
observed operation is_cancelled (emitted, ended) =
    if is_cancelled
    then snapshot operation revalidating ∷ []
    else map (snapshot operation) (revalidating ∷ emitted)
