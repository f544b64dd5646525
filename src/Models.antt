-- ===== src/Models.antt =====
-- g502x_onboard/application/models.py: the values that the application layer and its adapters share.
use g502x_onboard.Base.{ℕ, String, Bool, Option, List, ◌==◌}
use g502x_onboard.Text.{Text}

-- SHAREABLE and PRIVACY_SAFE are one value, LOCAL_SENSITIVE and USER_AUTHORED another.
pub data PrivacyClass : Type 0 where
  shareable local_sensitive private_diagnostic : PrivacyClass

pub data ErrorCode : Type 0 where
  invalid_input config_error read_only safety_refusal busy backend_failure unknown_preparation :
      ErrorCode
  consumed_preparation stale_preparation cancelled : ErrorCode

pub data WriteEligibility : Type 0 where
  eligible not_eligible : WriteEligibility

pub data PersistentOperationKind : Type 0 where
  apply_config restore_backup restore_baseline : PersistentOperationKind

pub data PersistentPhase : Type 0 where
  preparing prepared reviewing confirming revalidating armed writing reconciling : PersistentPhase
  post_validating succeeded failed : PersistentPhase

-- `is` between members of an enumeration.
abbrev kind_rank : PersistentOperationKind → ℕ
kind_rank apply_config = 0
kind_rank restore_backup = 1
kind_rank restore_baseline = 2

abbrev pub same_kind : PersistentOperationKind → PersistentOperationKind → Bool
same_kind a b = kind_rank a == kind_rank b

abbrev pub phase_rank : PersistentPhase → ℕ
phase_rank preparing = 0
phase_rank prepared = 1
phase_rank reviewing = 2
phase_rank confirming = 3
phase_rank revalidating = 4
phase_rank armed = 5
phase_rank writing = 6
phase_rank reconciling = 7
phase_rank post_validating = 8
phase_rank succeeded = 9
phase_rank failed = 10

abbrev pub same_phase : PersistentPhase → PersistentPhase → Bool
same_phase a b = phase_rank a == phase_rank b

pub record ApplicationError : Type 0 where
  pub code : ErrorCode
  pub message : String
  pub privacy : PrivacyClass
  pub detail : Option String

pub record CompatibilityObservation : Type 0 where
  pub architecture : String
  pub transport : String
  pub identity : String
  pub write_allowed : Bool
  pub eligibility : WriteEligibility

-- ApplyReview, RestoreBackupReview and RestoreBaselineReview, whose `privacy` is LOCAL_SENSITIVE.
pub data PersistentReview : Type 0 where
  apply_review :
      (config_name config_path : Text) (enabled_profiles : List ℕ) (profile_names : List (ℕ × Text))
      (managed_sectors : List ℕ) (warnings : List String) (plan_digest : String)
      (lines : List String)
      → PersistentReview
  restore_backup_review :
      (backup_name : Text) (managed_sectors protected_sectors : List ℕ) (target_digest : String)
      → PersistentReview
  restore_baseline_review :
      (managed_sectors protected_sectors : List ℕ) (target_digest : String) → PersistentReview

pub record PreparedOperation : Type 0 where
  pub preparation_id : String
  pub kind : PersistentOperationKind
  pub review : PersistentReview
  pub target_digest : String
  pub compatibility : CompatibilityObservation
  pub observed_preconditions : List String
  pub host_guard_clear : Bool
  pub required_confirmation_phrase : Text
  pub phase : PersistentPhase
  pub privacy : PrivacyClass

pub record PersistentPhaseSnapshot : Type 0 where
  pub phase : PersistentPhase
  pub kind : PersistentOperationKind
  pub cancellation_allowed : Bool
  pub privacy : PrivacyClass

pub record PersistentExecutionResult : Type 0 where
  pub operation_kind : PersistentOperationKind
  pub terminal_phase : PersistentPhase
  pub success : Bool
  pub pre_write_status : String
  pub writing_started : Bool
  pub reconciliation_completed : Bool
  pub post_validation_completed : Bool
  pub enabled_profiles : List ℕ
  pub safety_backup_name : Option String
  pub error_code : Option ErrorCode
  pub message : String
  pub phase_trace : List PersistentPhase
  pub privacy : PrivacyClass
