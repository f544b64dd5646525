-- ===== src/Device/Transfer.antt =====
-- g502x_onboard/device.py, `apply_plan` and `restore_baseline`: the transactions.
use g502x_onboard.Base.{ℕ, String, Bool, true, Option, none, some, List, [], ◌∷◌, ◌++◌, bytes_eq}
use package.text.Mathlib.Text.{◌==◌ as str_eq}
use g502x_onboard.Base.Exec.{Exec, pure, lift, ◌>>=◌, ◌>>◌, check, for_each}
use g502x_onboard.Constants.{
  global_macro_sectors, programmable_profiles, programmable_sectors, recovery_sectors,
}
use g502x_onboard.Sector.{pack_be16}
use g502x_onboard.Directory.{build_directory, validate_directory}
use g502x_onboard.Identity.{Manifest}
use g502x_onboard.Validator.{ValidationReport, is_ok}
use g502x_onboard.Validator.Report.{validate_images}
use g502x_onboard.Device.{
  Env, Images, DeviceError, baseline_mismatch, target_changed, final_differs, invalid_target,
  backup_recovery_differs,
}
use g502x_onboard.Device.Port.{require_ghub_closed, with_unit}
use g502x_onboard.Device.Page.{read_all}
use g502x_onboard.Device.Write.{
  from_codec, assert_active_device_matches_baseline, validate_recovery_images, ensure_safe_profile,
  create_backup, fresh_write_sector, require_safe_profile, validate_recovery_fresh,
}

-- What a transaction puts into the programmable sectors; of a plan it is the directory, the profiles
-- and the images of the global store.
abbrev pub Target : Type 0
Target = Images

-- The optional arguments of the three transactions; a callback that is missing does nothing.
pub record Options (W : Type 0) : Type 0 where
  pub expected_fingerprint : Option String
  pub expected_digest : Option String
  pub before_first_write : Exec W DeviceError (Unit {0})
  pub before_final_reconcile : Exec W DeviceError (Unit {0})

abbrev pub expected_or : Option String → String → Bool
expected_or none actual = true
expected_or (some expected) actual = str_eq actual expected

-- The bytes that `_programmable_target_digest` hashes.
unfoldable pub digest_input : Images → List ℕ → List ℕ
digest_input images [] = []
digest_input images (sector ∷ sectors) =
    pack_be16 sector ++ (images sector ++ digest_input images sectors)

module _ {W : Type 0} (env : Env W) where
  -- The opening of the three: the interlock, the baseline and the fingerprint that was reviewed.
  unfoldable pub open_transaction : Options W → Exec W DeviceError Manifest
  open_transaction options = do
    require_ghub_closed env
    env.require_baseline
    manifest ← assert_active_device_matches_baseline env
    check (expected_or options.expected_fingerprint manifest.fingerprint) baseline_mismatch
    pure manifest

  -- One sector is written, and the recovery is looked at again.
  unfoldable pub write_step : Manifest → Images → ℕ → Exec W DeviceError (Unit {0})
  write_step manifest target sector = do
    fresh_write_sector env manifest sector (target sector)
    validate_recovery_fresh env manifest

  -- The macro pages and the profiles, in their order.
  unfoldable pub write_contents : Manifest → Images → Exec W DeviceError (Unit {0})
  write_contents manifest target = do
    for_each global_macro_sectors (write_step manifest target)
    for_each (3 ∷ 4 ∷ 5 ∷ 2 ∷ []) (write_step manifest target)

  -- The staging directory with profiles 1 and 2 alone, the contents, and the final directory.
  unfoldable pub write_all : Manifest → List ℕ → Target → Options W → Exec W DeviceError (Unit {0})
  write_all manifest baseline_directory target options = do
    staging ← lift (from_codec (build_directory baseline_directory (1 ∷ 2 ∷ [])))
    options.before_first_write
    write_step manifest (λ sector. staging) 0
    write_contents manifest target
    write_step manifest target 0

  unfoldable pub same_final : Images → Target → ℕ → Exec W DeviceError (Unit {0})
  same_final final target sector =
      check (bytes_eq (final sector) (target sector)) (final_differs sector)

  -- The last reading of everything, compared in the order of `sectors`.
  unfoldable pub reconcile_final :
      Manifest → Target → List ℕ → Options W → Exec W DeviceError Images
  reconcile_final manifest target sectors options = do
    options.before_final_reconcile
    final ← read_all env manifest
    for_each sectors (same_final final target)
    pure final

  unfoldable pub apply_plan : Target → Options W → Exec W DeviceError String
  apply_plan plan options = do
    manifest ← open_transaction options
    current ← read_all env manifest
    validate_recovery_images env current
    with_unit env manifest (require_safe_profile env)
    backup ← create_backup env "pre-apply" manifest
    baseline ← env.baseline_map
    write_all manifest (baseline 0) plan options
    reconcile_final manifest plan (0 ∷ (global_macro_sectors ++ programmable_profiles)) options
    pure backup

  -- `hash` is SHA-256 in hexadecimal digits.
  unfoldable pub restore_baseline : (List ℕ → String) → Options W → Exec W DeviceError String
  restore_baseline hash options = do
    manifest ← open_transaction options
    ensure_safe_profile env manifest
    current ← read_all env manifest
    validate_recovery_images env current
    backup ← create_backup env "pre-baseline-restore" manifest
    target ← env.baseline_map
    check (expected_or options.expected_digest (hash (digest_input target programmable_sectors)))
        target_changed
    write_all manifest (target 0) target options
    final ← reconcile_final manifest target programmable_sectors options
    validate_recovery_images env final
    pure backup

  unfoldable pub same_backup_recovery : Images → Images → ℕ → Exec W DeviceError (Unit {0})
  same_backup_recovery target baseline sector =
      check (bytes_eq (target sector) (baseline sector)) (backup_recovery_differs sector)

  -- `validate_images` without a baseline: it reads the stored one.
  unfoldable pub validate_active : Images → Exec W DeviceError ValidationReport
  validate_active images = do
    baseline ← env.baseline_map
    lift (from_codec (validate_images (λ s. some (images s)) (λ s. some (baseline s))))

  -- What is asked of a backup before the device is touched. The baseline is read again for it.
  unfoldable pub check_backup : (List ℕ → String) → Images → Options W → Exec W DeviceError Images
  check_backup hash target options = do
    report ← validate_active target
    check (is_ok report) invalid_target
    baseline ← env.baseline_map
    for_each recovery_sectors (same_backup_recovery target baseline)
    enabled ← lift (from_codec (validate_directory (target 0) (baseline 0)))
    check (expected_or options.expected_digest (hash (digest_input target programmable_sectors)))
        target_changed
    pure baseline

  -- `load` is `load_backup` at the path.
  unfoldable pub restore_backup :
      Exec W DeviceError Images → (List ℕ → String) → Options W → Exec W DeviceError String
  restore_backup load hash options = do
    manifest ← open_transaction options
    target ← load
    baseline ← check_backup hash target options
    current ← read_all env manifest
    validate_recovery_images env current
    ensure_safe_profile env manifest
    backup ← create_backup env "pre-restore" manifest
    write_all manifest (baseline 0) target options
    reconcile_final manifest target programmable_sectors options
    pure backup
