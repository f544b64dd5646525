-- ===== src/Device/Write.antt =====
-- g502x_onboard/device.py, `assert_active_device_matches_baseline` to `_validate_recovery_fresh`: the
-- guards of a transaction and the write of one sector. Waiting and printing are left out.
use g502x_onboard.Base.{
  ℕ, String, zero, suc, not, Option, none, some, List, if◌then◌else◌, ltb, elem, bytes_eq,
}
use g502x_onboard.Base.Results.{Result, ok, err}
use g502x_onboard.Base.Exec.{Exec, pure, raise, lift, ◌>>=◌, ◌>>◌, check, for_each, attempt}
use g502x_onboard.Constants.{safe_profile, recovery_sectors, programmable_sectors}
use g502x_onboard.CodecError.{CodecError}
use g502x_onboard.Directory.{validate_directory}
use g502x_onboard.Identity.{Manifest}
use g502x_onboard.Device.{
  Env, Images, DeviceError, is_runtime_error, writes_not_allowed, recovery_differs,
  refused_recovery, outside_managed, safe_profile_inactive, remained_unchanged, indeterminate,
  codec_error,
}
use g502x_onboard.Device.Port.{
  with_unit, require_ghub_closed, get_current_profile, switch_profile, is_profile, get_descriptor,
}
use g502x_onboard.Device.Page.{read_sector, write_sector, read_sectors, read_all}

-- An exception of g502x_onboard/codec.py that is not caught.
abbrev pub from_codec : {A : Type 0} → Result CodecError A → Result DeviceError A
from_codec (ok a) = ok a
from_codec (err e) = err (codec_error e)

-- None where the sector is written, and what it held before where a RuntimeError is caught.
unfoldable pub after_write :
    {W : Type 0} → List ℕ → Result DeviceError (List ℕ) → Exec W DeviceError (Option (List ℕ))
after_write before (ok readback) = pure none
after_write before (err e) = if is_runtime_error e then pure (some before) else raise e

module _ {W : Type 0} (env : Env W) where
  unfoldable pub assert_active_device_matches_baseline : Exec W DeviceError Manifest
  assert_active_device_matches_baseline = do
    env.require_baseline
    manifest ← env.active_manifest
    check manifest.write_allowed writes_not_allowed
    with_unit env manifest (pure tt)
    pure manifest

  unfoldable pub same_recovery : Images → Images → ℕ → Exec W DeviceError (Unit {0})
  same_recovery images baseline sector =
      check (bytes_eq (images sector) (baseline sector)) (recovery_differs sector)

  unfoldable pub validate_recovery_images : Images → Exec W DeviceError (Unit {0})
  validate_recovery_images images = do
    baseline ← env.baseline_map
    for_each recovery_sectors (same_recovery images baseline)
    enabled ← lift (from_codec (validate_directory (images 0) (baseline 0)))
    pure tt

  unfoldable pub ensure_safe_profile : Manifest → Exec W DeviceError (Unit {0})
  ensure_safe_profile manifest = do
    require_ghub_closed env
    with_unit env manifest do
      current ← get_current_profile env
      if is_profile env current safe_profile
          then pure tt
          else (require_ghub_closed env >> switch_profile env safe_profile)
      after ← get_current_profile env
      check (is_profile env after safe_profile) safe_profile_inactive

  unfoldable pub capture : Exec W DeviceError (Option ℕ × Images)
  capture = do
    descriptor ← get_descriptor env
    active ← get_current_profile env
    images ← read_sectors env
    pure (active, images)

  unfoldable pub create_backup : String → Manifest → Exec W DeviceError String
  create_backup label manifest = do
    env.require_baseline
    captured ← with_unit env manifest capture
    env.save_checkpoint label captured.0 captured.1

  -- The write of a sector that held `before`.
  unfoldable pub try_write : ℕ → List ℕ → List ℕ → Exec W DeviceError (Option (List ℕ))
  try_write sector target before = do
    require_ghub_closed env
    written ← attempt (write_sector env sector target)
    after_write before written

  -- One connection of `fresh_write_sector`.
  unfoldable pub write_attempt : ℕ → List ℕ → Exec W DeviceError (Option (List ℕ))
  write_attempt sector target = do
    before ← read_sector env sector
    (if bytes_eq before target then pure none else try_write sector target before)

  -- What a fresh reading says after a failure; `again` is the next round, if one is left.
  unfoldable pub reconcile :
      Option (Exec W DeviceError (Unit {0}))
      → ℕ
      → List ℕ
      → List ℕ
      → List ℕ
      → Exec W DeviceError (Unit {0})
  reconcile again sector target before observed =
      if bytes_eq observed target
      then pure tt
      else if bytes_eq observed before
      then elim again [ none ↦ raise (remained_unchanged sector) | some next ↦ next ]
      else raise (indeterminate sector)

  unfoldable pub after_attempt :
      Option (Exec W DeviceError (Unit {0}))
      → ℕ
      → List ℕ
      → Manifest
      → Option (List ℕ)
      → Exec W DeviceError (Unit {0})
  after_attempt again sector target manifest none = pure tt
  after_attempt again sector target manifest (some before) = do
    observed ← with_unit env manifest (read_sector env sector)
    reconcile again sector target before observed

  -- The rounds that are left of the loop; none left is the end of `range(1, attempts + 1)`.
  unfoldable pub fresh_write_loop : ℕ → ℕ → List ℕ → Manifest → Exec W DeviceError (Unit {0})
  fresh_write_loop zero sector target manifest = pure tt
  fresh_write_loop (suc left) sector target manifest = do
    let next = fresh_write_loop left sector target manifest
    require_ghub_closed env
    failed ← with_unit env manifest (write_attempt sector target)
    after_attempt (if ltb 0 left then some next else none) sector target manifest failed

  unfoldable pub fresh_write_sector : Manifest → ℕ → List ℕ → Exec W DeviceError (Unit {0})
  fresh_write_sector manifest sector target = do
    check (not (elem sector recovery_sectors)) (refused_recovery sector)
    check (elem sector programmable_sectors) (outside_managed sector)
    check manifest.write_allowed writes_not_allowed
    fresh_write_loop 3 sector target manifest

  unfoldable pub require_safe_profile : Exec W DeviceError (Unit {0})
  require_safe_profile = do
    current ← get_current_profile env
    check (is_profile env current safe_profile) safe_profile_inactive

  -- `_validate_recovery_fresh`
  unfoldable pub validate_recovery_fresh : Manifest → Exec W DeviceError (Unit {0})
  validate_recovery_fresh manifest = do
    images ← read_all env manifest
    validate_recovery_images images
    with_unit env manifest require_safe_profile
