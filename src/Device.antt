-- ===== src/Device.antt =====
-- g502x_onboard/device.py: what the device functions act on. The world `W` holds the device, the
-- processes of the host and the files; the HID++ library and the input and output of
-- g502x_onboard/baseline.py, storage.py, private_io.py and host_guard.py are the fields of `Env`. At most
-- one connection is open at a time, and the calls go to it.
pub mod Port
pub mod Page
pub mod Write
pub mod Transfer
pub mod Stable
pub mod Safety
pub mod Confined
pub mod Staged
pub mod Memory
pub mod Success
pub mod Written
pub mod Restored
pub mod Connection
use g502x_onboard.Base.{ℕ, String, Bool, true, false, Option, List}
use g502x_onboard.Base.Exec.{Exec}
use g502x_onboard.CodecError.{CodecError}
use g502x_onboard.Text.{Text}
use g502x_onboard.Identity.{Manifest, UnitIdentity}

pub data DeviceError : Type 0 where
  -- RuntimeError.
  no_descriptor wrong_descriptor target_read_only fingerprint_changed : DeviceError
  read_failed short_chunk : (page offset : ℕ) → DeviceError
  write_start_failed readback_failed : (sector : ℕ) → DeviceError
  write_data_failed : (sector offset : ℕ) → DeviceError
  switch_not_confirmed : (profile : ℕ) → DeviceError
  writers_running : List String → DeviceError
  recovery_differs refused_recovery outside_managed : (sector : ℕ) → DeviceError
  writes_not_allowed safe_profile_inactive baseline_mismatch target_changed : DeviceError
  remained_unchanged indeterminate : (sector : ℕ) → DeviceError
  final_differs : (sector : ℕ) → DeviceError
  invalid_target : DeviceError
  backup_recovery_differs : (sector : ℕ) → DeviceError
  -- ValueError.
  invalid_page invalid_page_size invalid_sector : ℕ → DeviceError
  wrong_length : (sector length : ℕ) → DeviceError
  codec_error : CodecError → DeviceError
  -- Any other exception of the library or of the operating system.
  other_exception : DeviceError

-- `except RuntimeError`
abbrev pub is_runtime_error : DeviceError → Bool
is_runtime_error (invalid_page n) = false
is_runtime_error (invalid_page_size n) = false
is_runtime_error (invalid_sector n) = false
is_runtime_error (wrong_length s n) = false
is_runtime_error (codec_error e) = false
is_runtime_error other_exception = false
is_runtime_error _ = true

-- An image of each sector.
abbrev pub Images : Type 0
Images = ℕ → List ℕ

pub record Env (W : Type 0) : Type 0 where
  -- `connect(pid, index)` and `dev.close()`.
  pub connect : ℕ → ℕ → Exec W DeviceError (Unit {0})
  pub close : W → W
  -- `dev.call_feature(Feature.onboard_profile, function, arguments)`.
  pub onboard : ℕ → List ℕ → Exec W DeviceError (Option (List ℕ))
  -- `dev.call_feature(0x0003, function, arguments)`, `dev.get_device_name()` and `dev.protocol()`.
  pub information : ℕ → List ℕ → Exec W DeviceError (Option (List ℕ))
  pub device_name : Exec W DeviceError (Option Text)
  pub protocol : Exec W DeviceError (Option Text)
  -- `conflicting_logitech_writer_processes()`.
  pub conflicting_writers : Exec W DeviceError (List String)
  pub require_baseline : Exec W DeviceError (Unit {0})
  pub active_manifest : Exec W DeviceError Manifest
  pub baseline_map : Exec W DeviceError Images
  -- The files of `create_backup`, from a label, the active profile and the images; their path.
  pub save_checkpoint : String → Option ℕ → Images → Exec W DeviceError String
  -- The hash of an identity.
  pub digest : UnitIdentity → String
