-- ===== src/Examples/Device.antt =====
-- The device functions on a device in memory.
use g502x_onboard.Base.{
  ℕ, String, ◌==◌, if◌then◌else◌, Option, none, some, ◌≡◌, refl, Bool, true, false, List, [], ◌∷◌,
  replicate, get_or, bytes_eq,
}
use g502x_onboard.Base.Results.{Result, ok, err}
use g502x_onboard.Base.Exec.{Exec}
use g502x_onboard.Device.{Images, DeviceError}
use g502x_onboard.Device.Write.{fresh_write_sector}
use g502x_onboard.Device.Page.{write_sector, read_sector}
use g502x_onboard.Device.Transfer.{Options, restore_baseline}
use g502x_onboard.Examples.Codec.{one_and_two}
use g502x_onboard.Examples.Simulator.{World, simulator, manifest, memory, fit}

abbrev blank : Images
blank sector = []

abbrev device_start : World
device_start = record { pages = replicate 16 []; open_page = 0; buffer = []; profile = 1 }

abbrev pub page_of_ones : List ℕ
page_of_ones = replicate 255 1

abbrev returned : {A : Type 0} → Result DeviceError A × World → Bool
returned (ok a, w) = true
returned (err e, w) = false

abbrev holds : {A : Type 0} → ℕ → List ℕ → Result DeviceError A × World → Bool
holds sector bytes (r, w) = bytes_eq (memory w sector) bytes

read_runs : returned (read_sector (simulator blank) 9 device_start) ≡ true
unfolding read_sector g502x_onboard.Base.Exec.◌>>=◌ g502x_onboard.Base.Exec.check
    g502x_onboard.Device.Page.read_page g502x_onboard.Device.Page.read_loop
    g502x_onboard.Device.Page.read_chunk g502x_onboard.Device.Page.chunk_of
read_runs = refl

write_runs : returned (write_sector (simulator blank) 9 page_of_ones device_start) ≡ true
unfolding write_sector g502x_onboard.Base.Exec.◌>>=◌ g502x_onboard.Base.Exec.check
    g502x_onboard.Base.Exec.for_each g502x_onboard.Device.Page.steps_of_16
    g502x_onboard.Device.Page.write_chunk read_sector g502x_onboard.Device.Page.read_page
    g502x_onboard.Device.Page.read_loop g502x_onboard.Device.Page.read_chunk
    g502x_onboard.Device.Page.chunk_of g502x_onboard.Device.Page.padded_chunk
    g502x_onboard.Device.Page.splice
write_runs = refl

fresh_runs :
    returned (fresh_write_sector (simulator blank) manifest 9 page_of_ones device_start) ≡ true
unfolding fresh_write_sector g502x_onboard.Base.Exec.◌>>=◌ g502x_onboard.Base.Exec.check
    g502x_onboard.Device.Write.fresh_write_loop g502x_onboard.Device.Port.require_ghub_closed
    g502x_onboard.Device.Port.with_unit g502x_onboard.Device.Port.connect_manifest_unit
    g502x_onboard.Device.Port.close_on_error g502x_onboard.Device.Port.close_after
    g502x_onboard.Device.Port.assert_connection_matches_manifest
    g502x_onboard.Device.Port.get_descriptor g502x_onboard.Device.Port.descriptor_of
    g502x_onboard.Device.Port.assert_expected_device g502x_onboard.Identity.compatibility_class
    g502x_onboard.Identity.parse_descriptor g502x_onboard.Device.Port.get_device_information
    g502x_onboard.Base.Exec.attempt g502x_onboard.Base.Exec.for_each g502x_onboard.Base.Exec.lift
    g502x_onboard.Base.Exec.pure g502x_onboard.Base.Exec.raise g502x_onboard.Base.Exec.try_finally
    g502x_onboard.Device.Page.chunk_of g502x_onboard.Device.Page.padded_chunk
    g502x_onboard.Device.Page.read_chunk g502x_onboard.Device.Page.read_loop
    g502x_onboard.Device.Page.read_page read_sector g502x_onboard.Device.Page.splice
    g502x_onboard.Device.Page.steps_of_16 g502x_onboard.Device.Page.write_chunk write_sector
    g502x_onboard.Device.Port.decode_ascii g502x_onboard.Device.Port.firmware_row
    g502x_onboard.Device.Port.firmware_rows g502x_onboard.Device.Port.hex
    g502x_onboard.Device.Port.information_after g502x_onboard.Device.Write.after_attempt
    g502x_onboard.Device.Write.after_write g502x_onboard.Device.Write.reconcile
    g502x_onboard.Device.Write.try_write g502x_onboard.Device.Write.write_attempt
    g502x_onboard.Identity.all_are g502x_onboard.Identity.any_firmware
    g502x_onboard.Identity.apply_identity_policy g502x_onboard.Identity.fingerprint
    g502x_onboard.Identity.firmware_matches g502x_onboard.Identity.has_model
    g502x_onboard.Identity.manifest_fingerprint_matches g502x_onboard.Identity.upper
    g502x_onboard.Identity.validated_device_target g502x_onboard.Text.is_space
    g502x_onboard.Text.strip g502x_onboard.Text.strip_left
fresh_runs = refl

-- A baseline: a directory of profiles 1 and 2, and empty pages.
abbrev pub stored : Images
stored sector = if sector == 0 then one_and_two else fit []

-- A device of which sector 2 differs from the baseline.
abbrev changed : World
changed = record {
  pages = one_and_two ∷ [] ∷ page_of_ones ∷ replicate 13 [];
  open_page = 0;
  buffer = [];
  profile = 1;
}

abbrev pub no_options : Options World
no_options = record {
  expected_fingerprint = some "unit";
  expected_digest = none;
  before_first_write = λ w. (ok tt, w);
  before_final_reconcile = λ w. (ok tt, w);
}

restore_runs :
    returned (restore_baseline (simulator stored) (λ bytes. "digest") no_options changed) ≡ true
unfolding restore_baseline g502x_onboard.Base.Exec.◌>>=◌
    g502x_onboard.Device.Transfer.open_transaction g502x_onboard.Device.Port.require_ghub_closed
    g502x_onboard.Base.Exec.check g502x_onboard.Device.Write.assert_active_device_matches_baseline
    g502x_onboard.Device.Port.with_unit g502x_onboard.Device.Port.connect_manifest_unit
    g502x_onboard.Device.Port.close_on_error g502x_onboard.Device.Port.close_after
    g502x_onboard.Device.Port.assert_connection_matches_manifest
    g502x_onboard.Device.Port.get_descriptor g502x_onboard.Device.Port.descriptor_of
    g502x_onboard.Device.Port.assert_expected_device g502x_onboard.Identity.compatibility_class
    g502x_onboard.Identity.parse_descriptor g502x_onboard.Device.Port.get_device_information
    g502x_onboard.Base.Exec.attempt g502x_onboard.Device.Port.information_after
    g502x_onboard.Device.Port.firmware_rows g502x_onboard.Identity.apply_identity_policy
    g502x_onboard.Identity.upper g502x_onboard.Text.strip g502x_onboard.Text.strip_left
    g502x_onboard.Device.Port.hex g502x_onboard.Text.is_space g502x_onboard.Identity.all_are
    g502x_onboard.Identity.validated_device_target g502x_onboard.Identity.has_model
    g502x_onboard.Identity.any_firmware g502x_onboard.Identity.firmware_matches
    g502x_onboard.Device.Port.firmware_row g502x_onboard.Device.Port.decode_ascii
    g502x_onboard.Base.Exec.collect g502x_onboard.Base.Exec.for_each g502x_onboard.Base.Exec.lift
    g502x_onboard.Base.Exec.pure g502x_onboard.Base.Exec.raise g502x_onboard.Base.Exec.try_finally
    g502x_onboard.Device.Page.chunk_of g502x_onboard.Device.Page.padded_chunk
    g502x_onboard.Device.Page.read_all g502x_onboard.Device.Page.read_chunk
    g502x_onboard.Device.Page.read_loop g502x_onboard.Device.Page.read_page read_sector
    g502x_onboard.Device.Page.read_sectors g502x_onboard.Device.Page.splice
    g502x_onboard.Device.Page.steps_of_16 g502x_onboard.Device.Page.write_chunk write_sector
    g502x_onboard.Device.Port.get_current_profile g502x_onboard.Device.Port.switch_profile
    g502x_onboard.Device.Transfer.digest_input g502x_onboard.Device.Transfer.reconcile_final
    g502x_onboard.Device.Transfer.same_final g502x_onboard.Device.Transfer.write_all
    g502x_onboard.Device.Transfer.write_contents g502x_onboard.Device.Transfer.write_step
    g502x_onboard.Device.Write.after_attempt g502x_onboard.Device.Write.after_write
    g502x_onboard.Device.Write.capture g502x_onboard.Device.Write.create_backup
    g502x_onboard.Device.Write.ensure_safe_profile g502x_onboard.Device.Write.fresh_write_loop
    fresh_write_sector g502x_onboard.Device.Write.reconcile
    g502x_onboard.Device.Write.require_safe_profile g502x_onboard.Device.Write.same_recovery
    g502x_onboard.Device.Write.try_write g502x_onboard.Device.Write.validate_recovery_fresh
    g502x_onboard.Device.Write.validate_recovery_images g502x_onboard.Device.Write.write_attempt
    g502x_onboard.Directory.build_directory g502x_onboard.Directory.collect_enabled
    g502x_onboard.Directory.enable_flag g502x_onboard.Directory.is_empty
    g502x_onboard.Directory.is_subset g502x_onboard.Directory.must_be_enabled
    g502x_onboard.Directory.store_byte g502x_onboard.Directory.unexpected
    g502x_onboard.Directory.validate_directory g502x_onboard.Directory.write_flags
    g502x_onboard.Identity.fingerprint g502x_onboard.Identity.manifest_fingerprint_matches
    g502x_onboard.Sector.crc16_ccitt g502x_onboard.Sector.crc_bit g502x_onboard.Sector.crc_bits
    g502x_onboard.Sector.crc_from g502x_onboard.Sector.sector_crc_ok g502x_onboard.Sector.with_crc
restore_runs = refl
