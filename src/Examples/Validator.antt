-- ===== src/Examples/Validator.antt =====
-- The report of g502x_onboard/validator.py and the write policy of baseline.py, at concrete inputs.
use g502x_onboard.Base.{
  ◌↔◌, ℕ, ◌≡◌, refl, true, none, some, List, [], ◌∷◌, ◌++◌, ◌==◌, if◌then◌else◌, elem, replicate,
}
use package.text.Mathlib.Text.{◌==◌ as str_eq}
use g502x_onboard.Base.Results.{ok}
use g502x_onboard.Base.Exec.Yields.{Yields}
use g502x_onboard.Sector.{pack_be16, crc16_ccitt}
use g502x_onboard.Vm.{Pages}
use g502x_onboard.Profile.{normal, g1}
use g502x_onboard.Identity.{
  apply_identity_policy, compatibility_class, Descriptor, Firmware, DeviceInfo, expected_descriptor,
  tested_name, tested_model, tested_prefix, tested_version, fingerprint,
}
use g502x_onboard.Identity.Policy.{IsTestedDevice}
use g502x_onboard.Identity.Exactly.{apply_identity_policy_iff}
use g502x_onboard.Device.Port.{assert_connection_matches_manifest}
use g502x_onboard.Device.Connection.{assert_connection-tested}
use g502x_onboard.Constants.{recovery_sectors}
use g502x_onboard.Validator.{Complete, ValidationReport}
use g502x_onboard.Validator.Report.{validate_images, image_of}
use g502x_onboard.Validator.Total.{validate_images-Returns}
use g502x_onboard.Examples.Codec.{one_and_two}
use g502x_onboard.Examples.Simulator.{simulator, manifest}
use g502x_onboard.Examples.Device.{stored}

-- A profile of which G1 runs the macro at the start of sector 8.
abbrev profile_body : List ℕ
profile_body = 1 ∷ 0 ∷ 0 ∷ (replicate 29 0xFF ++ (0 ∷ 8 ∷ 0 ∷ 0 ∷ replicate 217 0xFF))

abbrev profile_page : List ℕ
profile_page = profile_body ++ pack_be16 (crc16_ccitt profile_body)

-- Waits for the release and ends.
abbrev macro_page : List ℕ
macro_page = 1 ∷ replicate 254 0xFF

abbrev pub some_state : Complete
some_state sector =
    if sector == 0
    then one_and_two
    else if elem sector (2 ∷ 3 ∷ 4 ∷ 5 ∷ [])
    then profile_page
    else if sector == 8
    then macro_page
    else replicate 255 0xFF

abbrev state_pages : Pages
state_pages sector = some (some_state sector)

abbrev state_report : ValidationReport
state_report = record {
  errors = [];
  warnings = 8 ∷ [];
  enabled_profiles = 1 ∷ 2 ∷ [];
  macro_starts = ((8, 0), record { profile = 2; layer = normal; button = g1 } ∷ []) ∷ [];
  macro_chains =
      (
        (8, 0),
        record { sector = 8; offset = 0; opcode = 1; size = 1; jump_target = none }
            ∷ record { sector = 8; offset = 1; opcode = 0xFF; size = 1; jump_target = none }
            ∷ [],
      )
      ∷ [];
}

-- Every sector is there and erased, against a baseline of the recovery sectors alone.
abbrev recovery_only : Pages
recovery_only sector = if elem sector recovery_sectors then some (replicate 255 0xFF) else none

validate_images-Returns_example :
    (report : ValidationReport) × (validate_images
        (λ sector. some (replicate 255 0xFF))
        recovery_only
      ≡ ok report)
validate_images-Returns_example =
    validate_images-Returns (λ sector. some (replicate 255 0xFF)) recovery_only
      ((_, refl), ((_, refl), ((_, refl), tt)))

abbrev tested_row : Firmware
tested_row = record {
  index = 0;
  entity_type = 0;
  prefix = tested_prefix;
  version_raw = tested_version;
  active = true;
  transport_pid = tested_model;
  extra_version = [];
}

abbrev tested_info : DeviceInfo
tested_info = record {
  device_name = some tested_name;
  protocol = none;
  unit_id = some (b'1' ∷ b'2' ∷ b'A' ∷ []);
  model_ids = tested_model ∷ [];
  firmware = tested_row ∷ [];
}

apply_identity_policy_iff_example :
    ((apply_identity_policy
        (compatibility_class expected_descriptor 0xC547 1)
        tested_info).write_allowed
      ≡ true)
    ↔ IsTestedDevice expected_descriptor 0xC547 1 tested_info
apply_identity_policy_iff_example =
    apply_identity_policy_iff expected_descriptor 0xC547 1 tested_info

assert_connection-tested_example :
    Yields
      (λ w. Unit {0})
      (assert_connection_matches_manifest (simulator stored) manifest)
      (λ (found : Descriptor × DeviceInfo) w.
        IsTestedDevice found.0 0xC547 1 found.1
        × (str_eq (fingerprint (λ identity. "unit") found.0 found.1 0xC547 1) "unit" ≡ true))
assert_connection-tested_example = assert_connection-tested (simulator stored) manifest
