-- ===== src/Identity.antt =====
-- g502x_onboard/baseline.py, `compatibility_class` to `manifest_fingerprint_matches`, and the parsing of
-- g502x_onboard/device.py `get_descriptor` and `get_device_information`: which device may be written.
pub mod Policy
pub mod Exactly
use g502x_onboard.Base.{
  ℕ, String, ◌+◌, ◌-◌, ◌*◌, ◌/◌, ◌%◌, Bool, true, false, not, ◌&&◌, ◌||◌, Option, none, some, List,
  [], ◌∷◌, ◌++◌, ◌==◌, if◌then◌else◌, ltb, leb, take, drop, get_or, bytes_eq, length, map,
}
use package.text.Mathlib.Text.{◌==◌ as str_eq}
use g502x_onboard.Text.{Text, strip, is_blank}

pub record Descriptor : Type 0 where
  pub memory_model : ℕ
  pub profile_format : ℕ
  pub macro_format : ℕ
  pub profile_count : ℕ
  pub factory_profiles : ℕ
  pub button_count : ℕ
  pub sector_count : ℕ
  pub sector_size : ℕ
  pub mechanical_layout : ℕ

-- `struct.unpack(">BBBBBBBHB", raw[4:14])`
unfoldable pub parse_descriptor : List ℕ → Descriptor
parse_descriptor raw =
    let byte = λ (i : ℕ). get_or raw (4 + i) 0 in
    record {
      memory_model = byte 0;
      profile_format = byte 1;
      macro_format = byte 2;
      profile_count = byte 3;
      factory_profiles = byte 4;
      button_count = byte 5;
      sector_count = byte 6;
      sector_size = byte 7 * 256 + byte 8;
      mechanical_layout = byte 9;
    }

pub record Firmware : Type 0 where
  pub index : ℕ
  pub entity_type : ℕ
  pub prefix : Text
  pub version_raw : Text
  pub active : Bool
  pub transport_pid : Text
  pub extra_version : Text

-- What `get_device_information` collects of a device and the write policy reads.
pub record DeviceInfo : Type 0 where
  pub device_name : Option Text
  pub protocol : Option Text
  pub unit_id : Option Text
  pub model_ids : List Text
  pub firmware : List Firmware

abbrev pub expected_descriptor : Descriptor
expected_descriptor = record {
  memory_model = 1;
  profile_format = 3;
  macro_format = 1;
  profile_count = 5;
  factory_profiles = 2;
  button_count = 11;
  sector_count = 16;
  sector_size = 255;
  mechanical_layout = 10;
}

-- No key is among the mismatches.
abbrev pub same_descriptor : Descriptor → Descriptor → Bool
same_descriptor a b =
    a.memory_model == b.memory_model
    && (a.profile_format == b.profile_format
        && (a.macro_format == b.macro_format
            && (a.profile_count == b.profile_count
                && (a.factory_profiles == b.factory_profiles
                    && (a.button_count == b.button_count
                        && (a.sector_count == b.sector_count
                            && (a.sector_size == b.sector_size
                                && a.mechanical_layout == b.mechanical_layout)))))))

abbrev pub default_pid : ℕ
default_pid = 0xC547

abbrev pub default_index : ℕ
default_index = 1

-- `(pid, index) in TESTED_WRITE_TARGETS`
abbrev pub is_tested_target : ℕ → ℕ → Bool
is_tested_target pid index = pid == 0xC547 && index == 1

pub record Compatibility : Type 0 where
  pub compatible : Bool
  pub tested : Bool
  pub write_allowed : Bool

unfoldable pub compatibility_class : Descriptor → ℕ → ℕ → Compatibility
compatibility_class descriptor pid index =
    let architecture = same_descriptor descriptor expected_descriptor in
    let transport = is_tested_target pid index in
    record {
      compatible = architecture;
      tested = transport;
      write_allowed = architecture && transport;
    }

-- `str.upper` of a letter of ASCII; the texts here are hexadecimal digits.
abbrev pub upper_code : ℕ → ℕ
upper_code c = if leb b'a' c && leb c b'z' then c - 32 else c

unfoldable pub upper : Text → Text
upper text = map upper_code text

abbrev pub text_or_empty : Option Text → Text
text_or_empty none = []
text_or_empty (some text) = text

-- TESTED_DEVICE_TARGET
abbrev pub tested_name : Text
tested_name =
    b'G' ∷ b'5' ∷ b'0' ∷ b'2' ∷ 0x20 ∷ b'X' ∷ 0x20 ∷ b'L' ∷ b'I' ∷ b'G' ∷ b'H' ∷ b'T' ∷ b'S' ∷ b'P'
    ∷ b'E' ∷ b'E' ∷ b'D' ∷ []

abbrev pub tested_model : Text
tested_model = b'4' ∷ b'0' ∷ b'9' ∷ b'F' ∷ []

abbrev pub tested_prefix : Text
tested_prefix = b'M' ∷ b'P' ∷ b'M' ∷ []

abbrev pub tested_version : Text
tested_version = b'3' ∷ b'0' ∷ b'.' ∷ b'0' ∷ b'0' ∷ b'.' ∷ b'B' ∷ b'0' ∷ b'0' ∷ b'1' ∷ b'4' ∷ []

unfoldable pub has_model : Text → List Text → Bool
has_model model [] = false
has_model model (value ∷ values) = bytes_eq model (upper (strip value)) || has_model model values

unfoldable pub firmware_matches : Firmware → Bool
firmware_matches row =
    row.active
    && (bytes_eq row.prefix tested_prefix
        && (bytes_eq row.version_raw tested_version
            && bytes_eq (upper row.transport_pid) tested_model))

unfoldable pub any_firmware : List Firmware → Bool
any_firmware [] = false
any_firmware (row ∷ rows) = firmware_matches row || any_firmware rows

-- The three returns, of which the last alone is "tested".
unfoldable pub validated_device_target : DeviceInfo → Bool
validated_device_target info =
    if not (bytes_eq (strip (text_or_empty info.device_name)) tested_name)
    then false
    else if not (has_model tested_model info.model_ids)
    then false
    else any_firmware info.firmware

-- `set(text) == {c}`
unfoldable pub all_are : ℕ → Text → Bool
all_are c [] = true
all_are c (x ∷ text) = x == c && all_are c text

abbrev pub strong_id : Text → Bool
strong_id unit_id = not (is_blank unit_id) && not (all_are b'0' unit_id || all_are b'F' unit_id)

unfoldable pub apply_identity_policy : Compatibility → DeviceInfo → Compatibility
apply_identity_policy compatibility info =
    let unit_id = upper (strip (text_or_empty info.unit_id)) in
    record compatibility {
      write_allowed =
          compatibility.write_allowed && (strong_id unit_id && validated_device_target info);
    }

-- The part of the manifest of a baseline that is read here; a pid or an index that is missing is
-- the default, a missing permission is a refusal.
pub record Manifest : Type 0 where
  pub pid : ℕ
  pub index : ℕ
  pub write_allowed : Bool
  pub fingerprint : String

-- The dictionary of which `fingerprint` hashes the JSON text.
pub record UnitIdentity : Type 0 where
  pub pid : ℕ
  pub index : ℕ
  pub descriptor : Descriptor
  pub info : DeviceInfo

-- `json.dumps`, SHA-256 and the first 24 digits are the parameter `digest`.
unfoldable pub fingerprint : (UnitIdentity → String) → Descriptor → DeviceInfo → ℕ → ℕ → String
fingerprint digest descriptor info pid index =
    digest record { pid = pid; index = index; descriptor = descriptor; info = info }

unfoldable pub manifest_fingerprint_matches :
    (UnitIdentity → String) → Manifest → Descriptor → DeviceInfo → Bool
manifest_fingerprint_matches digest manifest descriptor info =
    str_eq (fingerprint digest descriptor info manifest.pid manifest.index) manifest.fingerprint
