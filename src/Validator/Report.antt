-- ===== src/Validator/Report.antt =====
-- g502x_onboard/validator.py, `validate_images`: the report on the images of a device.
use g502x_onboard.Base.{
  ℕ, Bool, true, false, not, Option, none, some, List, [], ◌∷◌, ◌++◌, ◌==◌, if◌then◌else◌, length,
  bytes_eq, replicate,
}
use g502x_onboard.Base.Results.{Result, ok, err, ◌>>=◌}
use g502x_onboard.Constants.{
  sector_size, recovery_sectors, programmable_profiles, addressable_macro_sectors,
}
use g502x_onboard.CodecError.{CodecError, key_error}
use g502x_onboard.Sector.{Health, invalid, raw_no_crc, sector_crc_ok, macro_page_health}
use g502x_onboard.Directory.{validate_directory, is_empty}
use g502x_onboard.Vm.{Pages}
use g502x_onboard.Validator.{
  Finding, Invalid, missing_sectors, wrong_size, recovery_changed, profile_crc, page_size,
  directory_invalid, ValidationReport, Complete, macro_pages, no_errors, check_profiles, problems,
  collect_starts, sort_starts, walk_starts,
}

abbrev pub sectors : List ℕ
sectors = 0 ∷ 1 ∷ 2 ∷ 3 ∷ 4 ∷ 5 ∷ 6 ∷ 7 ∷ 8 ∷ 9 ∷ 10 ∷ 11 ∷ 12 ∷ 13 ∷ 14 ∷ 15 ∷ []

-- The sectors that are not in the dictionary.
unfoldable pub missing : Pages → List ℕ → List ℕ
missing images [] = []
missing images (sector ∷ rest) = elim (images sector) [
  | none ↦ sector ∷ missing images rest
  | some bytes ↦ missing images rest
]

-- `[e(s) for s in sectors if not fits(s)]`
unfoldable pub errors_of : (ℕ → Bool) → (ℕ → Invalid) → List ℕ → List Invalid
errors_of fits e [] = []
errors_of fits e (sector ∷ rest) =
    if fits sector then errors_of fits e rest else e sector ∷ errors_of fits e rest

abbrev pub is_sized : Complete → ℕ → Bool
is_sized images sector = length (images sector) == sector_size

abbrev pub size_errors : Complete → List Invalid
size_errors images =
    errors_of (is_sized images) (λ sector. wrong_size sector (length (images sector))) sectors

abbrev pub bytes_or_empty : Option (List ℕ) → List ℕ
bytes_or_empty none = []
bytes_or_empty (some bytes) = bytes

abbrev pub image_of : Pages → Complete
image_of images sector = bytes_or_empty (images sector)

abbrev pub recovery_errors : Complete → Complete → List Invalid
recovery_errors images baseline =
    errors_of (λ sector. bytes_eq (images sector) (baseline sector)) recovery_changed
      recovery_sectors

abbrev pub crc_errors : Complete → List Invalid
crc_errors images =
    errors_of (λ profile. sector_crc_ok (images profile)) profile_crc programmable_profiles

abbrev pub is_page : Health → Bool
is_page invalid = false
is_page _ = true

abbrev pub page_errors : Complete → List Invalid
page_errors images =
    errors_of (λ sector. is_page (macro_page_health (images sector))) page_size
      addressable_macro_sectors

-- Of a raw page that is not erased.
abbrev pub is_populated_raw : Health → List ℕ → Bool
is_populated_raw raw_no_crc bytes = not (bytes_eq bytes (replicate (length bytes) 0xFF))
is_populated_raw _ bytes = false

unfoldable pub raw_pages : Complete → List ℕ → List ℕ
raw_pages images [] = []
raw_pages images (sector ∷ rest) =
    if is_populated_raw (macro_page_health (images sector)) (images sector)
    then sector ∷ raw_pages images rest
    else raw_pages images rest

-- `report.enabled_profiles`, which stays empty where the directory is refused.
abbrev pub enabled_of : Result CodecError (List ℕ) → List ℕ
enabled_of (ok enabled) = enabled
enabled_of (err e) = []

abbrev pub directory_errors : Result CodecError (List ℕ) → List Invalid
directory_errors (ok enabled) = []
directory_errors (err e) = directory_invalid e ∷ []

abbrev pub failed : List Invalid → ValidationReport
failed errors = record {
  errors = errors;
  warnings = [];
  enabled_profiles = [];
  macro_starts = [];
  macro_chains = [];
}

-- `validate_directory(images[0], baseline[0])`
abbrev pub directory_of : Complete → Option (List ℕ) → Result CodecError (List ℕ)
directory_of images none = err (key_error 0)
directory_of images (some golden) = validate_directory (images 0) golden

-- The report, from the findings on the routes.
unfoldable pub report_of : Complete → Pages → List Finding → ValidationReport
report_of images baseline findings =
    let directory = directory_of images (baseline 0) in
    let starts = sort_starts (collect_starts findings []) in
    let walked = walk_starts (macro_pages images) starts in
    record {
      errors =
          recovery_errors images (image_of baseline)
          ++ (directory_errors directory
              ++ (crc_errors images ++ (page_errors images ++ (problems findings ++ walked.0))));
      warnings = raw_pages images addressable_macro_sectors;
      enabled_profiles = enabled_of directory;
      macro_starts = starts;
      macro_chains = walked.1;
    }

-- `baseline[sector]` of these sectors, which nothing catches.
unfoldable pub read_baseline : Pages → List ℕ → Result CodecError (Unit {0})
read_baseline baseline [] = ok tt
read_baseline baseline (sector ∷ rest) = elim (baseline sector) [
  | none ↦ err (key_error sector)
  | some bytes ↦ read_baseline baseline rest
]

-- What follows the checks of the sizes.
unfoldable pub validate_sized : Complete → Pages → Result CodecError ValidationReport
validate_sized images baseline = read_baseline baseline recovery_sectors >>= λ u.
    check_profiles images (enabled_of (directory_of images (baseline 0))) programmable_profiles
    >>= λ findings. ok (report_of images baseline findings)

unfoldable pub validate_complete : Complete → Pages → Result CodecError ValidationReport
validate_complete images baseline =
    if no_errors (size_errors images)
    then validate_sized images baseline
    else ok (failed (size_errors images))

-- `baseline` is the dictionary that is given, if it has an entry, or else `baseline_map()`.
unfoldable pub validate_images : Pages → Pages → Result CodecError ValidationReport
validate_images images baseline =
    if is_empty (missing images sectors)
    then validate_complete (image_of images) baseline
    else ok (failed (missing_sectors (missing images sectors) ∷ []))
