-- ===== src/Directory.antt =====
-- g502x_onboard/codec.py, `validate_directory` and `build_directory`: the profile directory in sector 0.
pub mod Laws
pub mod Build
use g502x_onboard.Base.{
  ℕ, zero, suc, ◌+◌, ◌-◌, Bool, true, false, not, ◌&&◌, ◌||◌, List, [], ◌∷◌, ◌==◌, if◌then◌else◌,
  ltb, elem, length, set, get_or,
}
use g502x_onboard.Base.Results.{Result, ok, err, ◌>>=◌, ◌>>◌, require}
use g502x_onboard.Constants.{sector_size, profile_directory_enable_offsets}
use g502x_onboard.CodecError.{
  CodecError, index_error, sector0_invalid_size, sector0_crc_invalid, sector0_changed,
  must_remain_enabled, flag_invalid, invalid_profile_set,
}
use g502x_onboard.Sector.{with_crc, sector_crc_ok}

-- The set `allowed`: the flags of profiles 3, 4 and 5, and the checksum.
abbrev pub allowed : List ℕ
allowed =
    profile_directory_enable_offsets 3
    ∷ profile_directory_enable_offsets 4
    ∷ profile_directory_enable_offsets 5
    ∷ (sector_size - 2)
    ∷ (sector_size - 1)
    ∷ []

-- The list `unexpected`, from index i on; `zip` stops at the shorter string.
unfoldable pub unexpected : ℕ → List ℕ → List ℕ → List ℕ
unexpected i [] after = []
unexpected i (b ∷ before) [] = []
unexpected i (b ∷ before) (a ∷ after) =
    let rest = unexpected (suc i) before after in
    if not (b == a) && not (elem i allowed) then i ∷ rest else rest

unfoldable pub is_empty : List ℕ → Bool
is_empty [] = true
is_empty (x ∷ xs) = false

-- `data[PROFILE_DIRECTORY_ENABLE_OFFSETS[profile]]`, of a page of 255 bytes.
abbrev pub flag : List ℕ → ℕ → ℕ
flag bytes profile = get_or bytes (profile_directory_enable_offsets profile) 0

unfoldable pub must_be_enabled : List ℕ → List ℕ → Result CodecError (Unit {0})
must_be_enabled bytes [] = ok tt
must_be_enabled bytes (profile ∷ rest) =
    if flag bytes profile == 0x01
    then must_be_enabled bytes rest
    else err (must_remain_enabled profile)

-- The loop over the profiles: their flags are 0 or 1, and those that are 1 are collected.
unfoldable pub collect_enabled : List ℕ → List ℕ → Result CodecError (List ℕ)
collect_enabled bytes [] = ok []
collect_enabled bytes (profile ∷ rest) =
    let value = flag bytes profile in
    let later = collect_enabled bytes rest in
    if not (elem value (0 ∷ 1 ∷ []))
    then err (flag_invalid profile)
    else later >>= λ enabled. ok (if value == 1 then profile ∷ enabled else enabled)

unfoldable pub validate_directory : List ℕ → List ℕ → Result CodecError (List ℕ)
validate_directory bytes golden = do
  require (length bytes == sector_size) sector0_invalid_size
  require (sector_crc_ok bytes) sector0_crc_invalid
  require (is_empty (unexpected 0 golden bytes)) (sector0_changed (unexpected 0 golden bytes))
  must_be_enabled bytes (1 ∷ 2 ∷ [])
  collect_enabled bytes (1 ∷ 2 ∷ 3 ∷ 4 ∷ 5 ∷ [])

-- `out[i] = v` on a bytearray.
unfoldable pub store_byte : List ℕ → ℕ → ℕ → Result CodecError (List ℕ)
store_byte bytes i v = if ltb i (length bytes) then ok (set bytes i v) else err index_error

unfoldable pub is_subset : List ℕ → List ℕ → Bool
is_subset [] ys = true
is_subset (x ∷ xs) ys = elem x ys && is_subset xs ys

unfoldable pub enable_flag : ℕ → List ℕ → ℕ
enable_flag profile enabled = if elem profile enabled then 1 else 0

-- The loop over profiles 3, 4 and 5.
unfoldable pub write_flags : List ℕ → List ℕ → List ℕ → Result CodecError (List ℕ)
write_flags out enabled [] = ok out
write_flags out enabled (profile ∷ rest) =
    store_byte out (profile_directory_enable_offsets profile) (enable_flag profile enabled)
    >>= λ out'. write_flags out' enabled rest

-- A set of profiles is a list of them.
unfoldable pub build_directory : List ℕ → List ℕ → Result CodecError (List ℕ)
build_directory golden enabled_profiles = do
  require (is_subset enabled_profiles (1 ∷ 2 ∷ 3 ∷ 4 ∷ 5 ∷ [])) invalid_profile_set
  let enabled = 1 ∷ 2 ∷ enabled_profiles
  out ← write_flags golden enabled (3 ∷ 4 ∷ 5 ∷ [])
  page ← with_crc out
  validate_directory page golden >>= λ _. ok page
