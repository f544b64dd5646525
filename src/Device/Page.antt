-- ===== src/Device/Page.antt =====
-- g502x_onboard/device.py, `read_page` to `read_all`: pages over the port, 16 bytes at a time.
use g502x_onboard.Base.{
  ℕ, zero, suc, ◌+◌, ◌-◌, not, ◌&&◌, Option, none, some, List, [], ◌∷◌, ◌++◌, ◌==◌, if◌then◌else◌,
  ltb, leb, take, drop, get_or, length, replicate, elem, bytes_eq,
}
use g502x_onboard.Base.Results.{Result, ok, err}
use g502x_onboard.Base.Exec.{Exec, pure, lift, ◌>>=◌, ◌>>◌, check, for_each, collect}
use g502x_onboard.Constants.{sector_size, sector_count}
use g502x_onboard.Sector.{pack_be16}
use g502x_onboard.Identity.{Manifest}
use g502x_onboard.Device.{
  Env, Images, DeviceError, invalid_page, invalid_page_size, invalid_sector, read_failed,
  short_chunk, wrong_length, write_start_failed, write_data_failed, readback_failed,
}
use g502x_onboard.Device.Port.{is_none, slice, with_unit}

-- `data[offset:offset + 16] = chunk`, of a chunk of 16 bytes.
unfoldable pub splice : List ℕ → ℕ → List ℕ → List ℕ
splice bytes offset chunk = take offset bytes ++ (chunk ++ drop (offset + length chunk) bytes)

-- `range(0, n, 16)`, by the number of its members.
unfoldable pub steps_of_16 : ℕ → ℕ → List ℕ
steps_of_16 zero offset = []
steps_of_16 (suc n) offset = offset ∷ steps_of_16 n (offset + 16)

-- A chunk of 16 bytes from `offset` on; the last is padded.
unfoldable pub padded_chunk : List ℕ → ℕ → List ℕ
padded_chunk bytes offset =
    let chunk = take 16 (drop offset bytes) in chunk ++ replicate (16 - length chunk) 0xFF

-- `result[4:20]`, which must be 16 bytes.
unfoldable pub chunk_of : ℕ → ℕ → Option (List ℕ) → Result DeviceError (List ℕ)
chunk_of page offset none = err (read_failed page offset)
chunk_of page offset (some bytes) =
    if length (slice 4 20 bytes) == 16 then ok (slice 4 20 bytes) else err (short_chunk page offset)

abbrev pub all_sectors : List ℕ
all_sectors = 0 ∷ 1 ∷ 2 ∷ 3 ∷ 4 ∷ 5 ∷ 6 ∷ 7 ∷ 8 ∷ 9 ∷ 10 ∷ 11 ∷ 12 ∷ 13 ∷ 14 ∷ 15 ∷ []

module _ {W : Type 0} (env : Env W) where
  unfoldable pub read_chunk : ℕ → ℕ → Exec W DeviceError (List ℕ)
  read_chunk page offset = do
    reply ← env.onboard 5 (pack_be16 page ++ pack_be16 offset)
    lift (chunk_of page offset reply)

  -- The loop; the offset goes back where fewer than 16 bytes are left. Fuel that runs out would
  -- leave the rest of the page zero, which `read_page` never lets happen.
  unfoldable pub read_loop : ℕ → ℕ → ℕ → ℕ → List ℕ → List ℕ → Exec W DeviceError (List ℕ)
  read_loop zero page size offset seen bytes = pure bytes
  read_loop (suc fuel) page size offset seen bytes =
      let at = if ltb (size - offset) 16 then size - 16 else offset in
      let again = λ (chunk : List ℕ).
        let read = splice bytes at chunk in
        let more = read_loop fuel page size (at + 16) (at ∷ seen) read in
        if leb size (at + 16) then pure read else more in
      if not (ltb offset size)
      then pure bytes
      else if elem at seen
      then pure bytes
      else read_chunk page at >>= again

  unfoldable pub read_page : ℕ → ℕ → Exec W DeviceError (List ℕ)
  read_page page size = do
    check (leb page 0xFFFF) (invalid_page page)
    check (leb 16 size && leb size sector_size) (invalid_page_size size)
    read_loop size page size 0 [] (replicate size 0)

  unfoldable pub read_sector : ℕ → Exec W DeviceError (List ℕ)
  read_sector sector = do
    check (ltb sector sector_count) (invalid_sector sector)
    read_page sector sector_size

  unfoldable pub write_chunk : ℕ → List ℕ → ℕ → Exec W DeviceError (Unit {0})
  write_chunk sector bytes offset = do
    reply ← env.onboard 7 (padded_chunk bytes offset)
    check (not (is_none reply)) (write_data_failed sector offset)

  unfoldable pub write_sector : ℕ → List ℕ → Exec W DeviceError (List ℕ)
  write_sector sector bytes = do
    check (length bytes == sector_size) (wrong_length sector (length bytes))
    start ← env.onboard 6 (pack_be16 sector ++ (pack_be16 0 ++ pack_be16 sector_size))
    check (not (is_none start)) (write_start_failed sector)
    for_each (steps_of_16 16 0) (write_chunk sector bytes)
    env.onboard 8 []
    readback ← read_sector sector
    check (bytes_eq readback bytes) (readback_failed sector)
    pure readback

  -- The dictionary of the sectors that were read.
  unfoldable pub read_sectors : Exec W DeviceError Images
  read_sectors = do pages ← collect all_sectors read_sector; pure (λ sector. get_or pages sector [])

  -- `read_all(manifest=manifest)`
  unfoldable pub read_all : Manifest → Exec W DeviceError Images
  read_all manifest = with_unit env manifest read_sectors
