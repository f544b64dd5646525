-- ===== src/Sector.antt =====
-- g502x_onboard/codec.py, `crc16_ccitt` to `macro_payload_limit`: the checksum of a 255-byte page and
-- the classification of pages. A byte string is a list of numbers; `x << 1` is `x * 2` and
-- `x & 0xFFFF` is `x % 0x10000`.
pub mod Crc
pub mod Detect
pub mod Classify
use g502x_onboard.Base.{
  ℕ, zero, suc, ◌+◌, ◌-◌, ◌*◌, ◌/◌, ◌%◌, bit_and, bit_xor, Bool, true, false, not, ◌&&◌, List, [],
  ◌∷◌, ◌++◌, ◌==◌, if◌then◌else◌, length, take, drop, replicate, get_or, bytes_eq,
}
use g502x_onboard.Base.Results.{Result, ok, err}
use g502x_onboard.Constants.{sector_size, page_data_size}
use g502x_onboard.CodecError.{CodecError, sector_length, macro_page_invalid_size}

-- One round of the inner loop of `crc16_ccitt`.
unfoldable pub crc_bit : ℕ → ℕ
crc_bit crc =
    if not (bit_and crc 0x8000 == 0) then bit_xor (crc * 2) 0x1021 % 0x10000 else crc * 2 % 0x10000

unfoldable pub crc_bits : ℕ → ℕ → ℕ
unfolding crc_bit
crc_bits zero crc = crc
crc_bits (suc n) crc = crc_bits n (crc_bit crc)

unfoldable pub crc_from : List ℕ → ℕ → ℕ
unfolding crc_bits
crc_from [] crc = crc
crc_from (byte ∷ bytes) crc = crc_from bytes (crc_bits 8 (bit_xor crc (byte * 256)))

unfoldable pub crc16_ccitt : List ℕ → ℕ
unfolding crc_from
crc16_ccitt bytes = crc_from bytes 0xFFFF

-- `struct.pack(">H", n)` and `struct.unpack(">H", two)[0]`.
abbrev pub pack_be16 : ℕ → List ℕ
pack_be16 n = n / 256 ∷ n % 256 ∷ []

abbrev pub unpack_be16 : List ℕ → ℕ
unpack_be16 two = get_or two 0 0 * 256 + get_or two 1 0

-- `data[:-2]` and `data[-2:]` of at least two bytes.
abbrev pub payload : List ℕ → List ℕ
payload bytes = take (length bytes - 2) bytes

abbrev pub trailer : List ℕ → List ℕ
trailer bytes = drop (length bytes - 2) bytes

unfoldable pub with_crc : List ℕ → Result CodecError (List ℕ)
with_crc bytes =
    if length bytes == sector_size
    then ok (payload bytes ++ pack_be16 (crc16_ccitt (payload bytes)))
    else err sector_length

unfoldable pub sector_crc_ok : List ℕ → Bool
sector_crc_ok bytes =
    if length bytes == sector_size
    then unpack_be16 (trailer bytes) == crc16_ccitt (payload bytes)
    else false

unfoldable pub sector_erased : List ℕ → Bool
sector_erased bytes = length bytes == sector_size && bytes_eq bytes (replicate sector_size 0xFF)

-- The strings that `sector_health` and `macro_page_health` return.
pub data Health : Type 0 where
  invalid erased crc_valid raw_no_crc : Health

unfoldable pub sector_health : List ℕ → Health
sector_health bytes =
    if not (length bytes == sector_size)
    then invalid
    else if sector_erased bytes
    then erased
    else if sector_crc_ok bytes
    then crc_valid
    else invalid

unfoldable pub macro_page_health : List ℕ → Health
macro_page_health bytes =
    if not (length bytes == sector_size)
    then invalid
    else if sector_erased bytes
    then erased
    else if sector_crc_ok bytes
    then crc_valid
    else raw_no_crc

abbrev pub payload_limit : Health → Result CodecError ℕ
payload_limit invalid = err macro_page_invalid_size
payload_limit crc_valid = ok page_data_size
payload_limit _ = ok sector_size

unfoldable pub macro_payload_limit : List ℕ → Result CodecError ℕ
unfolding macro_page_health
macro_payload_limit bytes = payload_limit (macro_page_health bytes)
