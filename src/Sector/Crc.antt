-- ===== src/Sector/Crc.antt =====
-- The stored checksum: what `with_crc` writes, `sector_crc_ok` accepts.
use g502x_onboard.Base.{
  ℕ, zero, suc, ◌+◌, ◌-◌, ◌*◌, ◌<◌, ◌≡◌, true, List, [], ◌∷◌, ◌++◌, arith, ==_iff, bit_xor, length,
  length-append, length-take, take-append_self, drop-append_self,
}
use g502x_onboard.Sector.{
  crc_bit, crc_bits, crc_from, crc16_ccitt, pack_be16, unpack_be16, payload, trailer, sector_crc_ok,
}

pub crc_bit-lt : (crc : ℕ) → crc_bit crc < 0x10000
unfolding crc_bit
crc_bit-lt crc = ground arith

pub crc_bits-lt : (n crc : ℕ) → crc < 0x10000 → crc_bits n crc < 0x10000
unfolding crc_bits
crc_bits-lt zero crc h = h
crc_bits-lt (suc n) crc h = crc_bits-lt n (crc_bit crc) (crc_bit-lt crc)

crc_rounds-lt : (n crc : ℕ) → crc_bits (suc n) crc < 0x10000
unfolding crc_bits
crc_rounds-lt n crc = crc_bits-lt n (crc_bit crc) (crc_bit-lt crc)

crc_from-lt : (bytes : List ℕ) (crc : ℕ) → crc < 0x10000 → crc_from bytes crc < 0x10000
unfolding crc_from
crc_from-lt [] crc h = h
crc_from-lt (b ∷ bs) crc h =
    crc_from-lt bs (crc_bits 8 (bit_xor crc (b * 256))) (crc_rounds-lt 7 (bit_xor crc (b * 256)))

-- The checksum fits the two bytes that store it.
pub crc16_ccitt-lt : (bytes : List ℕ) → crc16_ccitt bytes < 0x10000
unfolding crc16_ccitt
crc16_ccitt-lt bytes = crc_from-lt bytes 0xFFFF (omega arith)

-- A page that ends in a two-byte number, taken apart again.
module _ (xs : List ℕ) (n : ℕ) where
  length-packed : length (xs ++ pack_be16 n) ≡ length xs + 2
  length-packed = length-append xs (pack_be16 n)

  pub payload-packed : payload (xs ++ pack_be16 n) ≡ xs
  payload-packed =
      let e : length (xs ++ pack_be16 n) - 2 ≡ length xs = omega (arith, length-packed) in
      rw e (take-append_self xs (pack_be16 n))

  pub trailer-packed : trailer (xs ++ pack_be16 n) ≡ pack_be16 n
  trailer-packed =
      let e : length (xs ++ pack_be16 n) - 2 ≡ length xs = omega (arith, length-packed) in
      rw e (drop-append_self xs (pack_be16 n))

  pub unpack-pack : unpack_be16 (pack_be16 n) ≡ n
  unpack-pack = omega arith

pub length-payload : (bytes : List ℕ) → length bytes ≡ 255 → length (payload bytes) ≡ 253
length-payload bytes h = omega (arith, length-take (length bytes - 2) bytes)

-- 253 bytes with their checksum behind them make a page that the check accepts.
pub sector_crc_ok-packed :
    (xs : List ℕ) → length xs ≡ 253 → sector_crc_ok (xs ++ pack_be16 (crc16_ccitt xs)) ≡ true
unfolding sector_crc_ok
sector_crc_ok-packed xs h =
    let n = crc16_ccitt xs in
    let e : length (xs ++ pack_be16 n) ≡ 255 = omega (arith, length-append xs (pack_be16 n)) in
    rw ((==_iff _ _).1 e, trailer-packed xs n, payload-packed xs n)
      ((==_iff (unpack_be16 (pack_be16 n)) n).1 (unpack-pack xs n))
