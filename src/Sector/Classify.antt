-- ===== src/Sector/Classify.antt =====
-- The classification of pages agrees with the checks, and `with_crc` repairs exactly the trailer.
use g502x_onboard.Base.{
  ℕ, ◌≡◌, ◌≢◌, inl, inr, true, List, ◌++◌, arith, ◌==◌, ==_iff, length, length-append, Bool-cases,
}
use g502x_onboard.Base.Results.{ok, err}
use g502x_onboard.CodecError.{sector_length}
use g502x_onboard.Sector.{crc16_ccitt, pack_be16, payload, with_crc, sector_crc_ok}
use g502x_onboard.Sector.Crc.{payload-packed, length-payload, sector_crc_ok-packed}

-- For every byte string: `with_crc` raises exactly when the length is not 255; otherwise the page it
-- returns has 255 bytes, passes `sector_crc_ok`, and keeps the first 253 bytes.
pub record Sealed (before after : List ℕ) : Type 0 where
  pub size : length after ≡ 255
  pub accepted : sector_crc_ok after ≡ true
  pub kept : payload after ≡ payload before

-- Given 255 bytes, `with_crc` returns a page of 255 bytes that passes `sector_crc_ok` and keeps the
-- first 253 bytes.
pub with_crc_ok :
    (bytes : List ℕ)
    → length bytes ≡ 255
    → (page : List ℕ) × (with_crc bytes ≡ ok page) × Sealed bytes page
unfolding with_crc
with_crc_ok bytes h =
    let xs = payload bytes in
    let n = crc16_ccitt (payload bytes) in
    let short : length (payload bytes) ≡ 253 = length-payload bytes h in
    (
      xs ++ pack_be16 n,
      rw ((==_iff _ _).1 h),
      record {
        size = omega (arith, length-append xs (pack_be16 n));
        accepted = sector_crc_ok-packed xs short;
        kept = payload-packed xs n;
      },
    )

pub with_crc_error : (bytes : List ℕ) → length bytes ≢ 255 → with_crc bytes ≡ err sector_length
unfolding with_crc
with_crc_error bytes h = ground (arith, ==_iff (length bytes) 255)

pub with_crc-Sealed : (bytes page : List ℕ) → with_crc bytes ≡ ok page → Sealed bytes page
with_crc-Sealed bytes page h = elim (Bool-cases (length bytes == 255)) [
  | inl e ↦ let (p, made, good) = with_crc_ok bytes ((==_iff _ _).0 e) in subst-ok made good
  | inr e ↦ cc (with_crc_error bytes (λ l. cc (e, (==_iff _ _).1 l)))
]
  where
    subst-ok : {p : List ℕ} → with_crc bytes ≡ ok p → Sealed bytes p → Sealed bytes page
    subst-ok {p} made good = let e : p ≡ page = cc in rw (← e) good
