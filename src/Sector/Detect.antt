-- ===== src/Sector/Detect.antt =====
-- The checksum detects every corruption of a single byte of a page.
use g502x_onboard.Base.{
  ltb, ltb→lt, ltb-false, length-take, length-drop, ℕ, zero, suc, ◌+◌, ◌-◌, ◌*◌, ◌/◌, ◌%◌, ◌<◌, ◌≡◌,
  ◌≢◌, inl, inr, refl, ap, sym, ◌∙◌, true, false, List, [], ◌∷◌, arith, ◌==◌, ==_iff, bit_xor,
  length, take, drop, set, get_or, length-set, Bool-cases, All, if◌then◌else◌,
}
use g502x_onboard.Base.Lists.Writes.{
  take-set_lt, take-set_ge, drop-set_lt, drop-set_ge, get_or-take, get_or-drop, All-take, All-drop,
}
use g502x_onboard.Base.Bits.{
  all_below, all_below-holds, bit_xor-lt, bit_xor_cancel, bit_xor_cancel_left,
}
use g502x_onboard.Sector.{
  crc_bit, crc_bits, crc_from, crc16_ccitt, unpack_be16, payload, trailer, sector_crc_ok,
}
use g502x_onboard.Sector.Crc.{crc_bit-lt, crc_bits-lt}

-- The round read backwards: the lowest digit says whether the polynomial was added.
crc_unbit : ℕ → ℕ
crc_unbit crc = if crc % 2 == 0 then crc / 2 else bit_xor crc 0x1021 / 2 + 0x8000

unbit_table : all_below 0x10000 (λ crc. crc_unbit (crc_bit crc) == crc) ≡ true
unfolding all_below crc_unbit crc_bit
unbit_table = refl

unbit-bit : (crc : ℕ) → crc < 0x10000 → crc_unbit (crc_bit crc) ≡ crc
unbit-bit crc h = (==_iff _ crc).0 (all_below-holds 0x10000 _ crc h unbit_table)

crc_bits-injective : (n a b : ℕ) → a < 0x10000 → b < 0x10000 → crc_bits n a ≡ crc_bits n b → a ≡ b
unfolding crc_bits
crc_bits-injective zero a b ha hb e = e
crc_bits-injective (suc n) a b ha hb e =
    let same = crc_bits-injective n (crc_bit a) (crc_bit b) (crc_bit-lt a) (crc_bit-lt b) e in
    sym (unbit-bit a ha) ∙ ap crc_unbit same ∙ unbit-bit b hb

abbrev pub IsByte : ℕ → Type 0
IsByte x = x < 256

-- What one byte does to the running checksum.
abbrev feed : ℕ → ℕ → ℕ
feed crc byte = crc_bits 8 (bit_xor crc (byte * 256))

xor_byte-lt : (crc byte : ℕ) → crc < 0x10000 → IsByte byte → bit_xor crc (byte * 256) < 0x10000
xor_byte-lt crc byte h hb = bit_xor-lt 16 crc (byte * 256) h (omega arith)

feed-lt : (crc byte : ℕ) → crc < 0x10000 → IsByte byte → feed crc byte < 0x10000
feed-lt crc byte h hb = crc_bits-lt 8 (bit_xor crc (byte * 256)) (xor_byte-lt crc byte h hb)

feed-injective_left :
    (a b byte : ℕ) → a < 0x10000 → b < 0x10000 → IsByte byte → feed a byte ≡ feed b byte → a ≡ b
feed-injective_left a b byte ha hb hx e =
    let same =
      crc_bits-injective 8 (bit_xor a (byte * 256)) (bit_xor b (byte * 256))
        (xor_byte-lt a byte ha hx) (xor_byte-lt b byte hb hx) e in
    sym (bit_xor_cancel 16 a (byte * 256) ha (omega arith))
    ∙ ap (λ t. bit_xor t (byte * 256)) same
    ∙ bit_xor_cancel 16 b (byte * 256) hb (omega arith)

feed-injective_right :
    (crc x y : ℕ) → crc < 0x10000 → IsByte x → IsByte y → feed crc x ≡ feed crc y → x ≡ y
feed-injective_right crc x y h hx hy e =
    let same =
      crc_bits-injective 8 (bit_xor crc (x * 256)) (bit_xor crc (y * 256)) (xor_byte-lt crc x h hx)
        (xor_byte-lt crc y h hy) e in
    let scaled : x * 256 ≡ y * 256 =
      sym (bit_xor_cancel_left 16 crc (x * 256) h (omega arith))
      ∙ ap (bit_xor crc) same
      ∙ bit_xor_cancel_left 16 crc (y * 256) h (omega arith) in
    omega arith

crc_from-injective :
    (bytes : List ℕ) (a b : ℕ)
    → All IsByte bytes
    → a < 0x10000
    → b < 0x10000
    → crc_from bytes a ≡ crc_from bytes b
    → a ≡ b
unfolding crc_from
crc_from-injective [] a b hs ha hb e = e
crc_from-injective (x ∷ xs) a b hs ha hb e =
    feed-injective_left a b x ha hb hs.0 (
      crc_from-injective xs (feed a x) (feed b x) hs.1 (feed-lt a x ha hs.0) (feed-lt b x hb hs.0)
        e)

-- Two byte strings that differ in one place have different checksums.
crc_from-set :
    (bytes : List ℕ) (i v crc : ℕ)
    → All IsByte bytes
    → IsByte v
    → crc < 0x10000
    → i < length bytes
    → crc_from (set bytes i v) crc ≡ crc_from bytes crc
    → v ≡ get_or bytes i 0
unfolding crc_from
crc_from-set [] i v crc hs hv h lt e = absurd (omega arith)
crc_from-set (x ∷ xs) zero v crc hs hv h lt e = feed-injective_right crc v x h hv hs.0 (
    crc_from-injective xs (feed crc v) (feed crc x) hs.1 (feed-lt crc v h hv) (feed-lt crc x h hs.0)
      e)
crc_from-set (x ∷ xs) (suc i) v crc hs hv h lt e =
    crc_from-set xs i v (feed crc x) hs.1 hv (feed-lt crc x h hs.0) (omega arith) e

-- The two bytes at the end, as `unpack_be16` reads them.
two_bytes :
    (xs : List ℕ) (j v : ℕ)
    → length xs ≡ 2
    → All IsByte xs
    → IsByte v
    → j < 2
    → unpack_be16 (set xs j v) ≡ unpack_be16 xs
    → v ≡ get_or xs j 0
two_bytes [] j v l hs hv h e = absurd (omega arith)
two_bytes (x ∷ []) j v l hs hv h e = absurd (omega arith)
two_bytes (x ∷ y ∷ []) zero v l hs hv h e = omega arith
two_bytes (x ∷ y ∷ []) (suc zero) v l hs hv h e = omega arith
two_bytes (x ∷ y ∷ []) (suc (suc j)) v l hs hv h e = absurd (omega arith)
two_bytes (x ∷ y ∷ z ∷ xs) j v l hs hv h e = absurd (omega arith)

-- What a page that passes the check satisfies.
passed :
    (page : List ℕ)
    → length page ≡ 255
    → sector_crc_ok page ≡ true
    → unpack_be16 (drop 253 page) ≡ crc16_ccitt (take 253 page)
unfolding sector_crc_ok
passed page size h =
    let cut : length page - 2 ≡ 253 = omega arith in
    let e =
      (==_iff (unpack_be16 (trailer page)) (crc16_ccitt (payload page))).0
        (rw ((==_iff _ _).1 size) at h) in
    rw cut at e

module _ (page : List ℕ) (i v : ℕ) (size : length page ≡ 255) (bytes : All IsByte page)
    (hv : IsByte v) (before : sector_crc_ok page ≡ true)
    (after : sector_crc_ok (set page i v) ≡ true) where
  stored : unpack_be16 (drop 253 page) ≡ crc16_ccitt (take 253 page)
  stored = passed page size before

  stored_after : unpack_be16 (drop 253 (set page i v)) ≡ crc16_ccitt (take 253 (set page i v))
  stored_after = passed (set page i v) (length-set page i v ∙ size) after

  in_payload : i < 253 → v ≡ get_or page i 0
  unfolding crc16_ccitt
  in_payload h =
      let same : crc_from (set (take 253 page) i v) 0xFFFF ≡ crc_from (take 253 page) 0xFFFF =
        ap (λ t. crc_from t 0xFFFF) (sym (take-set_lt 253 i page v h))
        ∙ sym stored_after
        ∙ ap unpack_be16 (drop-set_lt 253 i page v h)
        ∙ stored in
      let size' : i < length (take 253 page) = omega (arith, length-take 253 page) in
      let byte =
        crc_from-set (take 253 page) i v 0xFFFF (All-take IsByte 253 page bytes) hv (omega arith)
          size' same in
      byte ∙ get_or-take 253 i page 0 h

  in_trailer : (j : ℕ) → j < 2 → i ≡ 253 + j → v ≡ get_or page i 0
  in_trailer j h e =
      let same : unpack_be16 (set (drop 253 page) j v) ≡ unpack_be16 (drop 253 page) =
        ap unpack_be16 (sym (drop-set_ge 253 j page v))
        ∙ ap (λ t. unpack_be16 (drop 253 (set page t v))) (sym e)
        ∙ stored_after
        ∙ ap crc16_ccitt (take-set_ge 253 i page v (omega arith))
        ∙ sym stored in
      let byte =
        two_bytes (drop 253 page) j v (omega (arith, length-drop 253 page))
          (All-drop IsByte 253 page bytes) hv h same in
      byte ∙ get_or-drop 253 j page 0 ∙ ap (λ t. get_or page t 0) (sym e)

-- A page of 255 bytes that passes the check no longer passes once any one byte, of the payload or of
-- the stored checksum itself, holds another byte value.
pub single_byte_detected :
    (page : List ℕ) (i v : ℕ)
    → length page ≡ 255
    → All IsByte page
    → sector_crc_ok page ≡ true
    → i < 255
    → v < 256
    → v ≢ get_or page i 0
    → sector_crc_ok (set page i v) ≡ false
single_byte_detected page i v size bytes before lt hv differs =
    elim (Bool-cases (sector_crc_ok (set page i v))) [
      | inr rejected ↦ rejected
      | inl after ↦ elim (Bool-cases (ltb i 253)) [
        | inl low ↦
            absurd (differs (in_payload page i v size bytes hv before after (ltb→lt i 253 low)))
        | inr high ↦
            let h = ltb-false i 253 high in
            absurd (
              differs (
                in_trailer page i v size bytes hv before after (i - 253) (omega arith)
                  (omega arith)))
      ]
    ]
