-- ===== src/Device/Memory.antt =====
-- What the reading functions of g502x_onboard/device.py return from a device that answers function 5
-- with 16 bytes of its memory.
use g502x_onboard.Base.{
  ℕ, zero, suc, ◌+◌, ◌-◌, ◌≤◌, ◌<◌, ◌≡◌, refl, sym, ◌∙◌, ap, false, not, Option, none, some, List,
  [], ◌∷◌, ◌++◌, if◌then◌else◌, ltb, leb, take, drop, get_or, length, replicate, elem, arith, All,
  map, length-append, length-take, length-drop, length-replicate,
}
use g502x_onboard.Base.Lists.Cuts.{take-take, take-add, take_all, append_assoc, take-exact}
use g502x_onboard.Base.Results.{ok}
use g502x_onboard.Base.Exec.Yields.{
  Yields, Yields-pure, Yields-lift, Yields-check, Yields-if, Yields-bind, Yields-fact, Yields-uses,
  Yields-weaken, Yields-collect,
}
use g502x_onboard.Sector.{pack_be16}
use g502x_onboard.Device.{Env, Images}
use g502x_onboard.Device.Port.{slice}
use g502x_onboard.Device.Page.{
  splice, chunk_of, read_chunk, read_loop, read_page, read_sector, read_sectors, all_sectors,
}

-- A reply carries the 16 bytes from `offset` on, behind its header of four; none is a failure.
abbrev pub Carries : List ℕ → ℕ → Option (List ℕ) → Type 0
Carries page offset none = Unit
Carries page offset (some bytes) = slice 4 20 bytes ≡ take 16 (drop offset page)

-- The device has a page for each sector and answers function 5 from it.
pub record IsReadable {W : Type 0} (env : Env W) (memory : W → Images) : Type 0 where
  pub size : (w : W) (sector : ℕ) → length (memory w sector) ≡ 255
  pub answers :
      (m : Images) (sector offset : ℕ)
      → sector < 16
      → offset + 16 ≤ 255
      → Yields
          (λ w. memory w ≡ m)
          (env.onboard 5 (pack_be16 sector ++ pack_be16 offset))
          (λ reply w. (memory w ≡ m) × Carries (m sector) offset reply)

length-chunk :
    (offset : ℕ) (page : List ℕ)
    → offset + 16 ≤ length page
    → length (take 16 (drop offset page)) ≡ 16
length-chunk offset page h =
    omega (arith, length-take 16 (drop offset page), length-drop offset page)

-- What the loop has read is the start of the page, up to `offset`.
record IsRead (page bytes : List ℕ) (offset : ℕ) : Type 0 where
  starts : take offset bytes ≡ take offset page
  size : length bytes ≡ length page

-- A chunk at `at`, which begins in what is read and ends further.
splice-IsRead :
    (page bytes : List ℕ) (offset at : ℕ)
    → IsRead page bytes offset
    → at ≤ offset
    → at + 16 ≤ length page
    → IsRead page (splice bytes at (take 16 (drop at page))) (at + 16)
unfolding splice
splice-IsRead page bytes offset at read before inside =
    let chunk = take 16 (drop at page) in
    let size : length chunk ≡ 16 = length-chunk at page inside in
    let same : take at bytes ≡ take at page =
      rw (sym (take-take at offset bytes before), read.starts) (take-take at offset page before) in
    let front : take at bytes ++ chunk ≡ take (at + 16) page = rw same (take-add at 16 page) in
    let long : length (take (at + 16) page) ≡ at + 16 = omega (arith, length-take (at + 16) page) in
    let whole = append_assoc (take at bytes) chunk (drop (at + length chunk) bytes) in
    record {
      starts = rw (whole, front) (take-exact (at + 16) (take (at + 16) page) _ long);
      size = omega (
        arith,
        read.size,
        size,
        length-append (take at bytes) (chunk ++ drop (at + length chunk) bytes),
        length-append chunk (drop (at + length chunk) bytes),
        length-take at bytes,
        length-drop (at + length chunk) bytes,
      );
    }

-- No chunk that was read begins later than 16 before `offset`, so the next one is new.
elem-lt :
    (at offset : ℕ) (seen : List ℕ)
    → All (λ s. s + 16 ≤ offset) seen
    → offset < at + 16
    → elem at seen ≡ false
elem-lt at offset [] all h = refl
elem-lt at offset (s ∷ seen) all h =
    let rest = elem-lt at offset seen all.1 h in ground (arith, all.0, rest)

seen-le :
    (offset later : ℕ) (seen : List ℕ)
    → All (λ s. s + 16 ≤ offset) seen
    → offset ≤ later
    → All (λ s. s + 16 ≤ later) seen
seen-le offset later [] all h = tt
seen-le offset later (s ∷ seen) all h = (omega (arith, all.0), seen-le offset later seen all.1 h)

-- Where the chunk begins that is read at `offset`.
abbrev chunk_start : ℕ → ℕ
chunk_start offset = if ltb (255 - offset) 16 then 239 else offset

chunk_start_bounds :
    (offset : ℕ)
    → offset < 255
    → (chunk_start offset ≤ offset)
      × ((offset < chunk_start offset + 16) × (chunk_start offset + 16 ≤ 255))
chunk_start_bounds offset h = ground arith

all_zero : (n : ℕ) (page : List ℕ) → length page ≡ n → IsRead page (replicate n 0) 0
all_zero n page h = record { starts = refl; size = omega (arith, h, length-replicate {A = ℕ} n 0) }

-- The numbers from `first` on.
abbrev from_on : ℕ → ℕ → List ℕ
from_on first zero = []
from_on first (suc n) = first ∷ from_on (suc first) n

get_or-map_from :
    (f : Images) (first n i : ℕ) → i < n → get_or (map f (from_on first n)) i [] ≡ f (first + i)
get_or-map_from f first zero i h = absurd (omega arith)
get_or-map_from f first (suc n) zero h = ap f (omega arith)
get_or-map_from f first (suc n) (suc i) h =
    get_or-map_from f (suc first) n i (omega arith) ∙ ap f (omega arith)

get_or-map_range :
    (f : Images) (sector : ℕ) → sector < 16 → get_or (map f all_sectors) sector [] ≡ f sector
get_or-map_range f sector h = get_or-map_from f 0 16 sector h ∙ ap f (omega arith)

module _ {W : Type 0} {env : Env W} {memory : W → Images} (device : IsReadable env memory)
    (m : Images) where
  -- The worlds in which the device holds `m`.
  abbrev Holds : W → Type 0
  Holds w = memory w ≡ m

  carried :
      (sector offset : ℕ) (reply : Option (List ℕ)) (chunk : List ℕ)
      → Carries (m sector) offset reply
      → chunk_of sector offset reply ≡ ok chunk
      → chunk ≡ take 16 (drop offset (m sector))
  unfolding chunk_of
  carried sector offset none chunk c h = cc
  carried sector offset (some bytes) chunk c h = ground (arith, h)

  read_chunk-Yields :
      (sector offset : ℕ)
      → sector < 16
      → offset + 16 ≤ 255
      → Yields Holds
          (read_chunk env sector offset)
          (λ chunk w. Holds w × (chunk ≡ take 16 (drop offset (m sector))))
  unfolding read_chunk
  read_chunk-Yields sector offset small inside =
      Yields-bind _ _ (device.answers m sector offset small inside) (λ reply. Yields-fact _ (λ c.
        Yields-weaken _ (λ chunk w h. (h.0, carried sector offset reply chunk c h.1))
          (Yields-lift _)))

  whole :
      (sector offset : ℕ) (bytes : List ℕ)
      → IsRead (m sector) bytes offset
      → length (m sector) ≤ offset
      → bytes ≡ m sector
  whole sector offset bytes read h =
      sym (take_all offset bytes (omega (arith, read.size)))
      ∙ (read.starts ∙ take_all offset (m sector) h)

  extended :
      (sector offset : ℕ) (bytes chunk : List ℕ)
      → IsRead (m sector) bytes offset
      → length (m sector) ≡ 255
      → offset < 255
      → chunk ≡ take 16 (drop (chunk_start offset) (m sector))
      → IsRead (m sector) (splice bytes (chunk_start offset) chunk) (chunk_start offset + 16)
  extended sector offset bytes chunk read size more c =
      let bounds = chunk_start_bounds offset more in
      rw c (
        splice-IsRead (m sector) bytes offset (chunk_start offset) read bounds.0
          (omega (arith, size, bounds.1.1)))

  read_loop-Yields :
      (fuel sector offset : ℕ) (seen bytes : List ℕ)
      → sector < 16
      → IsRead (m sector) bytes offset
      → length (m sector) ≡ 255
      → offset < 255
      → 255 ≤ fuel + offset
      → All (λ s. s + 16 ≤ offset) seen
      → Yields Holds
          (read_loop env fuel sector 255 offset seen bytes)
          (λ page w. Holds w × (page ≡ m sector))
  unfolding read_loop
  read_loop-Yields zero sector offset seen bytes small read size more fuel all =
      absurd (omega arith)
  read_loop-Yields (suc fuel) sector offset seen bytes small read size more enough all =
      let at = chunk_start offset in
      let bounds = chunk_start_bounds offset more in
      Yields-if (not (ltb offset 255)) _ _ (λ h. absurd (ground (arith, h)))
        (λ h.
          Yields-if (elem at seen) _ _
            (λ i. absurd (ground (arith, i, elem-lt at offset seen all bounds.1.0)))
            (λ i. Yields-bind _ _ (read_chunk-Yields sector at small bounds.1.1) (λ chunk.
              Yields-fact _ (λ c.
                Yields-if (leb 255 (at + 16)) _ _
                  (λ j. Yields-pure _ (λ w k. (
                    k,
                    whole sector (at + 16) _ (extended sector offset bytes chunk read size more c)
                        (ground (arith, size, j)),
                  )))
                  (λ j.
                    read_loop-Yields fuel sector (at + 16) (at ∷ seen) _ small
                      (extended sector offset bytes chunk read size more c) size
                      (ground (arith, j, bounds)) (omega (arith, bounds.1.0))
                      (
                        omega arith,
                        seen-le offset (at + 16) seen all (omega (arith, bounds.1.0)),
                      ))))))

  sized : (sector : ℕ) (w : W) → Holds w → length (m sector) ≡ 255
  sized sector w h = rw (sym h) (device.size w sector)

  read_at_start :
      (sector : ℕ)
      → sector < 16
      → length (m sector) ≡ 255
      → Yields Holds
          (read_loop env 255 sector 255 0 [] (replicate 255 0))
          (λ page w. Holds w × (page ≡ m sector))
  read_at_start sector small size =
      read_loop-Yields 255 sector 0 [] _ small (all_zero 255 (m sector) size) size (omega arith)
        (omega arith) tt

  -- On a device that answers function 5 with 16 bytes of its memory, `read_sector` returns the 255 bytes
  -- of the sector, where it returns, and leaves the memory as it is: the overlapping last chunk and the
  -- guard against a repeated offset lose nothing.
  pub read_sector-Yields :
      (sector : ℕ) → Yields Holds (read_sector env sector) (λ page w. Holds w × (page ≡ m sector))
  unfolding read_sector read_page
  read_sector-Yields sector = Yields-bind _ _ (Yields-check _ _) (λ u. Yields-fact _ (λ small.
      Yields-bind _ _ (Yields-check _ _) (λ v. Yields-fact _ (λ x.
        Yields-bind _ _ (Yields-check _ _) (λ z.
          Yields-fact _
            (λ y. Yields-uses _ (sized sector) (read_at_start sector (ground (arith, small)))))))))

  pub read_sectors-Yields :
      Yields Holds
        (read_sectors env)
        (λ images w. Holds w × ((sector : ℕ) → sector < 16 → images sector ≡ m sector))
  unfolding read_sectors
  read_sectors-Yields =
      Yields-bind _ _ (Yields-collect all_sectors (read_sector env) read_sector-Yields) (λ pages.
        Yields-fact _
          (λ e. Yields-pure _ (λ w h. (h, λ sector small. rw e (get_or-map_range m sector small)))))
