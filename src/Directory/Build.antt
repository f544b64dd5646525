-- ===== src/Directory/Build.antt =====
-- `build_directory` succeeds on every baseline directory and enables exactly the requested profiles.
use native.Mathlib.Nat.{zero-add}
use g502x_onboard.Base.{
  ℕ, zero, suc, ◌+◌, ◌-◌, ◌≤◌, ◌<◌, ◌≡◌, refl, sym, ap, ◌∙◌, ◌⊎◌, inl, inr, Bool, true, false, ◌&&◌,
  List, [], ◌∷◌, arith, ◌==◌, ==_iff, if◌then◌else◌, ltb, ltb-false, ltb→lt, lt→ltb, elem, length,
  set, get_or, take, Bool-cases, All, length-set,
}
use g502x_onboard.Base.Lists.Writes.{get_or-set_ne, get_or-set_self, get_or_ge, get_or-take}
use g502x_onboard.Base.Results.{ok}
use g502x_onboard.Sector.{sector_crc_ok}
use g502x_onboard.Sector.Classify.{Sealed, with_crc_ok}
use g502x_onboard.Directory.{
  allowed, unexpected, is_empty, flag, must_be_enabled, collect_enabled, validate_directory,
  store_byte, is_subset, enable_flag, write_flags, build_directory,
}
use g502x_onboard.Directory.Laws.{agree-unexpected, collect-exact}

-- The bytes that the three writes leave.
abbrev flagged : List ℕ → List ℕ → List ℕ
flagged golden enabled =
    set (set (set golden 0x0A (enable_flag 3 enabled)) 0x0E (enable_flag 4 enabled)) 0x12
      (enable_flag 5 enabled)

module _ (golden enabled : List ℕ) (size : length golden ≡ 255) where
  length-flagged : length (flagged golden enabled) ≡ 255
  length-flagged = omega (
    arith,
    length-set (set (set golden 0x0A (enable_flag 3 enabled)) 0x0E (enable_flag 4 enabled)) 0x12
        (enable_flag 5 enabled),
    length-set (set golden 0x0A (enable_flag 3 enabled)) 0x0E (enable_flag 4 enabled),
    length-set golden 0x0A (enable_flag 3 enabled),
  )

  write_flags-flagged : write_flags golden enabled (3 ∷ 4 ∷ 5 ∷ []) ≡ ok (flagged golden enabled)
  unfolding write_flags store_byte
  write_flags-flagged =
      let a = set golden 0x0A (enable_flag 3 enabled) in
      let b = set a 0x0E (enable_flag 4 enabled) in
      let la = length-set golden 0x0A (enable_flag 3 enabled) in
      let lb = length-set a 0x0E (enable_flag 4 enabled) in
      rw (
        lt→ltb 0x0A (length golden) (omega arith),
        lt→ltb 0x0E (length a) (omega arith),
        lt→ltb 0x12 (length b) (omega arith),
      )

  -- Outside the three flags nothing is written.
  flagged_ne :
      (j : ℕ) → elem j allowed ≡ false → get_or (flagged golden enabled) j 0 ≡ get_or golden j 0
  flagged_ne j free =
      let a = set golden 0x0A (enable_flag 3 enabled) in
      let b = set a 0x0E (enable_flag 4 enabled) in
      get_or-set_ne b 0x12 j (enable_flag 5 enabled) 0 (ground arith)
      ∙ get_or-set_ne a 0x0E j (enable_flag 4 enabled) 0 (ground arith)
      ∙ get_or-set_ne golden 0x0A j (enable_flag 3 enabled) 0 (ground arith)

  flagged_at :
      (flag (flagged golden enabled) 3 ≡ enable_flag 3 enabled)
      × (flag (flagged golden enabled) 4 ≡ enable_flag 4 enabled)
      × (flag (flagged golden enabled) 5 ≡ enable_flag 5 enabled)
  flagged_at =
      let a = set golden 0x0A (enable_flag 3 enabled) in
      let b = set a 0x0E (enable_flag 4 enabled) in
      let la = length-set golden 0x0A (enable_flag 3 enabled) in
      let lb = length-set a 0x0E (enable_flag 4 enabled) in
      (
        get_or-set_ne b 0x12 0x0A (enable_flag 5 enabled) 0 (omega arith)
            ∙ get_or-set_ne a 0x0E 0x0A (enable_flag 4 enabled) 0 (omega arith)
            ∙ get_or-set_self golden 0x0A (enable_flag 3 enabled) 0 (omega arith),
        get_or-set_ne b 0x12 0x0E (enable_flag 5 enabled) 0 (omega arith)
            ∙ get_or-set_self a 0x0E (enable_flag 4 enabled) 0 (omega arith),
        get_or-set_self b 0x12 (enable_flag 5 enabled) 0 (omega arith),
      )

-- A sealed page has the first 253 bytes that were sealed.
get_or-Sealed :
    (bytes page : List ℕ) (j : ℕ)
    → length bytes ≡ 255
    → Sealed bytes page
    → j < 253
    → get_or page j 0 ≡ get_or bytes j 0
get_or-Sealed bytes page j size sealed h =
    let s = sealed.size in
    let e : length page - 2 ≡ 253 = omega arith in
    let e' : length bytes - 2 ≡ 253 = omega arith in
    let same : take 253 page ≡ take 253 bytes =
      ap (λ n. take n page) (sym e) ∙ sealed.kept ∙ ap (λ n. take n bytes) e' in
    sym (get_or-take 253 j page 0 h) ∙ ap (λ xs. get_or xs j 0) same ∙ get_or-take 253 j bytes 0 h

IsFlag : ℕ → Type 0
IsFlag n = (n ≡ 0) ⊎ (n ≡ 1)

abbrev profiles : List ℕ
profiles = 1 ∷ 2 ∷ 3 ∷ 4 ∷ 5 ∷ []

flag_test : (b : Bool) → elem (if b then 1 else 0) (0 ∷ 1 ∷ []) ≡ true
flag_test true = refl
flag_test false = refl

collect_total :
    (bytes ps : List ℕ)
    → All (λ p. elem (flag bytes p) (0 ∷ 1 ∷ []) ≡ true) ps
    → (enabled : List ℕ) × (collect_enabled bytes ps ≡ ok enabled)
unfolding collect_enabled
collect_total bytes [] h = ([], refl)
collect_total bytes (p ∷ ps) h =
    let (later, e) = collect_total bytes ps h.1 in
    (if flag bytes p == 1 then p ∷ later else later, rw (h.0, e))

elem-subset :
    (p : ℕ) (xs ys : List ℕ) → is_subset xs ys ≡ true → elem p xs ≡ true → elem p ys ≡ true
unfolding is_subset
elem-subset p [] ys s h = cc
elem-subset p (x ∷ xs) ys s h = elim (Bool-cases (p == x)) [
  | inl e ↦ rw ((==_iff p x).0 e) (ground arith)
  | inr ne ↦ elem-subset p xs ys (ground arith) (ground arith)
]

module _ (golden ps page : List ℕ) (size : length golden ≡ 255) (on1 : flag golden 1 ≡ 1)
    (on2 : flag golden 2 ≡ 1) (sealed : Sealed (flagged golden (1 ∷ 2 ∷ ps)) page) where
  abbrev enabled : List ℕ
  enabled = 1 ∷ 2 ∷ ps

  read : (j : ℕ) → j < 253 → get_or page j 0 ≡ get_or (flagged golden enabled) j 0
  read j = get_or-Sealed (flagged golden enabled) page j (length-flagged golden enabled size) sealed

  page_flags :
      (flag page 1 ≡ 1)
      × (flag page 2 ≡ 1)
      × (flag page 3 ≡ enable_flag 3 enabled)
      × (flag page 4 ≡ enable_flag 4 enabled)
      × (flag page 5 ≡ enable_flag 5 enabled)
  page_flags =
      let w = flagged_at golden enabled size in
      (
        read 2 (omega arith) ∙ flagged_ne golden enabled size 2 refl ∙ on1,
        read 6 (omega arith) ∙ flagged_ne golden enabled size 6 refl ∙ on2,
        read 10 (omega arith) ∙ w.0,
        read 14 (omega arith) ∙ w.1,
        read 18 (omega arith) ∙ w.2,
      )

  All-flags : All (λ p. elem (flag page p) (0 ∷ 1 ∷ []) ≡ true) profiles
  unfolding enable_flag
  All-flags =
      let f = page_flags in
      (
        rw f.0,
        (
          rw f.1,
          (
            rw f.2 (flag_test (elem 3 enabled)),
            (rw f.3 (flag_test (elem 4 enabled)), (rw f.4 (flag_test (elem 5 enabled)), tt)),
          ),
        ),
      )

  quiet : unexpected 0 golden page ≡ []
  quiet = agree-unexpected 0 golden page (size ∙ sym sealed.size) same
    where
      same : (j : ℕ) → elem (0 + j) allowed ≡ false → get_or page j 0 ≡ get_or golden j 0
      same j free' =
          let free : elem j allowed ≡ false = rw (zero-add j) at free' in
          elim (Bool-cases (ltb j 253)) [
            | inl low ↦ read j (ltb→lt j 253 low) ∙ flagged_ne golden enabled size j free
            | inr high ↦
                let h : 255 ≤ j = let g = ltb-false j 253 high in ground arith in
                get_or_ge page j 0 (let z = sealed.size in omega arith)
                ∙ sym (get_or_ge golden j 0 (omega arith))
          ]

  not_requested :
      (p : ℕ) → is_subset ps profiles ≡ true → elem p profiles ≡ false → elem p ps ≡ false
  not_requested p s h = elim (Bool-cases (elem p ps)) [
    | inl e ↦ cc (elem-subset p ps profiles s e)
    | inr e ↦ e
  ]

  flag_is_set : (p : ℕ) → (enable_flag p enabled == 1) ≡ elem p enabled
  unfolding enable_flag
  flag_is_set p = ground arith

  found :
      (p : ℕ)
      → is_subset ps profiles ≡ true
      → (elem p profiles && flag page p == 1) ≡ elem p enabled
  found zero s = sym (not_requested 0 s refl)
  found (suc zero) s = rw page_flags.0
  found (suc (suc zero)) s = rw page_flags.1
  found (suc (suc (suc zero))) s = rw page_flags.2 (flag_is_set 3)
  found (suc (suc (suc (suc zero)))) s = rw page_flags.3 (flag_is_set 4)
  found (suc (suc (suc (suc (suc zero))))) s = rw page_flags.4 (flag_is_set 5)
  found (suc (suc (suc (suc (suc (suc p)))))) s =
      let n = suc (suc (suc (suc (suc (suc p))))) in
      let e = not_requested n s (ground arith) in ground arith

validate_when :
    (page golden enabled : List ℕ)
    → length page ≡ 255
    → sector_crc_ok page ≡ true
    → unexpected 0 golden page ≡ []
    → must_be_enabled page (1 ∷ 2 ∷ []) ≡ ok tt
    → collect_enabled page profiles ≡ ok enabled
    → validate_directory page golden ≡ ok enabled
unfolding validate_directory is_empty
validate_when page golden enabled size accepted same on collected =
    rw ((==_iff _ _).1 size, accepted, same, on) collected

on_when :
    (page : List ℕ) → flag page 1 ≡ 1 → flag page 2 ≡ 1 → must_be_enabled page (1 ∷ 2 ∷ []) ≡ ok tt
unfolding must_be_enabled
on_when page f1 f2 = rw (f1, f2)

-- On a baseline directory of 255 bytes with profiles 1 and 2 enabled, and for any profiles from 1 to
-- 5, `build_directory` returns a page; `validate_directory` accepts that page, and the profiles it
-- reports are exactly 1, 2 and the requested ones.
pub build-validate :
    (golden enabled_profiles : List ℕ)
    → length golden ≡ 255
    → flag golden 1 ≡ 1
    → flag golden 2 ≡ 1
    → is_subset enabled_profiles (1 ∷ 2 ∷ 3 ∷ 4 ∷ 5 ∷ []) ≡ true
    → (page : List ℕ) × (enabled : List ℕ) × (build_directory golden enabled_profiles ≡ ok page)
      × (validate_directory page golden ≡ ok enabled)
      × ((p : ℕ) → elem p enabled ≡ elem p (1 ∷ 2 ∷ enabled_profiles))
unfolding build_directory
build-validate golden ps size on1 on2 s =
    let out = flagged golden (1 ∷ 2 ∷ ps) in
    let (page, made, sealed) = with_crc_ok out (length-flagged golden (1 ∷ 2 ∷ ps) size) in
    let (enabled, collected) =
      collect_total page profiles (All-flags golden ps page size on1 on2 sealed) in
    let f = page_flags golden ps page size on1 on2 sealed in
    let valid =
      validate_when page golden enabled sealed.size sealed.accepted
        (quiet golden ps page size on1 on2 sealed) (on_when page f.0 f.1) collected in
    (
      page,
      enabled,
      rw (s, write_flags-flagged golden (1 ∷ 2 ∷ ps) size, made) (rw valid),
      valid,
      λ p.
          collect-exact page profiles enabled p collected
          ∙ found golden ps page size on1 on2 sealed p s,
    )
