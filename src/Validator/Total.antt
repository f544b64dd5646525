-- ===== src/Validator/Total.antt =====
-- `validate_images` of g502x_onboard/validator.py lets no exception out.
use g502x_onboard.Base.{
  ℕ, ◌≡◌, refl, Bool, true, false, not, List, [], ◌∷◌, ◌==◌, elem, length, if◌then◌else◌, arith,
  All, All-elem, get_or, get_elem?_lt, true≢false, sym, some, ◌≤◌, drop, length-take, length-drop,
  ==_iff, Bool-cases, inl, inr, ltb, leb,
}
use g502x_onboard.Base.Results.{Result, ok, err, require, ◌>>=◌, unwrap}
use g502x_onboard.Constants.{
  sector_size, recovery_sectors, programmable_profiles, addressable_macro_sectors,
}
use g502x_onboard.CodecError.{CodecError}
use g502x_onboard.Sector.{
  Health, invalid, erased, crc_valid, raw_no_crc, payload_limit, macro_page_health,
  macro_payload_limit, sector_erased, sector_crc_ok,
}
use g502x_onboard.Vm.{Pages, Address}
use g502x_onboard.Profile.{
  Layer, Button, layers, target_order, profile3_offset, binding_at, index_of, normal, gshift, g1,
  g2, g3, g4, g6, g5, tilt_left, tilt_right, g9, g8, g7, wheel_down, wheel_up,
}
use g502x_onboard.Directory.{is_empty}
use g502x_onboard.Validator.{
  Complete, BindingRoute, BindingKind, ValidationReport, unused, direct, special, macro, unknown,
  no_errors, binding_kind, check_kind, check_pointer, check_binding, check_buttons, check_layers,
  check_profiles, pointer_finding, read_metadata, word,
}
use g502x_onboard.Validator.Report.{
  sectors, missing, size_errors, validate_sized, validate_complete, image_of, validate_images,
  read_baseline, is_sized,
}
use g502x_onboard.Validator.Accepts.{errors_of-nil, no_errors→nil}

abbrev pub Returns : {A : Type 0} → Result CodecError A → Type 0
Returns {A} r = (a : A) × (r ≡ ok a)

bind-Returns :
    {A B : Type 0} (m : Result CodecError A) (f : A → Result CodecError B)
    → Returns m
    → ((a : A) → Returns (f a))
    → Returns (m >>= f)
bind-Returns (ok a) f h k = k a
bind-Returns (err e) f h k = absurd (let e' = h.1 in cc)

if-Returns :
    {A : Type 0} (b : Bool) (m n : Result CodecError A)
    → (b ≡ true → Returns m)
    → (b ≡ false → Returns n)
    → Returns (if b then m else n)
if-Returns true m n f g = f refl
if-Returns false m n f g = g refl

health-Returns : (h : Health) → (h ≡ invalid → ⊥) → Returns (payload_limit h)
health-Returns invalid valid = absurd (valid refl)
health-Returns erased valid = (_, refl)
health-Returns crc_valid valid = (_, refl)
health-Returns raw_no_crc valid = (_, refl)

not_invalid :
    (a b : Bool) → (if a then erased else if b then crc_valid else raw_no_crc) ≡ invalid → ⊥
not_invalid true b e = cc
not_invalid false true e = cc
not_invalid false false e = cc

limit-Returns :
    (bytes : List ℕ) → length bytes == sector_size ≡ true → Returns (macro_payload_limit bytes)
unfolding macro_payload_limit macro_page_health
limit-Returns bytes h =
    health-Returns (macro_page_health bytes)
      (λ e. not_invalid (sector_erased bytes) (sector_crc_ok bytes) (rw h at e))

require-Returns : (b : Bool) (e : CodecError) → b ≡ true → Returns (require b e)
require-Returns true e h = (tt, refl)
require-Returns false e h = absurd (true≢false (sym h))

index_of-bound : (button : Button) → index_of button ≤ 12
index_of-bound g1 = omega arith
index_of-bound g2 = omega arith
index_of-bound g3 = omega arith
index_of-bound g4 = omega arith
index_of-bound g6 = omega arith
index_of-bound g5 = omega arith
index_of-bound tilt_left = omega arith
index_of-bound tilt_right = omega arith
index_of-bound g9 = omega arith
index_of-bound g8 = omega arith
index_of-bound g7 = omega arith
index_of-bound wheel_down = omega arith
index_of-bound wheel_up = omega arith

-- A button's binding lies within a profile sector.
profile3_offset-bound : (layer : Layer) (button : Button) → profile3_offset layer button ≤ 251
unfolding profile3_offset
profile3_offset-bound normal button = omega (arith, index_of-bound button)
profile3_offset-bound gshift button = omega (arith, index_of-bound button)

length-binding_at :
    (bytes : List ℕ) (layer : Layer) (button : Button)
    → length bytes ≡ 255
    → length (binding_at bytes layer button) ≡ 4
unfolding binding_at
length-binding_at bytes layer button sized =
    let within = profile3_offset-bound layer button in
    omega (
      arith,
      length-take 4 (drop (profile3_offset layer button) bytes),
      length-drop (profile3_offset layer button) bytes,
    )

payload_limit-bound : (h : Health) (limit : ℕ) → payload_limit h ≡ ok limit → limit ≤ sector_size
payload_limit-bound invalid limit e = absurd cc
payload_limit-bound erased limit e = omega (arith, unwrap e)
payload_limit-bound crc_valid limit e = omega (arith, unwrap e)
payload_limit-bound raw_no_crc limit e = omega (arith, unwrap e)

sized_at :
    (images : Complete) (s : ℕ)
    → All (λ s. is_sized images s ≡ true) sectors
    → elem s sectors ≡ true
    → length (images s) ≡ 255
sized_at images s sized h =
    (==_iff (length (images s)) 255).0 (All-elem (λ s. is_sized images s ≡ true) sectors s sized h)

bind_ok-Returns :
    {A B : Type 0} (m : Result CodecError A) (f : A → Result CodecError B) {a : A}
    → m ≡ ok a
    → Returns (f a)
    → Returns (m >>= f)
bind_ok-Returns m f e h = rw e h

limit-bound :
    (bytes : List ℕ) (limit : ℕ) → macro_payload_limit bytes ≡ ok limit → limit ≤ sector_size
unfolding macro_payload_limit
limit-bound bytes limit e = payload_limit-bound (macro_page_health bytes) limit e

module _ (images : Complete) (sized : All (λ s. is_sized images s ≡ true) sectors) where
  -- The guard keeps the index within the page.
  finding-Returns :
      (route : BindingRoute) (start : Address) (limit : ℕ)
      → limit ≤ length (images start.0)
      → Returns (pointer_finding images route start limit)
  unfolding pointer_finding
  finding-Returns route start limit within = elim (Bool-cases (ltb start.1 limit)) [
    | inl a ↦
        let (byte, there) = get_elem?_lt (images start.0) start.1 (ground arith) in
        rw (a, there) (_, refl)
    | inr a ↦ rw a (_, refl)
  ]

  pointer-Returns :
      (route : BindingRoute) (binding : List ℕ) → Returns (check_pointer images route binding)
  unfolding check_pointer
  pointer-Returns route binding =
      let sector = get_or binding 1 0 in
      if-Returns (not (elem sector addressable_macro_sectors)) _ _ (λ h. (_, refl))
        (λ h.
          let full = sized_at images sector sized (ground (arith, h)) in
          let (limit, found) = limit-Returns (images sector) ((==_iff _ _).1 full) in
          bind_ok-Returns (macro_payload_limit (images sector)) _ found (
            finding-Returns route (sector, word binding) limit
              (omega (arith, full, limit-bound (images sector) limit found))))

  kind-Returns :
      (route : BindingRoute) (binding : List ℕ) (kind : BindingKind)
      → length binding ≡ 4
      → Returns (check_kind images route binding kind)
  kind-Returns route binding unknown four = (_, refl)
  kind-Returns route binding direct four =
      bind-Returns _ _ (require-Returns _ _ (ground arith)) (λ u. (_, refl))
  kind-Returns route binding macro four =
      bind-Returns _ _ (require-Returns _ _ (ground arith)) (λ u. pointer-Returns route binding)
  kind-Returns route binding unused four = (_, refl)
  kind-Returns route binding special four = (_, refl)

  binding-Returns :
      (route : BindingRoute) (binding : List ℕ)
      → length binding ≡ 4
      → Returns (check_binding images route binding)
  unfolding check_binding
  binding-Returns route binding four =
      bind-Returns _ _ (require-Returns _ _ (ground arith))
        (λ u. kind-Returns route binding (binding_kind binding) four)

  buttons-Returns :
      (profile : ℕ) (layer : Layer) (buttons : List Button)
      → length (images profile) ≡ 255
      → Returns (check_buttons images profile layer buttons)
  unfolding check_buttons
  buttons-Returns profile layer [] full = (_, refl)
  buttons-Returns profile layer (button ∷ buttons) full =
      bind-Returns _ _ (binding-Returns _ _ (length-binding_at _ layer button full))
        (λ f. bind-Returns _ _ (buttons-Returns profile layer buttons full) (λ fs. (_, refl)))

  layers-Returns :
      (profile : ℕ) (rest : List Layer)
      → length (images profile) ≡ 255
      → Returns (check_layers images profile rest)
  unfolding check_layers
  layers-Returns profile [] full = (_, refl)
  layers-Returns profile (layer ∷ rest) full =
      bind-Returns _ _ (buttons-Returns profile layer target_order full)
        (λ f. bind-Returns _ _ (layers-Returns profile rest full) (λ fs. (_, refl)))

  metadata-Returns : (bytes : List ℕ) → length bytes ≡ 255 → Returns (read_metadata bytes)
  unfolding read_metadata
  metadata-Returns bytes full =
      bind-Returns _ _ (require-Returns (leb 3 (length bytes)) _ (ground arith))
        (λ u. require-Returns (leb 13 (length bytes)) _ (ground arith))

  profiles-Returns :
      (enabled profiles : List ℕ)
      → All (λ p. elem p sectors ≡ true) profiles
      → Returns (check_profiles images enabled profiles)
  unfolding check_profiles
  profiles-Returns enabled [] all = (_, refl)
  profiles-Returns enabled (profile ∷ profiles) all =
      let full = sized_at images profile sized all.0 in
      bind-Returns _ _ (metadata-Returns (images profile) full) (λ u.
        bind-Returns _ _
          (if-Returns (elem profile enabled) _ _ (λ h. layers-Returns profile layers full)
            (λ h. (_, refl)))
          (λ f. bind-Returns _ _ (profiles-Returns enabled profiles all.1) (λ fs. (_, refl))))

abbrev pub Holds : Pages → ℕ → Type 0
Holds pages sector = (bytes : List ℕ) × (pages sector ≡ some bytes)

read_baseline-Returns :
    (baseline : Pages) (rest : List ℕ)
    → All (Holds baseline) rest
    → Returns (read_baseline baseline rest)
unfolding read_baseline
read_baseline-Returns baseline [] h = (tt, refl)
read_baseline-Returns baseline (sector ∷ rest) h =
    rw (h.0.1, read_baseline) (read_baseline-Returns baseline rest h.1)

-- Where the baseline has the recovery sectors, `validate_images` returns a report of any images,
-- missing and short ones among them: no key, index or unpacking fails past its own handlers, whatever
-- the bytes of the bindings and of the directory, and a baseline without a directory is reported.
pub validate_images-Returns :
    (images baseline : Pages)
    → All (Holds baseline) recovery_sectors
    → (report : ValidationReport) × (validate_images images baseline ≡ ok report)
unfolding validate_images validate_complete validate_sized
validate_images-Returns images baseline has =
    if-Returns (is_empty (missing images sectors)) _ _
      (λ h.
        if-Returns (no_errors (size_errors (image_of images))) _ _
          (λ k. bind-Returns _ _ (read_baseline-Returns baseline recovery_sectors has) (λ u.
            bind-Returns _ _
              (profiles-Returns (image_of images)
                (errors_of-nil (is_sized (image_of images)) _ sectors (no_errors→nil _ k)) _
                programmable_profiles (refl, (refl, (refl, (refl, tt)))))
              (λ findings. (_, refl))))
          (λ k. (_, refl)))
      (λ h. (_, refl))
