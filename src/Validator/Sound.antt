-- ===== src/Validator/Sound.antt =====
-- What a report without errors says of the images.
use g502x_onboard.Base.{
  ℕ, ◌≡◌, refl, subst, Bool, true, false, ◌&&◌, List, [], ◌∷◌, ◌++◌, ◌==◌, ==_iff, elem, get_or,
  get_elem?, length, leb, Option-cases, if◌then◌else◌, ltb, ◌≤◌, leb→le, bytes_eq, bytes_eq→eq,
  arith, All, All-append, Bool-cases, inl, inr,
}
use g502x_onboard.Base.Results.{ok, Result, err, require, >>=-eq-ok, unwrap}
use g502x_onboard.Constants.{addressable_macro_sectors}
use g502x_onboard.CodecError.{CodecError, index_error}
use g502x_onboard.Keys.{keys, consumer_usages, direct_mouse_masks}
use g502x_onboard.Sector.{macro_payload_limit}
use g502x_onboard.Vm.{Pages, Address}
use g502x_onboard.Profile.{Layer, Button, layers, target_order, binding_at}
use g502x_onboard.Validator.{
  Complete, Finding, BindingKind, unused, direct, special, macro, unknown, check_kind,
  check_metadata, BindingRoute, Invalid, binding_kind, has_value, word, check_direct, check_pointer,
  check_binding, check_buttons, check_layers, check_profiles, macro_pages, problem_unless,
  pointer_finding, read_metadata, has_kind, problem, starts_at, pointer_empty,
}
use g502x_onboard.Validator.Starts.{Clean, Walks}

err≢ok : {A : Type 0} {e : CodecError} {a : A} → ◌≡◌ {A = Result CodecError A} (err e) (ok a) → ⊥
err≢ok h = cc

-- A binding that the device can act on, described without the checks.
pub data ValidBinding (images : Complete) (binding : List ℕ) : Type 0 where
  is_unused : binding ≡ 0xFF ∷ 0xFF ∷ 0xFF ∷ 0xFF ∷ [] → ValidBinding images binding
  is_special : get_or binding 0 0 ≡ 0x90 → ValidBinding images binding
  is_mouse :
      get_or binding 0 0 ≡ 0x80
      → get_or binding 1 0 ≡ 1
      → has_value (word binding) direct_mouse_masks ≡ true
      → ValidBinding images binding
  is_keyboard :
      get_or binding 0 0 ≡ 0x80
      → get_or binding 1 0 ≡ 2
      → has_value (get_or binding 3 0) keys ≡ true
      → ValidBinding images binding
  is_consumer :
      get_or binding 0 0 ≡ 0x80
      → get_or binding 1 0 ≡ 3
      → has_value (word binding) consumer_usages ≡ true
      → ValidBinding images binding
  is_macro :
      get_or binding 0 0 ≡ 0
      → Walks (macro_pages images) (get_or binding 1 0, word binding)
      → ValidBinding images binding

-- What a kind says of the bytes.
abbrev KindFacts : List ℕ → BindingKind → Type 0
KindFacts binding unused = binding ≡ 0xFF ∷ 0xFF ∷ 0xFF ∷ 0xFF ∷ []
KindFacts binding direct =
    (get_or binding 0 0 ≡ 0x80) × (elem (get_or binding 1 0) (1 ∷ 2 ∷ 3 ∷ []) ≡ true)
KindFacts binding special = get_or binding 0 0 ≡ 0x90
KindFacts binding macro = get_or binding 0 0 ≡ 0
KindFacts binding unknown = Unit

kind_facts : (binding : List ℕ) → KindFacts binding (binding_kind binding)
unfolding binding_kind
kind_facts binding = elim (Bool-cases (bytes_eq binding (0xFF ∷ 0xFF ∷ 0xFF ∷ 0xFF ∷ []))) [
  | inl a ↦ rw a (bytes_eq→eq binding _ a)
  | inr a ↦
      elim (Bool-cases (get_or binding 0 0 == 0x80 && elem (get_or binding 1 0) (1 ∷ 2 ∷ 3 ∷ []))) [
        | inl b ↦ rw (a, b) (ground (arith, b))
        | inr b ↦ elim (Bool-cases (get_or binding 0 0 == 0x90)) [
          | inl d ↦ rw (a, b, d) ((==_iff _ _).0 d)
          | inr d ↦ elim (Bool-cases (get_or binding 0 0 == 0)) [
            | inl e ↦ rw (a, b, d, e) ((==_iff _ _).0 e)
            | inr e ↦ rw (a, b, d, e) tt
          ]
        ]
      ]
]

problem_unless-Clean :
    (pages : Pages) (b : Bool) (e : Invalid) → Clean pages (problem_unless b e) → b ≡ true
problem_unless-Clean pages true e h = refl
problem_unless-Clean pages false e h = absurd h

module _ (images : Complete) (route : BindingRoute) (binding : List ℕ) where
  direct-Valid :
      get_or binding 0 0 ≡ 0x80
      → elem (get_or binding 1 0) (1 ∷ 2 ∷ 3 ∷ []) ≡ true
      → Clean (macro_pages images) (check_direct route binding)
      → ValidBinding images binding
  unfolding check_direct
  direct-Valid first second c = elim (Bool-cases (get_or binding 1 0 == 1)) [
    | inl a ↦
        is_mouse first ((==_iff _ 1).0 a)
          (problem_unless-Clean (macro_pages images) _ _ (rw a at c))
    | inr a ↦ elim (Bool-cases (get_or binding 1 0 == 2)) [
      | inl b ↦
          is_keyboard first ((==_iff _ 2).0 b)
            (problem_unless-Clean (macro_pages images) _ _ (rw (a, b) at c))
      | inr b ↦
          is_consumer first (ground (arith, a, b, second))
            (problem_unless-Clean (macro_pages images) _ _ (rw (a, b) at c))
    ]
  ]

  byte-Clean :
      (byte : ℕ) (start : Address)
      → Clean
          (macro_pages images)
          (if byte == 0xFF then problem (pointer_empty route start) else starts_at route start)
      → Walks (macro_pages images) start
  byte-Clean byte start c = elim (Bool-cases (byte == 0xFF)) [
    | inl b ↦ absurd (rw b at c)
    | inr b ↦ (rw b at c)
  ]

  pointed :
      (start : Address) (limit : ℕ) (f : Finding)
      → pointer_finding images route start limit ≡ ok f
      → Clean (macro_pages images) f
      → Walks (macro_pages images) start
  unfolding pointer_finding
  pointed start limit f h c = elim (Bool-cases (ltb start.1 limit)) [
    | inl a ↦ elim (Option-cases (get_elem? (images start.0) start.1)) [
      | inl none_there ↦ absurd (err≢ok (rw (a, none_there) at h))
      | inr (byte, there) ↦
          byte-Clean byte start (subst (Clean (macro_pages images)) (unwrap (rw (a, there) at h)) c)
    ]
    | inr a ↦ absurd (subst (Clean (macro_pages images)) (unwrap (rw a at h)) c)
  ]

  pointer-Valid :
      (f : Finding)
      → get_or binding 0 0 ≡ 0
      → check_pointer images route binding ≡ ok f
      → Clean (macro_pages images) f
      → ValidBinding images binding
  unfolding check_pointer
  pointer-Valid f first h c =
      elim (Bool-cases (elem (get_or binding 1 0) addressable_macro_sectors)) [
        | inl a ↦
            let (limit, _, made) =
              >>=-eq-ok (macro_payload_limit (images (get_or binding 1 0))) _ (rw a at h) in
            is_macro first (pointed _ limit f made c)
        | inr a ↦ absurd (subst (Clean (macro_pages images)) (unwrap (rw a at h)) c)
      ]

  kind-Valid :
      (kind : BindingKind) (f : Finding)
      → KindFacts binding kind
      → check_kind images route binding kind ≡ ok f
      → Clean (macro_pages images) f
      → ValidBinding images binding
  kind-Valid unused f k h c = is_unused k
  kind-Valid special f k h c = is_special k
  kind-Valid direct f k h c =
      let (u, _, made) = >>=-eq-ok (require (leb 4 (length binding)) index_error) _ h in
      direct-Valid k.0 k.1 (subst (Clean (macro_pages images)) (unwrap made) c)
  kind-Valid macro f k h c =
      let (u, _, made) = >>=-eq-ok (require (leb 4 (length binding)) index_error) _ h in
      pointer-Valid f k made c
  kind-Valid unknown f k h c = absurd (subst (Clean (macro_pages images)) (unwrap h) c)

  -- A binding without a finding against it is one that the device can act on.
  binding-Valid :
      (f : Finding)
      → check_binding images route binding ≡ ok f
      → Clean (macro_pages images) f
      → ValidBinding images binding
  unfolding check_binding
  binding-Valid f h c =
      let (u, _, made) = >>=-eq-ok (require (has_kind binding) index_error) _ h in
      kind-Valid (binding_kind binding) f (kind_facts binding) made c

-- Of a list of findings that is computed in two parts.
Clean-append :
    (pages : Pages) (fs gs : List Finding)
    → All (Clean pages) (fs ++ gs)
    → All (Clean pages) fs × All (Clean pages) gs
Clean-append pages [] gs h = (tt, h)
Clean-append pages (f ∷ fs) gs h =
    let rest = Clean-append pages fs gs h.1 in ((h.0, rest.0), rest.1)

module _ (images : Complete) where
  abbrev pages : Pages
  pages = macro_pages images

  abbrev pub ValidAt : ℕ → Layer → Button → Type 0
  ValidAt profile layer button = ValidBinding images (binding_at (images profile) layer button)

  buttons-Valid :
      (profile : ℕ) (layer : Layer) (buttons : List Button) (fs : List Finding)
      → check_buttons images profile layer buttons ≡ ok fs
      → All (Clean pages) fs
      → All (ValidAt profile layer) buttons
  unfolding check_buttons
  buttons-Valid profile layer [] fs h c = tt
  buttons-Valid profile layer (button ∷ buttons) fs h c =
      let (f, one, h1) = >>=-eq-ok (check_binding images _ _) _ h in
      let (gs, more, h2) = >>=-eq-ok (check_buttons images profile layer buttons) _ h1 in
      let both = subst (All (Clean pages)) (unwrap h2) c in
      (binding-Valid images _ _ f one both.0, buttons-Valid profile layer buttons gs more both.1)

  layers-Valid :
      (profile : ℕ) (rest : List Layer) (fs : List Finding)
      → check_layers images profile rest ≡ ok fs
      → All (Clean pages) fs
      → All (λ layer. All (ValidAt profile layer) target_order) rest
  unfolding check_layers
  layers-Valid profile [] fs h c = tt
  layers-Valid profile (layer ∷ rest) fs h c =
      let (gs, one, h1) = >>=-eq-ok (check_buttons images profile layer target_order) _ h in
      let (more, two, h2) = >>=-eq-ok (check_layers images profile rest) _ h1 in
      let both = Clean-append pages gs more (subst (All (Clean pages)) (unwrap h2) c) in
      (
        buttons-Valid profile layer target_order gs one both.0,
        layers-Valid profile rest more two both.1,
      )

  -- What is right of a profile that is enabled.
  pub record ValidProfile (profile : ℕ) : Type 0 where
    pub rate : elem (get_or (images profile) 0 0) (1 ∷ 2 ∷ 4 ∷ 8 ∷ []) ≡ true
    pub default_dpi : get_or (images profile) 1 0 ≤ 4
    pub shift_dpi : get_or (images profile) 2 0 ≤ 4
    pub bindings : All (λ layer. All (ValidAt profile layer) target_order) layers

  profile-Valid :
      (profile : ℕ) (fs : List Finding)
      → check_layers images profile layers ≡ ok fs
      → All (Clean pages) (check_metadata profile (images profile) ++ fs)
      → ValidProfile profile
  unfolding check_metadata
  profile-Valid profile fs h c = record {
    rate = problem_unless-Clean pages _ _ c.0;
    default_dpi = leb→le _ _ (problem_unless-Clean pages _ _ c.1.0);
    shift_dpi = leb→le _ _ (problem_unless-Clean pages _ _ c.1.1.0);
    bindings = layers-Valid profile layers fs h c.1.1.1;
  }

  profile_step :
      (profile : ℕ) (b : Bool) (fs more : List Finding)
      → (if b then check_layers images profile layers else ok []) ≡ ok fs
      → All
          (Clean pages)
          (if b then check_metadata profile (images profile) ++ (fs ++ more) else more)
      → (b ≡ true → ValidProfile profile) × All (Clean pages) more
  profile_step profile true fs more h c =
      let first = Clean-append pages (check_metadata profile (images profile)) (fs ++ more) c in
      let second = Clean-append pages fs more first.1 in
      (λ e. profile-Valid profile fs h (All-append (Clean pages) _ fs first.0 second.0), second.1)
  profile_step profile false fs more h c = (λ e. absurd cc, c)

  pub profiles-Valid :
      (enabled profiles : List ℕ) (fs : List Finding)
      → check_profiles images enabled profiles ≡ ok fs
      → All (Clean pages) fs
      → All (λ profile. elem profile enabled ≡ true → ValidProfile profile) profiles
  unfolding check_profiles
  profiles-Valid enabled [] fs h c = tt
  profiles-Valid enabled (profile ∷ profiles) fs h c =
      let (u, _, h0) = >>=-eq-ok (read_metadata (images profile)) _ h in
      let (gs, one, h1) =
        >>=-eq-ok (if elem profile enabled then check_layers images profile layers else ok []) _
          h0 in
      let (more, two, h2) = >>=-eq-ok (check_profiles images enabled profiles) _ h1 in
      let all = subst (All (Clean pages)) (unwrap h2) c in
      let both = profile_step profile (elem profile enabled) gs more one all in
      (both.0, profiles-Valid enabled profiles more two both.1)
