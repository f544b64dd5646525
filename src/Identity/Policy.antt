-- ===== src/Identity/Policy.antt =====
-- What the write policy of g502x_onboard/baseline.py lets through.
use g502x_onboard.Base.{
  Exists, ℕ, ◌≡◌, refl, sym, Bool, true, false, ◌&&◌, List, [], ◌∷◌, ◌==◌, ==_iff, bytes_eq,
  bytes_eq→eq, arith, Bool-cases, inl, inr,
}
use g502x_onboard.Text.{Text, strip}
use g502x_onboard.Identity.{
  Descriptor, Firmware, DeviceInfo, expected_descriptor, same_descriptor, compatibility_class,
  has_model, upper, firmware_matches, any_firmware, validated_device_target, apply_identity_policy,
  strong_id, text_or_empty, tested_name, tested_model, tested_prefix, tested_version,
}

-- The one firmware that was tested, in use.
pub record IsTestedFirmware (row : Firmware) : Type 0 where
  pub active : row.active ≡ true
  pub prefix : row.prefix ≡ tested_prefix
  pub version : row.version_raw ≡ tested_version
  pub transport : upper row.transport_pid ≡ tested_model

-- The one device that may be written, described without the tests of the code.
pub record IsTestedDevice (descriptor : Descriptor) (pid index : ℕ) (info : DeviceInfo)
    : Type 0 where
  pub architecture : descriptor ≡ expected_descriptor
  pub receiver : pid ≡ 0xC547
  pub slot : index ≡ 1
  pub name : strip (text_or_empty info.device_name) ≡ tested_name
  pub model : Exists (λ id. upper (strip id) ≡ tested_model) info.model_ids
  pub firmware : Exists IsTestedFirmware info.firmware
  pub unit : strong_id (upper (strip (text_or_empty info.unit_id))) ≡ true

both : (a b : Bool) → a && b ≡ true → (a ≡ true) × (b ≡ true)
both true b h = (refl, h)
both false b h = absurd cc

fields_eq :
    (d : Descriptor)
    → d.memory_model ≡ 1
    → d.profile_format ≡ 3
    → d.macro_format ≡ 1
    → d.profile_count ≡ 5
    → d.factory_profiles ≡ 2
    → d.button_count ≡ 11
    → d.sector_count ≡ 16
    → d.sector_size ≡ 255
    → d.mechanical_layout ≡ 10
    → d ≡ expected_descriptor
fields_eq d a b c e f g h i j = cc

same_descriptor→eq :
    (d : Descriptor) → same_descriptor d expected_descriptor ≡ true → d ≡ expected_descriptor
same_descriptor→eq d h =
    let (a, h1) = both (d.memory_model == 1) _ h in
    let (b, h2) = both (d.profile_format == 3) _ h1 in
    let (c, h3) = both (d.macro_format == 1) _ h2 in
    let (e, h4) = both (d.profile_count == 5) _ h3 in
    let (f, h5) = both (d.factory_profiles == 2) _ h4 in
    let (g, h6) = both (d.button_count == 11) _ h5 in
    let (i, h7) = both (d.sector_count == 16) _ h6 in
    let (j, k) = both (d.sector_size == 255) _ h7 in
    fields_eq d ((==_iff _ _).0 a) ((==_iff _ _).0 b) ((==_iff _ _).0 c) ((==_iff _ _).0 e)
      ((==_iff _ _).0 f) ((==_iff _ _).0 g) ((==_iff _ _).0 i) ((==_iff _ _).0 j) ((==_iff _ _).0 k)

has_model-Exists :
    (model : Text) (ids : List Text)
    → has_model model ids ≡ true
    → Exists (λ id. upper (strip id) ≡ model) ids
unfolding has_model
has_model-Exists model [] h = absurd cc
has_model-Exists model (id ∷ ids) h = elim (Bool-cases (bytes_eq model (upper (strip id)))) [
  | inl e ↦ inl (sym (bytes_eq→eq model _ e))
  | inr e ↦ inr (has_model-Exists model ids (ground (arith, e, h)))
]

tested_firmware : (row : Firmware) → firmware_matches row ≡ true → IsTestedFirmware row
unfolding firmware_matches
tested_firmware row h =
    let (a, rest) = both row.active _ h in
    let (p, last) = both (bytes_eq row.prefix tested_prefix) _ rest in
    let (v, t) = both (bytes_eq row.version_raw tested_version) _ last in
    record {
      active = a;
      prefix = bytes_eq→eq row.prefix tested_prefix p;
      version = bytes_eq→eq row.version_raw tested_version v;
      transport = bytes_eq→eq (upper row.transport_pid) tested_model t;
    }

any_firmware-Exists :
    (rows : List Firmware) → any_firmware rows ≡ true → Exists IsTestedFirmware rows
unfolding any_firmware
any_firmware-Exists [] h = absurd cc
any_firmware-Exists (row ∷ rows) h = elim (Bool-cases (firmware_matches row)) [
  | inl e ↦ inl (tested_firmware row e)
  | inr e ↦ inr (any_firmware-Exists rows (ground (arith, e, h)))
]

validated-target :
    (info : DeviceInfo)
    → validated_device_target info ≡ true
    → (strip (text_or_empty info.device_name) ≡ tested_name)
      × (Exists (λ id. upper (strip id) ≡ tested_model) info.model_ids
          × Exists IsTestedFirmware info.firmware)
unfolding validated_device_target
validated-target info h =
    elim (Bool-cases (bytes_eq (strip (text_or_empty info.device_name)) tested_name)) [
      | inl named ↦ elim (Bool-cases (has_model tested_model info.model_ids)) [
        | inl model ↦ (
          bytes_eq→eq _ tested_name named,
          (
            has_model-Exists tested_model info.model_ids model,
            any_firmware-Exists info.firmware (simp (named, model) at h),
          ),
        )
        | inr other ↦ absurd (ground (arith, h, named, other))
      ]
      | inr other ↦ absurd (ground (arith, h, other))
    ]

-- The policy allows writes to nothing but the one tested device: the expected architecture behind
-- the tested receiver and slot, by name, model and firmware, with a strong unit id.
pub apply_identity_policy-tested :
    (descriptor : Descriptor) (pid index : ℕ) (info : DeviceInfo)
    → (apply_identity_policy (compatibility_class descriptor pid index) info).write_allowed ≡ true
    → IsTestedDevice descriptor pid index info
unfolding apply_identity_policy compatibility_class
apply_identity_policy-tested descriptor pid index info h =
    let id = strong_id (upper (strip (text_or_empty info.unit_id))) in
    let (allowed, known) =
      both (same_descriptor descriptor expected_descriptor && (pid == 0xC547 && index == 1)) _ h in
    let (same, transport) = both (same_descriptor descriptor expected_descriptor) _ allowed in
    let (receiver, slot) = both (pid == 0xC547) _ transport in
    let (strong, valid) = both id _ known in
    let (name, (model, firmware)) = validated-target info valid in
    record {
      architecture = same_descriptor→eq descriptor same;
      receiver = (==_iff pid _).0 receiver;
      slot = (==_iff index 1).0 slot;
      name = name;
      model = model;
      firmware = firmware;
      unit = strong;
    }
