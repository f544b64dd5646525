-- ===== src/Identity/Exactly.antt =====
-- The write policy of g502x_onboard/baseline.py lets exactly the tested device through.
use g502x_onboard.Base.{
  Exists, ℕ, ◌≡◌, ◌↔◌, refl, Bool, true, false, ◌&&◌, ◌||◌, List, [], ◌∷◌, ◌==◌, bytes_eq,
  bytes_eq_refl, inl, inr,
}
use g502x_onboard.Text.{Text, strip}
use g502x_onboard.Identity.{
  Descriptor, Firmware, DeviceInfo, expected_descriptor, same_descriptor, compatibility_class,
  has_model, upper, firmware_matches, any_firmware, validated_device_target, apply_identity_policy,
  text_or_empty, tested_name, tested_model, tested_prefix, tested_version,
}
use g502x_onboard.Identity.Policy.{IsTestedFirmware, IsTestedDevice, apply_identity_policy-tested}

or-left : (a b : Bool) → a ≡ true → a || b ≡ true
or-left true b h = refl
or-left false b h = absurd cc

or-right : (a b : Bool) → b ≡ true → a || b ≡ true
or-right true b h = refl
or-right false b h = h

and-both : (a b : Bool) → a ≡ true → b ≡ true → a && b ≡ true
and-both true b h k = k
and-both false b h k = absurd cc

has_model-found :
    (model : Text) (ids : List Text)
    → Exists (λ id. upper (strip id) ≡ model) ids
    → has_model model ids ≡ true
unfolding has_model
has_model-found model [] h = absurd h
has_model-found model (id ∷ ids) (inl e) =
    or-left (bytes_eq model (upper (strip id))) _ (rw e (bytes_eq_refl model))
has_model-found model (id ∷ ids) (inr e) = or-right _ _ (has_model-found model ids e)

firmware_matches-tested : (row : Firmware) → IsTestedFirmware row → firmware_matches row ≡ true
unfolding firmware_matches
firmware_matches-tested row t = and-both _ _ t.active (
    and-both (bytes_eq row.prefix tested_prefix) _ (rw t.prefix (bytes_eq_refl tested_prefix)) (
      and-both (bytes_eq row.version_raw tested_version)
        (bytes_eq (upper row.transport_pid) tested_model)
        (rw t.version (bytes_eq_refl tested_version))
        (rw t.transport (bytes_eq_refl tested_model))))

any_firmware-found :
    (rows : List Firmware) → Exists IsTestedFirmware rows → any_firmware rows ≡ true
unfolding any_firmware
any_firmware-found [] h = absurd h
any_firmware-found (row ∷ rows) (inl e) = or-left _ _ (firmware_matches-tested row e)
any_firmware-found (row ∷ rows) (inr e) = or-right _ _ (any_firmware-found rows e)

validated-tested :
    (descriptor : Descriptor) (pid index : ℕ) (info : DeviceInfo)
    → IsTestedDevice descriptor pid index info
    → validated_device_target info ≡ true
unfolding validated_device_target
validated-tested descriptor pid index info t =
    let named : bytes_eq (strip (text_or_empty info.device_name)) tested_name ≡ true =
      rw t.name (bytes_eq_refl tested_name) in
    let model = has_model-found tested_model info.model_ids t.model in
    rw (named, model) (any_firmware-found info.firmware t.firmware)

-- The policy allows writes to exactly the one tested device: the expected architecture behind the
-- tested receiver and slot, by name, model and firmware, with a strong unit id.
pub apply_identity_policy_iff :
    (descriptor : Descriptor) (pid index : ℕ) (info : DeviceInfo)
    → ((apply_identity_policy (compatibility_class descriptor pid index) info).write_allowed ≡ true)
      ↔ IsTestedDevice descriptor pid index info
unfolding apply_identity_policy compatibility_class
apply_identity_policy_iff descriptor pid index info = (
  apply_identity_policy-tested descriptor pid index info,
  λ t.
      and-both _ _
        (and-both (same_descriptor descriptor expected_descriptor) (pid == 0xC547 && index == 1)
          (rw t.architecture refl) (rw (t.receiver, t.slot) refl))
        (and-both _ _ t.unit (validated-tested descriptor pid index info t)),
)
