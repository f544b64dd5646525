-- ===== src/Device/Port.antt =====
-- g502x_onboard/device.py, `get_descriptor` to `connect_manifest_unit`, `get_current_profile`,
-- `switch_profile` and `require_ghub_closed`: a connection to the one device of the baseline.
use g502x_onboard.Base.{
  ℕ, String, zero, suc, ◌+◌, ◌-◌, ◌*◌, ◌/◌, ◌%◌, Bool, true, false, not, Option, none, some, List,
  [], ◌∷◌, ◌++◌, ◌==◌, if◌then◌else◌, ltb, leb, take, drop, get_or, length,
}
use g502x_onboard.Base.Results.{Result, ok, err}
use g502x_onboard.Base.Exec.{Exec, pure, lift, ◌>>=◌, ◌>>◌, check, try_finally, attempt}
use g502x_onboard.Text.{Text}
use g502x_onboard.Identity.{
  Descriptor, parse_descriptor, Firmware, DeviceInfo, Manifest, compatibility_class,
  apply_identity_policy, manifest_fingerprint_matches, default_pid, default_index,
}
use g502x_onboard.Device.{
  Env, DeviceError, no_descriptor, wrong_descriptor, target_read_only, fingerprint_changed,
  switch_not_confirmed, writers_running, other_exception,
}

abbrev pub is_none {ℓ} : {A : Type ℓ} → Option A → Bool
is_none none = true
is_none (some a) = false

-- `"{n:02X}"` of a byte.
abbrev pub hex_digit : ℕ → ℕ
hex_digit n = if ltb n 10 then b'0' + n else 55 + n

unfoldable pub hex : List ℕ → Text
hex [] = []
hex (byte ∷ bytes) = hex_digit (byte / 16) ∷ hex_digit (byte % 16) ∷ hex bytes

abbrev pub slice : ℕ → ℕ → List ℕ → List ℕ
slice first last bytes = take (last - first) (drop first bytes)

-- `decode("ascii", errors="replace").rstrip("\x00")`
unfoldable pub decode_ascii : List ℕ → Text
decode_ascii [] = []
decode_ascii (byte ∷ bytes) =
    let rest = decode_ascii bytes in
    let char = if ltb byte 128 then byte else 0xFFFD in
    elim rest [ [] ↦ if char == 0 then [] else char ∷ [] | c ∷ more ↦ char ∷ c ∷ more ]

-- One row of the firmware, from a reply of at least 11 bytes.
unfoldable pub firmware_row : ℕ → List ℕ → Firmware
firmware_row entity p = record {
  index = entity;
  entity_type = get_or p 0 0;
  prefix = decode_ascii (slice 1 4 p);
  version_raw =
      hex (slice 4 5 p) ++ (b'.' ∷ (hex (slice 5 6 p) ++ (b'.' ∷ b'B' ∷ hex (slice 6 8 p))));
  active = not (get_or p 8 0 % 2 == 0);
  transport_pid = hex (slice 9 11 p);
  extra_version = hex (slice 11 16 p);
}

-- The payload of the reply to function 0, or none where it is too short.
abbrev pub reply_payload : Result DeviceError (Option (List ℕ)) → Option (List ℕ)
reply_payload (ok (some raw)) = if ltb (length raw) 5 then none else some (slice 4 20 raw)
reply_payload _ = none

-- A row, where the reply for the entity has one.
abbrev pub reply_firmware : ℕ → Result DeviceError (Option (List ℕ)) → List Firmware
reply_firmware entity (ok (some raw)) =
    if ltb (length (slice 4 20 raw)) 11 then [] else firmware_row entity (slice 4 20 raw) ∷ []
reply_firmware entity _ = []

abbrev pub text_of : Result DeviceError (Option Text) → Option Text
text_of (ok text) = text
text_of (err e) = none

abbrev pub without_information : Option Text → Option Text → DeviceInfo
without_information name protocol = record {
  device_name = name;
  protocol = protocol;
  unit_id = none;
  model_ids = [];
  firmware = [];
}

abbrev pub information_of : Option Text → Option Text → List ℕ → List Firmware → DeviceInfo
information_of name protocol payload firmware = record {
  device_name = name;
  protocol = protocol;
  unit_id = if leb 5 (length payload) then some (hex (slice 1 5 payload)) else none;
  model_ids =
      if leb 13 (length payload)
      then hex (slice 7 9 payload) ∷ hex (slice 9 11 payload) ∷ hex (slice 11 13 payload) ∷ []
      else [];
  firmware = firmware;
}

-- `if not raw` holds of no reply and of an empty one; fewer than 10 bytes are a struct.error.
unfoldable pub descriptor_of : Option (List ℕ) → Result DeviceError Descriptor
descriptor_of none = err no_descriptor
descriptor_of (some []) = err no_descriptor
descriptor_of (some (byte ∷ bytes)) =
    if length (slice 4 14 (byte ∷ bytes)) == 10
    then ok (parse_descriptor (byte ∷ bytes))
    else err other_exception

module _ {W : Type 0} (env : Env W) where
  -- The loop over the entities, from `entity` on.
  unfoldable pub firmware_rows : ℕ → ℕ → Exec W DeviceError (List Firmware)
  firmware_rows zero entity = pure []
  firmware_rows (suc left) entity = do
    reply ← attempt (env.information 1 (entity ∷ 0 ∷ 0 ∷ []))
    rows ← firmware_rows left (suc entity)
    pure (reply_firmware entity reply ++ rows)

  -- Without a payload the rest is unknown.
  unfoldable pub information_after :
      Option Text → Option Text → Option (List ℕ) → Exec W DeviceError DeviceInfo
  information_after name protocol none = pure (without_information name protocol)
  information_after name protocol (some payload) = do
    rows ← firmware_rows (get_or payload 0 0) 0
    pure (information_of name protocol payload rows)

  unfoldable pub get_device_information : Exec W DeviceError DeviceInfo
  get_device_information = do
    name ← attempt env.device_name
    protocol ← attempt env.protocol
    reply ← attempt (env.information 0 (0 ∷ 0 ∷ 0 ∷ []))
    information_after (text_of name) (text_of protocol) (reply_payload reply)

  unfoldable pub get_descriptor : Exec W DeviceError Descriptor
  get_descriptor = do raw ← env.onboard 0 (0 ∷ []); lift (descriptor_of raw)

  unfoldable pub assert_expected_device : Descriptor → Exec W DeviceError (Unit {0})
  assert_expected_device descriptor =
      check (compatibility_class descriptor default_pid default_index).compatible wrong_descriptor

  unfoldable pub assert_connection_matches_manifest :
      Manifest → Exec W DeviceError (Descriptor × DeviceInfo)
  assert_connection_matches_manifest manifest = do
    descriptor ← get_descriptor
    assert_expected_device descriptor
    info ← get_device_information
    check
        (apply_identity_policy (compatibility_class descriptor manifest.pid manifest.index)
          info).write_allowed
        target_read_only
    check (manifest_fingerprint_matches env.digest manifest descriptor info) fingerprint_changed
    pure (descriptor, info)

  -- `except Exception: dev.close(); raise`
  unfoldable pub close_after : {A : Type 0} → Result DeviceError A → W → Result DeviceError A × W
  close_after (ok a) w = (ok a, w)
  close_after (err e) w = (err e, env.close w)

  unfoldable pub close_on_error : {A : Type 0} → Exec W DeviceError A → Exec W DeviceError A
  close_on_error m w = let (r, w') = m w in close_after r w'

  unfoldable pub connect_manifest_unit : Manifest → Exec W DeviceError (Unit {0})
  connect_manifest_unit manifest = do
    env.connect manifest.pid manifest.index
    close_on_error (assert_connection_matches_manifest manifest)
    pure tt

  -- `dev = connect_manifest_unit(manifest)`, then `try: body finally: dev.close()`.
  unfoldable pub with_unit : {A : Type 0} → Manifest → Exec W DeviceError A → Exec W DeviceError A
  with_unit manifest body = connect_manifest_unit manifest >> try_finally body env.close

  unfoldable pub get_current_profile : Exec W DeviceError (Option ℕ)
  get_current_profile = do
    reply ← env.onboard 4 (0 ∷ [])
    pure (elim reply [
      | none ↦ none
      | some bytes ↦
          if leb (length bytes) 5 then none else some (get_or bytes 4 0 * 256 + get_or bytes 5 0)
    ])

  abbrev pub is_profile : Option ℕ → ℕ → Bool
  is_profile none profile = false
  is_profile (some current) profile = current == profile

  unfoldable pub switch_profile : ℕ → Exec W DeviceError (Unit {0})
  switch_profile profile = do
    env.onboard 3 (0 ∷ profile ∷ 0 ∷ [])
    current ← get_current_profile
    check (is_profile current profile) (switch_not_confirmed profile)

  abbrev pub nobody : List String → Bool
  nobody [] = true
  nobody (x ∷ xs) = false

  unfoldable pub require_ghub_closed : Exec W DeviceError (Unit {0})
  require_ghub_closed = do
    running ← env.conflicting_writers
    check (nobody running) (writers_running running)
