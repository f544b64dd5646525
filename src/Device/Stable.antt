-- ===== src/Device/Stable.antt =====
-- What every function of g502x_onboard/device.py keeps: a property of the world that no call but the
-- start of a write to a forbidden sector can break.
use g502x_onboard.Base.{
  ℕ, String, zero, suc, ◌+◌, ◌*◌, ◌/◌, ◌%◌, ◌<◌, ◌≡◌, refl, Bool, true, false, not, Option, none,
  some, List, [], ◌∷◌, ◌==◌, if◌then◌else◌, get_or, elem, arith,
}
use g502x_onboard.Base.Results.{Result, ok, err}
use g502x_onboard.Base.Exec.{Exec}
use g502x_onboard.Base.Exec.Hoare.{
  Keeps, Keeps-pure, Keeps-lift, Keeps-check, Keeps-if, Keeps-bind, Keeps-for_each, Keeps-collect,
  Keeps-attempt, Keeps-try_finally, keeps_rules,
}
use g502x_onboard.Text.{Text}
use g502x_onboard.Identity.{Manifest}
use g502x_onboard.Device.{Env, Images, DeviceError}
use g502x_onboard.Device.Port.{
  information_after, firmware_rows, get_device_information, get_descriptor, assert_expected_device,
  assert_connection_matches_manifest, close_on_error, close_after, connect_manifest_unit, with_unit,
  get_current_profile, switch_profile, require_ghub_closed,
}
use g502x_onboard.Device.Page.{
  read_chunk, read_loop, read_page, read_sector, write_chunk, write_sector, read_sectors, read_all,
}

-- Which writes may be started: none, or those to some sectors.
pub data Permission : Type 0 where
  read_only : Permission
  may_write : (ℕ → Bool) → Permission

-- Functions 6, 7 and 8 start a write to the sector of the first two bytes, continue it and end it.
abbrev pub call_allowed : Permission → ℕ → List ℕ → Bool
call_allowed read_only function arguments = not (elem function (6 ∷ 7 ∷ 8 ∷ []))
call_allowed (may_write allowed) function arguments =
    if function == 6 then allowed (get_or arguments 0 0 * 256 + get_or arguments 1 0) else true

call_allowed_read :
    (permission : Permission) (function : ℕ) (arguments : List ℕ)
    → elem function (6 ∷ 7 ∷ 8 ∷ []) ≡ false
    → call_allowed permission function arguments ≡ true
call_allowed_read read_only function arguments h = rw h
call_allowed_read (may_write allowed) function arguments h = ground arith

-- Every call that is permitted keeps `P`.
pub record IsStable {W : Type 0} (env : Env W) (permission : Permission) (P : W → Type 0)
    : Type 0 where
  pub connects : (pid index : ℕ) → Keeps P (env.connect pid index)
  pub closes : (w : W) → P w → P (env.close w)
  pub onboards :
      (function : ℕ) (arguments : List ℕ)
      → call_allowed permission function arguments ≡ true
      → Keeps P (env.onboard function arguments)
  pub informs : (function : ℕ) (arguments : List ℕ) → Keeps P (env.information function arguments)
  pub names : Keeps P env.device_name
  pub protocols : Keeps P env.protocol
  pub lists_writers : Keeps P env.conflicting_writers
  pub requires_baseline : Keeps P env.require_baseline
  pub reads_manifest : Keeps P env.active_manifest
  pub reads_baseline : Keeps P env.baseline_map
  pub saves :
      (label : String) (active : Option ℕ) (images : Images)
      → Keeps P (env.save_checkpoint label active images)

pub sector_bytes : (sector : ℕ) → sector < 0x10000 → sector / 256 * 256 + sector % 256 ≡ sector
sector_bytes sector h = omega arith

module _ {W : Type 0} {env : Env W} {permission : Permission} {P : W → Type 0}
    (stable : IsStable env permission P) where
  -- A call that is no part of a write.
  calls :
      (function : ℕ) (arguments : List ℕ)
      → elem function (6 ∷ 7 ∷ 8 ∷ []) ≡ false
      → Keeps P (env.onboard function arguments)
  calls function arguments h =
      stable.onboards function arguments (call_allowed_read permission function arguments h)

  firmware_rows-Keeps : (left entity : ℕ) → Keeps P (firmware_rows env left entity)
  unfolding firmware_rows
  firmware_rows-Keeps zero entity = Keeps-pure []
  firmware_rows-Keeps (suc left) entity =
      Keeps-bind _ _ (search (Keeps-attempt, stable.informs))
        (λ a. search (Keeps-bind, firmware_rows-Keeps left (suc entity), Keeps-pure))

  information_after-Keeps :
      (name protocol : Option Text) (payload : Option (List ℕ))
      → Keeps P (information_after env name protocol payload)
  unfolding information_after
  information_after-Keeps name protocol none = Keeps-pure _
  information_after-Keeps name protocol (some payload) =
      Keeps-bind _ _ (firmware_rows-Keeps (get_or payload 0 0) 0) (λ rows. Keeps-pure _)

  get_device_information-Keeps : Keeps P (get_device_information env)
  unfolding get_device_information
  get_device_information-Keeps = Keeps-bind _ _ (Keeps-attempt _ stable.names) (λ name.
      Keeps-bind _ _ (Keeps-attempt _ stable.protocols) (λ protocol.
        Keeps-bind _ _ (Keeps-attempt _ (stable.informs 0 _))
          (λ reply. information_after-Keeps _ _ _)))

  pub get_current_profile-Keeps : Keeps P (get_current_profile env)
  unfolding get_current_profile
  get_current_profile-Keeps = Keeps-bind _ _ (calls 4 _ refl) (λ reply. Keeps-pure _)

  pub get_descriptor-Keeps : Keeps P (get_descriptor env)
  unfolding get_descriptor
  get_descriptor-Keeps = Keeps-bind _ _ (calls 0 _ refl) (λ raw. Keeps-lift _)

  connection-Keeps :
      (manifest : Manifest) → Keeps P (assert_connection_matches_manifest env manifest)
  unfolding assert_connection_matches_manifest assert_expected_device
  connection-Keeps manifest =
      Keeps-bind _ _ get_descriptor-Keeps
        (λ descriptor. search (keeps_rules, get_device_information-Keeps) depth 10)

  closed-Keeps : {A : Type 0} (r : Result DeviceError A) (w : W) → P w → P (close_after env r w).1
  unfolding close_after
  closed-Keeps (ok a) w h = h
  closed-Keeps (err e) w h = stable.closes w h

  close_on_error-Keeps :
      {A : Type 0} (m : Exec W DeviceError A) → Keeps P m → Keeps P (close_on_error env m)
  unfolding close_on_error
  close_on_error-Keeps m km = record { at = λ w h. closed-Keeps (m w).0 (m w).1 (km.at w h) }

  pub connect_manifest_unit-Keeps :
      (manifest : Manifest) → Keeps P (connect_manifest_unit env manifest)
  unfolding connect_manifest_unit
  connect_manifest_unit-Keeps manifest =
      Keeps-bind _ _ (stable.connects manifest.pid manifest.index) (λ u.
        Keeps-bind _ _ (close_on_error-Keeps _ (connection-Keeps manifest)) (λ v. Keeps-pure tt))

  pub with_unit-Keeps :
      {A : Type 0} (manifest : Manifest) (body : Exec W DeviceError A)
      → Keeps P body
      → Keeps P (with_unit env manifest body)
  unfolding with_unit
  with_unit-Keeps manifest body kb =
      Keeps-bind _ _ (connect_manifest_unit-Keeps manifest)
        (λ u. Keeps-try_finally body env.close kb stable.closes)

  pub switch_profile-Keeps : (profile : ℕ) → Keeps P (switch_profile env profile)
  unfolding switch_profile
  switch_profile-Keeps profile =
      Keeps-bind _ _ (calls 3 _ refl) (λ reply. search (keeps_rules, get_current_profile-Keeps))

  pub require_ghub_closed-Keeps : Keeps P (require_ghub_closed env)
  unfolding require_ghub_closed
  require_ghub_closed-Keeps = Keeps-bind _ _ stable.lists_writers (λ running. Keeps-check _ _)

  read_chunk-Keeps : (page offset : ℕ) → Keeps P (read_chunk env page offset)
  unfolding read_chunk
  read_chunk-Keeps page offset = Keeps-bind _ _ (calls 5 _ refl) (λ reply. Keeps-lift _)

  read_loop-Keeps :
      (fuel page size offset : ℕ) (seen bytes : List ℕ)
      → Keeps P (read_loop env fuel page size offset seen bytes)
  unfolding read_loop
  read_loop-Keeps zero page size offset seen bytes = Keeps-pure bytes
  read_loop-Keeps (suc fuel) page size offset seen bytes = Keeps-if _ _ _ (Keeps-pure bytes) (
      Keeps-if _ _ _ (Keeps-pure bytes) (
        Keeps-bind _ _ (read_chunk-Keeps page _)
          (λ chunk. Keeps-if _ _ _ (Keeps-pure _) (read_loop-Keeps fuel page size _ _ _))))

  pub read_sector-Keeps : (sector : ℕ) → Keeps P (read_sector env sector)
  unfolding read_sector read_page
  read_sector-Keeps sector = Keeps-bind _ _ (Keeps-check _ _) (λ u.
      Keeps-bind _ _ (Keeps-check _ _)
        (λ v. Keeps-bind _ _ (Keeps-check _ _) (λ x. read_loop-Keeps _ _ _ _ _ _)))

  pub read_sectors-Keeps : Keeps P (read_sectors env)
  unfolding read_sectors
  read_sectors-Keeps = Keeps-bind _ _ (Keeps-collect _ _ read_sector-Keeps) (λ pages. Keeps-pure _)

  pub read_all-Keeps : (manifest : Manifest) → Keeps P (read_all env manifest)
  unfolding read_all
  read_all-Keeps manifest = with_unit-Keeps manifest _ read_sectors-Keeps

module _ {W : Type 0} {env : Env W} {allowed : ℕ → Bool} {P : W → Type 0}
    (stable : IsStable env (may_write allowed) P) where
  write_chunk-Keeps :
      (sector : ℕ) (bytes : List ℕ) (offset : ℕ) → Keeps P (write_chunk env sector bytes offset)
  unfolding write_chunk
  write_chunk-Keeps sector bytes offset =
      Keeps-bind _ _ (stable.onboards 7 _ refl) (λ reply. Keeps-check _ _)

  -- The one function that writes.
  pub write_sector-Keeps :
      (sector : ℕ) (bytes : List ℕ)
      → sector < 0x10000
      → allowed sector ≡ true
      → Keeps P (write_sector env sector bytes)
  unfolding write_sector
  write_sector-Keeps sector bytes small ok_sector = Keeps-bind _ _ (Keeps-check _ _) (λ u.
      Keeps-bind _ _ (stable.onboards 6 _ (rw (sector_bytes sector small) ok_sector)) (λ start.
        Keeps-bind _ _ (Keeps-check _ _) (λ v.
          Keeps-bind _ _ (Keeps-for_each _ _ (write_chunk-Keeps sector bytes)) (λ x.
            Keeps-bind _ _ (stable.onboards 8 _ refl) (λ stop.
              Keeps-bind _ _ (read_sector-Keeps stable sector) (λ readback. search keeps_rules))))))
