-- ===== src/Device/Safety.antt =====
-- No transaction starts a write outside the programmable sectors.
use g502x_onboard.Base.{
  ℕ, String, zero, suc, ◌<◌, ◌≡◌, Bool, true, false, Option, none, some, List, if◌then◌else◌, elem,
  arith,
}
use g502x_onboard.Base.Results.{Result, ok, err}
use g502x_onboard.Base.Exec.{Exec}
use g502x_onboard.Base.Exec.Hoare.{
  Keeps, Keeps-pure, Keeps-raise, Keeps-lift, Keeps-check, Keeps-check-bind, Keeps-if, Keeps-bind,
  Keeps-for_each, Keeps-attempt,
}
use g502x_onboard.Constants.{programmable_sectors}
use g502x_onboard.Identity.{Manifest}
use g502x_onboard.Device.{Env, Images, DeviceError}
use g502x_onboard.Device.Write.{
  assert_active_device_matches_baseline, same_recovery, validate_recovery_images,
  ensure_safe_profile, capture, create_backup, after_write, try_write, write_attempt, reconcile,
  after_attempt, fresh_write_loop, fresh_write_sector, require_safe_profile,
  validate_recovery_fresh,
}
use g502x_onboard.Device.Page.{write_sector}
use g502x_onboard.Device.Transfer.{write_step}
use g502x_onboard.Device.Stable.{
  Permission, may_write, IsStable, with_unit-Keeps, switch_profile-Keeps, require_ghub_closed-Keeps,
  get_current_profile-Keeps, get_descriptor-Keeps, read_sector-Keeps, read_sectors-Keeps,
  read_all-Keeps, write_sector-Keeps,
}

abbrev pub programmable : ℕ → Bool
programmable sector = elem sector programmable_sectors

pub programmable-lt : (sector : ℕ) → programmable sector ≡ true → sector < 0x10000
programmable-lt sector h = ground arith

module _ {W : Type 0} {env : Env W} {permission : Permission} {P : W → Type 0}
    (stable : IsStable env permission P) where
  pub matches_baseline-Keeps : Keeps P (assert_active_device_matches_baseline env)
  unfolding assert_active_device_matches_baseline
  matches_baseline-Keeps = Keeps-bind _ _ stable.requires_baseline (λ u.
      Keeps-bind _ _ stable.reads_manifest (λ manifest. Keeps-bind _ _ (Keeps-check _ _) (λ v.
        Keeps-bind _ _ (with_unit-Keeps stable manifest _ (Keeps-pure tt))
          (λ x. Keeps-pure manifest))))

  pub validate_recovery_images-Keeps :
      (images : Images) → Keeps P (validate_recovery_images env images)
  unfolding validate_recovery_images same_recovery
  validate_recovery_images-Keeps images = Keeps-bind _ _ stable.reads_baseline (λ baseline.
      Keeps-bind _ _ (Keeps-for_each _ _ (λ sector. Keeps-check _ _))
        (λ u. Keeps-bind _ _ (Keeps-lift _) (λ enabled. Keeps-pure tt)))

  pub require_safe_profile-Keeps : Keeps P (require_safe_profile env)
  unfolding require_safe_profile
  require_safe_profile-Keeps =
      Keeps-bind _ _ (get_current_profile-Keeps stable) (λ current. Keeps-check _ _)

  pub ensure_safe_profile-Keeps : (manifest : Manifest) → Keeps P (ensure_safe_profile env manifest)
  unfolding ensure_safe_profile
  ensure_safe_profile-Keeps manifest = Keeps-bind _ _ (require_ghub_closed-Keeps stable) (λ u.
      with_unit-Keeps stable manifest _ (
        Keeps-bind _ _ (get_current_profile-Keeps stable) (λ current.
          Keeps-bind _ _
            (Keeps-if _ _ _ (Keeps-pure tt) (
              Keeps-bind _ _ (require_ghub_closed-Keeps stable)
                (λ v. switch_profile-Keeps stable _)))
            (λ x. Keeps-bind _ _ (get_current_profile-Keeps stable) (λ after. Keeps-check _ _)))))

  pub create_backup-Keeps :
      (label : String) (manifest : Manifest) → Keeps P (create_backup env label manifest)
  unfolding create_backup capture
  create_backup-Keeps label manifest = Keeps-bind _ _ stable.requires_baseline (λ u.
      Keeps-bind _ _
        (with_unit-Keeps stable manifest _ (
          Keeps-bind _ _ (get_descriptor-Keeps stable) (λ descriptor.
            Keeps-bind _ _ (get_current_profile-Keeps stable)
              (λ active. Keeps-bind _ _ (read_sectors-Keeps stable) (λ images. Keeps-pure _)))))
        (λ captured. stable.saves label _ _))

  pub validate_recovery_fresh-Keeps :
      (manifest : Manifest) → Keeps P (validate_recovery_fresh env manifest)
  unfolding validate_recovery_fresh
  validate_recovery_fresh-Keeps manifest =
      Keeps-bind _ _ (read_all-Keeps stable manifest) (λ images.
        Keeps-bind _ _ (validate_recovery_images-Keeps images)
          (λ u. with_unit-Keeps stable manifest _ require_safe_profile-Keeps))

module _ {W : Type 0} {env : Env W} {permission : Permission} {P : W → Type 0}
    (stable : IsStable env permission P) where
  module _ (sector : ℕ) (target : List ℕ) (write : Keeps P (write_sector env sector target)) where
    written-Keeps :
        (before : List ℕ) (r : Result DeviceError (List ℕ)) → Keeps P (after_write before r)
    unfolding after_write
    written-Keeps before (ok readback) = Keeps-pure none
    written-Keeps before (err e) = Keeps-if _ _ _ (Keeps-pure _) (Keeps-raise e)

    write_attempt-Keeps : Keeps P (write_attempt env sector target)
    unfolding write_attempt try_write
    write_attempt-Keeps = Keeps-bind _ _ (read_sector-Keeps stable sector) (λ before.
        Keeps-if _ _ _ (Keeps-pure none) (
          Keeps-bind _ _ (require_ghub_closed-Keeps stable)
            (λ u. Keeps-bind _ _ (Keeps-attempt _ write) (λ r. written-Keeps before r))))

    reconcile-Keeps :
        (next : Exec W DeviceError (Unit {0})) (more : Bool) (before observed : List ℕ)
        → Keeps P next
        → Keeps P (reconcile env (if more then some next else none) sector target before observed)
    unfolding reconcile
    reconcile-Keeps next true before observed k =
        Keeps-if _ _ _ (Keeps-pure tt) (Keeps-if _ _ _ k (Keeps-raise _))
    reconcile-Keeps next false before observed k =
        Keeps-if _ _ _ (Keeps-pure tt) (Keeps-if _ _ _ (Keeps-raise _) (Keeps-raise _))

    after_attempt-Keeps :
        (next : Exec W DeviceError (Unit {0})) (more : Bool) (manifest : Manifest)
        (failed : Option (List ℕ))
        → Keeps P next
        → Keeps P
            (after_attempt env (if more then some next else none) sector target manifest failed)
    unfolding after_attempt
    after_attempt-Keeps next more manifest none k = Keeps-pure tt
    after_attempt-Keeps next more manifest (some before) k =
        Keeps-bind _ _ (with_unit-Keeps stable manifest _ (read_sector-Keeps stable sector))
          (λ observed. reconcile-Keeps next more before observed k)

    fresh_write_loop-Keeps :
        (left : ℕ) (manifest : Manifest)
        → Keeps P (fresh_write_loop env left sector target manifest)
    unfolding fresh_write_loop
    fresh_write_loop-Keeps zero manifest = Keeps-pure tt
    fresh_write_loop-Keeps (suc left) manifest =
        Keeps-bind _ _ (require_ghub_closed-Keeps stable) (λ u.
          Keeps-bind _ _ (with_unit-Keeps stable manifest _ write_attempt-Keeps) (λ failed.
            after_attempt-Keeps _ _ manifest failed (fresh_write_loop-Keeps left manifest)))

  -- With what is known of the one function that writes, for a sector that the guards let through.
  fresh_write_sector-Keeps_if :
      (manifest : Manifest) (sector : ℕ) (target : List ℕ)
      → (programmable sector ≡ true → Keeps P (write_sector env sector target))
      → Keeps P (fresh_write_sector env manifest sector target)
  unfolding fresh_write_sector
  fresh_write_sector-Keeps_if manifest sector target write = Keeps-check-bind _ _ _ (λ u.
      Keeps-check-bind _ _ _ (λ inside.
        Keeps-check-bind _ _ _
          (λ v. fresh_write_loop-Keeps sector target (write inside) 3 manifest)))

  pub write_step-Keeps_if :
      (manifest : Manifest) (target : Images) (sector : ℕ)
      → (programmable sector ≡ true → Keeps P (write_sector env sector (target sector)))
      → Keeps P (write_step env manifest target sector)
  unfolding write_step
  write_step-Keeps_if manifest target sector write =
      Keeps-bind _ _ (fresh_write_sector-Keeps_if manifest sector _ write)
        (λ u. validate_recovery_fresh-Keeps stable manifest)

module _ {W : Type 0} {env : Env W} {allowed : ℕ → Bool} {P : W → Type 0}
    (stable : IsStable env (may_write allowed) P) where
  -- Whatever sector it is asked for: the guards refuse the others.
  pub write_step-Keeps :
      (manifest : Manifest) (target : Images) (sector : ℕ)
      → (programmable sector ≡ true → allowed sector ≡ true)
      → Keeps P (write_step env manifest target sector)
  write_step-Keeps manifest target sector may =
      write_step-Keeps_if stable manifest target sector (λ inside.
        write_sector-Keeps stable sector (target sector) (programmable-lt sector inside)
          (may inside))
