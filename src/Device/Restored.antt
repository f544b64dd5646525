-- ===== src/Device/Restored.antt =====
-- What the device holds where `restore_backup` of g502x_onboard/device.py returns.
use g502x_onboard.Base.{ℕ, String, ◌≡◌, refl, subst, true, some, [], List, All}
use g502x_onboard.Base.Results.{Result, ok, err, unwrap}
use g502x_onboard.Base.Exec.{Exec}
use g502x_onboard.Base.Exec.Yields.{
  Yields, Yields-pure, Yields-lift, Yields-check, Yields-bind, Yields-fact, Yields-uses,
  Yields-weaken, Yields-any, Yields-anywhere,
}
use g502x_onboard.Constants.{programmable_sectors}
use g502x_onboard.CodecError.{CodecError}
use g502x_onboard.Validator.{is_ok}
use g502x_onboard.Validator.Report.{missing, sectors}
use g502x_onboard.Validator.Accepts.{IsState, validate_images-IsState}
use g502x_onboard.Device.{Env, Images, DeviceError}
use g502x_onboard.Device.Write.{from_codec}
use g502x_onboard.Device.Transfer.{Options, restore_backup, check_backup, validate_active}
use g502x_onboard.Device.Success.{IsDevice, HasBaseline, reconcile_final-Yields}

from_codec-ok : {A : Type 0} (r : Result CodecError A) (a : A) → from_codec r ≡ ok a → r ≡ ok a
from_codec-ok (ok b) a h = rw (unwrap h) refl
from_codec-ok (err e) a h = cc

-- The images form a state that may be put on the device with this baseline.
abbrev pub Restorable : Images → Images → Type 0
Restorable images baseline = (enabled : List ℕ) × IsState images baseline enabled

module _ {W : Type 0} {env : Env W} {memory : W → Images} (device : IsDevice env memory)
    {stored : Images} (has : HasBaseline env stored) where
  -- The report is on the stored baseline.
  validate_active-Yields :
      (target : Images)
      → Yields
          (λ w. Unit {0})
          (validate_active env target)
          (λ report w.
            is_ok report ≡ true
            → (missing (λ s. some (target s)) sectors ≡ [])
              × IsState target stored report.enabled_profiles)
  unfolding validate_active
  validate_active-Yields target = Yields-bind _ _ has.reads (λ baseline.
      Yields-uses _ (λ w d. d)
        (λ d.
          Yields-weaken _
            (λ report w made clean.
              subst
                (λ b.
                  (missing (λ s. some (target s)) sectors ≡ [])
                  × IsState target b report.enabled_profiles)
                d
                (validate_images-IsState _ (λ s. some (baseline s)) report
                  (from_codec-ok _ report made.1) clean))
            (Yields-lift _)))

  check_backup-Yields :
      (hash : List ℕ → String) (target : Images) (options : Options W)
      → Yields
          (λ w. Unit {0})
          (check_backup env hash target options)
          (λ baseline w. Restorable target stored)
  unfolding check_backup
  check_backup-Yields hash target options =
      Yields-bind _ _ (validate_active-Yields target) (λ report.
        Yields-uses _ (λ w valid. valid)
          (λ valid. Yields-bind _ _ (Yields-check _ _) (λ u. Yields-fact _ (λ clean.
            Yields-weaken _ (λ b w h. (report.enabled_profiles, (valid clean).1)) (Yields-any _)))))

  -- On a device that answers from its memory, which no call but a part of a write changes, and with
  -- a stored baseline that stays the same, where `restore_backup` of a loader that yields a backup
  -- returns, the backup is a valid state of this device, by every check of `validate_images`, and
  -- the programmable sectors of the device are those of the backup.
  pub restore_backup-Yields :
      (backup : Images) (load : Exec W DeviceError Images) (hash : List ℕ → String)
      (options : Options W)
      → Yields (λ w. Unit {0}) load (λ images w. images ≡ backup)
      → Yields
          (λ w. Unit {0})
          (restore_backup env load hash options)
          (λ result w.
            Restorable backup stored × All (λ s. memory w s ≡ backup s) programmable_sectors)
  unfolding restore_backup
  restore_backup-Yields backup load hash options loads = Yields-bind _ _ (Yields-any _) (λ manifest.
      Yields-bind _ _ loads (λ target.
        Yields-uses _ (λ w e. e)
          (λ e. Yields-bind _ _ (Yields-anywhere _ (check_backup-Yields hash target options)) (λ b.
            Yields-uses _ (λ w valid. valid)
              (λ valid. Yields-bind _ _ (Yields-any _) (λ current.
                Yields-bind _ _ (Yields-any _) (λ v. Yields-bind _ _ (Yields-any _) (λ x.
                  Yields-bind _ _ (Yields-any _) (λ checkpoint. Yields-bind _ _ (Yields-any _) (λ y.
                    Yields-bind _ _
                      (reconcile_final-Yields device manifest target programmable_sectors options
                        refl)
                      (λ final. Yields-pure checkpoint (λ w h. (
                        subst (λ t. Restorable t stored) e valid,
                        subst (λ t. All (λ s. memory w s ≡ t s) programmable_sectors) e h.1,
                      )))))))))))))
