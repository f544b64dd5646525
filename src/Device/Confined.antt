-- ===== src/Device/Confined.antt =====
-- What the transactions may write.
use g502x_onboard.Base.{ℕ, String, List}
use g502x_onboard.Base.Exec.{Exec}
use g502x_onboard.Base.Exec.Hoare.{
  Keeps, Keeps-pure, Keeps-lift, Keeps-check, Keeps-bind, Keeps-for_each,
}
use g502x_onboard.Identity.{Manifest}
use g502x_onboard.Device.{Env, Images, DeviceError}
use g502x_onboard.Device.Transfer.{
  Options, open_transaction, write_contents, write_all, same_final, reconcile_final, apply_plan,
  restore_baseline, restore_backup, check_backup, validate_active, same_backup_recovery,
}
use g502x_onboard.Device.Stable.{
  Permission, may_write, IsStable, with_unit-Keeps, require_ghub_closed-Keeps, read_all-Keeps,
}
use g502x_onboard.Device.Safety.{
  programmable, matches_baseline-Keeps, validate_recovery_images-Keeps, require_safe_profile-Keeps,
  ensure_safe_profile-Keeps, create_backup-Keeps, write_step-Keeps,
}

-- The callbacks of a transaction keep `P`.
pub record Careful {W : Type 0} (options : Options W) (P : W → Type 0) : Type 0 where
  pub first : Keeps P options.before_first_write
  pub last : Keeps P options.before_final_reconcile

module _ {W : Type 0} {env : Env W} {P : W → Type 0} (options : Options W)
    (careful : Careful options P) where
  open_transaction-Keeps :
      {permission : Permission} → IsStable env permission P → Keeps P (open_transaction env options)
  unfolding open_transaction
  open_transaction-Keeps stable = Keeps-bind _ _ (require_ghub_closed-Keeps stable) (λ u.
      Keeps-bind _ _ stable.requires_baseline (λ v.
        Keeps-bind _ _ (matches_baseline-Keeps stable)
          (λ manifest. Keeps-bind _ _ (Keeps-check _ _) (λ x. Keeps-pure manifest))))

  reconcile_final-Keeps :
      {permission : Permission} (stable : IsStable env permission P) (manifest : Manifest)
      (target : Images) (sectors : List ℕ)
      → Keeps P (reconcile_final env manifest target sectors options)
  unfolding reconcile_final same_final
  reconcile_final-Keeps stable manifest target sectors = Keeps-bind _ _ careful.last (λ u.
      Keeps-bind _ _ (read_all-Keeps stable manifest) (λ final.
        Keeps-bind _ _ (Keeps-for_each _ _ (λ sector. Keeps-check _ _)) (λ v. Keeps-pure final)))

  module _ (stable : IsStable env (may_write programmable) P) where
    write_all-Keeps :
        (manifest : Manifest) (directory : List ℕ) (target : Images)
        → Keeps P (write_all env manifest directory target options)
    unfolding write_all write_contents
    write_all-Keeps manifest directory target =
        let step = λ (t : Images) (s : ℕ). write_step-Keeps stable manifest t s (λ h. h) in
        Keeps-bind _ _ (Keeps-lift _) (λ staging. Keeps-bind _ _ careful.first (λ u.
          Keeps-bind _ _ (step _ 0) (λ v.
            Keeps-bind _ _
              (Keeps-bind _ _ (Keeps-for_each _ _ (step target))
                (λ x. Keeps-for_each _ _ (step target)))
              (λ y. step target 0))))

    -- Whatever the device answers, `apply_plan` keeps every property of the world that no call but the
    -- start of a write outside the programmable sectors can break, also where it raises: it starts
    -- no such write.
    pub apply_plan-Keeps : (plan : Images) → Keeps P (apply_plan env plan options)
    unfolding apply_plan
    apply_plan-Keeps plan = Keeps-bind _ _ (open_transaction-Keeps stable) (λ manifest.
        Keeps-bind _ _ (read_all-Keeps stable manifest) (λ current.
          Keeps-bind _ _ (validate_recovery_images-Keeps stable current) (λ u.
            Keeps-bind _ _ (with_unit-Keeps stable manifest _ (require_safe_profile-Keeps stable))
              (λ v. Keeps-bind _ _ (create_backup-Keeps stable _ manifest) (λ backup.
                Keeps-bind _ _ stable.reads_baseline (λ baseline.
                  Keeps-bind _ _ (write_all-Keeps manifest _ plan) (λ x.
                    Keeps-bind _ _ (reconcile_final-Keeps stable manifest plan _)
                      (λ final. Keeps-pure backup))))))))

    -- Whatever the device answers, `restore_baseline` keeps every property of the world that no call but the
    -- start of a write outside the programmable sectors can break, also where it raises.
    pub restore_baseline-Keeps :
        (hash : List ℕ → String) → Keeps P (restore_baseline env hash options)
    unfolding restore_baseline
    restore_baseline-Keeps hash = Keeps-bind _ _ (open_transaction-Keeps stable) (λ manifest.
        Keeps-bind _ _ (ensure_safe_profile-Keeps stable manifest) (λ u.
          Keeps-bind _ _ (read_all-Keeps stable manifest) (λ current.
            Keeps-bind _ _ (validate_recovery_images-Keeps stable current) (λ v.
              Keeps-bind _ _ (create_backup-Keeps stable _ manifest) (λ backup.
                Keeps-bind _ _ stable.reads_baseline (λ target.
                  Keeps-bind _ _ (Keeps-check _ _) (λ x.
                    Keeps-bind _ _ (write_all-Keeps manifest _ target) (λ y.
                      Keeps-bind _ _ (reconcile_final-Keeps stable manifest target _) (λ final.
                        Keeps-bind _ _ (validate_recovery_images-Keeps stable final)
                          (λ z. Keeps-pure backup))))))))))

    check_backup-Keeps :
        (hash : List ℕ → String) (target : Images) → Keeps P (check_backup env hash target options)
    unfolding check_backup validate_active same_backup_recovery
    check_backup-Keeps hash target =
        Keeps-bind _ _ (Keeps-bind _ _ stable.reads_baseline (λ baseline. Keeps-lift _)) (λ report.
          Keeps-bind _ _ (Keeps-check _ _) (λ a. Keeps-bind _ _ stable.reads_baseline (λ baseline.
            Keeps-bind _ _ (Keeps-for_each _ _ (λ sector. Keeps-check _ _)) (λ b.
              Keeps-bind _ _ (Keeps-lift _)
                (λ enabled. Keeps-bind _ _ (Keeps-check _ _) (λ c. Keeps-pure baseline))))))

    -- Whatever the device answers, `restore_backup` keeps every property of the world that no call but the
    -- start of a write outside the programmable sectors can break, also where it raises, of a loader
    -- that keeps the property.
    pub restore_backup-Keeps :
        (load : Exec W DeviceError Images) (hash : List ℕ → String)
        → Keeps P load
        → Keeps P (restore_backup env load hash options)
    unfolding restore_backup
    restore_backup-Keeps load hash kept =
        Keeps-bind _ _ (open_transaction-Keeps stable) (λ manifest. Keeps-bind _ _ kept (λ target.
          Keeps-bind _ _ (check_backup-Keeps hash target) (λ baseline.
            Keeps-bind _ _ (read_all-Keeps stable manifest) (λ current.
              Keeps-bind _ _ (validate_recovery_images-Keeps stable current) (λ v.
                Keeps-bind _ _ (ensure_safe_profile-Keeps stable manifest) (λ x.
                  Keeps-bind _ _ (create_backup-Keeps stable _ manifest) (λ backup.
                    Keeps-bind _ _ (write_all-Keeps manifest _ target) (λ y.
                      Keeps-bind _ _ (reconcile_final-Keeps stable manifest target _)
                        (λ final. Keeps-pure backup)))))))))
