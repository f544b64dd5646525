-- ===== src/Device/Success.antt =====
-- What the device holds where a transaction of g502x_onboard/device.py returns.
use g502x_onboard.Base.{
  ℕ, String, ◌<◌, ◌≡◌, refl, sym, subst, ◌∙◌, Bool, true, ◌&&◌, List, [], ◌∷◌, ◌++◌, ltb, bytes_eq,
  bytes_eq→eq, arith, All, All-append, All-elem,
}
use g502x_onboard.Base.Exec.{Exec, pure, ◌>>=◌, ◌>>◌, check}
use g502x_onboard.Base.Exec.Yields.{
  Yields, Yields-pure, Yields-check, Yields-bind, Yields-fact, Yields-uses, Yields-both,
  Yields-lift, Yields-any, Yields-for_each, Yields-Keeps, Yields-try_finally,
}
use g502x_onboard.Constants.{
  programmable_sectors, recovery_sectors, global_macro_sectors, programmable_profiles,
}
use g502x_onboard.Identity.{Manifest}
use g502x_onboard.Device.{Env, Images, DeviceError, target_changed}
use g502x_onboard.Device.Port.{with_unit}
use g502x_onboard.Device.Page.{read_all}
use g502x_onboard.Device.Write.{validate_recovery_images, same_recovery}
use g502x_onboard.Device.Transfer.{
  Target, Options, digest_input, expected_or, write_all, same_final, reconcile_final, apply_plan,
  restore_baseline,
}
use g502x_onboard.Device.Stable.{read_only, IsStable, connect_manifest_unit-Keeps}
use g502x_onboard.Device.Memory.{IsReadable, read_sectors-Yields}

-- A device that answers from its memory, which no call but a write changes.
pub record IsDevice {W : Type 0} (env : Env W) (memory : W → Images) : Type 0 where
  pub readable : IsReadable env memory
  pub quiet : (m : Images) → IsStable env read_only (λ w. memory w ≡ m)

-- The stored baseline never changes.
pub record HasBaseline {W : Type 0} (env : Env W) (stored : Images) : Type 0 where
  pub reads : Yields (λ w. Unit {0}) env.baseline_map (λ images w. images ≡ stored)

abbrev within : List ℕ → Bool
within [] = true
within (s ∷ sectors) = ltb s 16 && within sectors

-- What holds of `m`, the memory of the world at hand, may be used in the rest.
pub now :
    {W A : Type 0} {memory : W → Images} {C : Images → Type 0} {Q : A → W → Type 0}
    (n : Exec W DeviceError A)
    → ((m : Images) → C m → Yields (λ w. memory w ≡ m) n Q)
    → Yields (λ w. C (memory w)) n Q
now {memory = memory} n y = record { at = λ w h. (y (memory w) h).at w refl }

-- A reading of every sector.
abbrev IsReading : Images → Images → Type 0
IsReading images m = (sector : ℕ) → sector < 16 → images sector ≡ m sector

-- A list of comparisons with such a reading.
equal-All :
    (m final target : Images) (sectors : List ℕ)
    → IsReading final m
    → within sectors ≡ true
    → All (λ s. bytes_eq (final s) (target s) ≡ true) sectors
    → All (λ s. m s ≡ target s) sectors
equal-All m final target [] same small equal = tt
equal-All m final target (s ∷ sectors) same small equal = (
  sym (same s (ground (arith, small))) ∙ bytes_eq→eq (final s) (target s) equal.0,
  equal-All m final target sectors same (ground (arith, small)) equal.1,
)

module _ {W : Type 0} {env : Env W} {memory : W → Images} (device : IsDevice env memory) where
  pub with_unit-Yields :
      {A : Type 0} {C : A → Type 0} (m : Images) (manifest : Manifest) (body : Exec W DeviceError A)
      → Yields (λ w. memory w ≡ m) body (λ a w. (memory w ≡ m) × C a)
      → Yields (λ w. memory w ≡ m) (with_unit env manifest body) (λ a w. (memory w ≡ m) × C a)
  unfolding with_unit
  with_unit-Yields m manifest body y =
      Yields-bind _ _ (Yields-Keeps _ (connect_manifest_unit-Keeps (device.quiet m) manifest))
        (λ u. Yields-try_finally body env.close y (λ a w h. ((device.quiet m).closes w h.0, h.1)))

  read_all-Yields :
      (m : Images) (manifest : Manifest)
      → Yields
          (λ w. memory w ≡ m)
          (read_all env manifest)
          (λ images w. (memory w ≡ m) × ((sector : ℕ) → sector < 16 → images sector ≡ m sector))
  unfolding read_all
  read_all-Yields m manifest = with_unit-Yields m manifest _ (read_sectors-Yields device.readable m)

  pub reconcile_final-Yields :
      (manifest : Manifest) (target : Target) (sectors : List ℕ) (options : Options W)
      → within sectors ≡ true
      → Yields
          (λ w. Unit {0})
          (reconcile_final env manifest target sectors options)
          (λ final w. IsReading final (memory w) × All (λ s. memory w s ≡ target s) sectors)
  unfolding reconcile_final same_final
  reconcile_final-Yields manifest target sectors options small =
      Yields-bind _ _ (Yields-any options.before_final_reconcile) (λ u.
        now {C = λ m. Unit} _ (λ m h. Yields-bind _ _ (read_all-Yields m manifest) (λ final.
          Yields-fact _ (λ same.
            Yields-bind _ _ (Yields-for_each sectors _ (λ s. Yields-check _ _)) (λ v.
              Yields-pure final
                (λ w k. rw k.0 (same, equal-All m final target sectors same small k.1)))))))

  -- On a device that answers from its memory, which no call but a part of a write changes, where
  -- `apply_plan` returns, the device holds the plan: the directory, the pages of the global store
  -- and the four profiles are the plan's, whatever happened on the way.
  pub apply_plan-Yields :
      (plan : Images) (options : Options W)
      → Yields
          (λ w. Unit {0})
          (apply_plan env plan options)
          (λ backup w.
            All (λ s. memory w s ≡ plan s) (0 ∷ (global_macro_sectors ++ programmable_profiles)))
  unfolding apply_plan
  apply_plan-Yields plan options = Yields-bind _ _ (Yields-any _) (λ manifest.
      Yields-bind _ _ (Yields-any _) (λ current. Yields-bind _ _ (Yields-any _) (λ u.
        Yields-bind _ _ (Yields-any _) (λ v. Yields-bind _ _ (Yields-any _) (λ backup.
          Yields-bind _ _ (Yields-any _) (λ baseline. Yields-bind _ _ (Yields-any _) (λ x.
            Yields-bind _ _ (reconcile_final-Yields manifest plan _ options refl)
              (λ final. Yields-pure backup (λ w h. h.1)))))))))

  module _ {stored : Images} (has : HasBaseline env stored) where
    validate_recovery_images-Yields :
        (m images : Images)
        → Yields
            (λ w. memory w ≡ m)
            (validate_recovery_images env images)
            (λ u w.
              (memory w ≡ m) × All (λ s. bytes_eq (images s) (stored s) ≡ true) recovery_sectors)
    unfolding validate_recovery_images same_recovery
    validate_recovery_images-Yields m images =
        Yields-bind _ _ (Yields-both _ (device.quiet m).reads_baseline has.reads) (λ baseline.
          Yields-fact _ (λ e.
            Yields-bind _ _ (Yields-for_each recovery_sectors _ (λ s. Yields-check _ _)) (λ u.
              Yields-fact _ (λ equal. Yields-bind _ _ (Yields-lift _) (λ enabled.
                Yields-pure tt (λ w h. (
                  h.0,
                  subst (λ b. All (λ s. bytes_eq (images s) (b s) ≡ true) recovery_sectors) e equal,
                )))))))

    -- The last reading shows the programmable sectors, and its check the recovery ones.
    everywhere :
        (final m : Images)
        → IsReading final m
        → All (λ s. m s ≡ stored s) programmable_sectors
        → All (λ s. bytes_eq (final s) (stored s) ≡ true) recovery_sectors
        → (sector : ℕ) → sector < 16
        → m sector ≡ stored sector
    everywhere final m same managed recovery sector small =
        let others = equal-All m final stored recovery_sectors same refl recovery in
        All-elem (λ s. m s ≡ stored s) (programmable_sectors ++ recovery_sectors) sector
          (All-append (λ s. m s ≡ stored s) programmable_sectors recovery_sectors managed others)
          (ground (arith, small))

    restored :
        {P : W → Type 0} (manifest : Manifest) (target : Images) (hash : List ℕ → String)
        (options : Options W) (backup : String)
        → target ≡ stored
        → Yields P
            (check
                (expected_or options.expected_digest
                  (hash (digest_input target programmable_sectors)))
                target_changed
              >> (write_all env manifest (target 0) target options
                  >> (reconcile_final env manifest target programmable_sectors options
                      >>= (λ final. validate_recovery_images env final >> pure backup))))
            (λ result w. (sector : ℕ) → sector < 16 → memory w sector ≡ stored sector)
    restored manifest target hash options backup e = Yields-bind _ _ (Yields-any _) (λ u.
        Yields-bind _ _ (Yields-any _) (λ v.
          Yields-bind _ _ (reconcile_final-Yields manifest target programmable_sectors options refl)
            (λ final.
              now {C = λ m. IsReading final m × All (λ s. m s ≡ target s) programmable_sectors} _
                (λ m h. Yields-bind _ _ (validate_recovery_images-Yields m final) (λ x.
                  Yields-pure backup (λ w k. rw k.0 (
                    everywhere final m h.0
                      (subst (λ t. All (λ s. m s ≡ t s) programmable_sectors) e h.1) k.1)))))))

    -- On a device that answers from its memory, which no call but a part of a write changes, and
    -- with a stored baseline that stays the same, where `restore_baseline` returns, every sector of
    -- the device is that of the baseline.
    pub restore_baseline-Yields :
        (hash : List ℕ → String) (options : Options W)
        → Yields
            (λ w. Unit {0})
            (restore_baseline env hash options)
            (λ backup w. (sector : ℕ) → sector < 16 → memory w sector ≡ stored sector)
    unfolding restore_baseline
    restore_baseline-Yields hash options = Yields-bind _ _ (Yields-any _) (λ manifest.
        Yields-bind _ _ (Yields-any _) (λ u. Yields-bind _ _ (Yields-any _) (λ current.
          Yields-bind _ _ (Yields-any _) (λ v. Yields-bind _ _ (Yields-any _) (λ backup.
            Yields-bind _ _ has.reads (λ target.
              Yields-uses _ (λ w e. e) (restored manifest target hash options backup)))))))
