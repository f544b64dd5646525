-- ===== src/Device/Written.antt =====
-- What a sector holds where `fresh_write_sector` of g502x_onboard/device.py returns.
use g502x_onboard.Base.{
  ℕ, zero, suc, ◌≡◌, refl, ap, ◌∙◌, sym, Bool, true, false, Option, none, some, List, if◌then◌else◌,
  ltb, elem, bytes_eq, bytes_eq→eq,
}
use g502x_onboard.Base.Results.{Result, ok, err}
use g502x_onboard.Base.Exec.{Exec, raise}
use g502x_onboard.Base.Exec.Yields.{
  Yields, Yields-pure, Yields-raise, Yields-check, Yields-if, Yields-bind, Yields-fact,
  Yields-weaken, Yields-any, Yields-try_finally, Yields-attempt, Returned, Yields-anywhere,
}
use g502x_onboard.Constants.{programmable_sectors}
use g502x_onboard.Identity.{Manifest}
use g502x_onboard.Device.{Env, Images, DeviceError, is_runtime_error, remained_unchanged}
use g502x_onboard.Device.Port.{with_unit}
use g502x_onboard.Device.Page.{write_sector}
use g502x_onboard.Device.Write.{
  after_write, try_write, write_attempt, reconcile, after_attempt, fresh_write_loop,
  fresh_write_sector,
}
use g502x_onboard.Device.Success.{IsDevice, now, with_unit-Yields}
use g502x_onboard.Device.Memory.{read_sector-Yields}

module _ {W : Type 0} {env : Env W} {memory : W → Images} (device : IsDevice env memory)
    (sector : ℕ) (target : List ℕ) where
  -- The sector is written.
  abbrev Written : W → Type 0
  Written w = memory w sector ≡ target

  -- The outcome of an attempt: nothing failed, so it is written.
  abbrev Attempted : Option (List ℕ) → W → Type 0
  Attempted none w = Written w
  Attempted (some before) w = Unit

  write_sector-Yields :
      {P : W → Type 0} → Yields P (write_sector env sector target) (λ readback w. Written w)
  unfolding write_sector
  write_sector-Yields = Yields-bind _ _ (Yields-any _) (λ u.
      Yields-bind _ _ (Yields-any _) (λ start. Yields-bind _ _ (Yields-any _) (λ v.
        Yields-bind _ _ (Yields-any _) (λ x. Yields-bind _ _ (Yields-any _) (λ stop.
          now {C = λ m. Unit} _ (λ m h.
            Yields-bind _ _ (read_sector-Yields device.readable m sector) (λ readback.
              Yields-fact _ (λ same. Yields-bind _ _ (Yields-check _ _) (λ y.
                Yields-pure readback (λ w k.
                  ap (λ f. f sector) k.0 ∙ (sym same ∙ bytes_eq→eq readback target k.1)))))))))))

  after_write-Yields :
      (before : List ℕ) (r : Result DeviceError (List ℕ))
      → Yields (λ w. Returned (λ readback v. Written v) (r, w)) (after_write before r) Attempted
  unfolding after_write
  after_write-Yields before (ok readback) = Yields-pure none (λ w h. h)
  after_write-Yields before (err e) =
      Yields-if (is_runtime_error e) _ _ (λ h. Yields-pure _ (λ w k. tt)) (λ h. Yields-raise e)

  write_attempt-Yields : Yields (λ w. Unit {0}) (write_attempt env sector target) Attempted
  unfolding write_attempt try_write
  write_attempt-Yields = now {C = λ m. Unit} _ (λ m h.
      Yields-bind _ _ (read_sector-Yields device.readable m sector) (λ before.
        Yields-fact _ (λ same.
          Yields-if (bytes_eq before target) _ _
            (λ e.
              Yields-pure none
                (λ w k. ap (λ f. f sector) k ∙ (sym same ∙ bytes_eq→eq before target e)))
            (λ e. Yields-bind _ _ (Yields-any _) (λ u.
              Yields-bind _ _ (Yields-attempt _ write_sector-Yields)
                (λ r. after_write-Yields before r))))))

  -- A close leaves the memory as it is.
  memory-close : (w : W) → memory (env.close w) ≡ memory w
  memory-close w = (device.quiet (memory w)).closes w refl

  Attempted-close : (o : Option (List ℕ)) (w : W) → Attempted o w → Attempted o (env.close w)
  Attempted-close none w h = ap (λ f. f sector) (memory-close w) ∙ h
  Attempted-close (some before) w h = tt

  unit_attempt-Yields :
      {P : W → Type 0} (manifest : Manifest)
      → Yields P (with_unit env manifest (write_attempt env sector target)) Attempted
  unfolding with_unit
  unit_attempt-Yields manifest =
      Yields-bind _ _ (Yields-any _)
        (λ u. Yields-try_finally _ env.close write_attempt-Yields Attempted-close)

  -- What is left to do shows that the sector is written, if something is left.
  abbrev Finishes : Option (Exec W DeviceError (Unit {0})) → Type 0
  Finishes none = Unit
  Finishes (some next) = Yields (λ w. Unit {0}) next (λ u w. Written w)

  finishes :
      (b : Bool) (next : Exec W DeviceError (Unit {0}))
      → Yields (λ w. Unit {0}) next (λ u w. Written w)
      → Finishes (if b then some next else none)
  finishes true next y = y
  finishes false next y = tt

  again-Yields :
      {P : W → Type 0} (again : Option (Exec W DeviceError (Unit {0})))
      → Finishes again
      → Yields {A = Unit {0}} P
          (elim again [ none ↦ raise (remained_unchanged sector) | some next ↦ next ])
          (λ u w. Written w)
  again-Yields none f = Yields-raise _
  again-Yields (some next) f = Yields-anywhere next f

  after_attempt-Yields :
      (again : Option (Exec W DeviceError (Unit {0}))) (manifest : Manifest)
      (failed : Option (List ℕ))
      → Finishes again
      → Yields
          (Attempted failed)
          (after_attempt env again sector target manifest failed)
          (λ u w. Written w)
  unfolding after_attempt reconcile
  after_attempt-Yields again manifest none f = Yields-pure tt (λ w h. h)
  after_attempt-Yields again manifest (some before) f = Yields-anywhere _ (
      now {C = λ m. Unit} _ (λ m h.
        Yields-bind _ _
          (with_unit-Yields device m manifest _ (read_sector-Yields device.readable m sector))
          (λ observed. Yields-fact _ (λ same.
            Yields-if (bytes_eq observed target) _ _
              (λ e.
                Yields-pure tt
                  (λ w k. ap (λ g. g sector) k ∙ (sym same ∙ bytes_eq→eq observed target e)))
              (λ e.
                Yields-if (bytes_eq observed before) _ _ (λ d. again-Yields again f)
                  (λ d. Yields-raise _))))))

  fresh_write_loop-Yields :
      (left : ℕ) (manifest : Manifest)
      → Yields
          (λ w. Unit {0})
          (fresh_write_loop env (suc left) sector target manifest)
          (λ u w. Written w)
  unfolding fresh_write_loop
  fresh_write_loop-Yields zero manifest = Yields-bind _ _ (Yields-any _) (λ u.
      Yields-bind _ _ (unit_attempt-Yields manifest)
        (λ failed. after_attempt-Yields none manifest failed tt))
  fresh_write_loop-Yields (suc left) manifest = Yields-bind _ _ (Yields-any _) (λ u.
      Yields-bind _ _ (unit_attempt-Yields manifest) (λ failed.
        after_attempt-Yields _ manifest failed
          (finishes (ltb 0 (suc left)) _ (fresh_write_loop-Yields left manifest))))

  -- On a device that answers from its memory, which no call but a part of a write changes, where
  -- `fresh_write_sector` returns, after one attempt or several, whatever failed in between, the
  -- device holds the target in that sector, which is a programmable one, and the manifest allows
  -- writes.
  pub fresh_write_sector-Yields :
      (manifest : Manifest)
      → Yields
          (λ w. Unit {0})
          (fresh_write_sector env manifest sector target)
          (λ u w.
            (memory w sector ≡ target)
            × ((elem sector programmable_sectors ≡ true) × (manifest.write_allowed ≡ true)))
  unfolding fresh_write_sector
  fresh_write_sector-Yields manifest = Yields-bind _ _ (Yields-any _) (λ u.
      Yields-bind _ _ (Yields-check _ _) (λ v. Yields-fact _ (λ inside.
        Yields-bind _ _ (Yields-check _ _) (λ x. Yields-fact _ (λ allowed.
          Yields-weaken _ (λ y w h. (h, (inside, allowed)))
            (fresh_write_loop-Yields 2 manifest))))))
