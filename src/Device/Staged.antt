-- ===== src/Device/Staged.antt =====
-- The order in which the transactions of g502x_onboard/device.py write: the directory with profiles 1
-- and 2 alone is on the device while the other sectors are written.
use g502x_onboard.Base.{
  ℕ, ◌+◌, ◌*◌, ◌<◌, ◌≡◌, refl, sym, subst, Bool, true, false, not, ◌&&◌, ◌/◌, ◌%◌, bytes_eq, Option,
  ◌∙◌, All, List, [], ◌∷◌, ◌==◌, elem, get_or, arith,
}
use g502x_onboard.Base.Results.{ok, unwrap}
use g502x_onboard.Base.Exec.{Exec, pure, check, for_each, ◌>>=◌}
use g502x_onboard.Base.Exec.Hoare.{
  Keeps, Keeps-check, Keeps-lift, Keeps-pure, Keeps-bind, Keeps-then, Keeps-for_each,
  Keeps-for_each_All,
}
use g502x_onboard.Base.Exec.Yields.{
  Yields, Yields-beside, Yields-bind, Yields-Keeps, Yields-lift, Yields-weaken, Keeps-bind-Yields,
}
use g502x_onboard.Constants.{global_macro_sectors}
use g502x_onboard.Directory.{build_directory}
use g502x_onboard.Identity.{Manifest}
use g502x_onboard.Device.{Env, Images, DeviceError, write_start_failed, readback_failed}
use g502x_onboard.Device.Port.{is_none}
use g502x_onboard.Device.Page.{steps_of_16, read_sector, write_chunk, write_sector}
use g502x_onboard.Device.Write.{validate_recovery_fresh}
use g502x_onboard.Device.Transfer.{Options, write_step, write_contents, write_all}
use g502x_onboard.Device.Stable.{read_only, may_write, IsStable, sector_bytes, read_sector-Keeps}
use g502x_onboard.Device.Safety.{
  programmable, programmable-lt, write_step-Keeps, write_step-Keeps_if,
  validate_recovery_fresh-Keeps,
}
use g502x_onboard.Device.Success.{IsDevice}
use g502x_onboard.Device.Written.{fresh_write_sector-Yields}
use g502x_onboard.Device.Confined.{Careful}

-- The sectors that are written between the staging directory and the final one.
abbrev pub is_content : ℕ → Bool
is_content sector = programmable sector && not (sector == 0)

-- A device that writes to one sector at a time: `opened` is the one whose write was started.
pub record IsProgrammable {W : Type 0} (env : Env W) (memory : W → Images) (opened : W → ℕ)
    : Type 0 where
  pub quiet :
      (m : Images) (sector : ℕ) → IsStable env read_only (λ w. (memory w ≡ m) × (opened w ≡ sector))
  pub starts :
      (arguments : List ℕ) (m : Images) → Keeps (λ w. memory w ≡ m) (env.onboard 6 arguments)
  pub opens :
      (arguments : List ℕ)
      → Yields
          (λ w. Unit {0})
          (env.onboard 6 arguments)
          (λ reply w. opened w ≡ get_or arguments 0 0 * 256 + get_or arguments 1 0)
  pub writes :
      (function : ℕ) (arguments : List ℕ) (sector other : ℕ) (bytes : List ℕ)
      → elem function (7 ∷ 8 ∷ []) ≡ true
      → ¬ (other ≡ sector)
      → Keeps (λ w. (memory w other ≡ bytes) × (opened w ≡ sector)) (env.onboard function arguments)

both_hold :
    {W : Type 0} (memory : W → Images) (opened : W → ℕ) (C : Images → ℕ → Type 0) (w v : W)
    → (memory v ≡ memory w) × (opened v ≡ opened w)
    → C (memory w) (opened w)
    → C (memory v) (opened v)
both_hold memory opened C w v same h =
    subst (λ m. C m (opened v)) (sym same.0) (subst (C (memory w)) (sym same.1) h)

beside :
    {W A : Type 0} {memory : W → Images} {opened : W → ℕ} {Q : W → Type 0} (C : Images → ℕ → Type 0)
    (n : Exec W DeviceError A)
    → Keeps Q n
    → ((m : Images) (s : ℕ) → Keeps (λ w. (memory w ≡ m) × (opened w ≡ s)) n)
    → Keeps (λ w. Q w × C (memory w) (opened w)) n
beside {memory = memory} {opened = opened} C n kept quiet = record {
  at = λ w h. (
    kept.at w h.0,
    both_hold memory opened C w (n w).1 ((quiet (memory w) (opened w)).at w (refl, refl)) h.1,
  );
}

-- A property of the memory and of the opened sector, beside one that a permission keeps.
IsStable-beside :
    {W : Type 0} {env : Env W} {memory : W → Images} {opened : W → ℕ} {Q : W → Type 0}
    {allowed : ℕ → Bool} (C : Images → ℕ → Type 0)
    → IsStable env (may_write allowed) Q
    → ((m : Images) (s : ℕ) → IsStable env read_only (λ w. (memory w ≡ m) × (opened w ≡ s)))
    → IsStable env read_only (λ w. Q w × C (memory w) (opened w))
IsStable-beside {env = env} {memory = memory} {opened = opened} C q quiet = record {
  connects = λ pid index. beside C _ (q.connects pid index) (λ m s. (quiet m s).connects pid index);
  closes = λ w h. (
    q.closes w h.0,
    both_hold memory opened C w (env.close w) ((quiet (memory w) (opened w)).closes w (refl, refl))
        h.1,
  );
  onboards = λ function arguments may.
      beside C _ (q.onboards function arguments (ground (arith, may)))
        (λ m s. (quiet m s).onboards function arguments may);
  informs = λ function arguments.
      beside C _ (q.informs function arguments) (λ m s. (quiet m s).informs function arguments);
  names = beside C _ q.names (λ m s. (quiet m s).names);
  protocols = beside C _ q.protocols (λ m s. (quiet m s).protocols);
  lists_writers = beside C _ q.lists_writers (λ m s. (quiet m s).lists_writers);
  requires_baseline = beside C _ q.requires_baseline (λ m s. (quiet m s).requires_baseline);
  reads_manifest = beside C _ q.reads_manifest (λ m s. (quiet m s).reads_manifest);
  reads_baseline = beside C _ q.reads_baseline (λ m s. (quiet m s).reads_baseline);
  saves = λ label active images.
      beside C _ (q.saves label active images) (λ m s. (quiet m s).saves label active images);
}

module _ {W : Type 0} {env : Env W} {memory : W → Images} {opened : W → ℕ}
    (device : IsProgrammable env memory opened) {Q : W → Type 0}
    (stable : IsStable env (may_write (λ s. s == 0)) Q) (staging : List ℕ)
    (guarded : (sector : ℕ) (rest : List ℕ) (w : W)
      → Q w
      → memory w 0 ≡ staging
      → Q (env.onboard 6 (sector / 256 ∷ sector % 256 ∷ rest) w).1) where
  -- The staging directory is on the device.
  abbrev Staged : W → Type 0
  Staged w = Q w × (memory w 0 ≡ staging)

  Staged-IsStable : IsStable env read_only Staged
  Staged-IsStable = IsStable-beside (λ m s. m 0 ≡ staging) stable device.quiet

  -- The write of another sector has been started.
  module _ (sector : ℕ) (other : ¬ (0 ≡ sector)) where
    abbrev Started : W → Type 0
    Started w = Q w × ((memory w 0 ≡ staging) × (opened w ≡ sector))

    Started-IsStable : IsStable env read_only Started
    Started-IsStable = IsStable-beside (λ m s. (m 0 ≡ staging) × (s ≡ sector)) stable device.quiet

    continues-Keeps :
        (function : ℕ) (arguments : List ℕ)
        → elem function (7 ∷ 8 ∷ []) ≡ true
        → Keeps Started (env.onboard function arguments)
    continues-Keeps function arguments h = record {
      at = λ w s. (
        (stable.onboards function arguments (ground (arith, h))).at w s.0,
        (device.writes function arguments sector 0 staging h other).at w s.1,
      );
    }

    chunk-Keeps :
        (bytes : List ℕ) (offset : ℕ) → Keeps Started (write_chunk env sector bytes offset)
    unfolding write_chunk
    chunk-Keeps bytes offset = Keeps-bind _ _ (continues-Keeps 7 _ refl) (λ reply. Keeps-check _ _)

    start-Keeps :
        (rest : List ℕ) → Keeps Staged (env.onboard 6 (sector / 256 ∷ sector % 256 ∷ rest))
    start-Keeps rest = record {
      at = λ w h. (
        guarded sector rest w h.0 h.1,
        subst (λ m. m 0 ≡ staging) (sym ((device.starts _ (memory w)).at w refl)) h.1,
      );
    }

    rest-Keeps :
        (bytes : List ℕ) (start : Option (List ℕ))
        → Keeps Started (
            check (not (is_none start)) (write_start_failed sector) >>= λ u.
            for_each (steps_of_16 16 0) (write_chunk env sector bytes) >>= λ v.
            env.onboard 8 [] >>= λ x. read_sector env sector >>= λ readback.
            check (bytes_eq readback bytes) (readback_failed sector) >>= λ y. pure readback)
    rest-Keeps bytes start = Keeps-bind _ _ (Keeps-check _ _) (λ u.
        Keeps-bind _ _ (Keeps-for_each _ _ (chunk-Keeps bytes)) (λ v.
          Keeps-bind _ _ (continues-Keeps 8 _ refl) (λ x.
            Keeps-bind _ _ (read_sector-Keeps Started-IsStable sector)
              (λ readback. Keeps-bind _ _ (Keeps-check _ _) (λ y. Keeps-pure readback)))))

    write-Keeps : (bytes : List ℕ) → sector < 0x10000 → Keeps Staged (write_sector env sector bytes)
    unfolding write_sector
    write-Keeps bytes small = Keeps-bind _ _ (Keeps-check _ _) (λ u.
        Keeps-bind-Yields _ _ (start-Keeps _) (Yields-beside _ (start-Keeps _) (device.opens _))
          (λ start w h.
            let started : Started w = (h.0.0, (h.0.1, h.1 ∙ sector_bytes sector small)) in
            let ended = (rest-Keeps bytes start).at w started in (ended.0, ended.1.0)))

  content-Keeps :
      (manifest : Manifest) (target : Images) (sector : ℕ)
      → sector == 0 ≡ false
      → Keeps Staged (write_step env manifest target sector)
  content-Keeps manifest target sector other =
      write_step-Keeps_if Staged-IsStable manifest target sector (λ inside.
        write-Keeps sector (λ e. ground (arith, other)) (target sector)
          (programmable-lt sector inside))

  loop-Keeps :
      (manifest : Manifest) (target : Images) (sectors : List ℕ)
      → All (λ s. s == 0 ≡ false) sectors
      → All (λ s. Keeps Staged (write_step env manifest target s)) sectors
  loop-Keeps manifest target [] h = tt
  loop-Keeps manifest target (s ∷ sectors) h =
      (content-Keeps manifest target s h.0, loop-Keeps manifest target sectors h.1)

  contents-Keeps :
      (manifest : Manifest) (target : Images) → Keeps Staged (write_contents env manifest target)
  unfolding write_contents
  contents-Keeps manifest target =
      Keeps-bind _ _
        (Keeps-for_each_All _ _ (
          loop-Keeps manifest target global_macro_sectors
            (refl, (refl, (refl, (refl, (refl, (refl, (refl, (refl, tt))))))))))
        (λ u.
          Keeps-for_each_All _ _
            (loop-Keeps manifest target (3 ∷ 4 ∷ 5 ∷ 2 ∷ []) (refl, (refl, (refl, (refl, tt))))))

  directory-Keeps :
      (manifest : Manifest) (target : Images) → Keeps Q (write_step env manifest target 0)
  directory-Keeps manifest target = write_step-Keeps stable manifest target 0 (λ h. refl)

  module _ (is_device : IsDevice env memory) (manifest : Manifest) (target : Images)
      (options : Options W) (careful : Careful options Q) where
    recovery-Keeps : Keeps (λ w. memory w 0 ≡ staging) (validate_recovery_fresh env manifest)
    recovery-Keeps = record {
      at = λ w h.
          let same =
            (validate_recovery_fresh-Keeps (is_device.quiet (memory w)) manifest).at w refl in
          subst (λ m. m 0 ≡ staging) (sym same) h;
    }

    -- Where the write of the staging directory returns, the device has it.
    staging-Yields :
        Yields
          (λ w. Unit {0})
          (write_step env manifest (λ sector. staging) 0)
          (λ u w. memory w 0 ≡ staging)
    unfolding write_step
    staging-Yields =
        Yields-bind _ _
          (Yields-weaken _ (λ u w h. h.0) (fresh_write_sector-Yields is_device 0 staging manifest))
          (λ u. Yields-Keeps _ recovery-Keeps)

    writes-Keeps : Keeps Q (
        options.before_first_write >>= λ u. write_step env manifest (λ sector. staging) 0 >>= λ v.
        write_contents env manifest target >>= λ x. write_step env manifest target 0)
    writes-Keeps = Keeps-bind _ _ careful.first (λ u.
        Keeps-bind-Yields _ _ (directory-Keeps manifest _)
          (Yields-beside _ (directory-Keeps manifest _) staging-Yields)
          (λ v w h.
            Keeps-then _ _ (contents-Keeps manifest target) (λ z k. k.0)
              (λ x. directory-Keeps manifest target) w h))

    -- On a device that answers from its memory and programs the one sector whose write was started,
    -- whatever else it answers: a property of the world that no call but the start of a write to
    -- another sector than the directory can break, and not even that while the directory is the
    -- staging one, is kept by `write_all`, also where it raises. So the device has the staging
    -- directory at every start of a write to another sector.
    pub write_all-Keeps_staged :
        (directory : List ℕ)
        → build_directory directory (1 ∷ 2 ∷ []) ≡ ok staging
        → Keeps Q (write_all env manifest directory target options)
    unfolding write_all
    write_all-Keeps_staged directory built =
        Keeps-bind-Yields _ _ (Keeps-lift _) (Yields-lift _) (λ made w h.
          let same : made ≡ staging = unwrap (rw built at h.1) in rw same (writes-Keeps.at w h.0))
