-- ===== src/Examples/Transfer.antt =====
-- The theorems on the transactions of g502x_onboard/device.py, at a device in memory.
use g502x_onboard.Base.{
  ℕ, ◌+◌, ◌*◌, ◌/◌, ◌%◌, ◌≤◌, ◌<◌, ◌≡◌, ◌≢◌, refl, ap, subst, ◌∙◌, Bool, true, false, some, List,
  [], ◌∷◌, ◌++◌, ◌==◌, elem, get_or, take, drop, replicate, length, length-append, length-take,
  arith, Bool-cases, inl, inr, All,
}
use g502x_onboard.Base.Lists.Cuts.{take-take}
use g502x_onboard.Base.Lists.Writes.{get_or-set_ne}
use g502x_onboard.Base.Exec.Hoare.{Keeps, Keeps-pure}
use g502x_onboard.Base.Exec.Yields.{Yields, Yields-pure}
use g502x_onboard.Constants.{global_macro_sectors, programmable_profiles, programmable_sectors}
use g502x_onboard.Sector.{pack_be16}
use g502x_onboard.Device.{Images}
use g502x_onboard.Device.Page.{read_sector}
use g502x_onboard.Device.Write.{fresh_write_sector}
use g502x_onboard.Device.Transfer.{apply_plan, restore_baseline, restore_backup}
use g502x_onboard.Device.Stable.{IsStable, read_only, may_write, call_allowed}
use g502x_onboard.Device.Safety.{programmable}
use g502x_onboard.Device.Confined.{
  Careful, apply_plan-Keeps, restore_baseline-Keeps, restore_backup-Keeps,
}
use g502x_onboard.Device.Memory.{IsReadable, Carries, read_sector-Yields}
use g502x_onboard.Device.Success.{IsDevice, HasBaseline, apply_plan-Yields, restore_baseline-Yields}
use g502x_onboard.Device.Written.{fresh_write_sector-Yields}
use g502x_onboard.Device.Restored.{Restorable, restore_backup-Yields}
use g502x_onboard.Examples.Validator.{some_state}
use g502x_onboard.Base.Exec.{pure}
use g502x_onboard.Examples.Simulator.{World, simulator, memory, fit, manifest, answer, effect}
use g502x_onboard.Examples.Device.{stored, no_options, page_of_ones}

length-fit : (bytes : List ℕ) → length (fit bytes) ≡ 255
length-fit bytes =
    omega (
      arith,
      length-take 255 (bytes ++ replicate 255 0xFF),
      length-append bytes (replicate 255 0xFF),
    )

pub pages-effect :
    (function : ℕ) (arguments : List ℕ) (w : World)
    → (function == 8) ≡ false
    → (effect function arguments w).pages ≡ w.pages
pages-effect function arguments w h = elim (Bool-cases (function == 3)) [
  | inl a ↦ rw a refl
  | inr a ↦ elim (Bool-cases (function == 6)) [
    | inl b ↦ rw (a, b) refl
    | inr b ↦ elim (Bool-cases (function == 7)) [
      | inl c ↦ rw (a, b, c) refl
      | inr c ↦ rw (a, b, c, h) refl
    ]
  ]
]

-- A page that was read.
carried-answer :
    (m : Images) (w : World) (sector offset : ℕ)
    → memory w ≡ m
    → sector < 16
    → offset + 16 ≤ 255
    → Carries (m sector) offset (some (answer 5 (pack_be16 sector ++ pack_be16 offset) w))
carried-answer m w sector offset e small inside =
    let low : sector / 256 * 256 + sector % 256 ≡ sector = omega arith in
    let there : offset / 256 * 256 + offset % 256 ≡ offset = omega arith in
    take-take 16 16 _ (omega arith) ∙ rw (low, there) (ap (λ f. take 16 (drop offset (f sector))) e)

simulator-IsReadable : (images : Images) → IsReadable (simulator images) memory
simulator-IsReadable images = record {
  size = λ w sector. length-fit (get_or w.pages sector []);
  answers = λ m sector offset small inside. record {
    at = λ w h. (h, carried-answer m w sector offset h small inside);
  };
}

simulator-quiet : (images m : Images) → IsStable (simulator images) read_only (λ w. memory w ≡ m)
simulator-quiet images m = record {
  connects = λ pid index. record { at = λ w h. h };
  closes = λ w h. h;
  onboards = λ function arguments allowed. record {
    at = λ w h.
        ap (λ pages sector. fit (get_or pages sector []))
          (pages-effect function arguments w (ground (arith, allowed)))
        ∙ h;
  };
  informs = λ function arguments. record { at = λ w h. h };
  names = record { at = λ w h. h };
  protocols = record { at = λ w h. h };
  lists_writers = record { at = λ w h. h };
  requires_baseline = record { at = λ w h. h };
  reads_manifest = record { at = λ w h. h };
  reads_baseline = record { at = λ w h. h };
  saves = λ label active checkpoint. record { at = λ w h. h };
}

pub simulator-IsDevice : (images : Images) → IsDevice (simulator images) memory
simulator-IsDevice images = record {
  readable = simulator-IsReadable images;
  quiet = simulator-quiet images;
}

stored-HasBaseline : HasBaseline (simulator stored) stored
stored-HasBaseline = record { reads = record { at = λ w h. refl } }

apply_plan-Yields_example :
    Yields
      (λ w. Unit {0})
      (apply_plan (simulator stored) stored no_options)
      (λ backup w.
        All (λ s. memory w s ≡ stored s) (0 ∷ (global_macro_sectors ++ programmable_profiles)))
apply_plan-Yields_example = apply_plan-Yields (simulator-IsDevice stored) stored no_options

restore_baseline-Yields_example :
    Yields
      (λ w. Unit {0})
      (restore_baseline (simulator stored) (λ bytes. "digest") no_options)
      (λ backup w. (sector : ℕ) → sector < 16 → memory w sector ≡ stored sector)
restore_baseline-Yields_example =
    restore_baseline-Yields (simulator-IsDevice stored) stored-HasBaseline (λ bytes. "digest")
      no_options

fresh_write_sector-Yields_example :
    Yields
      (λ w. Unit {0})
      (fresh_write_sector (simulator stored) manifest 9 page_of_ones)
      (λ u w.
        (memory w 9 ≡ page_of_ones)
        × ((elem 9 programmable_sectors ≡ true) × (manifest.write_allowed ≡ true)))
fresh_write_sector-Yields_example =
    fresh_write_sector-Yields (simulator-IsDevice stored) 9 page_of_ones manifest

read_sector-Yields_example :
    Yields
      (λ w. memory w ≡ stored)
      (read_sector (simulator stored) 9)
      (λ page w. (memory w ≡ stored) × (page ≡ stored 9))
read_sector-Yields_example = read_sector-Yields (simulator-IsReadable stored) stored 9

-- A programmable sector is open, if one is, and sector 1 holds the page.
record Guarded (page : List ℕ) (allowed : ℕ → Bool) (w : World) : Type 0 where
  outside : allowed w.open_page ≡ true
  holds : memory w 1 ≡ page

Guarded-effect :
    (page : List ℕ) (allowed : ℕ → Bool) (function : ℕ) (arguments : List ℕ) (w : World)
    → allowed 1 ≡ false
    → call_allowed (may_write allowed) function arguments ≡ true
    → Guarded page allowed w
    → Guarded page allowed (effect function arguments w)
Guarded-effect page allowed function arguments w one may g = elim (Bool-cases (function == 3)) [
  | inl a ↦ rw a record { outside = g.outside; holds = g.holds }
  | inr a ↦ elim (Bool-cases (function == 6)) [
    | inl b ↦ rw (a, b) record { outside = (rw b at may); holds = g.holds }
    | inr b ↦ elim (Bool-cases (function == 7)) [
      | inl c ↦ rw (a, b, c) record { outside = g.outside; holds = g.holds }
      | inr c ↦ elim (Bool-cases (function == 8)) [
        | inl d ↦
            let away : w.open_page ≢ 1 = λ e.
              let t = subst (λ p. allowed p ≡ true) e g.outside in
              absurd (ground (arith, one, t)) in
            rw (a, b, c, d)
              record {
                outside = g.outside;
                holds = ap fit (get_or-set_ne w.pages w.open_page 1 w.buffer [] away) ∙ g.holds;
              }
        | inr d ↦ rw (a, b, c, d) g
      ]
    ]
  ]
]

module _ (images : Images) (page : List ℕ) (allowed : ℕ → Bool) (one : allowed 1 ≡ false) where
  simulator-Guarded : IsStable (simulator images) (may_write allowed) (Guarded page allowed)
  simulator-Guarded = record {
    connects = λ pid index. record { at = λ w h. h };
    closes = λ w h. h;
    onboards = λ function arguments may. record {
      at = λ w h. Guarded-effect page allowed function arguments w one may h;
    };
    informs = λ function arguments. record { at = λ w h. h };
    names = record { at = λ w h. h };
    protocols = record { at = λ w h. h };
    lists_writers = record { at = λ w h. h };
    requires_baseline = record { at = λ w h. h };
    reads_manifest = record { at = λ w h. h };
    reads_baseline = record { at = λ w h. h };
    saves = λ label active checkpoint. record { at = λ w h. h };
  }

pub no_options-Careful : {P : World → Type 0} → Careful no_options P
no_options-Careful = record { first = record { at = λ w h. h }; last = record { at = λ w h. h } }

apply_plan-Keeps_example :
    Keeps (Guarded page_of_ones programmable) (apply_plan (simulator stored) stored no_options)
apply_plan-Keeps_example =
    apply_plan-Keeps no_options no_options-Careful
      (simulator-Guarded stored page_of_ones programmable refl) stored

restore_baseline-Keeps_example :
    Keeps
      (Guarded page_of_ones programmable)
      (restore_baseline (simulator stored) (λ bytes. "digest") no_options)
restore_baseline-Keeps_example =
    restore_baseline-Keeps no_options no_options-Careful
      (simulator-Guarded stored page_of_ones programmable refl) (λ bytes. "digest")

restore_backup-Keeps_example :
    Keeps
      (Guarded page_of_ones programmable)
      (restore_backup (simulator stored) (pure stored) (λ bytes. "digest") no_options)
restore_backup-Keeps_example =
    restore_backup-Keeps no_options no_options-Careful
      (simulator-Guarded stored page_of_ones programmable refl) (pure stored) (λ bytes. "digest")
      (Keeps-pure stored)

restore_backup-Yields_example :
    Yields
      (λ w. Unit {0})
      (restore_backup (simulator stored) (pure some_state) (λ bytes. "digest") no_options)
      (λ result w.
        Restorable some_state stored × All (λ s. memory w s ≡ some_state s) programmable_sectors)
restore_backup-Yields_example =
    restore_backup-Yields (simulator-IsDevice stored) stored-HasBaseline some_state
      (pure some_state) (λ bytes. "digest") no_options (Yields-pure some_state (λ w h. refl))
