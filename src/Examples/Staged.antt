-- ===== src/Examples/Staged.antt =====
-- The order of the writes of g502x_onboard/device.py, at a device in memory.
use g502x_onboard.Base.{
  ℕ, ◌≡◌, ◌≢◌, refl, sym, ap, subst, ◌∙◌, true, false, List, [], ◌∷◌, ◌==◌, ==_iff, elem, get_or,
  arith, Bool-cases, inl, inr,
}
use g502x_onboard.Base.Lists.Writes.{get_or-set_ne}
use g502x_onboard.Base.Results.{ok}
use g502x_onboard.Base.Exec.Hoare.{Keeps}
use g502x_onboard.Directory.{build_directory}
use g502x_onboard.Device.{Images}
use g502x_onboard.Device.Transfer.{write_all}
use g502x_onboard.Device.Stable.{IsStable, may_write, call_allowed}
use g502x_onboard.Device.Staged.{is_content, IsProgrammable, write_all-Keeps_staged}
use g502x_onboard.Examples.Codec.{one_and_two}
use g502x_onboard.Examples.Simulator.{World, simulator, memory, fit, manifest, effect}
use g502x_onboard.Examples.Device.{stored, no_options}
use g502x_onboard.Examples.Transfer.{pages-effect, simulator-IsDevice, no_options-Careful}

abbrev of_pages : List (List ℕ) → Images
of_pages pages sector = fit (get_or pages sector [])

open-effect :
    (function : ℕ) (arguments : List ℕ) (w : World)
    → (function == 6) ≡ false
    → (effect function arguments w).open_page ≡ w.open_page
open-effect function arguments w h = elim (Bool-cases (function == 3)) [
  | inl a ↦ rw a refl
  | inr a ↦ elim (Bool-cases (function == 7)) [
    | inl b ↦ rw (a, h, b) refl
    | inr b ↦ elim (Bool-cases (function == 8)) [
      | inl c ↦ rw (a, h, b, c) refl
      | inr c ↦ rw (a, h, b, c) refl
    ]
  ]
]

-- The write of another page than the open one leaves it.
memory-set :
    (w : World) (other : ℕ) → w.open_page ≢ other → memory (effect 8 [] w) other ≡ memory w other
memory-set w other away = ap fit (get_or-set_ne w.pages w.open_page other w.buffer [] away)

continued :
    (function : ℕ) (arguments : List ℕ) (w : World) (sector other : ℕ) (bytes : List ℕ)
    → elem function (7 ∷ 8 ∷ []) ≡ true
    → ¬ (other ≡ sector)
    → (memory w other ≡ bytes) × (w.open_page ≡ sector)
    → (memory (effect function arguments w) other ≡ bytes)
      × ((effect function arguments w).open_page ≡ sector)
continued function arguments w sector other bytes h away k = elim (Bool-cases (function == 7)) [
  | inl a ↦
      subst
        (λ f.
          (memory (effect f arguments w) other ≡ bytes)
          × ((effect f arguments w).open_page ≡ sector))
        (sym ((==_iff function 7).0 a)) k
  | inr a ↦
      let eight : function ≡ 8 = ground (arith, a, h) in
      subst
        (λ f.
          (memory (effect f arguments w) other ≡ bytes)
          × ((effect f arguments w).open_page ≡ sector))
        (sym eight) (memory-set w other (λ e. away (sym e ∙ k.1)) ∙ k.0, k.1)
]

simulator-IsProgrammable : IsProgrammable (simulator stored) memory (λ w. w.open_page)
simulator-IsProgrammable = record {
  quiet = λ m sector. record {
    connects = λ pid index. record { at = λ w h. h };
    closes = λ w h. h;
    onboards = λ function arguments allowed. record {
      at = λ w h. (
        ap of_pages (pages-effect function arguments w (ground (arith, allowed))) ∙ h.0,
        open-effect function arguments w (ground (arith, allowed)) ∙ h.1,
      );
    };
    informs = λ function arguments. record { at = λ w h. h };
    names = record { at = λ w h. h };
    protocols = record { at = λ w h. h };
    lists_writers = record { at = λ w h. h };
    requires_baseline = record { at = λ w h. h };
    reads_manifest = record { at = λ w h. h };
    reads_baseline = record { at = λ w h. h };
    saves = λ label active checkpoint. record { at = λ w h. h };
  };
  starts = λ arguments m. record { at = λ w h. h };
  opens = λ arguments. record { at = λ w h. refl };
  writes = λ function arguments sector other bytes h away. record {
    at = λ w k. continued function arguments w sector other bytes h away k;
  };
}

-- While another sector than the directory is open, the directory is the staging one.
abbrev IsSafe : World → Type 0
IsSafe w = is_content w.open_page ≡ true → memory w 0 ≡ one_and_two

effect-IsSafe :
    (function : ℕ) (arguments : List ℕ) (w : World)
    → call_allowed (may_write (λ s. s == 0)) function arguments ≡ true
    → IsSafe w
    → IsSafe (effect function arguments w)
effect-IsSafe function arguments w may safe = elim (Bool-cases (function == 3)) [
  | inl a ↦ rw a safe
  | inr a ↦ elim (Bool-cases (function == 6)) [
    | inl b ↦ rw (a, b) (λ c. let zero_open = rw b at may in absurd (ground (arith, zero_open, c)))
    | inr b ↦ elim (Bool-cases (function == 7)) [
      | inl c ↦ rw (a, b, c) safe
      | inr c ↦ elim (Bool-cases (function == 8)) [
        | inl d ↦ rw (a, b, c, d) (λ k. memory-set w 0 (λ e. ground (arith, e, k)) ∙ safe k)
        | inr d ↦ rw (a, b, c, d) safe
      ]
    ]
  ]
]

simulator-IsSafe : IsStable (simulator stored) (may_write (λ s. s == 0)) IsSafe
simulator-IsSafe = record {
  connects = λ pid index. record { at = λ w h. h };
  closes = λ w h. h;
  onboards =
      λ function arguments may. record { at = λ w h. effect-IsSafe function arguments w may h };
  informs = λ function arguments. record { at = λ w h. h };
  names = record { at = λ w h. h };
  protocols = record { at = λ w h. h };
  lists_writers = record { at = λ w h. h };
  requires_baseline = record { at = λ w h. h };
  reads_manifest = record { at = λ w h. h };
  reads_baseline = record { at = λ w h. h };
  saves = λ label active checkpoint. record { at = λ w h. h };
}

staging-built : build_directory one_and_two (1 ∷ 2 ∷ []) ≡ ok one_and_two
unfolding g502x_onboard.Directory.build_directory g502x_onboard.Directory.collect_enabled
    g502x_onboard.Directory.enable_flag g502x_onboard.Directory.is_empty
    g502x_onboard.Directory.is_subset g502x_onboard.Directory.must_be_enabled
    g502x_onboard.Directory.store_byte g502x_onboard.Directory.unexpected
    g502x_onboard.Directory.validate_directory g502x_onboard.Directory.write_flags
    g502x_onboard.Sector.crc16_ccitt g502x_onboard.Sector.crc_bit g502x_onboard.Sector.crc_bits
    g502x_onboard.Sector.crc_from g502x_onboard.Sector.sector_crc_ok g502x_onboard.Sector.with_crc
staging-built = refl

write_all-Keeps_staged_example :
    Keeps IsSafe (write_all (simulator stored) manifest one_and_two stored no_options)
write_all-Keeps_staged_example =
    write_all-Keeps_staged simulator-IsProgrammable simulator-IsSafe one_and_two
      (λ sector rest w safe staged opened. staged) (simulator-IsDevice stored) manifest stored
      no_options no_options-Careful one_and_two staging-built
