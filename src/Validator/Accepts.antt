-- ===== src/Validator/Accepts.antt =====
-- What `validate_images` of g502x_onboard/validator.py guarantees where it reports no error.
use g502x_onboard.Base.{
  ℕ, ◌≡◌, refl, sym, subst, Bool, Option, none, some, true, false, List, [], ◌∷◌, ◌++◌, ==_iff,
  elem, length, bytes_eq, bytes_eq→eq, arith, All, Bool-cases, inl, inr,
}
use g502x_onboard.Base.Results.{Result, ok, err, >>=-eq-ok, unwrap, Result-cases}
use g502x_onboard.Constants.{recovery_sectors, programmable_profiles}
use g502x_onboard.CodecError.{CodecError}
use g502x_onboard.Sector.{sector_crc_ok}
use g502x_onboard.Directory.{validate_directory, is_empty}
use g502x_onboard.Directory.Laws.{IsDirectory, validate-IsDirectory}
use g502x_onboard.Vm.{Pages}
use g502x_onboard.Validator.{
  Complete, Invalid, Finding, ValidationReport, is_ok, no_errors, check_profiles, problems,
  collect_starts, sort_starts, macro_pages,
}
use g502x_onboard.Validator.Report.{
  sectors, missing, errors_of, is_sized, size_errors, recovery_errors, crc_errors, page_errors,
  enabled_of, directory_errors, validate_sized, validate_complete, image_of, bytes_or_empty,
  report_of, directory_of, read_baseline, failed, validate_images,
}
use g502x_onboard.Validator.Starts.{collected, sorted, walked}
use g502x_onboard.Validator.Sound.{ValidProfile, profiles-Valid}

-- Sixteen images that form a state of the device.
pub record IsState (images baseline : Complete) (enabled : List ℕ) : Type 0 where
  pub sizes : All (λ s. length (images s) ≡ 255) sectors
  pub recovery : All (λ s. images s ≡ baseline s) recovery_sectors
  pub directory : IsDirectory (baseline 0) (images 0) enabled
  pub sums : All (λ p. sector_crc_ok (images p) ≡ true) programmable_profiles
  pub profiles : All (λ p. elem p enabled ≡ true → ValidProfile images p) programmable_profiles

append-nil : {A : Type 0} (xs ys : List A) → xs ++ ys ≡ [] → (xs ≡ []) × (ys ≡ [])
append-nil [] ys h = (refl, h)
append-nil (x ∷ xs) ys h = absurd cc

pub no_errors→nil : (es : List Invalid) → no_errors es ≡ true → es ≡ []
no_errors→nil [] h = refl
no_errors→nil (e ∷ es) h = absurd cc

-- No error of a list of checks.
pub errors_of-nil :
    (fits : ℕ → Bool) (e : ℕ → Invalid) (xs : List ℕ)
    → errors_of fits e xs ≡ []
    → All (λ x. fits x ≡ true) xs
unfolding errors_of
errors_of-nil fits e [] h = tt
errors_of-nil fits e (x ∷ xs) h = elim (Bool-cases (fits x)) [
  | inl a ↦ (a, errors_of-nil fits e xs (rw a at h))
  | inr a ↦ let no : (e x ∷ errors_of fits e xs) ≡ [] = rw a at h in absurd cc
]

All-map : {P Q : ℕ → Type 0} (xs : List ℕ) → ((x : ℕ) → P x → Q x) → All P xs → All Q xs
All-map [] f h = tt
All-map (x ∷ xs) f h = (f x h.0, All-map xs f h.1)

directory_invalid-nil : (e : CodecError) → directory_errors (err e) ≡ [] → ⊥
directory_invalid-nil e h = cc

empty→nil : (xs : List ℕ) → is_empty xs ≡ true → xs ≡ []
unfolding is_empty
empty→nil [] h = refl
empty→nil (x ∷ xs) h = absurd cc

-- A report that stops early has an error.
failed-errors :
    (es : List Invalid) (report : ValidationReport)
    → no_errors es ≡ false
    → ◌≡◌ {A = Result CodecError ValidationReport} (ok (failed es)) (ok report)
    → is_ok report ≡ true
    → ⊥
failed-errors es report some_error h clean =
    let good = subst (λ r. is_ok r ≡ true) (unwrap h) clean in
    absurd (ground (arith, some_error, good))

golden-IsDirectory :
    (bytes golden : List ℕ)
    → directory_errors (validate_directory bytes golden) ≡ []
    → IsDirectory golden bytes (enabled_of (validate_directory bytes golden))
golden-IsDirectory bytes golden h = elim (Result-cases (validate_directory bytes golden)) [
  | inl (enabled, e) ↦ rw e (validate-IsDirectory bytes golden enabled e)
  | inr (e, raised) ↦ absurd (directory_invalid-nil e (rw raised at h))
]

enabled_of-IsDirectory :
    (images : Complete) (stored : Option (List ℕ))
    → directory_errors (directory_of images stored) ≡ []
    → IsDirectory (bytes_or_empty stored) (images 0) (enabled_of (directory_of images stored))
enabled_of-IsDirectory images none h = absurd (directory_invalid-nil _ h)
enabled_of-IsDirectory images (some golden) h = golden-IsDirectory (images 0) golden h

report-IsState :
    (images : Complete) (baseline : Pages) (findings : List Finding)
    → size_errors images ≡ []
    → check_profiles images (enabled_of (directory_of images (baseline 0))) programmable_profiles
      ≡ ok findings
    → (report_of images baseline findings).errors ≡ []
    → IsState images (image_of baseline) (report_of images baseline findings).enabled_profiles
unfolding report_of
report-IsState images baseline findings sized made clean =
    let (recovery, r1) = append-nil (recovery_errors images (image_of baseline)) _ clean in
    let (directory, r2) = append-nil (directory_errors (directory_of images (baseline 0))) _ r1 in
    let (sums, r3) = append-nil (crc_errors images) _ r2 in
    let (_, r4) = append-nil (page_errors images) _ r3 in
    let (found, chains) = append-nil (problems findings) _ r4 in
    let starts = collect_starts findings [] in
    let walks =
      sorted (macro_pages images) starts
        (walked (macro_pages images) (sort_starts starts) chains) in
    let all = collected (macro_pages images) findings [] found walks in
    record {
      sizes =
          All-map {P = λ s. is_sized images s ≡ true} {Q = λ s. length (images s) ≡ 255} sectors
            (λ s h. (==_iff (length (images s)) 255).0 h)
            (errors_of-nil (is_sized images) _ sectors sized);
      recovery =
          All-map {P = λ s. bytes_eq (images s) (image_of baseline s) ≡ true}
            {Q = λ s. images s ≡ image_of baseline s} recovery_sectors
            (λ s h. bytes_eq→eq (images s) (image_of baseline s) h)
            (errors_of-nil _ _ recovery_sectors recovery);
      directory = enabled_of-IsDirectory images (baseline 0) directory;
      sums = errors_of-nil _ _ programmable_profiles sums;
      profiles = profiles-Valid images _ programmable_profiles findings made all.0;
    }

sized-IsState :
    (images : Complete) (baseline : Pages) (report : ValidationReport)
    → size_errors images ≡ []
    → validate_sized images baseline ≡ ok report
    → report.errors ≡ []
    → IsState images (image_of baseline) report.enabled_profiles
unfolding validate_sized
sized-IsState images baseline report sized h clean =
    let (u, _, h1) = >>=-eq-ok (read_baseline baseline recovery_sectors) _ h in
    let (findings, made, done) = >>=-eq-ok (check_profiles images _ programmable_profiles) _ h1 in
    let same : report ≡ report_of images baseline findings = unwrap done in
    subst (λ r. IsState images (image_of baseline) r.enabled_profiles) (sym same)
      (report-IsState images baseline findings sized made (subst (λ r. r.errors ≡ []) same clean))

pub validate_images-IsState :
    (images baseline : Pages) (report : ValidationReport)
    → validate_images images baseline ≡ ok report
    → is_ok report ≡ true
    → (missing images sectors ≡ [])
      × IsState (image_of images) (image_of baseline) report.enabled_profiles
unfolding validate_images validate_complete
validate_images-IsState images baseline report h clean =
    let none_left = no_errors→nil report.errors clean in
    elim (Bool-cases (is_empty (missing images sectors))) [
      | inl a ↦ elim (Bool-cases (no_errors (size_errors (image_of images)))) [
        | inl b ↦ (
          empty→nil (missing images sectors) a,
          sized-IsState (image_of images) baseline report
              (no_errors→nil (size_errors (image_of images)) b) (rw (a, b) at h) none_left,
        )
        | inr b ↦ absurd (failed-errors _ report b (rw (a, b) at h) clean)
      ]
      | inr a ↦ absurd (failed-errors _ report refl (rw a at h) clean)
    ]
