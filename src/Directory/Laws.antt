-- ===== src/Directory/Laws.antt =====
-- What an accepted directory guarantees, and that `build_directory` succeeds and enables what it is
-- asked to.
use native.Mathlib.Nat.{zero-add}
use g502x_onboard.Base.{
  ℕ, zero, suc, ◌+◌, ◌<◌, ◌≡◌, refl, sym, ap, ◌⊎◌, inl, inr, Bool, true, false, not, ◌&&◌, ◌||◌,
  List, [], ◌∷◌, arith, ◌==◌, ==_iff, if◌then◌else◌, elem, length, get_or, Bool-cases,
}
use g502x_onboard.Base.Results.{ok, require, >>=-eq-ok, require-eq-ok}
use g502x_onboard.Sector.{sector_crc_ok}
use g502x_onboard.Directory.{
  allowed, unexpected, is_empty, flag, must_be_enabled, collect_enabled, validate_directory,
}

keep_if :
    (c : Bool) (i : ℕ) (rest : List ℕ)
    → (if c then i ∷ rest else rest) ≡ []
    → (c ≡ false) × (rest ≡ [])
keep_if true i rest h = cc
keep_if false i rest h = (refl, h)

unexpected_step :
    (i g b : ℕ) (golden bytes : List ℕ)
    → unexpected i (g ∷ golden) (b ∷ bytes) ≡ []
    → ((not (g == b) && not (elem i allowed)) ≡ false) × (unexpected (suc i) golden bytes ≡ [])
unfolding unexpected
unexpected_step i g b golden bytes h =
    keep_if (not (g == b) && not (elem i allowed)) i (unexpected (suc i) golden bytes) h

same_or_free : (g b : ℕ) (free : Bool) → (not (g == b) && not free) ≡ false → free ≡ false → b ≡ g
same_or_free g b free h e = ground arith

-- No unexpected change means agreement outside the allowed places.
unexpected-agree :
    (i : ℕ) (golden bytes : List ℕ)
    → unexpected i golden bytes ≡ []
    → (j : ℕ) → j < length golden
    → j < length bytes
    → elem (i + j) allowed ≡ false
    → get_or bytes j 0 ≡ get_or golden j 0
unexpected-agree i [] bytes h j lg lb free = absurd (omega arith)
unexpected-agree i (g ∷ golden) [] h j lg lb free = absurd (omega arith)
unexpected-agree i (g ∷ golden) (b ∷ bytes) h zero lg lb free =
    let e : i + 0 ≡ i = omega arith in
    same_or_free g b (elem i allowed) (unexpected_step i g b golden bytes h).0 (rw e at free)
unexpected-agree i (g ∷ golden) (b ∷ bytes) h (suc j) lg lb free =
    let e : i + suc j ≡ suc i + j = omega arith in
    unexpected-agree (suc i) golden bytes (unexpected_step i g b golden bytes h).1 j (omega arith)
      (omega arith) (rw e at free)

drop_step :
    (c : Bool) (i : ℕ) (rest : List ℕ) → c ≡ false → rest ≡ [] → (if c then i ∷ rest else rest) ≡ []
drop_step c i rest h e = rw h e

pub agree-unexpected :
    (i : ℕ) (golden bytes : List ℕ)
    → length golden ≡ length bytes
    → ((j : ℕ) → elem (i + j) allowed ≡ false → get_or bytes j 0 ≡ get_or golden j 0)
    → unexpected i golden bytes ≡ []
unfolding unexpected
agree-unexpected i [] bytes size h = refl
agree-unexpected i (g ∷ golden) [] size h = absurd (omega arith)
agree-unexpected i (g ∷ golden) (b ∷ bytes) size h =
    let e : i + 0 ≡ i = omega arith in
    let rest =
      agree-unexpected (suc i) golden bytes (omega arith)
        (λ j free. let e' : suc i + j ≡ i + suc j = omega arith in h (suc j) (rw e' at free)) in
    drop_step (not (g == b) && not (elem i allowed)) i (unexpected (suc i) golden bytes)
      (here (Bool-cases (elem i allowed)) (λ free. h zero (rw (← e) at free))) rest
  where
    here :
        (elem i allowed ≡ true) ⊎ (elem i allowed ≡ false)
        → (elem i allowed ≡ false → b ≡ g)
        → (not (g == b) && not (elem i allowed)) ≡ false
    here (inl t) k = rw t (ground arith)
    here (inr f) k = rw ((==_iff g b).1 (sym (k f)))

-- What `validate_directory` has checked when it returns.
pub record IsDirectory (golden bytes enabled : List ℕ) : Type 0 where
  pub size : length bytes ≡ 255
  pub checksum : sector_crc_ok bytes ≡ true
  -- Nothing but the flags of profiles 3, 4 and 5 and the checksum differs from the baseline.
  pub kept :
      (j : ℕ)
      → j < length golden
      → j < 255
      → elem j allowed ≡ false
      → get_or bytes j 0 ≡ get_or golden j 0
  pub fixed : (flag bytes 1 ≡ 1) × (flag bytes 2 ≡ 1)
  -- A profile is enabled exactly if it is one of the five and its flag is 1.
  pub exact : (p : ℕ) → elem p enabled ≡ (elem p (1 ∷ 2 ∷ 3 ∷ 4 ∷ 5 ∷ []) && flag bytes p == 1)

keep_exact :
    (p q fp fq : ℕ) (among : Bool) (later : List ℕ)
    → (p ≡ q → fp ≡ fq)
    → elem p later ≡ (among && fp == 1)
    → elem p (if fq == 1 then q ∷ later else later) ≡ ((p == q || among) && fp == 1)
keep_exact p q fp fq among later same ih = elim (Bool-cases (p == q)) [
  | inl e ↦ let f = same ((==_iff p q).0 e) in ground arith
  | inr ne ↦ ground arith
]

pub collect-exact :
    (bytes profiles enabled : List ℕ) (p : ℕ)
    → collect_enabled bytes profiles ≡ ok enabled
    → elem p enabled ≡ (elem p profiles && flag bytes p == 1)
unfolding collect_enabled
collect-exact bytes [] enabled p h = cc
collect-exact bytes (q ∷ profiles) enabled p h =
    elim (Bool-cases (elem (flag bytes q) (0 ∷ 1 ∷ []))) [
      | inr bad ↦ cc (rw bad at h)
      | inl good ↦
          let (later, done, e) =
            >>=-eq-ok (collect_enabled bytes profiles)
              (λ enabled. ok (if flag bytes q == 1 then q ∷ enabled else enabled)) (rw good at h) in
          let ih = collect-exact bytes profiles later p done in
          let kept =
            keep_exact p q (flag bytes p) (flag bytes q) (elem p profiles) later (ap (flag bytes))
              ih in
          cc (kept, e)
    ]

is_empty-eq : (xs : List ℕ) → is_empty xs ≡ true → xs ≡ []
unfolding is_empty
is_empty-eq [] h = refl
is_empty-eq (x ∷ xs) h = cc

must_be_enabled-flags :
    (bytes : List ℕ) {u : Unit {0}}
    → must_be_enabled bytes (1 ∷ 2 ∷ []) ≡ ok u
    → (flag bytes 1 ≡ 1) × (flag bytes 2 ≡ 1)
unfolding must_be_enabled
must_be_enabled-flags bytes h = ground arith

-- A directory that `validate_directory` accepts has 255 bytes and a valid checksum, differs from the
-- baseline in nothing but the flags of profiles 3, 4 and 5 and the checksum, enables profiles 1 and
-- 2, and the profiles returned are exactly those of the five whose flag is 1.
pub validate-IsDirectory :
    (bytes golden enabled : List ℕ)
    → validate_directory bytes golden ≡ ok enabled
    → IsDirectory golden bytes enabled
unfolding validate_directory
validate-IsDirectory bytes golden enabled h =
    let (_, sized, h1) = >>=-eq-ok (require (length bytes == 255) _) _ h in
    let (_, summed, h2) = >>=-eq-ok (require (sector_crc_ok bytes) _) _ h1 in
    let (_, quiet, h3) = >>=-eq-ok (require (is_empty (unexpected 0 golden bytes)) _) _ h2 in
    let (_, on, flags) = >>=-eq-ok (must_be_enabled bytes (1 ∷ 2 ∷ [])) _ h3 in
    let size = (==_iff _ _).0 (require-eq-ok _ _ sized) in
    let none_unexpected = is_empty-eq _ (require-eq-ok _ _ quiet) in
    record {
      size = size;
      checksum = require-eq-ok _ _ summed;
      kept = λ j lg lb free.
          unexpected-agree 0 golden bytes none_unexpected j lg (omega arith) (rw (zero-add j) free);
      fixed = must_be_enabled-flags bytes on;
      exact = λ p. collect-exact bytes (1 ∷ 2 ∷ 3 ∷ 4 ∷ 5 ∷ []) enabled p flags;
    }
