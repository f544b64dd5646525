-- ===== src/Persistent/Phases.antt =====
-- The phases of an execution, and those that g502x_onboard/tui/update.py lets follow on one another
-- (`_PROGRESS_NEXT` and `_accept_progress`), stated without the code's tests.
use g502x_onboard.Base.{
  ℕ, ◌≡◌, ◌≢◌, refl, sym, ap, subst, ◌∙◌, true, false, some, Exists, List, [], ◌∷◌, ◌==◌,
  if◌then◌else◌, arith, inl, inr, Bool-cases, ==_iff,
}
use g502x_onboard.Models.{
  PersistentPhase, preparing, prepared, reviewing, confirming, revalidating, armed, writing,
  reconciling, post_validating, succeeded, failed, phase_rank, same_phase,
}
use g502x_onboard.Tui.Model.{is_terminal_phase}
use g502x_onboard.Tui.Operations.{progress_next, is_phase, accept_progress}
use g502x_onboard.Persistent.{has_phase}

unfoldable phase_at : ℕ → PersistentPhase
phase_at n =
    if n == 0
    then preparing
    else if n == 1
    then prepared
    else if n == 2
    then reviewing
    else if n == 3
    then confirming
    else if n == 4
    then revalidating
    else if n == 5
    then armed
    else if n == 6
    then writing
    else if n == 7
    then reconciling
    else if n == 8
    then post_validating
    else if n == 9
    then succeeded
    else failed

phase_at-phase_rank : (phase : PersistentPhase) → phase_at (phase_rank phase) ≡ phase
unfolding phase_at
phase_at-phase_rank preparing = refl
phase_at-phase_rank prepared = refl
phase_at-phase_rank reviewing = refl
phase_at-phase_rank confirming = refl
phase_at-phase_rank revalidating = refl
phase_at-phase_rank armed = refl
phase_at-phase_rank writing = refl
phase_at-phase_rank reconciling = refl
phase_at-phase_rank post_validating = refl
phase_at-phase_rank succeeded = refl
phase_at-phase_rank failed = refl

pub same_phase-eq : (a b : PersistentPhase) → same_phase a b ≡ true → a ≡ b
same_phase-eq a b same =
    sym (phase_at-phase_rank a) ∙ (ap phase_at ((==_iff _ _).0 same) ∙ phase_at-phase_rank b)

pub same_phase_refl : (phase : PersistentPhase) → same_phase phase phase ≡ true
same_phase_refl phase = ground arith

-- A phase is among those that a backend emits.
abbrev pub Emits : List PersistentPhase → PersistentPhase → Type 0
Emits emitted phase = Exists (λ other. other ≡ phase) emitted

pub has_phase-Emits :
    (phase : PersistentPhase) (emitted : List PersistentPhase)
    → has_phase phase emitted ≡ true
    → Emits emitted phase
unfolding has_phase
has_phase-Emits phase [] h = ground arith
has_phase-Emits phase (first ∷ rest) h = elim (Bool-cases (same_phase phase first)) [
  | inl same ↦ inl (sym (same_phase-eq phase first same))
  | inr differs ↦ inr (has_phase-Emits phase rest (ground arith))
]

pub Emits-has_phase :
    (phase : PersistentPhase) (emitted : List PersistentPhase)
    → Emits emitted phase
    → has_phase phase emitted ≡ true
unfolding has_phase
Emits-has_phase phase [] e = absurd e
Emits-has_phase phase (first ∷ rest) (inl e) = let same = same_phase_refl phase in ground arith
Emits-has_phase phase (first ∷ rest) (inr e) = let ih = Emits-has_phase phase rest e in ground arith

-- The edges along which an execution moves; a phase that is no end of it may be shown again.
pub data NextPhase : PersistentPhase → PersistentPhase → Type 0 where
  revalidates : NextPhase confirming revalidating
  arms : NextPhase revalidating armed
  writes : NextPhase armed writing
  reconciles : NextPhase writing reconciling
  validates : NextPhase reconciling post_validating
  stays : {phase : PersistentPhase} → phase ≢ succeeded → phase ≢ failed → NextPhase phase phase

advances :
    (phase next : PersistentPhase)
    → is_phase (progress_next phase) next ≡ true
    → NextPhase phase next
advances confirming next h = subst (NextPhase confirming) (same_phase-eq _ _ h) revalidates
advances revalidating next h = subst (NextPhase revalidating) (same_phase-eq _ _ h) arms
advances armed next h = subst (NextPhase armed) (same_phase-eq _ _ h) writes
advances writing next h = subst (NextPhase writing) (same_phase-eq _ _ h) reconciles
advances reconciling next h = subst (NextPhase reconciling) (same_phase-eq _ _ h) validates
advances _ next h = ground arith

stays_at :
    (phase next : PersistentPhase)
    → is_terminal_phase (some phase) ≡ false
    → same_phase next phase ≡ true
    → NextPhase phase next
stays_at phase next t same =
    subst (NextPhase phase) (sym (same_phase-eq next phase same))
      (stays (λ e. ground arith) (λ e. ground arith))

goes_on :
    (phase : PersistentPhase)
    → phase ≢ succeeded
    → phase ≢ failed
    → is_terminal_phase (some phase) ≡ false
goes_on succeeded s f = absurd (s refl)
goes_on failed s f = absurd (f refl)
goes_on _ s f = refl

pub accept_progress-NextPhase :
    (phase next : PersistentPhase) → accept_progress (some phase) next ≡ true → NextPhase phase next
unfolding accept_progress
accept_progress-NextPhase phase next h = elim (Bool-cases (same_phase next phase)) [
  | inl same ↦ stays_at phase next (ground arith) same
  | inr differs ↦ advances phase next (ground arith)
]

pub NextPhase-accept_progress :
    (phase next : PersistentPhase) → NextPhase phase next → accept_progress (some phase) next ≡ true
unfolding accept_progress
NextPhase-accept_progress _ _ revalidates = refl
NextPhase-accept_progress _ _ arms = refl
NextPhase-accept_progress _ _ writes = refl
NextPhase-accept_progress _ _ reconciles = refl
NextPhase-accept_progress _ _ validates = refl
NextPhase-accept_progress phase _ (stays s f) =
    let same = same_phase_refl phase in let going = goes_on phase s f in ground arith
