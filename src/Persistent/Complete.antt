-- ===== src/Persistent/Complete.antt =====
-- When an execution succeeds: `_execute_accepted` of g502x_onboard/application/persistent.py against
-- what the backend did.
use g502x_onboard.Base.{
  ℕ, String, ◌≡◌, ◌↔◌, refl, sym, ap, ◌∙◌, Bool, true, false, ◌||◌, Option, subst, List, [], ◌∷◌,
  arith, true≢false, Bool-cases, inl, inr,
}
use g502x_onboard.Models.{
  PersistentPhase, confirming, revalidating, armed, writing, reconciling, post_validating,
  same_phase, PreparedOperation, PersistentExecutionResult,
}
use g502x_onboard.Persistent.{
  has_phase, last_is, add_phase, add_phases, terminal, BackendEnd, returned,
  cooperative_cancellation, backend_failed, raised, lifecycle_complete, conclude, execute_accepted,
}
use g502x_onboard.Persistent.Phases.{same_phase-eq, Emits, has_phase-Emits, Emits-has_phase}
use g502x_onboard.Persistent.Evidence.{has_phase-append, execute_accepted-IsEvident}

-- What makes an execution a success.
pub record IsWhole (is_cancelled : Bool) (emitted : List PersistentPhase) (ended : BackendEnd)
    (profiles : List ℕ) (backup : Option String) : Type 0 where
  pub not_cancelled : is_cancelled ≡ false
  pub was_armed : Emits emitted armed
  pub wrote : Emits emitted writing
  pub reconciled : Emits emitted reconciling
  pub validated : Emits emitted post_validating
  pub is_returned : ended ≡ returned profiles backup true true

or_right : (a : Bool) {b : Bool} → b ≡ true → (a || b) ≡ true
or_right true h = refl
or_right false h = h

last_is-has_phase :
    (phase : PersistentPhase) (trace : List PersistentPhase)
    → last_is phase trace ≡ true
    → has_phase phase trace ≡ true
unfolding last_is has_phase
last_is-has_phase phase [] l = l
last_is-has_phase phase (first ∷ []) l =
    Emits-has_phase phase (first ∷ []) (inl (same_phase-eq first phase l))
last_is-has_phase phase (first ∷ next ∷ trace) l =
    or_right (same_phase phase first) (last_is-has_phase phase (next ∷ trace) l)

has_phase-add_phase_lem :
    (phase other : PersistentPhase) (trace : List PersistentPhase)
    → has_phase phase (add_phase trace other) ≡ (has_phase phase trace || same_phase phase other)
unfolding add_phase
has_phase-add_phase_lem phase other trace = elim (Bool-cases (last_is other trace)) [
  | inr l ↦ rw l (has_phase-append phase other trace)
  | inl l ↦ elim (Bool-cases (same_phase phase other)) [
    | inl s ↦
        let same = same_phase-eq phase other s in
        let had =
          subst (λ p. has_phase p trace ≡ true) (sym same) (last_is-has_phase other trace l) in
        ground arith
    | inr s ↦ ground arith
  ]
]

or_assoc : (a b c : Bool) → ((a || b) || c) ≡ (a || (b || c))
or_assoc true b c = refl
or_assoc false b c = refl

has_phase-add_phases :
    (phase : PersistentPhase) (trace emitted : List PersistentPhase)
    → has_phase phase (add_phases trace emitted)
      ≡ (has_phase phase trace || has_phase phase emitted)
unfolding add_phases has_phase
has_phase-add_phases phase trace [] = ground arith
has_phase-add_phases phase trace (first ∷ emitted) =
    has_phase-add_phases phase (add_phase trace first) emitted
    ∙ (ap (λ b. b || has_phase phase emitted) (has_phase-add_phase_lem phase first trace)
        ∙ or_assoc (has_phase phase trace) _ _)

-- The trace that `execute_prepared` starts with has none of the four phases.
emitted-has_phase :
    (phase : PersistentPhase) (emitted : List PersistentPhase)
    → has_phase phase (add_phase (confirming ∷ []) revalidating) ≡ false
    → has_phase phase (add_phases (add_phase (confirming ∷ []) revalidating) emitted)
      ≡ has_phase phase emitted
emitted-has_phase phase emitted h =
    has_phase-add_phases phase (add_phase (confirming ∷ []) revalidating) emitted
    ∙ ap (λ b. b || has_phase phase emitted) h

start-quiet :
    (has_phase armed (add_phase (confirming ∷ []) revalidating) ≡ false)
    × (has_phase writing (add_phase (confirming ∷ []) revalidating) ≡ false)
    × (has_phase reconciling (add_phase (confirming ∷ []) revalidating) ≡ false)
    × (has_phase post_validating (add_phase (confirming ∷ []) revalidating) ≡ false)
unfolding has_phase add_phase last_is
start-quiet = (refl, refl, refl, refl)

-- The result of a success, with the two things that the backend returned.
pub record Succeeds (r : PersistentExecutionResult) (profiles : List ℕ) (backup : Option String)
    : Type 0 where
  pub success : r.success ≡ true
  pub profiles_of : r.enabled_profiles ≡ profiles
  pub backup_of : r.safety_backup_name ≡ backup

conclude-Succeeds :
    (operation : PreparedOperation) (trace : List PersistentPhase) (profiles : List ℕ)
    (backup : Option String)
    → lifecycle_complete trace ≡ true
    → Succeeds (conclude operation trace (returned profiles backup true true)) profiles backup
unfolding conclude terminal
conclude-Succeeds operation trace profiles backup h = record {
  success = ground arith;
  profiles_of = ground arith;
  backup_of = ground arith;
}

conclude-success :
    (operation : PreparedOperation) (trace : List PersistentPhase) (ended : BackendEnd)
    → (conclude operation trace ended).success ≡ true
    → (profiles : List ℕ) × (backup : Option String) × (ended ≡ returned profiles backup true true)
      × (lifecycle_complete trace ≡ true)
unfolding conclude terminal
conclude-success operation trace cooperative_cancellation h = ground arith
conclude-success operation trace (backend_failed reconciled validated) h = ground arith
conclude-success operation trace raised h = ground arith
conclude-success operation trace (returned profiles backup true true) h =
    (profiles, backup, refl, ground arith)
conclude-success operation trace (returned profiles backup true false) h = ground arith
conclude-success operation trace (returned profiles backup false validated) h = ground arith

conclude-writing :
    (operation : PreparedOperation) (trace : List PersistentPhase) (ended : BackendEnd)
    → (conclude operation trace ended).writing_started ≡ has_phase writing trace
unfolding conclude terminal
conclude-writing operation trace cooperative_cancellation = refl
conclude-writing operation trace (backend_failed reconciled validated) = refl
conclude-writing operation trace raised = refl
conclude-writing operation trace (returned profiles backup reconciled validated) = ground arith

-- The four phases are in the trace exactly if the backend emits them.
emits_all :
    (emitted : List PersistentPhase)
    → lifecycle_complete (add_phases (add_phase (confirming ∷ []) revalidating) emitted)
      ≡ lifecycle_complete emitted
emits_all emitted =
    let (a, w, r, v) = start-quiet in
    rw
      (
        emitted-has_phase armed emitted a,
        emitted-has_phase writing emitted w,
        emitted-has_phase reconciling emitted r,
        emitted-has_phase post_validating emitted v,
      )
      refl

IsWhole-lifecycle_complete :
    {emitted : List PersistentPhase} {ended : BackendEnd} {profiles : List ℕ}
    {backup : Option String}
    → IsWhole false emitted ended profiles backup
    → lifecycle_complete emitted ≡ true
IsWhole-lifecycle_complete w =
    let a = Emits-has_phase armed _ w.was_armed in
    let b = Emits-has_phase writing _ w.wrote in
    let c = Emits-has_phase reconciling _ w.reconciled in
    let d = Emits-has_phase post_validating _ w.validated in ground arith

lifecycle_complete-IsWhole :
    {emitted : List PersistentPhase} {ended : BackendEnd} {profiles : List ℕ}
    {backup : Option String}
    → ended ≡ returned profiles backup true true
    → lifecycle_complete emitted ≡ true
    → IsWhole false emitted ended profiles backup
lifecycle_complete-IsWhole e h = record {
  not_cancelled = refl;
  was_armed = has_phase-Emits armed _ (ground arith);
  wrote = has_phase-Emits writing _ (ground arith);
  reconciled = has_phase-Emits reconciling _ (ground arith);
  validated = has_phase-Emits post_validating _ (ground arith);
  is_returned = e;
}

-- What the result of an execution says, and what the backend did.
pub record IsAccounted (is_cancelled : Bool) (emitted : List PersistentPhase) (ended : BackendEnd)
    (r : PersistentExecutionResult) : Type 0 where
  pub succeeds :
      (profiles : List ℕ) (backup : Option String)
      → IsWhole is_cancelled emitted ended profiles backup
      → Succeeds r profiles backup
  pub whole :
      r.success ≡ true
      → (profiles : List ℕ) × (backup : Option String) × IsWhole is_cancelled emitted ended profiles
          backup
  pub writes : (r.writing_started ≡ true) ↔ ((is_cancelled ≡ false) × Emits emitted writing)
  pub validates : r.post_validation_completed ≡ true → r.reconciliation_completed ≡ true
  pub ends : last_is r.terminal_phase r.phase_trace ≡ true

-- The result of an accepted execution, whatever the backend emits and however it ends: it is a
-- success exactly if the execution was not cancelled, the backend emits the armed, writing,
-- reconciling and validating phases and returns with its reconciliation and its validation complete,
-- and it then has the profiles and the safety backup that the backend returned; it says that writing
-- started exactly if the execution was not cancelled and the backend emits the writing phase; it
-- claims validation after reconciliation alone; and its trace ends in its terminal phase.
pub execute_accepted-IsAccounted :
    (operation : PreparedOperation) (is_cancelled : Bool) (emitted : List PersistentPhase)
    (ended : BackendEnd)
    → IsAccounted is_cancelled emitted ended
        (execute_accepted operation is_cancelled (emitted, ended))
unfolding execute_accepted terminal
execute_accepted-IsAccounted operation true emitted ended =
    let evident = execute_accepted-IsEvident operation true (emitted, ended) in
    record {
      succeeds = λ profiles backup w. absurd (true≢false w.not_cancelled);
      whole = λ h. ground arith;
      writes = (λ h. ground arith, λ w. absurd (true≢false w.0));
      validates = evident.validated;
      ends = evident.ended;
    }
execute_accepted-IsAccounted operation false emitted ended =
    let evident = execute_accepted-IsEvident operation false (emitted, ended) in
    let all = emits_all emitted in
    let started =
      conclude-writing operation _ ended ∙ emitted-has_phase writing emitted start-quiet.1 in
    record {
      succeeds = λ profiles backup w.
          rw w.is_returned
            (conclude-Succeeds operation _ profiles backup (all ∙ IsWhole-lifecycle_complete w));
      whole = λ h.
          let (profiles, backup, e, c) = conclude-success operation _ ended h in
          (profiles, backup, lifecycle_complete-IsWhole e (sym all ∙ c));
      writes = (
        λ h. (refl, has_phase-Emits writing emitted (sym started ∙ h)),
        λ w. started ∙ Emits-has_phase writing emitted w.1,
      );
      validates = evident.validated;
      ends = evident.ended;
    }
