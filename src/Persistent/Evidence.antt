-- ===== src/Persistent/Evidence.antt =====
-- What the result of an execution says of the phases that were reached.
use g502x_onboard.Base.{
  String, ◌≡◌, refl, Bool, true, false, not, ◌&&◌, ◌||◌, Option, List, [], ◌∷◌, ◌++◌, if◌then◌else◌,
  arith,
}
use g502x_onboard.Models.{
  ErrorCode, PersistentPhase, confirming, revalidating, armed, writing, reconciling,
  post_validating, succeeded, failed, same_phase, PreparedOperation, PersistentExecutionResult,
}
use g502x_onboard.Tui.Endings.{success_consistent}
use g502x_onboard.Persistent.{
  has_phase, last_is, add_phase, Reached, terminal, BackendEnd, returned, cooperative_cancellation,
  backend_failed, raised, BackendRun, lifecycle_complete, conclude, execute_accepted, no_evidence,
}

pub has_phase-append :
    (phase other : PersistentPhase) (trace : List PersistentPhase)
    → has_phase phase (trace ++ other ∷ []) ≡ (has_phase phase trace || same_phase phase other)
unfolding has_phase
has_phase-append phase other [] = ground arith
has_phase-append phase other (first ∷ trace) =
    let ih = has_phase-append phase other trace in ground arith

pub has_phase-add_phase :
    (phase other : PersistentPhase) (trace : List PersistentPhase)
    → same_phase phase other ≡ false
    → has_phase phase (add_phase trace other) ≡ has_phase phase trace
unfolding add_phase
has_phase-add_phase phase other trace h =
    let appended = has_phase-append phase other trace in ground arith

last_is-append :
    (phase : PersistentPhase) (trace : List PersistentPhase)
    → last_is phase (trace ++ phase ∷ []) ≡ true
unfolding last_is
last_is-append phase [] = ground arith
last_is-append phase (first ∷ []) = ground arith
last_is-append phase (first ∷ next ∷ trace) = last_is-append phase (next ∷ trace)

pub last_is-add_phase :
    (phase : PersistentPhase) (trace : List PersistentPhase)
    → last_is phase (add_phase trace phase) ≡ true
unfolding add_phase
last_is-add_phase phase trace = let appended = last_is-append phase trace in ground arith

-- What a result may claim.
pub record IsEvident (r : PersistentExecutionResult) : Type 0 where
  pub consistent : r.success ≡ success_consistent r
  pub wrote : r.writing_started ≡ has_phase writing r.phase_trace
  pub validated : r.post_validation_completed ≡ true → r.reconciliation_completed ≡ true
  pub complete : r.success ≡ true → lifecycle_complete r.phase_trace ≡ true
  pub ended : last_is r.terminal_phase r.phase_trace ≡ true

-- The claims of an evidence, given the trace that it is about.
terminal-IsEvident :
    (operation : PreparedOperation) (success : Bool) (status : String) (code : Option ErrorCode)
    (message : String) (trace : List PersistentPhase) (e : Reached)
    → e.writing_started ≡ has_phase writing trace
    → (e.post_validation_completed ≡ true → e.reconciliation_completed ≡ true)
    → (success ≡ true → (lifecycle_complete trace ≡ true) × (e.post_validation_completed ≡ true))
    → IsEvident (terminal operation success status code message trace e)
unfolding terminal
terminal-IsEvident operation true status code message trace e w v c =
    let a = has_phase-add_phase armed succeeded trace refl in
    let b = has_phase-add_phase writing succeeded trace refl in
    let d = has_phase-add_phase reconciling succeeded trace refl in
    let f = has_phase-add_phase post_validating succeeded trace refl in
    let whole = c refl in
    let reconciled = v whole.1 in
    record {
      consistent = ground arith;
      wrote = ground arith;
      validated = v;
      complete = λ s. ground arith;
      ended = last_is-add_phase succeeded trace;
    }
terminal-IsEvident operation false status code message trace e w v c =
    let b = has_phase-add_phase writing failed trace refl in
    record {
      consistent = refl;
      wrote = ground arith;
      validated = v;
      complete = λ s. ground arith;
      ended = last_is-add_phase failed trace;
    }

if-IsEvident :
    (whole : Bool) {refused completed : PersistentExecutionResult}
    → (whole ≡ false → IsEvident refused)
    → (whole ≡ true → IsEvident completed)
    → IsEvident (if not whole then refused else completed)
if-IsEvident true f t = t refl
if-IsEvident false f t = f refl

conclude-IsEvident :
    (operation : PreparedOperation) (trace : List PersistentPhase) (ended : BackendEnd)
    → IsEvident (conclude operation trace ended)
unfolding conclude
conclude-IsEvident operation trace cooperative_cancellation =
    terminal-IsEvident operation false _ _ _ trace _ refl (λ h. ground arith) (λ h. ground arith)
conclude-IsEvident operation trace (backend_failed reconciled validated) =
    terminal-IsEvident operation false _ _ _ trace _ refl (λ h. ground arith) (λ h. ground arith)
conclude-IsEvident operation trace raised =
    terminal-IsEvident operation false _ _ _ trace _ refl (λ h. ground arith) (λ h. ground arith)
conclude-IsEvident operation trace (returned profiles backup reconciled validated) =
    if-IsEvident (reconciled && ((validated && reconciled) && lifecycle_complete trace))
      (λ w.
        terminal-IsEvident operation false _ _ _ trace _ refl (λ h. ground arith)
          (λ h. ground arith))
      (λ w.
        terminal-IsEvident operation true _ _ _ trace _ (ground arith) (λ h. refl)
          (λ h. (ground arith, refl)))

started-quiet : false ≡ has_phase writing (add_phase (confirming ∷ []) revalidating)
unfolding has_phase add_phase last_is
started-quiet = refl

-- The result of an accepted execution passes the check that the interface makes of a success, whatever
-- the backend emits and however it ends. When it is a success is said in Persistent.Complete.
pub execute_accepted-IsEvident :
    (operation : PreparedOperation) (is_cancelled : Bool) (backend : BackendRun)
    → IsEvident (execute_accepted operation is_cancelled backend)
unfolding execute_accepted
execute_accepted-IsEvident operation true (emitted, ended) =
    terminal-IsEvident operation false _ _ _ _ no_evidence started-quiet (λ h. ground arith)
      (λ h. ground arith)
execute_accepted-IsEvident operation false (emitted, ended) = conclude-IsEvident operation _ ended
