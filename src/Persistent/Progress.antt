-- ===== src/Persistent/Progress.antt =====
-- How the phases that an execution emits move the interface: the observer of
-- g502x_onboard/application/persistent.py `_execute_accepted` and the PersistentProgress event of
-- g502x_onboard/tui/update.py.
use g502x_onboard.Base.{
  sym, subst, ◌∙◌, false, inl, inr, Bool-cases, true≢false, ◌≡◌, refl, true, some, List, [], ◌∷◌,
  map, arith,
}
use g502x_onboard.Models.{PersistentPhase, PreparedOperation}
use g502x_onboard.Tui.Model.{
  TuiModel, Event, persistent_progress, OperationId, ForegroundOperation, cancellation_available,
}
use g502x_onboard.Tui.Inputs.{current}
use g502x_onboard.Tui.Operations.{accept_progress, on_persistent_progress}
use g502x_onboard.Tui.Update.{update, run}
use g502x_onboard.Persistent.Phases.{
  NextPhase, accept_progress-NextPhase, NextPhase-accept_progress,
}
use g502x_onboard.Persistent.Report.{same_kind_refl}
use g502x_onboard.Persistent.{has_phase, snapshot, cancellation_allowed_in}

-- Which phase is shown at the end of a sequence: each new one that may follow the phase shown takes
-- its place, and any other leaves it.
pub data Shows : PersistentPhase → List PersistentPhase → PersistentPhase → Type 0 where
  done : {phase : PersistentPhase} → Shows phase [] phase
  moves :
      {phase next last : PersistentPhase} {phases : List PersistentPhase}
      → NextPhase phase next
      → Shows next phases last
      → Shows phase (next ∷ phases) last
  ignores :
      {phase next last : PersistentPhase} {phases : List PersistentPhase}
      → ¬ NextPhase phase next
      → Shows phase phases last
      → Shows phase (next ∷ phases) last

-- The events that the observer sends.
abbrev pub progress : OperationId → PreparedOperation → PersistentPhase → Event
progress id operation phase = persistent_progress id (snapshot operation phase)

-- The interface shows the execution of `operation` in `phase`, and offers to cancel it exactly where
-- the service allows that.
pub record Executes (m : TuiModel) (id : OperationId) (operation : PreparedOperation)
    (phase : PersistentPhase) : Type 0 where
  pub active : ForegroundOperation
  pub is_current : current m id ≡ some active
  pub requested : active.execution_requested ≡ true
  pub kind : active.persistent_kind ≡ some operation.kind
  pub in_phase : active.phase ≡ some phase
  pub cancellation : cancellation_available active ≡ cancellation_allowed_in phase

offers :
    (active : ForegroundOperation) (phase : PersistentPhase)
    → active.phase ≡ some phase
    → active.application_cancellation_allowed ≡ some (cancellation_allowed_in phase)
    → cancellation_available active ≡ cancellation_allowed_in phase
unfolding has_phase
offers active phase p a = ground arith

moved :
    (m : TuiModel) (id : OperationId) (active : ForegroundOperation) (operation : PreparedOperation)
    (phase : PersistentPhase)
    → current m id ≡ some active
    → active.execution_requested ≡ true
    → active.persistent_kind ≡ some operation.kind
    → accept_progress active.phase phase ≡ true
    → current (on_persistent_progress m id (snapshot operation phase)).0 id
      ≡ some (record active {
        phase = some phase;
        application_cancellation_allowed = some (cancellation_allowed_in phase);
      })
unfolding on_persistent_progress
moved m id active operation phase c x k a = let same = same_kind_refl operation.kind in ground arith

step :
    (m : TuiModel) (id : OperationId) (operation : PreparedOperation) (phase next : PersistentPhase)
    → Executes m id operation phase
    → accept_progress (some phase) next ≡ true
    → Executes (update m (progress id operation next)).0 id operation next
unfolding update
step m id operation phase next h a =
    let after = record h.active {
      phase = some next;
      application_cancellation_allowed = some (cancellation_allowed_in next);
    } in
    record {
      active = after;
      is_current =
          moved m id h.active operation next h.is_current h.requested h.kind (rw h.in_phase a);
      requested = h.requested;
      kind = h.kind;
      in_phase = refl;
      cancellation = offers after next refl refl;
    }

unmoved :
    (m : TuiModel) (id : OperationId) (operation : PreparedOperation) (phase next : PersistentPhase)
    → Executes m id operation phase
    → accept_progress (some phase) next ≡ false
    → (update m (progress id operation next)).0 ≡ m
unfolding update on_persistent_progress
unmoved m id operation phase next h a =
    let c = h.is_current in
    let refused : accept_progress h.active.phase next ≡ false = rw h.in_phase a in ground arith

-- While an interface shows an execution, any sequence of phases that the observer sends moves it
-- along the edges of an execution alone: afterwards it shows the same execution, in the phase at
-- which those of the sequence arrive that may follow the phase shown at their time, the others being
-- ignored; and it offers to cancel exactly where the service says that cancellation is allowed.
pub run-Executes :
    (m : TuiModel) (id : OperationId) (operation : PreparedOperation) (phase : PersistentPhase)
    (phases : List PersistentPhase)
    → Executes m id operation phase
    → (last : PersistentPhase) × Shows phase phases last
      × Executes (run m (map (progress id operation) phases)) id operation last
unfolding run
run-Executes m id operation phase [] h = (phase, done, h)
run-Executes m id operation phase (next ∷ phases) h =
    elim (Bool-cases (accept_progress (some phase) next)) [
      | inl a ↦
          let (last, shows, executes) =
            run-Executes (update m (progress id operation next)).0 id operation next phases
              (step m id operation phase next h a) in
          (last, moves (accept_progress-NextPhase phase next a) shows, executes)
      | inr a ↦
          let (last, shows, executes) = run-Executes m id operation phase phases h in
          (
            last,
            ignores (λ n. true≢false (sym (NextPhase-accept_progress phase next n) ∙ a)) shows,
            subst (λ n. Executes (run n (map (progress id operation) phases)) id operation last)
                (sym (unmoved m id operation phase next h a)) executes,
          )
    ]
