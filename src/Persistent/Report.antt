-- ===== src/Persistent/Report.antt =====
-- What the interface shows of an execution: g502x_onboard/application/persistent.py `_execute_accepted`
-- and the PersistentCompleted event of g502x_onboard/tui/update.py.
use g502x_onboard.Base.{
  subst, sym, ◌≡◌, refl, Bool, true, false, Option, none, some, List, if◌then◌else◌, arith,
}
use g502x_onboard.Models.{
  PersistentOperationKind, PersistentPhase, same_kind, PreparedOperation, PersistentExecutionResult,
}
use g502x_onboard.Tui.Model.{
  TuiModel, OperationId, ForegroundOperation, TerminalState, TerminalOutcome, success, failure,
}
use g502x_onboard.Tui.Inputs.{current}
use g502x_onboard.Tui.Operations.{kind_differs}
use g502x_onboard.Tui.Endings.{success_consistent, close_completed, on_persistent_completed}
use g502x_onboard.Persistent.{
  BackendEnd, returned, cooperative_cancellation, backend_failed, raised, conclude, terminal,
  BackendRun, execute_accepted,
}
use g502x_onboard.Persistent.Evidence.{execute_accepted-IsEvident}

abbrev pub is_success : TerminalOutcome → Bool
is_success success = true
is_success failure = false

-- The model has left the operation and its terminal state says what the result says.
pub record Reports (next : TuiModel) (r : PersistentExecutionResult) : Type 0 where
  pub state : TerminalState
  pub left : next.active ≡ none
  pub forgotten : next.prepared ≡ none
  pub shown : next.terminal ≡ some state
  pub outcome : is_success state.outcome ≡ r.success
  pub wrote : state.writing_started ≡ r.writing_started
  pub reconciled : state.reconciliation_completed ≡ r.reconciliation_completed
  pub validated : state.post_validation_completed ≡ r.post_validation_completed

if-Reports :
    (test : Bool) {x y : TuiModel} {r : PersistentExecutionResult}
    → (test ≡ true → Reports x r)
    → (test ≡ false → Reports y r)
    → Reports (if test then x else y) r
if-Reports true t f = t refl
if-Reports false t f = f refl

close_completed-Reports :
    (m : TuiModel) (r : PersistentExecutionResult)
    → r.success ≡ success_consistent r
    → Reports (close_completed m r) r
unfolding close_completed
close_completed-Reports m r e =
    if-Reports (success_consistent r)
      (λ s. record {
        state = _;
        left = refl;
        forgotten = refl;
        shown = refl;
        outcome = ground arith;
        wrote = ground arith;
        reconciled = ground arith;
        validated = ground arith;
      })
      (λ s.
        if-Reports r.success (λ t. absurd (ground arith))
          (λ f. record {
            state = _;
            left = refl;
            forgotten = refl;
            shown = refl;
            outcome = ground arith;
            wrote = refl;
            reconciled = refl;
            validated = refl;
          }))

pub same_kind_refl : (kind : PersistentOperationKind) → same_kind kind kind ≡ true
same_kind_refl kind = ground arith

conclude-kind :
    (operation : PreparedOperation) (trace : List PersistentPhase) (ended : BackendEnd)
    → (conclude operation trace ended).operation_kind ≡ operation.kind
unfolding conclude terminal
conclude-kind operation trace cooperative_cancellation = refl
conclude-kind operation trace (backend_failed reconciled validated) = refl
conclude-kind operation trace raised = refl
conclude-kind operation trace (returned profiles backup reconciled validated) = ground arith

execute_accepted-kind :
    (operation : PreparedOperation) (is_cancelled : Bool) (backend : BackendRun)
    → (execute_accepted operation is_cancelled backend).operation_kind ≡ operation.kind
unfolding execute_accepted terminal
execute_accepted-kind operation true (emitted, ended) = refl
execute_accepted-kind operation false (emitted, ended) = conclude-kind operation _ ended

own_kind :
    (expected : Option PersistentOperationKind) (kind other : PersistentOperationKind)
    → expected ≡ some kind
    → other ≡ kind
    → kind_differs expected other ≡ false
own_kind expected kind other e o = let same = same_kind_refl kind in ground arith

completed_lem :
    (m : TuiModel) (id : OperationId) (active : ForegroundOperation) (r : PersistentExecutionResult)
    → current m id ≡ some active
    → active.execution_requested ≡ true
    → kind_differs active.persistent_kind r.operation_kind ≡ false
    → (on_persistent_completed m id r).0 ≡ close_completed m r
unfolding on_persistent_completed
completed_lem m id active r c x k = ground arith

-- When the interface receives the result of an accepted execution of its own operation, it leaves the
-- operation, forgets the preparation, and reports a success exactly if the result is one, with the
-- same evidence of writing, reconciliation and validation: its branch for an inconsistent success is
-- never taken.
pub completed-Reports :
    (m : TuiModel) (id : OperationId) (active : ForegroundOperation) (operation : PreparedOperation)
    (is_cancelled : Bool) (backend : BackendRun)
    → current m id ≡ some active
    → active.execution_requested ≡ true
    → active.persistent_kind ≡ some operation.kind
    → Reports
        (on_persistent_completed m id (execute_accepted operation is_cancelled backend)).0
        (execute_accepted operation is_cancelled backend)
completed-Reports m id active operation is_cancelled backend c x k =
    let r = execute_accepted operation is_cancelled backend in
    let own =
      own_kind active.persistent_kind operation.kind r.operation_kind k
        (execute_accepted-kind operation is_cancelled backend) in
    subst (λ next. Reports next r) (sym (completed_lem m id active r c x own))
      (close_completed-Reports m r
        (execute_accepted-IsEvident operation is_cancelled backend).consistent)
