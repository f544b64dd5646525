-- ===== src/Tokens/Compiled.antt =====
-- Compiled bindings are bytecode that the allocator can split.
use g502x_onboard.Base.{ℕ, Bool, true, ◌≡◌, sym, subst, List, [], ◌∷◌, ◌++◌, Option-cases, inl, inr}
use g502x_onboard.Base.Results.{Result, ok, >>=-eq-ok}
use g502x_onboard.Constants.{op_end}
use g502x_onboard.CodecError.{CodecError}
use g502x_onboard.Action.{
  Action, hotkey, consumer, mouse, Binding, direct, macro, Spec, direct_keyboard_binding,
  direct_consumer_binding, direct_mouse_binding, normalize_action, compile_action, as_macro, lower,
  compile_binding,
}
use g502x_onboard.Action.Compile.{compile_action-IsBalanced}
use g502x_onboard.Tokens.{tokenize_macro}
use g502x_onboard.Tokens.Laws.{IsBalanced-tokenize}

abbrev IsMacroOf : Action → List ℕ → Type 0
IsMacroOf action bytecode =
    (code : List ℕ) × (compile_action action ≡ ok code) × (bytecode ≡ code ++ op_end ∷ [])

not_direct :
    {bs cs : List ℕ} → ◌≡◌ {A = Result CodecError Binding} (ok (direct bs)) (ok (macro cs)) → ⊥
not_direct h = cc

macro_eq :
    {bs cs : List ℕ} → ◌≡◌ {A = Result CodecError Binding} (ok (macro bs)) (ok (macro cs)) → cs ≡ bs
macro_eq h = cc

as_macro-IsMacroOf :
    (action : Action) {bs : List ℕ} → as_macro action ≡ ok (macro bs) → IsMacroOf action bs
as_macro-IsMacroOf action h =
    let (code, e, made) = >>=-eq-ok (compile_action action) _ h in (code, e, macro_eq made)

lower-IsMacroOf :
    (exact : Bool) (action : Action) {bs : List ℕ}
    → lower exact action ≡ ok (macro bs)
    → IsMacroOf action bs
unfolding lower
lower-IsMacroOf true (hotkey names) h = elim (Option-cases (direct_keyboard_binding names)) [
  | inl e ↦ as_macro-IsMacroOf (hotkey names) (rw (e, lower) at h)
  | inr (b, e) ↦ absurd (not_direct (rw (e, lower) at h))
]
lower-IsMacroOf true (consumer command) h = elim (Option-cases (direct_consumer_binding command)) [
  | inl e ↦ as_macro-IsMacroOf (consumer command) (rw (e, lower) at h)
  | inr (b, e) ↦ absurd (not_direct (rw (e, lower) at h))
]
lower-IsMacroOf true (mouse command) h =
    let (b, e, made) = >>=-eq-ok (direct_mouse_binding command) _ h in absurd (not_direct made)
lower-IsMacroOf _ action h = as_macro-IsMacroOf action h

-- When `compile_binding` yields a macro, from an alias or an action object whose kind is written in
-- lower case or with capitals, `tokenize_macro` accepts its bytecode.
pub compile_binding-tokenize :
    (spec : Spec) (bytecode : List ℕ)
    → compile_binding spec ≡ ok (macro bytecode)
    → (tokens : List (List ℕ)) × (tokenize_macro bytecode ≡ ok tokens)
unfolding compile_binding
compile_binding-tokenize spec bytecode h =
    let ((exact, action), named, lowered) = >>=-eq-ok (normalize_action spec) _ h in
    let (code, compiled, shape) = lower-IsMacroOf exact action lowered in
    subst (λ t. (tokens : List (List ℕ)) × (tokenize_macro t ≡ ok tokens)) (sym shape)
      (IsBalanced-tokenize code (compile_action-IsBalanced action code compiled))
