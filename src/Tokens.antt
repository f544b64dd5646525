-- ===== src/Tokens.antt =====
-- g502x_onboard/codec.py, `tokenize_macro`: bytecode split into VM instructions.
pub mod Laws
pub mod Compiled
use g502x_onboard.Base.{
  ℕ, zero, suc, ◌+◌, Bool, true, false, Option, none, some, List, [], ◌∷◌, ◌==◌, if◌then◌else◌, ltb,
  elem, length, take, drop, bytes_eq,
}
use g502x_onboard.Base.Results.{Result, ok, err, ◌>>=◌, ◌>>◌, require}
use g502x_onboard.Constants.{
  op_wait_for_release, op_repeat_while_pressed, op_roller, op_acpan, op_delay, op_key_down,
  op_key_up, op_consumer_down, op_consumer_up, op_jump, op_xy, op_end,
}
use g502x_onboard.CodecError.{CodecError, unknown_opcode, truncated, missing_end, fuel_exhausted}

abbrev pub ones : List ℕ
ones = op_wait_for_release ∷ op_repeat_while_pressed ∷ op_end ∷ []

-- The set `three`, which `decode_instruction` lists again.
abbrev pub three : List ℕ
three =
    op_roller ∷ op_acpan ∷ op_delay ∷ op_key_down ∷ op_key_up ∷ op_consumer_down ∷ op_consumer_up
    ∷ op_xy ∷ []

-- The variable `size`, by the opcode; `none` is an unknown opcode.
unfoldable pub op_size : ℕ → Option ℕ
op_size op =
    if elem op ones
    then some 1
    else if elem op three
    then some 3
    else if op == op_jump
    then some 5
    else none

-- The loop at `pc`, over the bytes from `pc` on.
unfoldable pub tokenize_from : ℕ → List ℕ → ℕ → Result CodecError (List (List ℕ))
tokenize_from zero rest pc = err fuel_exhausted
tokenize_from (suc fuel) [] pc = ok []
tokenize_from (suc fuel) (op ∷ rest) pc = elim (op_size op) [
  | none ↦ err (unknown_opcode pc)
  | some size ↦ elim (ltb (length (op ∷ rest)) size) [
    | true ↦ err (truncated pc)
    | false ↦ tokenize_from fuel (drop size (op ∷ rest)) (pc + size) >>= λ tokens.
        ok (take size (op ∷ rest) ∷ tokens)
  ]
]

-- `tokens and tokens[-1] == bytes([OP_END])`
unfoldable pub ends_in_end : List (List ℕ) → Bool
ends_in_end [] = false
ends_in_end (token ∷ []) = bytes_eq token (op_end ∷ [])
ends_in_end (token ∷ next ∷ tokens) = ends_in_end (next ∷ tokens)

-- Each round takes at least one byte off, so one more round than bytes is enough.
unfoldable pub tokenize_macro : List ℕ → Result CodecError (List (List ℕ))
tokenize_macro bytecode = do
  tokens ← tokenize_from (suc (length bytecode)) bytecode 0
  require (ends_in_end tokens) missing_end >>= λ _. ok tokens
