-- ===== src/Vm.antt =====
-- g502x_onboard/codec.py, `decode_instruction` and `walk_macro`: the structural reading of macro
-- bytecode in the pages of the device. A dictionary of pages is a function to `Option`.
pub mod Run
pub mod Walk
use g502x_onboard.Base.{
  ℕ, zero, suc, ◌+◌, ◌*◌, Bool, true, false, not, ◌&&◌, ◌||◌, Option, none, some, List, [], ◌∷◌,
  ◌==◌, if◌then◌else◌, ltb, leb, elem, get_or,
}
use g502x_onboard.Base.Results.{Result, ok, err, ◌>>=◌, ◌>>◌, require}
use g502x_onboard.Constants.{
  addressable_macro_sectors, op_wait_for_release, op_repeat_while_pressed, op_jump, op_end,
}
use g502x_onboard.CodecError.{
  CodecError, unreadable_sector, outside_payload, jump_sector, jump_target_offset, jump_cycle,
  falls_off_page, instruction_limit, truncated, unknown_opcode,
}
use g502x_onboard.Sector.{macro_payload_limit}
use g502x_onboard.Tokens.{three}

abbrev pub Pages : Type 0
Pages = ℕ → Option (List ℕ)

abbrev pub Address : Type 0
Address = ℕ × ℕ

-- `VmInstruction`, without its description.
pub record VmInstruction : Type 0 where
  pub sector : ℕ
  pub offset : ℕ
  pub opcode : ℕ
  pub size : ℕ
  pub jump_target : Option Address

-- `sector not in ADDRESSABLE_MACRO_SECTORS or sector not in pages`, else the page.
unfoldable pub readable_page : Pages → ℕ → CodecError → Result CodecError (List ℕ)
readable_page pages sector e =
    elim (if elem sector addressable_macro_sectors then pages sector else none) [
      | none ↦ err e
      | some page ↦ ok page
    ]

-- The branch on OP_JUMP.
unfoldable pub decode_jump : Pages → ℕ → ℕ → List ℕ → ℕ → Result CodecError VmInstruction
decode_jump pages sector offset page limit = do
  require (leb (offset + 5) limit) (truncated offset)
  let target_sector = get_or page (offset + 1) 0 * 256 + get_or page (offset + 2) 0
  let target_offset = get_or page (offset + 3) 0 * 256 + get_or page (offset + 4) 0
  target ← readable_page pages target_sector jump_sector
  target_limit ← macro_payload_limit target
  require (ltb target_offset target_limit) jump_target_offset >>= λ _. ok record {
    sector = sector;
    offset = offset;
    opcode = op_jump;
    size = 5;
    jump_target = some (target_sector, target_offset);
  }

unfoldable pub decode_opcode : Pages → ℕ → ℕ → List ℕ → ℕ → ℕ → Result CodecError VmInstruction
decode_opcode pages sector offset page limit op =
    if elem op (op_end ∷ op_wait_for_release ∷ op_repeat_while_pressed ∷ [])
    then ok record { sector = sector; offset = offset; opcode = op; size = 1; jump_target = none }
    else if op == op_jump
    then decode_jump pages sector offset page limit
    else if elem op three
    then (require (leb (offset + 3) limit) (truncated offset) >>= λ _.
        ok record { sector = sector; offset = offset; opcode = op; size = 3; jump_target = none })
    else err (unknown_opcode op)

unfoldable pub decode_instruction : Pages → ℕ → ℕ → Result CodecError VmInstruction
decode_instruction pages sector offset = do
  page ← readable_page pages sector unreadable_sector
  limit ← macro_payload_limit page
  require (ltb offset limit) outside_payload
  decode_opcode pages sector offset page limit (get_or page offset 0)

unfoldable pub seen_before : ℕ → ℕ → List Address → Bool
seen_before sector offset [] = false
seen_before sector offset ((s, o) ∷ seen) =
    (sector == s && offset == o) || seen_before sector offset seen

-- `offset >= macro_payload_limit(pages[sector])`
unfoldable pub off_page : Pages → ℕ → ℕ → Bool
off_page pages sector offset =
    elim (readable_page pages sector unreadable_sector >>= macro_payload_limit) [
      | ok limit ↦ leb limit offset
      | err e ↦ true
    ]

-- Where the loop goes on after an instruction, if it does.
unfoldable pub next_address : Pages → Address → VmInstruction → Result CodecError (Option Address)
next_address pages at ins = if ins.opcode == op_end then ok none else elim ins.jump_target [
  | some target ↦ ok (some target)
  | none ↦
      if off_page pages at.0 (at.1 + ins.size)
      then err falls_off_page
      else ok (some (at.0, at.1 + ins.size))
]

-- The loop, by the rounds that are left of `max_instructions`.
unfoldable pub walk : ℕ → Pages → Address → List Address → Result CodecError (List VmInstruction)
walk zero pages at seen = err instruction_limit
walk (suc rounds) pages at seen =
    let go = λ (target : Address). walk rounds pages target (at ∷ seen) in
    if seen_before at.0 at.1 seen
    then err jump_cycle
    else decode_instruction pages at.0 at.1 >>= λ ins. next_address pages at ins >>= λ after.
        elim after [ none ↦ ok (ins ∷ []) | some target ↦ go target >>= λ rest. ok (ins ∷ rest) ]

abbrev pub max_instructions : ℕ
max_instructions = 4096

unfoldable pub walk_macro : Pages → Address → Result CodecError (List VmInstruction)
walk_macro pages start = walk max_instructions pages start []
