-- ===== src/Examples/Vm.antt =====
-- The walk of g502x_onboard/codec.py over two pages at concrete inputs.
use g502x_onboard.Base.{
  ℕ, ◌≤◌, ◌≡◌, ◌↔◌, refl, Option, none, some, List, [], ◌∷◌, ◌++◌, ◌==◌, if◌then◌else◌, length,
  replicate,
}
use g502x_onboard.Base.Results.{ok}
use g502x_onboard.Base.{arith}
use g502x_onboard.Sector.{macro_payload_limit}
use g502x_onboard.Store.{jump_bytes, macro_pointer}
use g502x_onboard.Store.Jump.{decode-jump_bytes}
use g502x_onboard.Vm.{decode_instruction, Pages, VmInstruction, walk_macro}
use g502x_onboard.Vm.Run.{Run}
use g502x_onboard.Vm.Walk.{walk_macro_iff}

-- Page 8 presses a key and goes on in page 9, which releases it and ends.
abbrev two_pages : Pages
two_pages sector =
    if sector == 8
    then some ((0x43 ∷ 0 ∷ 4 ∷ 0x60 ∷ 0 ∷ 9 ∷ 0 ∷ 1 ∷ []) ++ replicate 247 0)
    else if sector == 9
    then some ((0 ∷ 0x44 ∷ 0 ∷ 4 ∷ 0xFF ∷ []) ++ replicate 250 0)
    else none

abbrev instruction : ℕ → ℕ → ℕ → ℕ → Option (ℕ × ℕ) → VmInstruction
instruction s o op n target = record {
  sector = s;
  offset = o;
  opcode = op;
  size = n;
  jump_target = target;
}

abbrev walked : List VmInstruction
walked =
    instruction 8 0 0x43 3 none
    ∷ instruction 8 3 0x60 5 (some (9, 1))
    ∷ instruction 9 1 0x44 3 none
    ∷ instruction 9 4 0xFF 1 none
    ∷ []

two_pages-walked : walk_macro two_pages (8, 0) ≡ ok walked
unfolding walk_macro g502x_onboard.Vm.walk g502x_onboard.Vm.seen_before
    g502x_onboard.Vm.decode_instruction g502x_onboard.Vm.readable_page
    g502x_onboard.Sector.macro_payload_limit g502x_onboard.Sector.sector_erased
    g502x_onboard.Sector.sector_crc_ok g502x_onboard.Sector.crc16_ccitt
    g502x_onboard.Vm.decode_opcode g502x_onboard.Vm.next_address g502x_onboard.Vm.off_page
    g502x_onboard.Vm.decode_jump
two_pages-walked = refl

walk_macro_iff_example :
    (walk_macro two_pages (8, 0) ≡ ok walked)
    ↔ (Run two_pages (8, 0) walked × (length walked ≤ 4096))
walk_macro_iff_example = walk_macro_iff two_pages (8, 0) walked

pointer_bytes : macro_pointer 9 16 ≡ ok (0 ∷ 9 ∷ 0 ∷ 16 ∷ [])
unfolding macro_pointer
pointer_bytes = refl

decode-jump_bytes_example :
    decode_instruction two_pages 8 3 ≡ ok (instruction 8 3 0x60 5 (some (9, 1)))
unfolding jump_bytes macro_payload_limit g502x_onboard.Sector.sector_erased
    g502x_onboard.Sector.sector_crc_ok g502x_onboard.Sector.crc16_ccitt
decode-jump_bytes_example =
    decode-jump_bytes two_pages 8 9 1 255 255 (0x43 ∷ 0 ∷ 4 ∷ []) (0x60 ∷ 0 ∷ 9 ∷ 0 ∷ 1 ∷ [])
      (replicate 247 0) ((0 ∷ 0x44 ∷ 0 ∷ 4 ∷ 0xFF ∷ []) ++ replicate 250 0) refl refl refl refl
      (omega arith) refl refl
