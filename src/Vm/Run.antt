-- ===== src/Vm/Run.antt =====
-- `walk_macro` against an execution relation of the VM: it returns exactly the executions that end.
use g502x_onboard.Base.{
  ℕ, ◌+◌, ◌≡◌, sym, subst, true, false, Option, none, some, List, [], ◌∷◌, arith, ◌==◌, ltb, ltb→lt,
  Bool-cases, Option-cases, inl, inr,
}
use g502x_onboard.Base.Results.{ok, require, >>=-eq-ok, require-eq-ok, unwrap}
use g502x_onboard.Constants.{op_end}
use g502x_onboard.CodecError.{unreadable_sector}
use g502x_onboard.Sector.{macro_payload_limit}
use g502x_onboard.Vm.{
  Pages, Address, VmInstruction, readable_page, decode_instruction, off_page, next_address,
}

-- The instructions executed from an address up to END.
pub data Run (pages : Pages) : Address → List VmInstruction → Type 0 where
  stop :
      {at : Address} (ins : VmInstruction)
      → decode_instruction pages at.0 at.1 ≡ ok ins
      → (ins.opcode == op_end) ≡ true
      → Run pages at (ins ∷ [])
  jump :
      {at : Address} {rest : List VmInstruction} (ins : VmInstruction) (target : Address)
      → decode_instruction pages at.0 at.1 ≡ ok ins
      → (ins.opcode == op_end) ≡ false
      → ins.jump_target ≡ some target
      → Run pages target rest
      → Run pages at (ins ∷ rest)
  next :
      {at : Address} {rest : List VmInstruction} (ins : VmInstruction)
      → decode_instruction pages at.0 at.1 ≡ ok ins
      → (ins.opcode == op_end) ≡ false
      → ins.jump_target ≡ none
      → Run pages (at.0, at.1 + ins.size) rest
      → Run pages at (ins ∷ rest)

-- An instruction read at an offset says that the offset is on the page.
pub decoded-on_page :
    (pages : Pages) (s o : ℕ) {ins : VmInstruction}
    → decode_instruction pages s o ≡ ok ins
    → off_page pages s o ≡ false
unfolding decode_instruction off_page
decoded-on_page pages s o h =
    let (page, e1, h1) = >>=-eq-ok (readable_page pages s unreadable_sector) _ h in
    let (limit, e2, h2) = >>=-eq-ok (macro_payload_limit page) _ h1 in
    let (_, inside, _) = >>=-eq-ok (require (ltb o limit) _) _ h2 in
    let lt = ltb→lt o limit (require-eq-ok (ltb o limit) _ inside) in
    rw (e1, off_page) (rw (e2, off_page) (ground arith))

pub first_decoded :
    (pages : Pages) {at : Address} {is : List VmInstruction}
    → Run pages at is
    → (ins : VmInstruction) × (decode_instruction pages at.0 at.1 ≡ ok ins)
first_decoded pages (stop ins d e) = (ins, d)
first_decoded pages (jump ins target d e j r) = (ins, d)
first_decoded pages (next ins d e j r) = (ins, d)

pub ends :
    (pages : Pages) (at : Address) (ins : VmInstruction)
    → (ins.opcode == op_end) ≡ true
    → next_address pages at ins ≡ ok none
unfolding next_address
ends pages at ins e = rw e

pub jumps :
    (pages : Pages) (at : Address) (ins : VmInstruction) (target : Address)
    → (ins.opcode == op_end) ≡ false
    → ins.jump_target ≡ some target
    → next_address pages at ins ≡ ok (some target)
unfolding next_address
jumps pages at ins target e j = rw (e, next_address) (rw (j, next_address))

pub continues :
    (pages : Pages) (at : Address) (ins : VmInstruction)
    → (ins.opcode == op_end) ≡ false
    → ins.jump_target ≡ none
    → off_page pages at.0 (at.1 + ins.size) ≡ false
    → next_address pages at ins ≡ ok (some (at.0, at.1 + ins.size))
unfolding next_address
continues pages at ins e j f = rw (e, next_address) (rw (j, next_address) (rw (f, next_address)))

-- The three ways on, read off the code.
pub data Way (pages : Pages) (at : Address) (ins : VmInstruction) : Option Address → Type 0 where
  to_end : (ins.opcode == op_end) ≡ true → Way pages at ins none
  to_target :
      (target : Address)
      → (ins.opcode == op_end) ≡ false
      → ins.jump_target ≡ some target
      → Way pages at ins (some target)
  to_next :
      (ins.opcode == op_end) ≡ false
      → ins.jump_target ≡ none
      → Way pages at ins (some (at.0, at.1 + ins.size))

pub next_address-Way :
    (pages : Pages) (at : Address) (ins : VmInstruction) {after : Option Address}
    → next_address pages at ins ≡ ok after
    → Way pages at ins after
unfolding next_address
next_address-Way pages at ins h = elim (Bool-cases (ins.opcode == op_end)) [
  | inl e ↦ subst (Way pages at ins) (sym (unwrap (rw (e, next_address) at h))) (to_end e)
  | inr e ↦ elim (Option-cases ins.jump_target) [
    | inr (target, j) ↦
        subst (Way pages at ins) (sym (unwrap (rw (e, j, next_address) at h)))
          (to_target target e j)
    | inl j ↦ elim (Bool-cases (off_page pages at.0 (at.1 + ins.size))) [
      | inl f ↦ cc (rw (e, j, f, next_address) at h)
      | inr f ↦
          subst (Way pages at ins) (sym (unwrap (rw (e, j, f, next_address) at h))) (to_next e j)
    ]
  ]
]
