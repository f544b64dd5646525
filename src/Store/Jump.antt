-- ===== src/Store/Jump.antt =====
-- What `jump_bytes` writes, `decode_instruction` reads back.
use g502x_onboard.Base.{
  ℕ, suc, ◌+◌, ◌*◌, ◌/◌, ◌%◌, ◌≤◌, ◌<◌, ◌≡◌, refl, ap, ◌∙◌, true, some, List, [], ◌∷◌, ◌++◌, arith,
  ltb, ltb→lt, leb, elem, length, get_or,
}
use g502x_onboard.Base.Results.{Result, ok, require, >>=-eq-ok, require-eq-ok, unwrap}
use g502x_onboard.Constants.{
  op_jump, addressable_macro_sectors, global_macro_sectors, page_data_size,
}
use g502x_onboard.Sector.{Health, macro_page_health, macro_payload_limit, payload_limit}
use g502x_onboard.CodecError.{CodecError, unreadable_sector, jump_sector}
use g502x_onboard.Vm.{
  Pages, VmInstruction, readable_page, decode_opcode, decode_jump, decode_instruction,
}
use g502x_onboard.Store.{jump_bytes}

get_or-append_right :
    (xs ys : List ℕ) (i d : ℕ) → get_or (xs ++ ys) (length xs + i) d ≡ get_or ys i d
get_or-append_right [] ys i d = ap (λ t. get_or ys t d) (omega arith)
get_or-append_right (x ∷ xs) ys i d =
    let e : suc (length xs) + i ≡ suc (length xs + i) = omega arith in
    rw e (get_or-append_right xs ys i d)

payload_limit-ge : (health : Health) (limit : ℕ) → payload_limit health ≡ ok limit → 253 ≤ limit
payload_limit-ge health limit h = ground arith

macro_payload_limit-ge :
    (page : List ℕ) (limit : ℕ) → macro_payload_limit page ≡ ok limit → 253 ≤ limit
unfolding macro_payload_limit
macro_payload_limit-ge page limit h = payload_limit-ge (macro_page_health page) limit h

global-addressable :
    (sector : ℕ)
    → elem sector global_macro_sectors ≡ true
    → elem sector addressable_macro_sectors ≡ true
global-addressable sector h = ground arith

global-lt : (sector : ℕ) → elem sector global_macro_sectors ≡ true → sector < 16
global-lt sector h = ground arith

two_bytes_of : (n : ℕ) → n < 0x10000 → n / 256 % 256 * 256 + n % 256 ≡ n
two_bytes_of n h = omega arith

ap_sum : {a b c d n : ℕ} → a ≡ c → b ≡ d → c * 256 + d ≡ n → a * 256 + b ≡ n
ap_sum ea eb h = omega arith

-- The bytes of an instruction behind `xs`.
byte_at :
    (xs code ys five : List ℕ) (i : ℕ)
    → code ≡ five
    → get_or (xs ++ (code ++ ys)) (length xs + i) 0 ≡ get_or (five ++ ys) i 0
byte_at xs code ys five i e =
    get_or-append_right xs (code ++ ys) i 0 ∙ ap (λ (t : List ℕ). get_or (t ++ ys) i 0) e

jump_bytes-eq :
    (target offset : ℕ) (code : List ℕ)
    → jump_bytes target offset ≡ ok code
    → (elem target global_macro_sectors ≡ true)
      × (offset < 253)
      × (code
          ≡ op_jump ∷ target / 256 % 256 ∷ target % 256 ∷ offset / 256 % 256 ∷ offset % 256 ∷ [])
unfolding jump_bytes
jump_bytes-eq target offset code h =
    let (_, inside, h1) = >>=-eq-ok (require (elem target global_macro_sectors) _) _ h in
    let (_, low, h2) = >>=-eq-ok (require (ltb offset page_data_size) _) _ h1 in
    (require-eq-ok _ _ inside, ltb→lt offset 253 (require-eq-ok _ _ low), unwrap h2)

readable :
    (pages : Pages) (s : ℕ) (page : List ℕ) (e : CodecError)
    → elem s addressable_macro_sectors ≡ true
    → pages s ≡ some page
    → readable_page pages s e ≡ ok page
unfolding readable_page
readable pages s page e a p = ground arith

decode_jump-eq :
    (pages : Pages) (s o target offset limit target_limit : ℕ) (page target_page : List ℕ)
    → o + 5 ≤ limit
    → get_or page (o + 1) 0 * 256 + get_or page (o + 2) 0 ≡ target
    → get_or page (o + 3) 0 * 256 + get_or page (o + 4) 0 ≡ offset
    → readable_page pages target jump_sector ≡ ok target_page
    → macro_payload_limit target_page ≡ ok target_limit
    → offset < target_limit
    → decode_jump pages s o page limit
      ≡ ok record {
        sector = s;
        offset = o;
        opcode = op_jump;
        size = 5;
        jump_target = some (target, offset);
      }
unfolding decode_jump
decode_jump-eq pages s o target offset limit target_limit page target_page fits t u r l lt =
    let f : leb (o + 5) limit ≡ true = ground arith in
    let g : ltb offset target_limit ≡ true = ground arith in
    rw (f, decode_jump)
      (rw (t, decode_jump)
        (rw (r, decode_jump)
          (rw (l, decode_jump) (rw (u, decode_jump) (rw (g, decode_jump) refl)))))

decode_opcode-jump :
    (pages : Pages) (s o limit op : ℕ) (page : List ℕ)
    → op ≡ op_jump
    → decode_opcode pages s o page limit op ≡ decode_jump pages s o page limit
unfolding decode_opcode
decode_opcode-jump pages s o limit op page e = rw e

decode_instruction-eq :
    (pages : Pages) (s o limit : ℕ) (page : List ℕ) (made : Result CodecError VmInstruction)
    → readable_page pages s unreadable_sector ≡ ok page
    → macro_payload_limit page ≡ ok limit
    → o < limit
    → decode_opcode pages s o page limit (get_or page o 0) ≡ made
    → decode_instruction pages s o ≡ made
unfolding decode_instruction
decode_instruction-eq pages s o limit page made r l lt d =
    let g : ltb o limit ≡ true = ground arith in
    rw (r, decode_instruction) (rw (l, decode_instruction) (rw (g, decode_instruction) d))

-- Where the bytes of `jump_bytes` for a target stand whole in the payload of a readable macro page,
-- and the target is a readable macro page too, `decode_instruction` reads there a JUMP of 5 bytes to
-- exactly that target.
pub decode-jump_bytes :
    (pages : Pages) (s target offset limit target_limit : ℕ) (xs code ys target_page : List ℕ)
    → jump_bytes target offset ≡ ok code
    → elem s addressable_macro_sectors ≡ true
    → pages s ≡ some (xs ++ (code ++ ys))
    → macro_payload_limit (xs ++ (code ++ ys)) ≡ ok limit
    → length xs + 5 ≤ limit
    → pages target ≡ some target_page
    → macro_payload_limit target_page ≡ ok target_limit
    → decode_instruction pages s (length xs)
      ≡ ok record {
        sector = s;
        offset = length xs;
        opcode = op_jump;
        size = 5;
        jump_target = some (target, offset);
      }
decode-jump_bytes pages s target offset limit target_limit xs code ys target_page made a p l fits q
      tl =
    let page = xs ++ (code ++ ys) in
    let (inside, low, e) = jump_bytes-eq target offset code made in
    let room = macro_payload_limit-ge target_page target_limit tl in
    let near = global-lt target inside in
    let at_0 : get_or page (length xs) 0 ≡ op_jump =
      ap (λ i. get_or page i 0) (omega arith) ∙ byte_at xs code ys _ 0 e in
    let t : get_or page (length xs + 1) 0 * 256 + get_or page (length xs + 2) 0 ≡ target =
      ap_sum (byte_at xs code ys _ 1 e) (byte_at xs code ys _ 2 e)
        (two_bytes_of target (omega arith)) in
    let u : get_or page (length xs + 3) 0 * 256 + get_or page (length xs + 4) 0 ≡ offset =
      ap_sum (byte_at xs code ys _ 3 e) (byte_at xs code ys _ 4 e)
        (two_bytes_of offset (omega arith)) in
    decode_instruction-eq pages s (length xs) limit page _
      (readable pages s page unreadable_sector a p) l (omega arith)
      (decode_opcode-jump pages s (length xs) limit _ page at_0
        ∙ decode_jump-eq pages s (length xs) target offset limit target_limit page target_page fits
            t u (readable pages target target_page jump_sector (global-addressable target inside) q)
            tl (omega arith))
