-- ===== src/Vm/Walk.antt =====
-- `walk_macro` returns exactly the executions that end within the limit.
use g502x_onboard.Base.{
  ℕ, zero, suc, ◌+◌, ◌≤◌, ◌<◌, ◌≡◌, ◌↔◌, refl, sym, ap, ◌∙◌, subst, true, false, ◌&&◌, Option, none,
  some, List, [], ◌∷◌, arith, ◌==◌, length, Bool-cases, inl, inr, All,
}
use g502x_onboard.Base.Results.{Result, ok, ◌>>=◌, >>=-eq-ok, unless-eq-ok, unwrap}
use g502x_onboard.CodecError.{CodecError, jump_cycle}
use g502x_onboard.Vm.{
  Pages, Address, VmInstruction, decode_instruction, seen_before, next_address, walk, walk_macro,
  max_instructions,
}
use g502x_onboard.Vm.Run.{
  Run, stop, jump, next, Way, to_end, to_target, to_next, next_address-Way, ends, jumps, continues,
  first_decoded, decoded-on_page,
}

same_address : (a b : Address) → (a.0 == b.0 && a.1 == b.1) ≡ true → b ≡ a
same_address (s, o) (s', o') h = ground arith

module _ (pages : Pages) where
  -- The end of the loop's body, by the way on.
  abbrev finish :
      ℕ
      → Address
      → List Address
      → VmInstruction
      → Option Address
      → Result CodecError (List VmInstruction)
  finish n at seen ins after = elim after [
    | none ↦ ok (ins ∷ [])
    | some target ↦ walk n pages target (at ∷ seen) >>= λ rest. ok (ins ∷ rest)
  ]

  walk_step :
      (n : ℕ) (at : Address) (seen : List Address) (ins : VmInstruction) (after : Option Address)
      → seen_before at.0 at.1 seen ≡ false
      → decode_instruction pages at.0 at.1 ≡ ok ins
      → next_address pages at ins ≡ ok after
      → walk (suc n) pages at seen ≡ finish n at seen ins after
  unfolding walk
  walk_step n at seen ins after fresh d a = rw (fresh, d, a)

  -- What the rest of the loop gives for a target.
  abbrev Onward : ℕ → List Address → Type 0
  Onward n seen =
      (target : Address) (js : List VmInstruction)
      → walk n pages target seen ≡ ok js
      → Run pages target js × (length js ≤ n)

  finish-Run :
      (n : ℕ) (at : Address) (seen : List Address) (ins : VmInstruction) (after : Option Address)
      (is : List VmInstruction)
      → decode_instruction pages at.0 at.1 ≡ ok ins
      → Way pages at ins after
      → Onward n (at ∷ seen)
      → finish n at seen ins after ≡ ok is
      → Run pages at is × (length is ≤ suc n)
  finish-Run n at seen ins none is d (to_end e) ih h =
      subst (λ t. Run pages at t × (length t ≤ suc n)) (sym (unwrap h)) (stop ins d e, omega arith)
  finish-Run n at seen ins (some target) is d (to_target t e j) ih h =
      let (rest, w, made) = >>=-eq-ok (walk n pages target (at ∷ seen)) _ h in
      let (r, short) = ih target rest w in
      subst (λ t. Run pages at t × (length t ≤ suc n)) (sym (unwrap made))
        (jump ins target d e j r, omega arith)
  finish-Run n at seen ins (some target) is d (to_next e j) ih h =
      let (rest, w, made) = >>=-eq-ok (walk n pages (at.0, at.1 + ins.size) (at ∷ seen)) _ h in
      let (r, short) = ih (at.0, at.1 + ins.size) rest w in
      subst (λ t. Run pages at t × (length t ≤ suc n)) (sym (unwrap made))
        (next ins d e j r, omega arith)

  -- What is walked is an execution.
  walk-Run :
      (n : ℕ) (at : Address) (seen : List Address) (is : List VmInstruction)
      → walk n pages at seen ≡ ok is
      → Run pages at is × (length is ≤ n)
  unfolding walk
  walk-Run zero at seen is h = cc
  walk-Run (suc n) at seen is h =
      let (_, h1) = unless-eq-ok (seen_before at.0 at.1 seen) _ jump_cycle h in
      let (ins, d, h2) = >>=-eq-ok (decode_instruction pages at.0 at.1) _ h1 in
      let (after, a, h3) = >>=-eq-ok (next_address pages at ins) _ h2 in
      finish-Run n at seen ins after is d (next_address-Way pages at ins a)
        (λ target js w. walk-Run n target (at ∷ seen) js w) h3

  decoded_same :
      (at : Address) {a b : VmInstruction}
      → decode_instruction pages at.0 at.1 ≡ ok a
      → decode_instruction pages at.0 at.1 ≡ ok b
      → a ≡ b
  decoded_same at da db = cc

  -- The VM is deterministic.
  Run-unique :
      (at : Address) (is js : List VmInstruction) → Run pages at is → Run pages at js → is ≡ js
  Run-unique at is js (stop a d e) (stop b d' e') = ap (λ t. t ∷ []) (decoded_same at d d')
  Run-unique at is js (stop a d e) (jump b t d' e' j' r') = let same = decoded_same at d d' in cc
  Run-unique at is js (stop a d e) (next b d' e' j' r') = let same = decoded_same at d d' in cc
  Run-unique at is js (jump a t d e j r) (stop b d' e') = let same = decoded_same at d d' in cc
  Run-unique at is js (jump {rest = xs} a t d e j r) (jump {rest = ys} b t' d' e' j' r') =
      let same = decoded_same at d d' in
      let where_to : t ≡ t' = cc in
      let tails = Run-unique t' xs ys (subst (λ u. Run pages u xs) where_to r) r' in cc
  Run-unique at is js (jump a t d e j r) (next b d' e' j' r') =
      let same = decoded_same at d d' in cc
  Run-unique at is js (next a d e j r) (stop b d' e') = let same = decoded_same at d d' in cc
  Run-unique at is js (next a d e j r) (jump b t d' e' j' r') =
      let same = decoded_same at d d' in cc
  Run-unique at is js (next {rest = xs} a d e j r) (next {rest = ys} b d' e' j' r') =
      let same = decoded_same at d d' in
      let moved = subst (λ (u : VmInstruction). Run pages (at.0, at.1 + u.size) xs) same r in
      let tails = Run-unique (at.0, at.1 + b.size) xs ys moved r' in cc

  -- From every address seen so far the execution is longer than what is left.
  abbrev Longer : ℕ → List Address → Type 0
  Longer k seen =
      All (λ (a : Address). (js : List VmInstruction) × Run pages a js × (k < length js)) seen

  fresh_address :
      (at : Address) (is : List VmInstruction) (seen : List Address)
      → Run pages at is
      → Longer (length is) seen
      → seen_before at.0 at.1 seen ≡ false
  unfolding seen_before
  fresh_address at is [] r h = refl
  fresh_address at is (a ∷ seen) r h =
      let ih = fresh_address at is seen r h.1 in
      elim (Bool-cases (at.0 == a.0 && at.1 == a.1)) [
        | inr other ↦ rw other ih
        | inl same ↦
            let (js, r', longer) = h.0 in
            let e : a ≡ at = same_address at a same in
            let equal = Run-unique at js is (subst (λ u. Run pages u js) e r') r in
            let k = ap (λ (t : List VmInstruction). length t) equal in absurd (omega arith)
      ]

  Longer-weaken : (k m : ℕ) (seen : List Address) → m ≤ k → Longer k seen → Longer m seen
  Longer-weaken k m [] h l = tt
  Longer-weaken k m (a ∷ seen) h l =
      let (js, r, longer) = l.0 in ((js, r, omega arith), Longer-weaken k m seen h l.1)

  -- Every execution that ends within the rounds is walked: the check for cycles never rejects it.
  Run-walk :
      (n : ℕ) (at : Address) (seen : List Address) (is : List VmInstruction)
      → Run pages at is
      → length is ≤ n
      → Longer (length is) seen
      → walk n pages at seen ≡ ok is
  Run-walk zero at seen is (stop ins d e) h l = absurd (omega arith)
  Run-walk zero at seen is (jump ins t d e j r) h l = absurd (omega arith)
  Run-walk zero at seen is (next ins d e j r) h l = absurd (omega arith)
  Run-walk (suc n) at seen is (stop ins d e) h l =
      walk_step n at seen ins none (fresh_address at is seen (stop ins d e) l) d
        (ends pages at ins e)
  Run-walk (suc n) at seen is (jump {rest = rest} ins target d e j r) h l =
      let whole : Run pages at (ins ∷ rest) = jump ins target d e j r in
      let ih = Run-walk n target (at ∷ seen) rest r (omega arith) (
        (ins ∷ rest, whole, omega arith),
        Longer-weaken (suc (length rest)) (length rest) seen (omega arith) l,
      ) in
      walk_step n at seen ins (some target) (fresh_address at is seen whole l) d
        (jumps pages at ins target e j)
      ∙ rw ih
  Run-walk (suc n) at seen is (next {rest = rest} ins d e j r) h l =
      let whole : Run pages at (ins ∷ rest) = next ins d e j r in
      let target : Address = (at.0, at.1 + ins.size) in
      let (first, d') = first_decoded pages r in
      let ih = Run-walk n target (at ∷ seen) rest r (omega arith) (
        (ins ∷ rest, whole, omega arith),
        Longer-weaken (suc (length rest)) (length rest) seen (omega arith) l,
      ) in
      walk_step n at seen ins (some target) (fresh_address at is seen whole l) d
        (continues pages at ins e j (decoded-on_page pages at.0 (at.1 + ins.size) d'))
      ∙ rw ih

-- `walk_macro` returns a list of instructions exactly if it is an execution of the VM from the start
-- address to END of at most 4096 instructions: the guard against jump cycles and the guard against
-- falling off a page refuse no execution that ends.
pub walk_macro_iff :
    (pages : Pages) (start : Address) (is : List VmInstruction)
    → (walk_macro pages start ≡ ok is) ↔ (Run pages start is × (length is ≤ 4096))
unfolding walk_macro
walk_macro_iff pages start is = (
  λ h. walk-Run pages max_instructions start [] is h,
  λ h. Run-walk pages max_instructions start [] is h.0 h.1 tt,
)
