-- ===== src/Tokens/Laws.antt =====
-- The instructions of a macro are its bytes, and every compiled action can be split.
use mathlib.Core.List.{append_assoc, flatten}
use g502x_onboard.Base.{
  ℕ, zero, suc, ◌+◌, ◌-◌, ◌≤◌, ◌<◌, ◌≡◌, refl, sym, ap, ◌∙◌, subst, Bool, true, false, Option, none,
  some, List, [], ◌∷◌, ◌++◌, arith, ◌==◌, if◌then◌else◌, ltb, ltb-false, elem, length, take, drop,
  length-drop, length-take, All, Bool-cases, Option-cases, inl, inr,
}
use g502x_onboard.Base.Results.{ok, ◌>>=◌, require, >>=-eq-ok, require-eq-ok, unwrap}
use g502x_onboard.Constants.{op_end, op_jump}
use g502x_onboard.Action.Balanced.{
  IsBalanced, nil, plain, args, held, Releases, key, usage, one_byte, neutral,
}
use g502x_onboard.Tokens.{ones, three, op_size, tokenize_from, ends_in_end, tokenize_macro}

-- One VM instruction: as many bytes as its opcode takes.
pub record IsToken (token : List ℕ) : Type 0 where
  pub op : ℕ
  pub args : List ℕ
  pub shape : token ≡ op ∷ args
  pub size : op_size op ≡ some (length token)

take-append-drop : (n : ℕ) (xs : List ℕ) → take n xs ++ drop n xs ≡ xs
take-append-drop zero xs = refl
take-append-drop (suc n) [] = refl
take-append-drop (suc n) (x ∷ xs) = ap (λ t. x ∷ t) (take-append-drop n xs)

size_choice :
    (a b c : Bool) (n : ℕ)
    → ◌≡◌ {A = Option ℕ}
        (if a then some 1 else if b then some 3 else if c then some 5 else none)
        (some n)
    → (0 < n) × (n ≤ 5)
size_choice a b c n h = ground arith

op_size_bounds : (op n : ℕ) → op_size op ≡ some n → (0 < n) × (n ≤ 5)
unfolding op_size
op_size_bounds op n h = size_choice (elem op ones) (elem op three) (op == op_jump) n h

-- One round of the loop, backwards and forwards.
record Round (fuel op : ℕ) (rest : List ℕ) (pc : ℕ) (tokens : List (List ℕ)) : Type 0 where
  size : ℕ
  sized : op_size op ≡ some size
  fits : size ≤ length (op ∷ rest)
  later : List (List ℕ)
  ran : tokenize_from fuel (drop size (op ∷ rest)) (pc + size) ≡ ok later
  made : tokens ≡ take size (op ∷ rest) ∷ later

Round_lem :
    (fuel op : ℕ) (rest : List ℕ) (pc : ℕ) {tokens : List (List ℕ)}
    → tokenize_from (suc fuel) (op ∷ rest) pc ≡ ok tokens
    → Round fuel op rest pc tokens
unfolding tokenize_from
Round_lem fuel op rest pc {tokens} h = elim (Option-cases (op_size op)) [
  | inl e ↦ cc (rw (e, tokenize_from) at h)
  | inr (size, e) ↦ elim (Bool-cases (ltb (length (op ∷ rest)) size)) [
    | inl short ↦ cc (rw (e, short, tokenize_from) at h)
    | inr long ↦
        let h' : (tokenize_from fuel (drop size (op ∷ rest)) (pc + size) >>= λ tokens.
        ok (take size (op ∷ rest) ∷ tokens))
            ≡ ok tokens =
          rw (e, long, tokenize_from) at h in
        let (later, ran, made) =
          >>=-eq-ok (tokenize_from fuel (drop size (op ∷ rest)) (pc + size)) _ h' in
        record {
          size = size;
          sized = e;
          fits = ltb-false (length (op ∷ rest)) size long;
          later = later;
          ran = ran;
          made = unwrap made;
        }
  ]
]

le→ltb-false : (a b : ℕ) → b ≤ a → ltb a b ≡ false
le→ltb-false a b h = ground arith

run_round :
    (fuel op size : ℕ) (rest : List ℕ) (pc : ℕ) {later : List (List ℕ)}
    → op_size op ≡ some size
    → size ≤ length (op ∷ rest)
    → tokenize_from fuel (drop size (op ∷ rest)) (pc + size) ≡ ok later
    → tokenize_from (suc fuel) (op ∷ rest) pc ≡ ok (take size (op ∷ rest) ∷ later)
unfolding tokenize_from
run_round fuel op size rest pc e fits ran =
    rw (e, tokenize_from) (rw (le→ltb-false (length (op ∷ rest)) size fits) (rw ran))

take_cons : (n op : ℕ) (rest : List ℕ) → 0 < n → take n (op ∷ rest) ≡ op ∷ take (n - 1) rest
take_cons zero op rest h = absurd (omega arith)
take_cons (suc n) op rest h = ap (λ k. op ∷ take k rest) (omega arith)

-- The instructions that come out are whole, and put together they are the bytes that went in.
tokens_of :
    (fuel : ℕ) (rest : List ℕ) (pc : ℕ) {tokens : List (List ℕ)}
    → tokenize_from fuel rest pc ≡ ok tokens
    → (flatten tokens ≡ rest) × All IsToken tokens
unfolding tokenize_from flatten
tokens_of zero rest pc h = cc
tokens_of (suc fuel) [] pc h = rw (unwrap h) (refl, tt)
tokens_of (suc fuel) (op ∷ rest) pc h =
    let r = Round_lem fuel op rest pc h in
    let bounds = op_size_bounds op r.size r.sized in
    let ih = tokens_of fuel (drop r.size (op ∷ rest)) (pc + r.size) r.ran in
    let token = take r.size (op ∷ rest) in
    let whole : length token ≡ r.size =
      let f = r.fits in omega (arith, length-take r.size (op ∷ rest)) in
    rw r.made (
      ap (λ t. token ++ t) ih.0 ∙ take-append-drop r.size (op ∷ rest),
      (
        record {
          op = op;
          args = take (r.size - 1) rest;
          shape = take_cons r.size op rest bounds.0;
          size = r.sized ∙ ap some (sym whole);
        },
        ih.1,
      ),
    )

-- `tokenize_macro` returns only whole instructions that, put together again, are the bytecode; the
-- last one is END.
pub tokenize-flatten :
    (bytecode : List ℕ) (tokens : List (List ℕ))
    → tokenize_macro bytecode ≡ ok tokens
    → (flatten tokens ≡ bytecode) × All IsToken tokens × (ends_in_end tokens ≡ true)
unfolding tokenize_macro
tokenize-flatten bytecode tokens h =
    let (ts, ran, h1) = >>=-eq-ok (tokenize_from (suc (length bytecode)) bytecode 0) _ h in
    let (u, ended, h2) = >>=-eq-ok (require (ends_in_end ts) _) _ h1 in
    let e : ts ≡ tokens = sym (unwrap h2) in
    let parts = tokens_of (suc (length bytecode)) bytecode 0 ran in
    subst (λ t. (flatten t ≡ bytecode) × All IsToken t × (ends_in_end t ≡ true)) e
      (parts.0, parts.1, require-eq-ok (ends_in_end ts) _ ended)

-- Bytes that the loop splits, with any fuel above their number, so that END comes last.
abbrev Splits : List ℕ → Type 0
Splits bytes =
    (fuel pc : ℕ)
    → length bytes < fuel
    → (tokens : List (List ℕ)) × (tokenize_from fuel bytes pc ≡ ok tokens)
      × (ends_in_end tokens ≡ true)

ends-cons : (t : List ℕ) (ts : List (List ℕ)) → ends_in_end ts ≡ true → ends_in_end (t ∷ ts) ≡ true
unfolding ends_in_end
ends-cons t [] h = cc
ends-cons t (u ∷ ts) h = h

Splits-cons :
    (op size : ℕ) (rest : List ℕ)
    → op_size op ≡ some size
    → 0 < size
    → size ≤ length (op ∷ rest)
    → Splits (drop size (op ∷ rest))
    → Splits (op ∷ rest)
Splits-cons op size rest e pos fits s zero pc h = absurd (omega arith)
Splits-cons op size rest e pos fits s (suc fuel) pc h =
    let (later, ran, ended) = s fuel (pc + size) (omega (arith, length-drop size (op ∷ rest))) in
    (
      take size (op ∷ rest) ∷ later,
      run_round fuel op size rest pc e fits ran,
      ends-cons (take size (op ∷ rest)) later ended,
    )

one_byte_size : (op : ℕ) → elem op one_byte ≡ true → op_size op ≡ some 1
unfolding op_size
one_byte_size op h = ground arith

neutral_size : (op : ℕ) → elem op neutral ≡ true → op_size op ≡ some 3
unfolding op_size
neutral_size op h = ground arith

Releases-size : (down up : ℕ) → Releases down up → (op_size down ≡ some 3) × (op_size up ≡ some 3)
unfolding op_size
Releases-size down up (key d u) = rw (d, u) (refl, refl)
Releases-size down up (usage d u) = rw (d, u) (refl, refl)

balanced-Splits : (code tail : List ℕ) → IsBalanced code → Splits tail → Splits (code ++ tail)
balanced-Splits code tail nil s = s
balanced-Splits code tail (plain op rest o b) s =
    Splits-cons op 1 (rest ++ tail) (one_byte_size op o) (omega arith) (omega arith)
      (balanced-Splits rest tail b s)
balanced-Splits code tail (args op a b rest o r) s =
    Splits-cons op 3 (a ∷ b ∷ (rest ++ tail)) (neutral_size op o) (omega arith) (omega arith)
      (balanced-Splits rest tail r s)
balanced-Splits code tail (held down up a b inner rest o i r) s =
    let sizes = Releases-size down up o in
    let release =
      Splits-cons up 3 (a ∷ b ∷ (rest ++ tail)) sizes.1 (omega arith) (omega arith)
        (balanced-Splits rest tail r s) in
    let body =
      subst Splits (sym (append_assoc inner (up ∷ a ∷ b ∷ rest) tail))
        (balanced-Splits inner (up ∷ a ∷ b ∷ (rest ++ tail)) i release) in
    Splits-cons down 3 (a ∷ b ∷ ((inner ++ (up ∷ a ∷ b ∷ rest)) ++ tail)) sizes.0 (omega arith)
      (omega arith) body

end-Splits : Splits (op_end ∷ [])
unfolding tokenize_from op_size ends_in_end
end-Splits zero pc h = absurd (omega arith)
end-Splits (suc zero) pc h = absurd (omega arith)
end-Splits (suc (suc fuel)) pc h = ((op_end ∷ []) ∷ [], refl, refl)

-- Balanced bytecode with END behind it is accepted by `tokenize_macro`.
pub IsBalanced-tokenize :
    (code : List ℕ)
    → IsBalanced code
    → (tokens : List (List ℕ)) × (tokenize_macro (code ++ op_end ∷ []) ≡ ok tokens)
unfolding tokenize_macro
IsBalanced-tokenize code b =
    let bytecode = code ++ op_end ∷ [] in
    let (tokens, ran, ended) =
      balanced-Splits code (op_end ∷ []) b end-Splits (suc (length bytecode)) 0 (omega arith) in
    (tokens, rw (ran, ended))
