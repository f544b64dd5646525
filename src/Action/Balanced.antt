-- ===== src/Action/Balanced.antt =====
-- Compiled actions release every key that they press, in the reverse order.
use g502x_onboard.Base.{
  ℕ, ◌≡◌, refl, sym, ap, ◌∙◌, subst, String, true, List, [], ◌∷◌, ◌++◌, Option-cases, inl, inr,
  elem,
}
use mathlib.Core.Path.{subst₂}
use mathlib.Core.List.{reverse, append_assoc, append-nil, reverse-cons}
use g502x_onboard.Base.Results.{Result, ok, require, >>=-eq-ok, unwrap}
use g502x_onboard.Constants.{
  op_wait_for_release, op_repeat_while_pressed, op_roller, op_acpan, op_delay, op_key_down,
  op_key_up, op_consumer_down, op_consumer_up,
}
use g502x_onboard.CodecError.{CodecError}
use g502x_onboard.Keys.{find_name, keys, mods}
use g502x_onboard.Action.{
  key_event, key_down, key_up, compile_tap, is_final_key, concat_map, check_mods, split_last,
  compile_hotkey,
}

-- A neutral instruction of one or of three bytes.
abbrev pub one_byte : List ℕ
one_byte = op_wait_for_release ∷ op_repeat_while_pressed ∷ []

abbrev pub neutral : List ℕ
neutral = op_roller ∷ op_acpan ∷ op_delay ∷ []

-- The opcode that releases what `down` presses.
pub data Releases : ℕ → ℕ → Type 0 where
  key : {down up : ℕ} → down ≡ op_key_down → up ≡ op_key_up → Releases down up
  usage : {down up : ℕ} → down ≡ op_consumer_down → up ≡ op_consumer_up → Releases down up

-- Bytecode in which each press is matched, well nested, by a release of the same key.
pub data IsBalanced : List ℕ → Type 0 where
  nil : IsBalanced []
  plain :
      (op : ℕ) (rest : List ℕ) → elem op one_byte ≡ true → IsBalanced rest → IsBalanced (op ∷ rest)
  args :
      (op a b : ℕ) (rest : List ℕ)
      → elem op neutral ≡ true
      → IsBalanced rest
      → IsBalanced (op ∷ a ∷ b ∷ rest)
  held :
      (down up a b : ℕ) (inner rest : List ℕ)
      → Releases down up
      → IsBalanced inner
      → IsBalanced rest
      → IsBalanced (down ∷ a ∷ b ∷ (inner ++ (up ∷ a ∷ b ∷ rest)))

pub IsBalanced-append : (xs ys : List ℕ) → IsBalanced xs → IsBalanced ys → IsBalanced (xs ++ ys)
IsBalanced-append xs ys nil h = h
IsBalanced-append xs ys (plain op rest o r) h =
    plain op (rest ++ ys) o (IsBalanced-append rest ys r h)
IsBalanced-append xs ys (args op a b rest o r) h =
    args op a b (rest ++ ys) o (IsBalanced-append rest ys r h)
IsBalanced-append xs ys (held down up a b inner rest o i r) h =
    subst (λ t. IsBalanced (down ∷ a ∷ b ∷ t)) (sym (append_assoc inner (up ∷ a ∷ b ∷ rest) ys))
      (held down up a b inner (rest ++ ys) o i (IsBalanced-append rest ys r h))

pub plain_one : (op : ℕ) → elem op one_byte ≡ true → IsBalanced (op ∷ [])
plain_one op h = plain op [] h nil

pub args_one : (op a b : ℕ) → elem op neutral ≡ true → IsBalanced (op ∷ a ∷ b ∷ [])
args_one op a b h = args op a b [] h nil

-- The bytes of a press and of a release of the same name differ in the opcode alone.
record IsPair (d u : List ℕ) : Type 0 where
  mask : ℕ
  code : ℕ
  pressed : d ≡ op_key_down ∷ mask ∷ code ∷ []
  released : u ≡ op_key_up ∷ mask ∷ code ∷ []

key_event-IsPair :
    (name : String) {d u : List ℕ} → key_down name ≡ ok d → key_up name ≡ ok u → IsPair d u
unfolding key_down key_up key_event
key_event-IsPair name hd hu = elim (Option-cases (find_name name mods)) [
  | inl absent ↦ elim (Option-cases (find_name name keys)) [
    | inl missing ↦ cc (rw (absent, missing, key_event) at hd)
    | inr (c, found) ↦ record {
      mask = 0;
      code = c;
      pressed = unwrap (rw (absent, found, key_event) at hd);
      released = unwrap (rw (absent, found, key_event) at hu);
    }
  ]
  | inr ((bits, c), found) ↦ record {
    mask = bits;
    code = c;
    pressed = unwrap (rw (found, key_event) at hd);
    released = unwrap (rw (found, key_event) at hu);
  }
]

concat_map-append :
    (f : String → Result CodecError (List ℕ)) (xs ys : List String) {bs : List ℕ}
    → concat_map f (xs ++ ys) ≡ ok bs
    → (ps : List ℕ) × (cs : List ℕ) × (concat_map f xs ≡ ok ps)
      × (concat_map f ys ≡ ok cs)
      × (bs ≡ ps ++ cs)
unfolding concat_map
concat_map-append f [] ys {bs} h = ([], bs, refl, h, refl)
concat_map-append f (x ∷ xs) ys h =
    let (first, e1, h1) = >>=-eq-ok (f x) _ h in
    let (rest, e2, h2) = >>=-eq-ok (concat_map f (xs ++ ys)) _ h1 in
    let (ps, cs, e3, e4, e5) = concat_map-append f xs ys e2 in
    (
      first ++ ps,
      cs,
      rw (e1, e3),
      e4,
      unwrap h2 ∙ ap (λ t. first ++ t) e5 ∙ sym (append_assoc first ps cs),
    )

IsPair-IsBalanced : (d u : List ℕ) → IsPair d u → IsBalanced (d ++ u)
IsPair-IsBalanced d u pair =
    rw (pair.pressed, pair.released)
      (held op_key_down op_key_up pair.mask pair.code [] [] (key refl refl) nil nil)

wrap_pair :
    (d u ds inner us : List ℕ)
    → IsPair d u
    → IsBalanced (ds ++ (inner ++ us))
    → IsBalanced ((d ++ ds) ++ (inner ++ (us ++ u)))
wrap_pair d u ds inner us pair h =
    let tail = op_key_up ∷ pair.mask ∷ pair.code ∷ [] in
    let e : (ds ++ (inner ++ us)) ++ tail ≡ ds ++ (inner ++ (us ++ tail)) =
      append_assoc ds (inner ++ us) tail ∙ ap (λ t. ds ++ t) (append_assoc inner us tail) in
    rw (pair.pressed, pair.released)
      (subst (λ t. IsBalanced (op_key_down ∷ pair.mask ∷ pair.code ∷ t)) e
        (held op_key_down op_key_up pair.mask pair.code (ds ++ (inner ++ us)) [] (key refl refl) h
          nil))

-- Nested presses around balanced code.
held_mods :
    (ms : List String) (inner : List ℕ) {downs ups : List ℕ}
    → IsBalanced inner
    → concat_map key_down ms ≡ ok downs
    → concat_map key_up (reverse ms) ≡ ok ups
    → IsBalanced (downs ++ (inner ++ ups))
unfolding concat_map
held_mods [] inner {downs} {ups} h hd hu = rw (unwrap hd, unwrap hu, append-nil) h
held_mods (m ∷ ms) inner {downs} {ups} h hd hu =
    let (d, e1, h1) = >>=-eq-ok (key_down m) _ hd in
    let (ds, e2, h2) = >>=-eq-ok (concat_map key_down ms) _ h1 in
    let (us, tail, e3, e4, e5) =
      concat_map-append key_up (reverse ms) (m ∷ []) (rw reverse-cons at hu) in
    let (u, e6, h6) = >>=-eq-ok (key_up m) _ e4 in
    let whole = wrap_pair d u ds inner us (key_event-IsPair m e1 e6) (held_mods ms inner h e2 e3) in
    let ed : d ++ ds ≡ downs = sym (unwrap h2) in
    let eu : us ++ u ≡ ups = sym (e5 ∙ ap (λ t. us ++ t) (unwrap h6 ∙ append-nil u)) in
    subst₂ (λ t v. IsBalanced (t ++ (inner ++ v))) ed eu whole

pub tap-IsBalanced : (name : String) {bs : List ℕ} → compile_tap name ≡ ok bs → IsBalanced bs
unfolding compile_tap
tap-IsBalanced name h =
    let (d, e1, h1) = >>=-eq-ok (key_down name) _ h in
    let (u, e2, h2) = >>=-eq-ok (key_up name) _ h1 in
    subst IsBalanced (sym (unwrap h2)) (IsPair-IsBalanced d u (key_event-IsPair name e1 e2))

pub hotkey-IsBalanced :
    (names : List String) {bs : List ℕ} → compile_hotkey names ≡ ok bs → IsBalanced bs
unfolding compile_hotkey
hotkey-IsBalanced names h = elim (Option-cases (split_last names)) [
  | inl e ↦ cc (rw (e, compile_hotkey) at h)
  | inr (([], k), e) ↦ cc (rw (e, compile_hotkey) at h)
  | inr ((m ∷ ms, k), e) ↦
      let h0 = rw (e, compile_hotkey) at h in
      let (_, _, h1) = >>=-eq-ok (check_mods (m ∷ ms)) _ h0 in
      let (_, _, h2) = >>=-eq-ok (require (is_final_key k) _) _ h1 in
      let (downs, e3, h3) = >>=-eq-ok (concat_map key_down (m ∷ ms)) _ h2 in
      let (d, e4, h4) = >>=-eq-ok (key_down k) _ h3 in
      let (u, e5, h5) = >>=-eq-ok (key_up k) _ h4 in
      let (ups, e6, h6) = >>=-eq-ok (concat_map key_up (reverse (m ∷ ms))) _ h5 in
      let inner = IsPair-IsBalanced d u (key_event-IsPair k e4 e5) in
      let whole = held_mods (m ∷ ms) (d ++ u) inner e3 e6 in
      subst IsBalanced (sym (unwrap h6 ∙ ap (λ t. downs ++ t) (sym (append_assoc d u ups)))) whole
]
