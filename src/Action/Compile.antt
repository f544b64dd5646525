-- ===== src/Action/Compile.antt =====
-- Every action that compiles is balanced.
use g502x_onboard.Base.{
  ℕ, ◌-◌, ◌/◌, ◌%◌, ◌≡◌, refl, sym, subst, String, true, ◌||◌, List, [], ◌∷◌, ◌==◌, leb, ltb,
  Bool-cases, Option-cases, inl, inr, elem,
}
use package.text.Mathlib.Text.{◌==◌ as str_eq}
use g502x_onboard.Base.Results.{ok, >>=-eq-ok, unwrap, if-eq-ok, unless-eq-ok}
use g502x_onboard.Constants.{
  op_roller, op_acpan, op_delay, op_key_down, op_key_up, op_consumer_down, op_consumer_up,
}
use g502x_onboard.CodecError.{bad_layout, delay_range, amount_range, empty_sequence}
use g502x_onboard.Keys.{find_name, consumer_usages, alias_hotkeys, alias_consumers}
use g502x_onboard.Action.{
  Action, Steps, hotkey, tap, delay, consumer, wheel, horizontal_wheel, wait_for_release,
  repeat_while_pressed, mouse, sequence, host, unknown, end, alias, step, compile_delay, text_key,
  text_taps, compile_chars, compile_text, compile_consumer, compile_axis, compile_alias, has_steps,
  compile_action, compile_steps, ℤ, pos, negsuc,
}
use g502x_onboard.Action.Balanced.{
  IsBalanced, nil, plain_one, args_one, held, key, usage, neutral, IsBalanced-append,
  tap-IsBalanced, hotkey-IsBalanced,
}

delay-IsBalanced : (ms : ℤ) {bs : List ℕ} → compile_delay ms ≡ ok bs → IsBalanced bs
unfolding compile_delay
delay-IsBalanced (negsuc n) h = cc
delay-IsBalanced (pos n) h =
    let code = op_delay ∷ n / 256 ∷ n % 256 ∷ [] in
    let (_, e) = if-eq-ok (leb n 65535) (ok code) delay_range h in
    subst IsBalanced (sym (unwrap e)) (args_one op_delay (n / 256) (n % 256) refl)

axis-IsBalanced :
    (op : ℕ) (amount : ℤ) {bs : List ℕ}
    → elem op neutral ≡ true
    → compile_axis op amount ≡ ok bs
    → IsBalanced bs
unfolding compile_axis
axis-IsBalanced op (pos n) o h =
    let (_, e) = unless-eq-ok (n == 0 || ltb 127 n) (ok (op ∷ n ∷ 0 ∷ [])) amount_range h in
    subst IsBalanced (sym (unwrap e)) (args_one op n 0 o)
axis-IsBalanced op (negsuc n) o h =
    let (_, e) = unless-eq-ok (ltb 126 n) (ok (op ∷ (255 - n) ∷ 0 ∷ [])) amount_range h in
    subst IsBalanced (sym (unwrap e)) (args_one op (255 - n) 0 o)

consumer-IsBalanced :
    (command : String) {bs : List ℕ} → compile_consumer command ≡ ok bs → IsBalanced bs
unfolding compile_consumer
consumer-IsBalanced command h = elim (Option-cases (find_name command consumer_usages)) [
  | inl e ↦ cc (rw (e, compile_consumer) at h)
  | inr (u, e) ↦ subst IsBalanced (sym (unwrap (rw (e, compile_consumer) at h))) (
      held op_consumer_down op_consumer_up (u / 256 % 256) (u % 256) [] [] (usage refl refl) nil
        nil)
]

taps-IsBalanced : (modifier u : ℕ) → IsBalanced (text_taps modifier u)
taps-IsBalanced modifier u =
    let tapped = held op_key_down op_key_up 0 u [] [] (key refl refl) nil nil in
    elim (Bool-cases (modifier == 0)) [
      | inl e ↦ rw e tapped
      | inr e ↦ rw e (
          held op_key_down op_key_up modifier 0xE1 (op_key_down ∷ 0 ∷ u ∷ op_key_up ∷ 0 ∷ u ∷ []) []
            (key refl refl) tapped nil)
    ]

chars-IsBalanced :
    (chars : List ℕ) (layout : String) {bs : List ℕ}
    → compile_chars chars layout ≡ ok bs
    → IsBalanced bs
unfolding compile_chars
chars-IsBalanced [] layout h = subst IsBalanced (sym (unwrap h)) nil
chars-IsBalanced (ch ∷ chars) layout h =
    let (pair, e1, h1) = >>=-eq-ok (text_key ch layout) _ h in
    let (rest, e2, h2) = >>=-eq-ok (compile_chars chars layout) _ h1 in
    subst IsBalanced (sym (unwrap h2)) (
      IsBalanced-append (text_taps pair.0 pair.1) rest (taps-IsBalanced pair.0 pair.1)
        (chars-IsBalanced chars layout e2))

text-IsBalanced :
    (value : List ℕ) (layout : String) {bs : List ℕ}
    → compile_text value layout ≡ ok bs
    → IsBalanced bs
unfolding compile_text
text-IsBalanced value layout h =
    let chosen = str_eq layout "basic" || str_eq layout "us" in
    chars-IsBalanced value layout
      (if-eq-ok chosen (compile_chars value layout) (bad_layout layout) h).1

alias-IsBalanced : (name : String) {bs : List ℕ} → compile_alias name ≡ ok bs → IsBalanced bs
unfolding compile_alias
alias-IsBalanced name h = elim (Option-cases (find_name name alias_hotkeys)) [
  | inr (names, e) ↦ hotkey-IsBalanced names (rw (e, compile_alias) at h)
  | inl absent ↦ elim (Option-cases (find_name name alias_consumers)) [
    | inr (command, e) ↦ consumer-IsBalanced command (rw (absent, e, compile_alias) at h)
    | inl missing ↦ cc (rw (absent, missing, compile_alias) at h)
  ]
]

mutual
  unfolding compile_action compile_steps

  action-IsBalanced :
      (action : Action) {bs : List ℕ} → compile_action action ≡ ok bs → IsBalanced bs
  action-IsBalanced (hotkey names) h = hotkey-IsBalanced names h
  action-IsBalanced (tap name) h = tap-IsBalanced name h
  action-IsBalanced (Action.text value layout) h = text-IsBalanced value layout h
  action-IsBalanced (delay ms) h = delay-IsBalanced ms h
  action-IsBalanced (consumer command) h = consumer-IsBalanced command h
  action-IsBalanced (wheel amount) h = axis-IsBalanced op_roller amount refl h
  action-IsBalanced (horizontal_wheel amount) h = axis-IsBalanced op_acpan amount refl h
  action-IsBalanced wait_for_release h = subst IsBalanced (sym (unwrap h)) (plain_one 0x01 refl)
  action-IsBalanced repeat_while_pressed h = subst IsBalanced (sym (unwrap h)) (plain_one 0x02 refl)
  action-IsBalanced (mouse command) h = cc
  action-IsBalanced (sequence steps) h =
      steps-IsBalanced steps (if-eq-ok (has_steps steps) (compile_steps steps) empty_sequence h).1
  action-IsBalanced (host kind) h = cc
  action-IsBalanced (unknown kind) h = cc

  steps-IsBalanced : (steps : Steps) {bs : List ℕ} → compile_steps steps ≡ ok bs → IsBalanced bs
  steps-IsBalanced end h = subst IsBalanced (sym (unwrap h)) nil
  steps-IsBalanced (alias name rest) h =
      let (first, e1, h1) = >>=-eq-ok (compile_alias name) _ h in
      let (more, e2, h2) = >>=-eq-ok (compile_steps rest) _ h1 in
      subst IsBalanced (sym (unwrap h2))
        (IsBalanced-append first more (alias-IsBalanced name e1) (steps-IsBalanced rest e2))
  steps-IsBalanced (step action rest) h =
      let (first, e1, h1) = >>=-eq-ok (compile_action action) _ h in
      let (more, e2, h2) = >>=-eq-ok (compile_steps rest) _ h1 in
      subst IsBalanced (sym (unwrap h2))
        (IsBalanced-append first more (action-IsBalanced action e1) (steps-IsBalanced rest e2))

-- Whatever action compiles, sequences included, its bytecode is balanced: each key or consumer press
-- has a later release of the same usage, and these pairs nest.
pub compile_action-IsBalanced :
    (action : Action) (bytecode : List ℕ)
    → compile_action action ≡ ok bytecode
    → IsBalanced bytecode
compile_action-IsBalanced action bytecode h = action-IsBalanced action h
