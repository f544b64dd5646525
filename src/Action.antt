-- ===== src/Action.antt =====
-- g502x_onboard/codec.py, `key_down` to `compile_binding`: actions compiled to macro bytecode or to a
-- direct binding. An action object is a value of `Action`, its `kind` read off in lower case, with the
-- fields that kind has; a `Spec` says whether it was written that way; a text is the list of its code points.
pub mod Balanced
pub mod Compile
use g502x_onboard.Base.{
  ℕ, zero, suc, ◌+◌, ◌-◌, ◌*◌, ◌/◌, ◌%◌, bit_or, String, Bool, true, false, not, ◌&&◌, ◌||◌, Option,
  none, some, List, [], ◌∷◌, ◌++◌, ◌==◌, leb, ltb, if◌then◌else◌,
}
use mathlib.Core.List.{reverse}
use package.text.Mathlib.Text.{◌==◌ as str_eq}
use g502x_onboard.Base.Results.{Result, ok, err, ◌>>=◌, ◌>>◌, require}
use g502x_onboard.Constants.{
  op_wait_for_release, op_repeat_while_pressed, op_roller, op_acpan, op_delay, op_key_down,
  op_key_up, op_consumer_down, op_consumer_up, op_end,
}
use g502x_onboard.CodecError.{
  CodecError, unsupported_key, unsupported_modifier, hotkey_final_key, unsupported_consumer,
  hotkey_needs_modifier, delay_range, text_unavailable, text_host_required, amount_range,
  mouse_direct_only, empty_sequence, unsupported_mouse, host_required, unknown_action, bad_layout,
  unknown_alias,
}
use g502x_onboard.Keys.{
  find_name, find_code, keys, mods, direct_mouse_masks, consumer_usages, us_char_map, letter_usage,
  digit_usage, alias_hotkeys, alias_consumers,
}

-- A Python integer.
pub data ℤ : Type 0 where
  pos : ℕ → ℤ
  negsuc : ℕ → ℤ

mutual
  pub data Action : Type 0 where
    hotkey : List String → Action
    tap : String → Action
    text : List ℕ → String → Action
    delay : ℤ → Action
    consumer : String → Action
    wheel : ℤ → Action
    horizontal_wheel : ℤ → Action
    wait_for_release repeat_while_pressed : Action
    mouse : String → Action
    sequence : Steps → Action
    -- A kind of REQUIRES_HOST_ACTIONS, and any other kind.
    host : String → Action
    unknown : String → Action

  -- A step is an alias or an action object.
  pub data Steps : Type 0 where
    end : Steps
    alias : String → Steps → Steps
    step : Action → Steps → Steps

-- `key_down` and `key_up` differ in the opcode.
unfoldable pub key_event : ℕ → String → Result CodecError (List ℕ)
key_event op name = elim (find_name name mods) [
  | some (mask, usage) ↦ ok (op ∷ mask ∷ usage ∷ [])
  | none ↦ elim (find_name name keys) [
    | some usage ↦ ok (op ∷ 0 ∷ usage ∷ [])
    | none ↦ err (unsupported_key name)
  ]
]

unfoldable pub key_down : String → Result CodecError (List ℕ)
key_down name = key_event op_key_down name

unfoldable pub key_up : String → Result CodecError (List ℕ)
key_up name = key_event op_key_up name

unfoldable pub compile_tap : String → Result CodecError (List ℕ)
compile_tap name = do down ← key_down name; up ← key_up name; ok (down ++ up)

unfoldable pub compile_delay : ℤ → Result CodecError (List ℕ)
compile_delay (negsuc n) = err delay_range
compile_delay (pos ms) =
    if leb ms 65535 then ok (op_delay ∷ ms / 256 ∷ ms % 256 ∷ []) else err delay_range

abbrev pub is_some {ℓ} : {A : Type ℓ} → Option A → Bool
is_some none = false
is_some (some a) = true

-- `for x in names: out += f(x)`
unfoldable pub concat_map :
    (String → Result CodecError (List ℕ)) → List String → Result CodecError (List ℕ)
concat_map f [] = ok []
concat_map f (x ∷ xs) = do first ← f x; rest ← concat_map f xs; ok (first ++ rest)

unfoldable pub check_mods : List String → Result CodecError (Unit {0})
check_mods [] = ok tt
check_mods (m ∷ ms) =
    if is_some (find_name m mods) then check_mods ms else err (unsupported_modifier m)

-- `names[:-1]` and `names[-1]`
unfoldable pub split_last : List String → Option (List String × String)
split_last [] = none
split_last (x ∷ xs) = elim (split_last xs) [
  | none ↦ some ([], x)
  | some (ms, key) ↦ some (x ∷ ms, key)
]

abbrev pub is_final_key : String → Bool
is_final_key key = not (is_some (find_name key mods) || not (is_some (find_name key keys)))

-- Fewer than two names leave no modifier or no key.
unfoldable pub compile_hotkey : List String → Result CodecError (List ℕ)
compile_hotkey names = elim (split_last names) [
  | none ↦ err hotkey_needs_modifier
  | some ([], key) ↦ err hotkey_needs_modifier
  | some (m ∷ ms, key) ↦ do
    check_mods (m ∷ ms)
    require (is_final_key key) (hotkey_final_key key)
    downs ← concat_map key_down (m ∷ ms)
    down ← key_down key
    up ← key_up key
    ups ← concat_map key_up (reverse (m ∷ ms))
    ok (downs ++ (down ++ (up ++ ups)))
]

-- `_text_key`; the layout is "us" or not.
unfoldable pub text_key : ℕ → String → Result CodecError (ℕ × ℕ)
text_key ch layout =
    if leb b'a' ch && leb ch b'z'
    then ok (0, letter_usage (ch - b'a'))
    else if leb b'A' ch && leb ch b'Z'
    then ok (0x02, letter_usage (ch - b'A'))
    else if leb b'0' ch && leb ch b'9'
    then ok (0, digit_usage ch)
    else if ch == 0x20
    then ok (0, 0x2C)
    else if ch == 0x0A
    then ok (0, 0x28)
    else if ch == 0x09
    then ok (0, 0x2B)
    else elim (if str_eq layout "us" then find_code ch us_char_map else none) [
      | some found ↦ ok found
      | none ↦ if ltb 0x7F ch then err text_host_required else err text_unavailable
    ]

-- The bytes of one character.
abbrev pub text_taps : ℕ → ℕ → List ℕ
text_taps modifier usage =
    let tapped = op_key_down ∷ 0 ∷ usage ∷ op_key_up ∷ 0 ∷ usage ∷ [] in
    if modifier == 0
    then tapped
    else (op_key_down ∷ modifier ∷ 0xE1 ∷ []) ++ (tapped ++ (op_key_up ∷ modifier ∷ 0xE1 ∷ []))

unfoldable pub compile_chars : List ℕ → String → Result CodecError (List ℕ)
compile_chars [] layout = ok []
compile_chars (ch ∷ chars) layout = do
  (modifier, usage) ← text_key ch layout
  rest ← compile_chars chars layout
  ok (text_taps modifier usage ++ rest)

unfoldable pub compile_text : List ℕ → String → Result CodecError (List ℕ)
compile_text value layout =
    if str_eq layout "basic" || str_eq layout "us"
    then compile_chars value layout
    else err (bad_layout layout)

unfoldable pub compile_consumer : String → Result CodecError (List ℕ)
compile_consumer command = elim (find_name command consumer_usages) [
  | none ↦ err (unsupported_consumer command)
  | some usage ↦ ok (
      op_consumer_down
      ∷ usage / 256 % 256
      ∷ usage % 256
      ∷ op_consumer_up
      ∷ usage / 256 % 256
      ∷ usage % 256
      ∷ [])
]

-- `amount & 0xFF` of -(n + 1) is 255 - n.
unfoldable pub compile_axis : ℕ → ℤ → Result CodecError (List ℕ)
compile_axis op (pos n) = if n == 0 || ltb 127 n then err amount_range else ok (op ∷ n ∷ 0 ∷ [])
compile_axis op (negsuc n) = if ltb 126 n then err amount_range else ok (op ∷ (255 - n) ∷ 0 ∷ [])

-- `compile_action(normalize_action(step))` of an alias.
unfoldable pub compile_alias : String → Result CodecError (List ℕ)
compile_alias name = elim (find_name name alias_hotkeys) [
  | some names ↦ compile_hotkey names
  | none ↦ elim (find_name name alias_consumers) [
    | some command ↦ compile_consumer command
    | none ↦ err (unknown_alias name)
  ]
]

abbrev pub has_steps : Steps → Bool
has_steps end = false
has_steps _ = true

unfoldable mutual
  pub compile_action : Action → Result CodecError (List ℕ)
  compile_action (hotkey names) = compile_hotkey names
  compile_action (tap name) = compile_tap name
  compile_action (text value layout) = compile_text value layout
  compile_action (delay ms) = compile_delay ms
  compile_action (consumer command) = compile_consumer command
  compile_action (wheel amount) = compile_axis op_roller amount
  compile_action (horizontal_wheel amount) = compile_axis op_acpan amount
  compile_action wait_for_release = ok (op_wait_for_release ∷ [])
  compile_action repeat_while_pressed = ok (op_repeat_while_pressed ∷ [])
  compile_action (mouse command) = err mouse_direct_only
  compile_action (sequence steps) =
      let code = compile_steps steps in if has_steps steps then code else err empty_sequence
  compile_action (host kind) = err (host_required kind)
  compile_action (unknown kind) = err (unknown_action kind)

  pub compile_steps : Steps → Result CodecError (List ℕ)
  compile_steps end = ok []
  compile_steps (alias name rest) =
      compile_alias name >>= λ first. compile_steps rest >>= λ more. ok (first ++ more)
  compile_steps (step action rest) =
      compile_action action >>= λ first. compile_steps rest >>= λ more. ok (first ++ more)

-- A binding is an alias or an action object, whose `action` is the kind in lower case or is
-- `respelled` with capitals: `compile_action` reads both, the three direct bindings the first alone.
pub data Spec : Type 0 where
  named : String → Spec
  object respelled : Action → Spec

-- The action that a binding stands for, and whether its kind is in lower case.
unfoldable pub normalize_action : Spec → Result CodecError (Bool × Action)
normalize_action (object action) = ok (true, action)
normalize_action (respelled action) = ok (false, action)
normalize_action (named name) = elim (find_name name alias_hotkeys) [
  | some names ↦ ok (true, hotkey names)
  | none ↦ elim (find_name name alias_consumers) [
    | some command ↦ ok (true, consumer command)
    | none ↦ err (unknown_alias name)
  ]
]

abbrev pub direct_modifiers : List String
direct_modifiers = "CTRL" ∷ "SHIFT" ∷ "ALT" ∷ []

abbrev pub among : String → List String → Bool
among name [] = false
among name (x ∷ xs) = str_eq name x || among name xs

-- `mask |= MODS[mod][0]`, or `none` at a modifier that has no direct binding.
unfoldable pub modifier_mask : List String → Option ℕ
modifier_mask [] = some 0
modifier_mask (m ∷ ms) = elim (modifier_mask ms) [
  | none ↦ none
  | some mask ↦ elim (find_name m mods) [
    | some (bits, usage) ↦ if among m direct_modifiers then some (bit_or bits mask) else none
    | none ↦ none
  ]
]

unfoldable pub direct_keyboard_binding : List String → Option (List ℕ)
direct_keyboard_binding names = elim (split_last names) [
  | none ↦ none
  | some ([], key) ↦ none
  | some (m ∷ ms, key) ↦ elim (if is_final_key key then find_name key keys else none) [
    | none ↦ none
    | some usage ↦ elim (modifier_mask (m ∷ ms)) [
      | none ↦ none
      | some mask ↦ some (0x80 ∷ 0x02 ∷ mask ∷ usage ∷ [])
    ]
  ]
]

unfoldable pub direct_consumer_binding : String → Option (List ℕ)
direct_consumer_binding command = elim (find_name command consumer_usages) [
  | none ↦ none
  | some usage ↦ some (0x80 ∷ 0x03 ∷ usage / 256 % 256 ∷ usage % 256 ∷ [])
]

unfoldable pub direct_mouse_binding : String → Result CodecError (List ℕ)
direct_mouse_binding command = elim (find_name command direct_mouse_masks) [
  | none ↦ err unsupported_mouse
  | some mask ↦ ok (0x80 ∷ 0x01 ∷ mask / 256 % 256 ∷ mask % 256 ∷ [])
]

-- The dictionary that `compile_binding` returns, without its description.
pub data Binding : Type 0 where
  direct : List ℕ → Binding
  macro : List ℕ → Binding

abbrev pub as_macro : Action → Result CodecError Binding
as_macro action = do bytecode ← compile_action action; ok (macro (bytecode ++ op_end ∷ []))

-- The first of the three lowerings that applies, or else bytecode.
unfoldable pub lower : Bool → Action → Result CodecError Binding
lower true (hotkey names) = elim (direct_keyboard_binding names) [
  | some binding ↦ ok (direct binding)
  | none ↦ as_macro (hotkey names)
]
lower true (consumer command) = elim (direct_consumer_binding command) [
  | some binding ↦ ok (direct binding)
  | none ↦ as_macro (consumer command)
]
lower true (mouse command) = direct_mouse_binding command >>= λ binding. ok (direct binding)
lower _ action = as_macro action

unfoldable pub compile_binding : Spec → Result CodecError Binding
compile_binding spec = do (exact, action) ← normalize_action spec; lower exact action
