-- ===== src/Examples/Codec.antt =====
-- Pages, directories and bindings of g502x_onboard/codec.py at concrete inputs.
use g502x_onboard.Base.{
  ℕ, zero, suc, ◌≡◌, refl, true, false, List, [], ◌∷◌, ◌++◌, arith, replicate, set, elem, All,
  All-append,
}
use g502x_onboard.Base.Results.{ok, err}
use g502x_onboard.CodecError.{mouse_direct_only}
use g502x_onboard.Sector.{crc16_ccitt, pack_be16, sector_crc_ok, with_crc}
use g502x_onboard.Sector.Crc.{crc16_ccitt-lt}
use g502x_onboard.Sector.Classify.{Sealed, with_crc_ok}
use g502x_onboard.Sector.Detect.{IsByte, single_byte_detected}
use g502x_onboard.Directory.{is_subset, flag, build_directory, validate_directory}
use g502x_onboard.Directory.Laws.{IsDirectory, validate-IsDirectory}
use g502x_onboard.Directory.Build.{build-validate}
use g502x_onboard.Action
use g502x_onboard.Action.{
  lower, Action, sequence, alias, step, end, hotkey, delay, object, respelled, mouse, direct, macro,
  pos, compile_action, compile_binding,
}
use g502x_onboard.Action.Balanced.{IsBalanced}
use g502x_onboard.Action.Compile.{compile_action-IsBalanced}
use g502x_onboard.Tokens.{tokenize_macro, ends_in_end}
use mathlib.Core.List.{flatten}
use g502x_onboard.Tokens.Laws.{IsToken, tokenize-flatten}
use g502x_onboard.Tokens.Compiled.{compile_binding-tokenize}

abbrev zeros : List ℕ
zeros = replicate 253 0

abbrev zero_page : List ℕ
zero_page = zeros ++ pack_be16 (crc16_ccitt zeros)

abbrev check : List ℕ
check = b'1' ∷ b'2' ∷ b'3' ∷ b'4' ∷ b'5' ∷ b'6' ∷ b'7' ∷ b'8' ∷ b'9' ∷ []

-- The check value of CRC-16/CCITT-FALSE.
crc16_ccitt-check : crc16_ccitt check ≡ 0x29B1
unfolding crc16_ccitt
crc16_ccitt-check = refl

All-replicate : (n a : ℕ) → IsByte a → All IsByte (replicate n a)
All-replicate zero a h = tt
All-replicate (suc n) a h = (h, All-replicate n a h)

zero_page-IsByte : All IsByte zero_page
zero_page-IsByte =
    let lt = crc16_ccitt-lt zeros in
    All-append IsByte zeros (pack_be16 (crc16_ccitt zeros)) (All-replicate 253 0 (omega arith))
      (omega arith, (omega arith, tt))

zero_page-ok : sector_crc_ok zero_page ≡ true
unfolding sector_crc_ok crc16_ccitt
zero_page-ok = refl

single_byte_detected_example : sector_crc_ok (set zero_page 7 1) ≡ false
single_byte_detected_example =
    single_byte_detected zero_page 7 1 refl zero_page-IsByte zero_page-ok (omega arith)
      (omega arith) (omega arith)

with_crc_ok_example :
    (page : List ℕ) × (with_crc (replicate 255 9) ≡ ok page) × Sealed (replicate 255 9) page
with_crc_ok_example = with_crc_ok (replicate 255 9) refl

-- A baseline directory with profiles 1 and 2 enabled, before its checksum.
abbrev baseline : List ℕ
baseline = 0 ∷ 1 ∷ 1 ∷ 0 ∷ 0 ∷ 2 ∷ 1 ∷ replicate 248 0

build-validate_example :
    (page : List ℕ) × (enabled : List ℕ) × (build_directory baseline (3 ∷ 5 ∷ []) ≡ ok page)
    × (validate_directory page baseline ≡ ok enabled)
    × ((p : ℕ) → elem p enabled ≡ elem p (1 ∷ 2 ∷ 3 ∷ 5 ∷ []))
unfolding is_subset
build-validate_example = build-validate baseline (3 ∷ 5 ∷ []) refl refl refl refl

abbrev pub one_and_two : List ℕ
one_and_two =
    (0 ∷ 1 ∷ 1 ∷ 0 ∷ 0 ∷ 2 ∷ 1 ∷ replicate 246 0)
    ++ pack_be16 (crc16_ccitt (0 ∷ 1 ∷ 1 ∷ 0 ∷ 0 ∷ 2 ∷ 1 ∷ replicate 246 0))

one_and_two-valid : validate_directory one_and_two baseline ≡ ok (1 ∷ 2 ∷ [])
unfolding validate_directory sector_crc_ok crc16_ccitt g502x_onboard.Directory.is_empty
    g502x_onboard.Directory.unexpected g502x_onboard.Directory.must_be_enabled
    g502x_onboard.Directory.collect_enabled
one_and_two-valid = refl

validate-IsDirectory_example : IsDirectory baseline one_and_two (1 ∷ 2 ∷ [])
validate-IsDirectory_example =
    validate-IsDirectory one_and_two baseline (1 ∷ 2 ∷ []) one_and_two-valid

abbrev combo : Action
combo =
    sequence
      (alias "copy" (step (hotkey ("CTRL" ∷ "SHIFT" ∷ "V" ∷ [])) (step (delay (pos 300)) end)))

abbrev combo_bytes : List ℕ
combo_bytes =
    (0x43 ∷ 1 ∷ 0xE0 ∷ 0x43 ∷ 0 ∷ 6 ∷ 0x44 ∷ 0 ∷ 6 ∷ 0x44 ∷ 1 ∷ 0xE0 ∷ [])
    ++ ((0x43 ∷ 1 ∷ 0xE0 ∷ 0x43 ∷ 2 ∷ 0xE1 ∷ 0x43 ∷ 0 ∷ 0x19 ∷ 0x44 ∷ 0 ∷ 0x19 ∷ 0x44 ∷ 2 ∷ 0xE1
          ∷ 0x44 ∷ 1 ∷ 0xE0 ∷ [])
        ++ (0x40 ∷ 1 ∷ 44 ∷ []))

combo-compiles : compile_action combo ≡ ok combo_bytes
unfolding compile_action Action.compile_alias g502x_onboard.Keys.alias_hotkeys Action.compile_hotkey
    Action.split_last Action.check_mods g502x_onboard.Keys.mods g502x_onboard.Keys.keys
    Action.concat_map Action.key_down Action.key_event Action.key_up Action.compile_delay
combo-compiles = refl

compile_action-IsBalanced_example : IsBalanced combo_bytes
compile_action-IsBalanced_example = compile_action-IsBalanced combo combo_bytes combo-compiles

combo-binding : compile_binding (object combo) ≡ ok (macro (combo_bytes ++ 0xFF ∷ []))
unfolding compile_binding lower compile_action Action.normalize_action Action.compile_alias
    g502x_onboard.Keys.alias_hotkeys Action.compile_hotkey Action.split_last Action.check_mods
    g502x_onboard.Keys.mods g502x_onboard.Keys.keys Action.concat_map Action.key_down
    Action.key_event Action.key_up Action.compile_delay
combo-binding = refl

-- A kind with a capital has no direct binding: "Hotkey" is compiled, and "Mouse" is refused.
abbrev copy : Action
copy = hotkey ("CTRL" ∷ "C" ∷ [])

copy-direct : compile_binding (object copy) ≡ ok (direct (0x80 ∷ 2 ∷ 1 ∷ 6 ∷ []))
unfolding compile_binding Action.normalize_action lower Action.direct_keyboard_binding
    Action.split_last g502x_onboard.Keys.mods g502x_onboard.Keys.keys Action.modifier_mask
copy-direct = refl

copy-macro :
    compile_binding (respelled copy)
    ≡ ok (macro (0x43 ∷ 1 ∷ 0xE0 ∷ 0x43 ∷ 0 ∷ 6 ∷ 0x44 ∷ 0 ∷ 6 ∷ 0x44 ∷ 1 ∷ 0xE0 ∷ 0xFF ∷ []))
unfolding compile_binding Action.normalize_action lower compile_action Action.compile_hotkey
    Action.split_last Action.check_mods g502x_onboard.Keys.mods g502x_onboard.Keys.keys
    Action.concat_map Action.key_down Action.key_event Action.key_up
copy-macro = refl

click-refused : compile_binding (respelled (mouse "left")) ≡ err mouse_direct_only
unfolding compile_binding Action.normalize_action lower compile_action
click-refused = refl

compile_binding-tokenize_example :
    (tokens : List (List ℕ)) × (tokenize_macro (combo_bytes ++ 0xFF ∷ []) ≡ ok tokens)
compile_binding-tokenize_example =
    compile_binding-tokenize (object combo) (combo_bytes ++ 0xFF ∷ []) combo-binding

abbrev tap_bytes : List ℕ
tap_bytes = 0x43 ∷ 0 ∷ 4 ∷ 0x44 ∷ 0 ∷ 4 ∷ 0xFF ∷ []

abbrev tap_tokens : List (List ℕ)
tap_tokens = (0x43 ∷ 0 ∷ 4 ∷ []) ∷ (0x44 ∷ 0 ∷ 4 ∷ []) ∷ (0xFF ∷ []) ∷ []

tap_bytes-tokens : tokenize_macro tap_bytes ≡ ok tap_tokens
unfolding tokenize_macro g502x_onboard.Tokens.tokenize_from g502x_onboard.Tokens.op_size ends_in_end
tap_bytes-tokens = refl

tokenize-flatten_example :
    (flatten tap_tokens ≡ tap_bytes) × All IsToken tap_tokens × (ends_in_end tap_tokens ≡ true)
tokenize-flatten_example = tokenize-flatten tap_bytes tap_tokens tap_bytes-tokens
