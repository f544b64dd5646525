-- ===== src/Profile.antt =====
-- g502x_onboard/codec.py, `profile3_offset` and `_neutralize_macro_pointers`, with the layout of a
-- profile sector in constants.py.
use g502x_onboard.Base.{
  ℕ, ◌+◌, ◌*◌, Bool, List, [], ◌∷◌, ◌++◌, ◌==◌, ◌&&◌, if◌then◌else◌, leb, take, drop, get_or,
  length,
}

pub data Layer : Type 0 where
  normal gshift : Layer

pub data Button : Type 0 where
  g1 g2 g3 g4 g6 g5 tilt_left tilt_right g9 g8 g7 wheel_down wheel_up : Button

-- PROFILE3_TARGET_ORDER
abbrev pub target_order : List Button
target_order =
    g1 ∷ g2 ∷ g3 ∷ g4 ∷ g6 ∷ g5 ∷ tilt_left ∷ tilt_right ∷ g9 ∷ g8 ∷ g7 ∷ wheel_down ∷ wheel_up ∷ []

abbrev pub layers : List Layer
layers = normal ∷ gshift ∷ []

-- The place in that order.
abbrev pub index_of : Button → ℕ
index_of g1 = 0
index_of g2 = 1
index_of g3 = 2
index_of g4 = 3
index_of g6 = 4
index_of g5 = 5
index_of tilt_left = 6
index_of tilt_right = 7
index_of g9 = 8
index_of g8 = 9
index_of g7 = 10
index_of wheel_down = 11
index_of wheel_up = 12

abbrev pub layer_start : Layer → ℕ
layer_start normal = 0x20
layer_start gshift = 0x60

unfoldable pub profile3_offset : Layer → Button → ℕ
profile3_offset layer button = layer_start layer + index_of button * 4

-- `data[off:off + 4]`
unfoldable pub binding_at : List ℕ → Layer → Button → List ℕ
binding_at bytes layer button = take 4 (drop (profile3_offset layer button) bytes)

-- `out[off:off + 4] = binding`
unfoldable pub put_binding : Layer → Button → List ℕ → List ℕ → List ℕ
put_binding layer button binding bytes =
    let off = profile3_offset layer button in take off bytes ++ (binding ++ drop (off + 4) bytes)

-- PROFILE_BINDING_NOOP
abbrev pub noop : List ℕ
noop = 0x90 ∷ 0 ∷ 0 ∷ 0 ∷ []

abbrev pub is_macro_pointer : List ℕ → Bool
is_macro_pointer binding =
    length binding == 4
    && (get_or binding 0 0 == 0 && (leb 6 (get_or binding 1 0) && leb (get_or binding 1 0) 15))

-- One round of the inner loop.
unfoldable pub neutralize_binding : Layer → Button → List ℕ → List ℕ
neutralize_binding layer button bytes =
    if is_macro_pointer (binding_at bytes layer button)
    then put_binding layer button noop bytes
    else bytes

unfoldable pub neutralize_layer : Layer → List Button → List ℕ → List ℕ
neutralize_layer layer [] bytes = bytes
neutralize_layer layer (button ∷ buttons) bytes =
    neutralize_layer layer buttons (neutralize_binding layer button bytes)

unfoldable pub neutralize_macro_pointers : List ℕ → List ℕ
neutralize_macro_pointers bytes =
    neutralize_layer gshift target_order (neutralize_layer normal target_order bytes)
