-- ===== src/Keys.antt =====
-- g502x_onboard/constants.py, the tables KEYS, MODS, DIRECT_MOUSE_MASKS, CONSUMER_USAGES and
-- US_CHAR_MAP. Names are those that the program looks up, after `str(x).upper()` or `.lower()`.
use text.Mathlib.Text.{◌==◌ as str_eq}
use g502x_onboard.Base.{ℕ, ◌+◌, ◌-◌, String, Option, none, some, List, [], ◌∷◌, ◌==◌, if◌then◌else◌}

module _ {ℓ} {V : Type ℓ} where
  -- `table.get(name)`
  abbrev pub find_name : String → List (String × V) → Option V
  find_name name [] = none
  find_name name ((key, v) ∷ table) = if str_eq key name then some v else find_name name table

  -- `table.get(code)`
  abbrev pub find_code : ℕ → List (ℕ × V) → Option V
  find_code c [] = none
  find_code c ((key, v) ∷ table) = if key == c then some v else find_code c table

unfoldable pub keys : List (String × ℕ)
keys =
    ("A", 0x04)
    ∷ ("B", 0x05)
    ∷ ("C", 0x06)
    ∷ ("D", 0x07)
    ∷ ("E", 0x08)
    ∷ ("F", 0x09)
    ∷ ("G", 0x0A)
    ∷ ("H", 0x0B)
    ∷ ("I", 0x0C)
    ∷ ("J", 0x0D)
    ∷ ("K", 0x0E)
    ∷ ("L", 0x0F)
    ∷ ("M", 0x10)
    ∷ ("N", 0x11)
    ∷ ("O", 0x12)
    ∷ ("P", 0x13)
    ∷ ("Q", 0x14)
    ∷ ("R", 0x15)
    ∷ ("S", 0x16)
    ∷ ("T", 0x17)
    ∷ ("U", 0x18)
    ∷ ("V", 0x19)
    ∷ ("W", 0x1A)
    ∷ ("X", 0x1B)
    ∷ ("Y", 0x1C)
    ∷ ("Z", 0x1D)
    ∷ ("1", 0x1E)
    ∷ ("2", 0x1F)
    ∷ ("3", 0x20)
    ∷ ("4", 0x21)
    ∷ ("5", 0x22)
    ∷ ("6", 0x23)
    ∷ ("7", 0x24)
    ∷ ("8", 0x25)
    ∷ ("9", 0x26)
    ∷ ("0", 0x27)
    ∷ ("ENTER", 0x28)
    ∷ ("ESC", 0x29)
    ∷ ("BACKSPACE", 0x2A)
    ∷ ("TAB", 0x2B)
    ∷ ("SPACE", 0x2C)
    ∷ ("F1", 0x3A)
    ∷ ("F2", 0x3B)
    ∷ ("F3", 0x3C)
    ∷ ("F4", 0x3D)
    ∷ ("F5", 0x3E)
    ∷ ("F6", 0x3F)
    ∷ ("F7", 0x40)
    ∷ ("F8", 0x41)
    ∷ ("F9", 0x42)
    ∷ ("F10", 0x43)
    ∷ ("F11", 0x44)
    ∷ ("F12", 0x45)
    ∷ ("RIGHT", 0x4F)
    ∷ ("LEFT", 0x50)
    ∷ ("DOWN", 0x51)
    ∷ ("UP", 0x52)
    ∷ []

unfoldable pub mods : List (String × (ℕ × ℕ))
mods =
    ("CTRL", (0x01, 0xE0))
    ∷ ("SHIFT", (0x02, 0xE1))
    ∷ ("ALT", (0x04, 0xE2))
    ∷ ("WIN", (0x08, 0xE3))
    ∷ []

unfoldable pub direct_mouse_masks : List (String × ℕ)
direct_mouse_masks =
    ("left", 0x0001)
    ∷ ("right", 0x0002)
    ∷ ("middle", 0x0004)
    ∷ ("back", 0x0008)
    ∷ ("forward", 0x0010)
    ∷ []

unfoldable pub consumer_usages : List (String × ℕ)
consumer_usages = ("volume_up", 0x00E9) ∷ ("volume_down", 0x00EA) ∷ []

-- By the code of the character.
unfoldable pub us_char_map : List (ℕ × (ℕ × ℕ))
us_char_map =
    (b'-', (0x00, 0x2D))
    ∷ (b'_', (0x02, 0x2D))
    ∷ (b'=', (0x00, 0x2E))
    ∷ (b'+', (0x02, 0x2E))
    ∷ (0x5B, (0x00, 0x2F))
    ∷ (0x7B, (0x02, 0x2F))
    ∷ (0x5D, (0x00, 0x30))
    ∷ (0x7D, (0x02, 0x30))
    ∷ (0x5C, (0x00, 0x31))
    ∷ (0x7C, (0x02, 0x31))
    ∷ (0x3B, (0x00, 0x33))
    ∷ (0x3A, (0x02, 0x33))
    ∷ (0x27, (0x00, 0x34))
    ∷ (0x22, (0x02, 0x34))
    ∷ (0x60, (0x00, 0x35))
    ∷ (0x7E, (0x02, 0x35))
    ∷ (0x2C, (0x00, 0x36))
    ∷ (0x3C, (0x02, 0x36))
    ∷ (0x2E, (0x00, 0x37))
    ∷ (0x3E, (0x02, 0x37))
    ∷ (0x2F, (0x00, 0x38))
    ∷ (0x3F, (0x02, 0x38))
    ∷ (0x21, (0x02, 0x1E))
    ∷ (0x40, (0x02, 0x1F))
    ∷ (0x23, (0x02, 0x20))
    ∷ (0x24, (0x02, 0x21))
    ∷ (0x25, (0x02, 0x22))
    ∷ (0x5E, (0x02, 0x23))
    ∷ (0x26, (0x02, 0x24))
    ∷ (0x2A, (0x02, 0x25))
    ∷ (0x28, (0x02, 0x26))
    ∷ (0x29, (0x02, 0x27))
    ∷ []

-- KEYS at a letter or a digit, by its code: `KEYS[ch.upper()]`, `KEYS[ch]`.
unfoldable pub letter_usage : ℕ → ℕ
letter_usage i = 0x04 + i

unfoldable pub digit_usage : ℕ → ℕ
digit_usage c = if c == 0x30 then 0x27 else 0x1E + (c - 0x31)

-- ALIASES: the hotkeys and the consumer commands among them.
unfoldable pub alias_hotkeys : List (String × List String)
alias_hotkeys =
    ("copy", "CTRL" ∷ "C" ∷ [])
    ∷ ("paste", "CTRL" ∷ "V" ∷ [])
    ∷ ("select_all", "CTRL" ∷ "A" ∷ [])
    ∷ ("switch_window", "ALT" ∷ "TAB" ∷ [])
    ∷ ("task_manager", "CTRL" ∷ "SHIFT" ∷ "ESC" ∷ [])
    ∷ []

unfoldable pub alias_consumers : List (String × String)
alias_consumers = ("volume_up", "volume_up") ∷ ("volume_down", "volume_down") ∷ []
