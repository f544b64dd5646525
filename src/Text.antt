-- ===== src/Text.antt =====
-- Text that the user types, as a list of code points: `str.strip`, equality and `int(text)`.
use g502x_onboard.Base.{
  ℕ, ◌+◌, ◌-◌, ◌*◌, Bool, true, false, ◌&&◌, ◌||◌, Option, none, some, List, [], ◌∷◌, ◌==◌,
  if◌then◌else◌, leb, elem,
}
use mathlib.Core.List.{reverse}
use g502x_onboard.Action.{ℤ, pos, negsuc}

abbrev pub Text : Type 0
Text = List ℕ

abbrev pub is_blank : Text → Bool
is_blank [] = true
is_blank (c ∷ text) = false

-- The code points that `str.isspace` accepts.
unfoldable pub is_space : ℕ → Bool
is_space c =
    (leb 0x09 c && leb c 0x0D)
    || ((leb 0x1C c && leb c 0x20)
        || ((leb 0x2000 c && leb c 0x200A)
            || elem c (0x85 ∷ 0xA0 ∷ 0x1680 ∷ 0x2028 ∷ 0x2029 ∷ 0x202F ∷ 0x205F ∷ 0x3000 ∷ [])))

unfoldable pub strip_left : Text → Text
strip_left [] = []
strip_left (c ∷ text) = if is_space c then strip_left text else c ∷ text

unfoldable pub strip : Text → Text
strip text = reverse (strip_left (reverse (strip_left text)))

-- The digits of `int(text)`: ASCII digits, with single underscores between them. The flag says
-- that an underscore may come next.
unfoldable pub read_digits : ℕ → Bool → Text → Option ℕ
read_digits n after_digit [] = if after_digit then some n else none
read_digits n after_digit (c ∷ text) =
    let digit = read_digits (n * 10 + (c - b'0')) true text in
    let skip = read_digits n false text in
    if leb b'0' c && leb c b'9' then digit else if after_digit && c == b'_' then skip else none

unfoldable pub signed : ℕ → ℤ
signed n = if n == 0 then pos 0 else negsuc (n - 1)

unfoldable pub read_signed : Text → Option ℤ
read_signed [] = none
read_signed (c ∷ text) =
    if c == b'-'
    then elim (read_digits 0 false text) [ none ↦ none | some n ↦ some (signed n) ]
    else elim (read_digits 0 false (if c == b'+' then text else c ∷ text)) [
      | none ↦ none
      | some n ↦ some (pos n)
    ]

-- `int(text)`, with `none` for a ValueError.
unfoldable pub parse_int : Text → Option ℤ
parse_int text = read_signed (strip text)
