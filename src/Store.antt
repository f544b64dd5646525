-- ===== src/Store.antt =====
-- g502x_onboard/codec.py, `jump_bytes` and `macro_pointer`: how the macro store refers to an address.
pub mod Jump
use g502x_onboard.Base.{ℕ, ◌/◌, ◌%◌, List, [], ◌∷◌, ltb, elem}
use g502x_onboard.Base.Results.{Result, ok, err, ◌>>=◌, ◌>>◌, require}
use g502x_onboard.Constants.{global_macro_sectors, page_data_size, op_jump}
use g502x_onboard.CodecError.{CodecError, jump_page, jump_offset, pointer_sector, pointer_offset}

unfoldable pub jump_bytes : ℕ → ℕ → Result CodecError (List ℕ)
jump_bytes page offset = do
  require (elem page global_macro_sectors) (jump_page page)
  require (ltb offset page_data_size) (jump_offset offset) >>= λ _.
      ok (op_jump ∷ page / 256 % 256 ∷ page % 256 ∷ offset / 256 % 256 ∷ offset % 256 ∷ [])

unfoldable pub macro_pointer : ℕ → ℕ → Result CodecError (List ℕ)
macro_pointer sector offset = do
  require (elem sector global_macro_sectors) (pointer_sector sector)
  require (ltb offset page_data_size) (pointer_offset offset) >>= λ _.
      ok (0 ∷ sector ∷ offset / 256 % 256 ∷ offset % 256 ∷ [])
