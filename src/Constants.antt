-- ===== src/Constants.antt =====
-- g502x_onboard/constants.py: the layout of the onboard memory and the opcodes of the macro VM.
use g502x_onboard.Base.{ℕ, ◌-◌, ◌*◌, List, [], ◌∷◌, length, if◌then◌else◌, ◌==◌}

abbrev pub sector_size : ℕ
sector_size = 255

abbrev pub sector_count : ℕ
sector_count = 16

abbrev pub crc_size : ℕ
crc_size = 2

abbrev pub page_data_size : ℕ
page_data_size = sector_size - crc_size

abbrev pub safe_profile : ℕ
safe_profile = 1

abbrev pub programmable_profiles : List ℕ
programmable_profiles = 2 ∷ 3 ∷ 4 ∷ 5 ∷ []

abbrev pub recovery_sectors : List ℕ
recovery_sectors = 1 ∷ 6 ∷ 7 ∷ []

abbrev pub addressable_macro_sectors : List ℕ
addressable_macro_sectors = 6 ∷ 7 ∷ 8 ∷ 9 ∷ 10 ∷ 11 ∷ 12 ∷ 13 ∷ 14 ∷ 15 ∷ []

abbrev pub global_macro_sectors : List ℕ
global_macro_sectors = 8 ∷ 9 ∷ 10 ∷ 11 ∷ 12 ∷ 13 ∷ 14 ∷ 15 ∷ []

abbrev pub programmable_sectors : List ℕ
programmable_sectors = 0 ∷ 2 ∷ 3 ∷ 4 ∷ 5 ∷ global_macro_sectors

abbrev pub global_payload_capacity : ℕ
global_payload_capacity = length global_macro_sectors * page_data_size

-- PROFILE_DIRECTORY_ENABLE_OFFSETS; the program only looks up profiles 1 to 5.
abbrev pub profile_directory_enable_offsets : ℕ → ℕ
profile_directory_enable_offsets profile =
    if profile == 1
    then 0x02
    else if profile == 2
    then 0x06
    else if profile == 3
    then 0x0A
    else if profile == 4
    then 0x0E
    else 0x12

abbrev pub op_wait_for_release : ℕ
op_wait_for_release = 0x01

abbrev pub op_repeat_while_pressed : ℕ
op_repeat_while_pressed = 0x02

abbrev pub op_roller : ℕ
op_roller = 0x20

abbrev pub op_acpan : ℕ
op_acpan = 0x21

abbrev pub op_delay : ℕ
op_delay = 0x40

abbrev pub op_key_down : ℕ
op_key_down = 0x43

abbrev pub op_key_up : ℕ
op_key_up = 0x44

abbrev pub op_consumer_down : ℕ
op_consumer_down = 0x45

abbrev pub op_consumer_up : ℕ
op_consumer_up = 0x46

abbrev pub op_jump : ℕ
op_jump = 0x60

abbrev pub op_xy : ℕ
op_xy = 0x61

abbrev pub op_end : ℕ
op_end = 0xFF
