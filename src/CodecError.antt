-- ===== src/CodecError.antt =====
-- The exceptions that g502x_onboard/codec.py raises, one constructor for each message.
use g502x_onboard.Base.{ℕ, String, List}

pub data CodecError : Type 0 where
  -- Python's own: an index out of range, a key that is not in a dictionary, bytes too short to unpack.
  index_error : CodecError
  key_error : ℕ → CodecError
  struct_error : CodecError
  -- Sectors and the directory.
  sector_length macro_page_invalid_size sector0_invalid_size sector0_crc_invalid : CodecError
  sector0_changed : List ℕ → CodecError
  must_remain_enabled flag_invalid : ℕ → CodecError
  invalid_profile_set : CodecError
  -- Actions.
  unsupported_key unsupported_modifier hotkey_final_key unsupported_consumer : String → CodecError
  host_required unknown_action unknown_alias bad_layout : String → CodecError
  hotkey_needs_modifier delay_range text_unavailable text_host_required amount_range : CodecError
  mouse_direct_only empty_sequence unsupported_mouse : CodecError
  -- Macro bytecode, the global store and the VM.
  unknown_opcode truncated : ℕ → CodecError
  -- Of the model alone: a loop ran out of fuel.
  fuel_exhausted : CodecError
  missing_end store_exhausted : CodecError
  jump_page jump_offset pointer_sector pointer_offset : ℕ → CodecError
  too_many_pages no_jump_space : CodecError
  unreadable_sector outside_payload jump_sector jump_target_offset jump_cycle : CodecError
  falls_off_page instruction_limit : CodecError
  -- Profile settings.
  bad_report_rate dpi_not_in_list : CodecError
