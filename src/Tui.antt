-- ===== src/Tui.antt =====
-- g502x_onboard/tui: the state engine of the terminal interface.
pub mod Model
pub mod Inputs
pub mod Operations
pub mod Endings
pub mod Update
