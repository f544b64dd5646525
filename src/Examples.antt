-- ===== src/Examples.antt =====
-- Runs of the model at concrete inputs.
pub mod Codec
pub mod Simulator
pub mod Device
pub mod Transfer
pub mod Staged
pub mod Registry
pub mod Validator
pub mod Vm
pub mod Tui
pub mod Persistent
