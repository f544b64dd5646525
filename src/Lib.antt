-- ===== src/Lib.antt =====
-- G502 X Onboard: the onboard memory of a mouse, compiled, checked and written from a configuration.
--
-- The program turns a configuration into images of 255-byte sectors: bindings are compiled to direct
-- bindings or to bytecode of the macro VM of the mouse, bytecode is allocated to macro pages, and a
-- profile directory in sector 0 says which profiles are enabled. A full-screen interface runs the
-- operations; its state machine is a pure function from a model and an event to a model and effects.
-- Every path below is under g502x_onboard/.
--
-- Base: comparisons, lists over native numbers, results with errors, and bit operations. Base.Exec:
-- code that acts on a world and may raise, where what was done before an exception stays done;
-- Hoare and Yields have the rules for what such code keeps and for what holds where it returns.
-- Constants and Keys: constants.py. CodecError: the messages of the ValueErrors of codec.py, as
-- constructors.
-- Sector: codec.py `crc16_ccitt` to `macro_payload_limit`. Directory: `validate_directory` and
-- `build_directory`. Action: `key_down` to `compile_binding`. Tokens: `tokenize_macro`. Vm:
-- `decode_instruction` and `walk_macro`. Store: `jump_bytes` and `macro_pointer`.
-- Profile: codec.py `profile3_offset` and `_neutralize_macro_pointers`. Validator: validator.py
-- `validate_images`; its children put the report together and relate it to the images. A failing index,
-- key or unpacking of it is an error value; the dictionary `baseline` is a function to Option.
-- Identity: the write policy of baseline.py and the descriptor of device.py. Device: device.py, on a
-- world with the device, the host and the files; Port has the connections, Page the pages, Write the
-- write of one sector, Transfer the three transactions; the other children are about these.
-- Text and Models: the strings that the state machine reads, and application/models.py.
-- Tui: tui/model.py, tui/events.py, tui/effects.py, and one function for each event of
-- tui/update.py, which Tui.Update puts together as `update`; `run` repeats it.
-- Persistent: application/persistent.py `_terminal` and `_execute_accepted`; the backend is a parameter,
-- the phases that it emits and its end. Its results and its snapshots are what the events
-- PersistentCompleted and PersistentProgress of the interface carry. Persistent.Registry: the registry of
-- preparations of the same file, one step for each block that holds its lock, in any order.
-- Examples: runs at concrete inputs.
--
-- A byte string is a list of numbers; what holds only of bytes has that as a hypothesis. A dictionary
-- of pages is a function to Option. A Python string of key names stays a String, and text that is
-- inspected is a list of code points. `tokenize_macro` runs on fuel of one round more than there are
-- bytes, and each round takes off at least one byte. `walk` counts down the limit of 4096
-- instructions that `walk_macro` itself has. `read_loop` runs on as many rounds as the page has bytes,
-- and each round gets at least one byte further. The retries of `fresh_write_sector` are counted as
-- the code counts them.
--
-- The fields of `Env` are the code that device.py calls and that is not modelled: the HID++ library
-- (`connect`, `call_feature`, `close`), the list of processes, and the files of the baseline and of a
-- checkpoint. `IsReadable` says that a device answers function 5 from its memory, and `IsStable` which
-- calls a property of the world survives, and `IsProgrammable` that a write changes the sector that it
-- was started for; a device in memory under Examples has all three. There the
-- restoring of a baseline is run to its end.
--
-- Not modelled: input and output (cli.py, private_io.py, storage.py, host_guard.py, the files of
-- baseline.py, the terminal and the worker threads of tui/), the backends of application/, in
-- device.py the commands that read for a first baseline (`setup_device`, `probe_device`,
-- `read_oob_pages`), waiting and printing, in validator.py the summaries that print a report, and, so
-- far, the macro allocator, the plan and the reviews of preparations.
pub mod Base
pub mod Constants
pub mod CodecError
pub mod Sector
pub mod Directory
pub mod Keys
pub mod Action
pub mod Tokens
pub mod Vm
pub mod Profile
pub mod Validator
pub mod Store
pub mod Text
pub mod Identity
pub mod Device
pub mod Models
pub mod Tui
pub mod Persistent
pub mod Examples
