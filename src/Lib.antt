-- ===== src/Lib.antt =====
-- rumcake is a library for the firmware of keyboards. Keys are scanned and turned into actions by
-- a layout (keyberon); tasks run the lighting, the storage and the connections, and share state
-- through mutexes, channels and signals; the host changes the layout, the macros and the lighting
-- through the Via protocol.
--
-- Prelude has what the modules share: Boolean tests, lists over the native numbers, `Run` (code
-- that returns or panics) with the slice operations of Rust that may panic, and the loop `while {
-- body; test } {}` on fuel.
--
-- State models `State` of rumcake/src/lib.rs: a value and the signals of its listeners.
-- State.Notify is about when they are signalled.
--
-- Lighting models the derive macro `Cycle` of rumcake-macros/src/derive.rs: an effect enum is the
-- list of its variants in declaration order, `increment` and `decrement` are the generated
-- matches. Lighting.Cycle and Lighting.Select are about the walk over the variants and the loops
-- that look for an effect, Lighting.Clock about the time that an animation computes from its
-- clock.
--
-- Underglow models rumcake/src/underglow/animations.rs (configuration, commands,
-- `process_command`) and what a key event does, and, in Underglow.Task, what `underglow_task` of
-- rumcake/src/underglow/mod.rs does between the arrival of a command and the next frame, the
-- commands for the peripherals of a split keyboard included. Backlight.Simple,
-- Backlight.SimpleMatrix and Backlight.RgbMatrix model the animations.rs of the three kinds of
-- backlight under rumcake/src/backlight. The effects that a device enables are a record of
-- Booleans. Backlight.Task models the macro `backlight_task_fn` of rumcake/src/backlight/mod.rs
-- for any of them, what the macro is applied to being an interface that Backlight.Task.Kinds
-- fills, and Backlight.Saving the macro `storage_task_fn`, as a step relation of the task and of
-- those that change the configuration. A loop for an effect has one round of fuel for each
-- variant, which is enough whenever the loop ends at all.
--
-- Keyberon, Keyboard and Bluetooth declare the actions of a layout and the custom keycodes; the
-- layout itself is an interface, `LayoutOps` with the laws `IsLayout`.
--
-- Via models rumcake/src/via. Via.Keycodes has both conversions of protocol_12/keycodes.rs; an
-- enum of a third-party crate, the HID consumer page, is a parameter. Via.Keymap has the handlers
-- of handlers.rs for the keys, over the layout interface and the two conversions; Via.Macros has
-- `MacroBuffer` of mod.rs and the macro handlers, where a sequence is a start and a length in the
-- buffer; Via.Options has the layout options; Via.Storage has the operations that the handlers
-- send to `via_storage_task` and the loop of that task, over an interface for the database.
-- Via.Lights has the handlers of the four kinds of lights with the arms of their channels.
-- Via.Protocol models protocol_12/mod.rs and the loop over the reports of mod.rs: `Host` is all
-- that the commands read and change, `Firmware` what a keyboard overrides; Via.Protocol.Matrix is
-- `background_task` with the state of the switch matrix.
--
-- Storage models `StorageService` of rumcake/src/storage.rs over TicKV, a parameter whose
-- operations run to completion, with the laws `IsTicKv` of a map from hashed keys that may be
-- full; the hash and the serialization are parameters too. Via.Storage.Onto and
-- Via.Storage.Service join it to the Via storage task. Storage.Flash is `FlashDevice`, the flash
-- below TicKV, over a driver with the laws `IsFlash` of NOR flash without faults.
--
-- Hw models `output_switcher` of rumcake/src/hw/mod.rs, as a step relation of the task and of
-- those that change what it reads.
--
-- All features are on. Machine integers wrap as in a release build, and every cast is written out.
-- Signals and channels are values in the state; the tasks are modelled one step at a time.
--
-- Not modelled: the rendering of frames (floating point), device input and output, the clock of
-- the animators, the initialization of the Via storage task, the loop that goes on with an
-- operation of TicKV, Vial, the split drivers, and the copy of keyberon, another project's
-- library.
pub mod Prelude
pub mod Math
pub mod State
pub mod Lighting
pub mod Underglow
pub mod Backlight
pub mod Keyberon
pub mod Keyboard
pub mod Bluetooth
pub mod Storage
pub mod Via
pub mod Hw
pub mod Examples
