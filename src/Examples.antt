-- ===== src/Examples.antt =====
-- The theorems at concrete inputs, and tests of the definitions.
mod Underglow
mod Simple
mod SimpleMatrix
mod Hw
mod Notify
mod Keycodes
mod Host
mod Macros
mod Reset
mod Protocol
mod Storage
mod Flash
mod Saving
