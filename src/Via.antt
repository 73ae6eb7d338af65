-- ===== src/Via.antt =====
-- rumcake/src/via: the Via protocol. The constants that a keyboard gives, and the modules for the
-- keycodes, the handlers, the macros and the stored data.
pub mod Keycodes
pub mod Storage
pub mod Macros
pub mod Keymap
pub mod Options
pub mod Lights
pub mod Protocol
use rumcake.Prelude.{ℕ, ◌+◌, ◌-◌, Option, ltb, if◌then◌else◌}

pub data BacklightType : Type 0 where
  simple_backlight simple_backlight_matrix rgb_backlight_matrix : BacklightType

-- The constants of the trait `ViaKeyboard` and of the traits that it extends.
pub record ViaKeyboard : Type 0 where
  pub firmware_version : ℕ
  pub layout_options_size : ℕ
  pub layout_options_default : ℕ
  pub layer_count : ℕ
  pub macro_count : ℕ
  pub macro_buffer_size : ℕ
  pub rows : ℕ
  pub cols : ℕ
  pub num_encoders : ℕ

-- How many of `size` bytes from `offset` on a buffer of `limit` bytes still has.
unfoldable pub window_len : ℕ → ℕ → ℕ → ℕ
window_len limit offset size = if ltb limit (offset + size) then limit - offset else size
