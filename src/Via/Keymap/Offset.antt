-- ===== src/Via/Keymap/Offset.antt =====
-- Where a single keycode is stored: rumcake/src/via/handlers.rs, `dynamic_keymap_set_keycode`.
use rumcake.Prelude.{ℕ, ◌+◌, ◌*◌, ◌%◌, ◌≤◌, ◌<◌, ◌≡◌, ◌≢◌, ◌⊎◌, inl, inr, arith}
use native.Mathlib.Decide.{dec_lt}
use rumcake.Via.{ViaKeyboard}
use rumcake.Via.Keymap.{keycode_offset}

-- The byte of a key in the keymap buffer, as the buffer handlers count.
abbrev pub key_byte : ViaKeyboard → ℕ → ℕ → ℕ → ℕ
key_byte k l row col = ((l * k.rows + row) * k.cols + col) * 2

offset_mod :
    (k : ViaKeyboard) (l row col : ℕ)
    → k.rows < 256
    → k.cols < 256
    → keycode_offset k l row col ≡ key_byte k l row col % 256
unfolding keycode_offset
offset_mod k l row col r c =
    let rows : k.rows % 256 ≡ k.rows = omega arith in
    let cols : k.cols % 256 ≡ k.cols = omega arith in rw (rows, cols) (omega arith)

-- For at most 255 rows and columns: a keycode that stands in the first 256 bytes of the keymap
-- buffer is stored at its own byte, and every other keycode is stored at another byte than its own.
pub keycode_offset_lem :
    (k : ViaKeyboard) (l row col : ℕ)
    → k.rows < 256
    → k.cols < 256
    → ((key_byte k l row col < 256) × (keycode_offset k l row col ≡ key_byte k l row col))
      ⊎ ((256 ≤ key_byte k l row col) × (keycode_offset k l row col ≢ key_byte k l row col))
keycode_offset_lem k l row col r c =
    let wrapped = offset_mod k l row col r c in
    elim (dec_lt (key_byte k l row col) 256) [
      | yes small ↦ inl (small, omega arith)
      | no large ↦ inr (omega arith, λ same. omega arith)
    ]
