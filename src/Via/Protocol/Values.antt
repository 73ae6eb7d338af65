-- ===== src/Via/Protocol/Values.antt =====
-- rumcake/src/via/handlers.rs: the handlers for the values of the keyboard, the encoders and the
-- number of layers.
use rumcake.Prelude.{
  ℕ, ◌+◌, ◌*◌, ◌%◌, ◌^◌, Bool, Option, none, some, List, length, Run, ok, ◌>>=◌, slice, copy_slice,
  to_be_bytes, ltb, ◌&&◌, if◌then◌else◌,
}
use rumcake.Via.{ViaKeyboard}
use rumcake.Via.Lights.{put}
use rumcake.Via.Options.{to_be_bytes_32}
use rumcake.Via.Storage.{Operation, update_data, dynamic_keymap_encoder}

abbrev pub via_protocol_version : ℕ
via_protocol_version = 0x000c

unfoldable pub get_protocol_version : ℕ → List ℕ → Run (List ℕ)
unfolding copy_slice to_be_bytes
get_protocol_version version bytes = copy_slice bytes 0 2 (to_be_bytes version)

-- `now` is `embassy_time::Instant::now().as_millis()`.
unfoldable pub get_uptime : ℕ → List ℕ → Run (List ℕ)
unfolding copy_slice to_be_bytes_32
get_uptime now bytes = copy_slice bytes 0 4 (to_be_bytes_32 (now % 2 ^ 32))

unfoldable pub get_switch_matrix_state : List ℕ → List ℕ → Run (List ℕ)
unfolding copy_slice
get_switch_matrix_state matrix_state bytes = copy_slice bytes 0 (length matrix_state) matrix_state

unfoldable pub get_firmware_version : ViaKeyboard → List ℕ → Run (List ℕ)
unfolding copy_slice to_be_bytes_32
get_firmware_version k bytes = copy_slice bytes 0 4 (to_be_bytes_32 k.firmware_version)

unfoldable pub dynamic_keymap_get_layer_count : ViaKeyboard → List ℕ → Run (List ℕ)
unfolding put
dynamic_keymap_get_layer_count k bytes = put bytes 0 (k.layer_count % 256)

-- In `u8`.
unfoldable pub encoder_offset : ViaKeyboard → ℕ → ℕ → Bool → ℕ
encoder_offset k l encoder_id clockwise =
    (l * (k.num_encoders % 256) * 2 * 2 + encoder_id * 2 * 2 + (if clockwise then 0 else 2)) % 256

unfoldable pub is_encoder : ViaKeyboard → ℕ → ℕ → Bool
is_encoder k l encoder_id = ltb l k.layer_count && ltb encoder_id k.num_encoders

-- Nothing is read yet.
unfoldable pub dynamic_keymap_get_encoder : ViaKeyboard → ℕ → ℕ → Bool → List ℕ → Run (List ℕ)
unfolding slice
dynamic_keymap_get_encoder k l encoder_id clockwise bytes = do keycode ← slice bytes 0 2; ok bytes

unfoldable pub dynamic_keymap_set_encoder :
    ViaKeyboard → ℕ → ℕ → Bool → List ℕ → Run (Option Operation)
unfolding slice is_encoder encoder_offset update_data
dynamic_keymap_set_encoder k l encoder_id clockwise bytes =
    let saved : List ℕ → Run (Option Operation) = λ keycode. do
      operation ←
          update_data dynamic_keymap_encoder (encoder_offset k l encoder_id clockwise) keycode
      ok (some operation)
    in do keycode ← slice bytes 0 2; if is_encoder k l encoder_id then saved keycode else ok none
