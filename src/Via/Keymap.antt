-- ===== src/Via/Keymap.antt =====
-- rumcake/src/via/handlers.rs: the handlers for the keys of the layout. The layout is an interface,
-- and so are the two conversions of the protocol, which the source passes as closures. Loops over
-- bytes in steps of two run for `(len + 1) / 2` rounds.
pub mod Position
pub mod Encode
pub mod Keys
pub mod Buffer
pub mod Offset
pub mod Faithful
pub mod Single
pub mod Reset
use rumcake.Prelude.{
  ℕ, zero, suc, ◌+◌, ◌-◌, ◌*◌, ◌/◌, ◌%◌, Bool, Option, none, some, List, [], ◌∷◌, Run, ok, panic,
  ◌>>=◌, unwrap, slice, copy_slice, to_be_bytes, from_be_bytes, ltb, ◌&&◌, if◌then◌else◌,
}
use rumcake.Keyberon.{LayoutOps}
use rumcake.Via.{ViaKeyboard, window_len}
use rumcake.Via.Storage.{Operation, update_data, dynamic_keymap}

pub record Coordinates : Type 0 where
  pub key_layer : ℕ
  pub key_row : ℕ
  pub key_col : ℕ

-- The key whose keycode stands at a byte of the buffer. The casts to `u8` keep the low byte.
unfoldable pub key_at : ViaKeyboard → ℕ → Coordinates
key_at k byte = record {
  key_layer = byte / (k.rows * k.cols * 2);
  key_row = byte / (k.cols * 2) % k.rows % 256;
  key_col = byte / 2 % k.cols % 256;
}

unfoldable pub keymap_size : ViaKeyboard → ℕ
keymap_size k = k.layer_count * k.rows * k.cols * 2

-- The offset of a keycode in the stored keymap, which the source computes in `u8`.
unfoldable pub keycode_offset : ViaKeyboard → ℕ → ℕ → ℕ → ℕ
keycode_offset k l row col =
    (l * (k.rows % 256) * (k.cols % 256) * 2 + row * (k.cols % 256) * 2 + col * 2) % 256

unfoldable pub is_key : ViaKeyboard → ℕ → ℕ → ℕ → Bool
is_key k l row col = ltb l k.layer_count && (ltb row k.rows && ltb col k.cols)

module _ {L A : Type 0} (ops : LayoutOps L A) (k : ViaKeyboard) where
  unfoldable pub get_key : L → Coordinates → Option A
  get_key m c = ops.get_action m c.key_row c.key_col c.key_layer

  unfoldable pub change_key : L → Coordinates → A → Option L
  change_key m c a = ops.change_action m c.key_row c.key_col c.key_layer a

  module _ (convert_action_to_keycode : A → Run ℕ) where
    unfoldable pub dynamic_keymap_get_keycode : L → ℕ → ℕ → ℕ → List ℕ → Run (List ℕ)
    unfolding copy_slice is_key to_be_bytes
    dynamic_keymap_get_keycode m l row col bytes =
        let reply : Run (List ℕ) = elim (ops.get_action m row col l) [
          | none ↦ ok bytes
          | some action ↦ do
            keycode ← convert_action_to_keycode action
            copy_slice bytes 0 2 (to_be_bytes keycode)
        ] in
        if is_key k l row col then reply else ok bytes

    -- The rounds of the loop from `byte` on.
    unfoldable pub get_keys : ℕ → ℕ → ℕ → L → List ℕ → Run (List ℕ)
    unfolding copy_slice get_key key_at to_be_bytes
    get_keys zero byte offset m bytes = ok bytes
    get_keys (suc rounds) byte offset m bytes = do
      action ← unwrap (get_key m (key_at k byte))
      keycode ← convert_action_to_keycode action
      bytes' ← copy_slice bytes (byte - offset) (byte - offset + 2) (to_be_bytes keycode)
      get_keys rounds (byte + 2) offset m bytes'

    unfoldable pub dynamic_keymap_get_buffer : L → ℕ → ℕ → List ℕ → Run (List ℕ)
    unfolding get_keys keymap_size window_len
    dynamic_keymap_get_buffer m offset size bytes =
        let len = window_len (keymap_size k) offset size in
        get_keys ((len + 1) / 2) offset offset m bytes

  module _ (convert_keycode_to_action : ℕ → Option A) where
    -- A keycode that is not converted leaves the key as it is.
    unfoldable pub set_key : L → Coordinates → ℕ → Run L
    unfolding change_key
    set_key m c keycode = elim (convert_keycode_to_action keycode) [
      | none ↦ ok m
      | some action ↦ unwrap (change_key m c action)
    ]

    unfoldable pub dynamic_keymap_set_keycode : L → ℕ → ℕ → ℕ → List ℕ → Run (L × Option Operation)
    unfolding slice set_key is_key keycode_offset from_be_bytes update_data
    dynamic_keymap_set_keycode m l row col bytes =
        let result : Run (L × Option Operation) = do
          keycode ← slice bytes 0 2
          number ← from_be_bytes keycode
          m' ← set_key m (record { key_layer = l; key_row = row; key_col = col }) number
          operation ← update_data dynamic_keymap (keycode_offset k l row col) keycode
          ok (m', some operation)
        in if is_key k l row col then result else ok (m, none)

    unfoldable pub set_keys : ℕ → ℕ → ℕ → L → List ℕ → Run L
    unfolding slice set_key key_at from_be_bytes
    set_keys zero byte offset m bytes = ok m
    set_keys (suc rounds) byte offset m bytes = do
      pair ← slice bytes (byte - offset) (byte - offset + 2)
      keycode ← from_be_bytes pair
      m' ← set_key m (key_at k byte) keycode
      set_keys rounds (byte + 2) offset m' bytes

    unfoldable pub dynamic_keymap_set_buffer : L → ℕ → ℕ → List ℕ → Run (L × Operation)
    unfolding set_keys slice keymap_size window_len update_data
    dynamic_keymap_set_buffer m offset size bytes =
        let len = window_len (keymap_size k) offset size in
        do
          m' ← set_keys ((len + 1) / 2) offset offset m bytes
          stored ← slice bytes 0 len
          operation ← update_data dynamic_keymap offset stored
          ok (m', operation)

  -- The actions of a row, a layer and the whole of the original layout, in their order.
  unfoldable pub reset_row : ℕ → ℕ → ℕ → List A → L → Run L
  unfolding change_key
  reset_row l row col [] m = ok m
  reset_row l row col (action ∷ actions) m = do
    m' ←
        unwrap
          (change_key m (record { key_layer = l; key_row = row % 256; key_col = col % 256 }) action)
    reset_row l row (suc col) actions m'

  unfoldable pub reset_layer : ℕ → ℕ → List (List A) → L → Run L
  unfolding reset_row
  reset_layer l row [] m = ok m
  reset_layer l row (actions ∷ rows) m = do
    m' ← reset_row l row 0 actions m
    reset_layer l (suc row) rows m'

  unfoldable pub reset_layers : ℕ → List (List (List A)) → L → Run L
  unfolding reset_layer
  reset_layers l [] m = ok m
  reset_layers l (rows ∷ rest) m = do m' ← reset_layer l 0 rows m; reset_layers (suc l) rest m'

  unfoldable pub dynamic_keymap_reset : List (List (List A)) → L → Run L
  unfolding reset_layers
  dynamic_keymap_reset original m = reset_layers 0 original m
