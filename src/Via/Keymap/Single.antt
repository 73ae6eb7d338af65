-- ===== src/Via/Keymap/Single.antt =====
-- Setting one key and reading it: rumcake/src/via/handlers.rs, `dynamic_keymap_set_keycode` and
-- `dynamic_keymap_get_keycode`.
use rumcake.Prelude.{
  ℕ, ◌≤◌, ◌≡◌, ◌≢◌, refl, true, Option, some, [], ◌∷◌, ◌++◌, replicate, Run, ok, slice, copy_slice,
  to_be_bytes, arith, Bool-cases, inl, inr,
}
use rumcake.Keyberon.{LayoutOps, IsLayout, same_key}
use rumcake.Via.{ViaKeyboard}
use rumcake.Via.Storage.{Operation, write, update_data, dynamic_keymap}
use rumcake.Via.Keymap.{
  Coordinates, is_key, get_key, change_key, keycode_offset, dynamic_keymap_get_keycode,
  dynamic_keymap_set_keycode,
}
use rumcake.Via.Keymap.Encode.{be_bytes_round_trip}
use rumcake.Via.Keymap.Keys.{get-change_same, same_key_eq}
use rumcake.Via.Keymap.Position.{IsKeyboard}
use rumcake.Via.Keymap.Buffer.{IsRestored, set_key_ok}

module _ {L A : Type 0} (ops : LayoutOps L A) (k : ViaKeyboard) (layers : ℕ)
    (law : IsLayout ops layers k.rows k.cols) (valid : IsKeyboard k)
    (enough : k.layer_count ≤ layers) where
  change_inside :
      (m : L) (c : Coordinates) (a : A)
      → is_key k c.key_layer c.key_row c.key_col ≡ true
      → (m' : L) × (change_key ops k m c a ≡ some m')
  unfolding change_key is_key
  change_inside m c a h =
      law.change-in_bounds m c.key_row c.key_col c.key_layer a (ground arith) (ground arith)
        (ground arith)

  pub get-change_apart :
      (m m' : L) (c other : Coordinates) (a : A)
      → c ≢ other
      → change_key ops k m c a ≡ some m'
      → get_key ops k m' other ≡ get_key ops k m other
  unfolding change_key get_key
  get-change_apart m m' c other a apart h =
      elim (Bool-cases
        (same_key c.key_row c.key_col c.key_layer other.key_row other.key_col other.key_layer)) [
          | inl same ↦ absurd (apart (same_key_eq c other same))
          | inr differ ↦
              rw differ at
                (law.get-change m m' _ _ _ other.key_row other.key_col other.key_layer a h)
        ]

  module _ (to_keycode : A → Run ℕ) (to_action : ℕ → Option A) where
    abbrev pair_write : ℕ → ℕ → Operation
    pair_write offset c = write (to_be_bytes c ++ replicate 30 0) dynamic_keymap offset 2

    whole_pair : (c : ℕ) → slice (to_be_bytes c) 0 2 ≡ ok (to_be_bytes c)
    unfolding slice to_be_bytes
    whole_pair c = refl

    told_pair :
        (offset c : ℕ)
        → update_data dynamic_keymap offset (to_be_bytes c) ≡ ok (pair_write offset c)
    unfolding update_data copy_slice to_be_bytes
    told_pair offset c = refl

    set_single :
        (m m' : L) (l row col c : ℕ)
        (r : IsRestored ops k layers law valid enough to_keycode to_action c)
        → is_key k l row col ≡ true
        → change_key ops k m (record { key_layer = l; key_row = row; key_col = col }) r.action
          ≡ some m'
        → dynamic_keymap_set_keycode ops k to_action m l row col (to_be_bytes c)
          ≡ ok (m', some (pair_write (keycode_offset k l row col) c))
    unfolding dynamic_keymap_set_keycode
    set_single m m' l row col c r inside changed =
        let here : Coordinates = record { key_layer = l; key_row = row; key_col = col } in
        rw (
          inside,
          whole_pair c,
          be_bytes_round_trip c r.word,
          set_key_ok ops k layers law valid enough to_keycode to_action m m' c here r changed,
          told_pair (keycode_offset k l row col) c,
        )

    get_single :
        (m : L) (l row col c x y : ℕ)
        (r : IsRestored ops k layers law valid enough to_keycode to_action c)
        → is_key k l row col ≡ true
        → get_key ops k m (record { key_layer = l; key_row = row; key_col = col }) ≡ some r.action
        → dynamic_keymap_get_keycode ops k to_keycode m l row col (x ∷ y ∷ []) ≡ ok (to_be_bytes c)
    unfolding dynamic_keymap_get_keycode get_key to_be_bytes
    get_single m l row col c x y r inside found = rw (inside, found, r.back)

    -- For a keyboard with 1 to 256 rows and columns whose layout obeys the laws, and no more dynamic
    -- layers than it has: the keycode that the host sets for a key of the layout, one that is converted to an action and
    -- back, is what it reads from that key; the storage task is told its two bytes, and every other
    -- key keeps its action.
    pub keycode_set_get :
        (m : L) (l row col c x y : ℕ) (other : Coordinates)
        → is_key k l row col ≡ true
        → IsRestored ops k layers law valid enough to_keycode to_action c
        → record { key_layer = l; key_row = row; key_col = col } ≢ other
        → (m' : L) × (operation : Operation) × (dynamic_keymap_set_keycode ops k to_action m l row
              col
              (to_be_bytes c)
            ≡ ok (m', some operation))
          × (update_data dynamic_keymap (keycode_offset k l row col) (to_be_bytes c) ≡ ok operation)
          × (dynamic_keymap_get_keycode ops k to_keycode m' l row col (x ∷ y ∷ [])
              ≡ ok (to_be_bytes c))
          × (get_key ops k m' other ≡ get_key ops k m other)
    keycode_set_get m l row col c x y other inside r apart =
        let here : Coordinates = record { key_layer = l; key_row = row; key_col = col } in
        let (m', changed) = change_inside m here r.action inside in
        (
          m',
          pair_write (keycode_offset k l row col) c,
          set_single m m' l row col c r inside changed,
          told_pair (keycode_offset k l row col) c,
          get_single m' l row col c x y r inside
              (get-change_same ops k layers law valid enough m m' here r.action changed),
          get-change_apart m m' here other r.action apart changed,
        )
