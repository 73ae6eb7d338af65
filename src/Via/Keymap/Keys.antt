-- ===== src/Via/Keymap/Keys.antt =====
-- Changing one key of the layout: that key has the new action, and the others have theirs.
use rumcake.Prelude.{ℕ, ◌*◌, ◌≤◌, ◌<◌, ◌≡◌, ◌≢◌, sym, true, some, arith, Bool-cases, inl, inr}
use rumcake.Keyberon.{LayoutOps, IsLayout, same_key}
use rumcake.Via.{ViaKeyboard}
use rumcake.Via.Keymap.{Coordinates, get_key, change_key, keymap_size}
use rumcake.Via.Keymap.Position.{IsKeyboard, key_number, key_number-injective, key_number-bounds}

pub same_key_eq :
    (c c' : Coordinates)
    → same_key c.key_row c.key_col c.key_layer c'.key_row c'.key_col c'.key_layer ≡ true
    → c ≡ c'
same_key_eq c c' h =
    let row : c.key_row ≡ c'.key_row = ground arith in
    let col : c.key_col ≡ c'.key_col = ground arith in
    let l : c.key_layer ≡ c'.key_layer = ground arith in cc (row, col, l)

same_key_refl :
    (c : Coordinates)
    → same_key c.key_row c.key_col c.key_layer c.key_row c.key_col c.key_layer ≡ true
same_key_refl c = ground arith

module _ {L A : Type 0} (ops : LayoutOps L A) (k : ViaKeyboard) (layers : ℕ)
    (law : IsLayout ops layers k.rows k.cols) (valid : IsKeyboard k)
    (enough : k.layer_count ≤ layers) where
  pub change_key_ok :
      (m : L) (q : ℕ) (a : A)
      → q * 2 < keymap_size k
      → (m' : L) × (change_key ops k m (key_number k q) a ≡ some m')
  unfolding change_key
  change_key_ok m q a h =
      let (row, col, l) = key_number-bounds k valid q h in
      law.change-in_bounds m _ _ _ a row col (omega arith)

  pub get-change_same :
      (m m' : L) (c : Coordinates) (a : A)
      → change_key ops k m c a ≡ some m'
      → get_key ops k m' c ≡ some a
  unfolding change_key get_key
  get-change_same m m' c a h =
      rw (same_key_refl c) at (law.get-change m m' _ _ _ c.key_row c.key_col c.key_layer a h)

  pub get-change_other :
      (m m' : L) (p q : ℕ) (a : A)
      → p ≢ q
      → change_key ops k m (key_number k q) a ≡ some m'
      → get_key ops k m' (key_number k p) ≡ get_key ops k m (key_number k p)
  unfolding change_key get_key
  get-change_other m m' p q a apart h =
      let c = key_number k q in
      let c' = key_number k p in
      elim (Bool-cases
        (same_key c.key_row c.key_col c.key_layer c'.key_row c'.key_col c'.key_layer)) [
          | inl same ↦
              absurd (apart (sym (key_number-injective k valid q p (same_key_eq c c' same))))
          | inr other ↦
              rw other at (law.get-change m m' _ _ _ c'.key_row c'.key_col c'.key_layer a h)
        ]
