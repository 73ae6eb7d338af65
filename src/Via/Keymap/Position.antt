-- ===== src/Via/Keymap/Position.antt =====
-- The keys at the bytes of the keymap buffer: every even byte has its own key within the layout.
use rumcake.Prelude.{ℕ, ◌*◌, ◌/◌, ◌%◌, ◌≤◌, ◌<◌, ◌≡◌, sym, ap, ◌∙◌, arith}
use native.Mathlib.Nat.{
  mul-div-mul_right, div-div-eq-div-mul, div-add-mod, mod-lt, div-lt_iff_lt-mul, mul_comm,
}
use rumcake.Via.{ViaKeyboard}
use rumcake.Via.Keymap.{Coordinates, key_at, keymap_size}

-- The key of the `q`-th keycode, before the casts.
unfoldable pub key_number : ViaKeyboard → ℕ → Coordinates
key_number k q = record {
  key_layer = q / k.cols / k.rows;
  key_row = q / k.cols % k.rows;
  key_col = q % k.cols;
}

pub record IsKeyboard (k : ViaKeyboard) : Type 0 where
  pub some_row : 0 < k.rows
  pub some_col : 0 < k.cols
  pub byte_row : k.rows ≤ 256
  pub byte_col : k.cols ≤ 256

module _ (k : ViaKeyboard) (valid : IsKeyboard k) where
  pub key_at_lem : (q : ℕ) → key_at k (q * 2) ≡ key_number k q
  unfolding key_at key_number
  key_at_lem q =
      let half : q * 2 / (k.cols * 2) ≡ q / k.cols = mul-div-mul_right q k.cols (omega arith) in
      let layers : q * 2 / (k.rows * k.cols * 2) ≡ q / k.cols / k.rows =
        mul-div-mul_right q (k.rows * k.cols) (omega arith)
        ∙ ap (λ n. q / n) (mul_comm k.rows k.cols)
        ∙ sym (div-div-eq-div-mul q k.cols k.rows) in
      let whole : q * 2 / 2 ≡ q = omega arith in
      let row : q / k.cols % k.rows % 256 ≡ q / k.cols % k.rows =
        omega (arith, mod-lt (q / k.cols) valid.some_row, valid.byte_row) in
      let col : q % k.cols % 256 ≡ q % k.cols =
        omega (arith, mod-lt q valid.some_col, valid.byte_col) in
      rw (half, layers, whole, row, col)

  -- Different keycodes of the buffer stand for different keys.
  pub key_number-injective : (q q' : ℕ) → key_number k q ≡ key_number k q' → q ≡ q'
  unfolding key_number
  key_number-injective q q' h =
      let line : q / k.cols ≡ q' / k.cols =
        sym (div-add-mod (q / k.cols) k.rows) ∙ cc h ∙ div-add-mod (q' / k.cols) k.rows in
      sym (div-add-mod q k.cols) ∙ cc (h, line) ∙ div-add-mod q' k.cols

  -- A keycode within the buffer stands for a key within the layout.
  pub key_number-bounds :
      (q : ℕ)
      → q * 2 < keymap_size k
      → let c = key_number k q in
        (c.key_row < k.rows) × (c.key_col < k.cols) × (c.key_layer < k.layer_count)
  unfolding key_number keymap_size
  key_number-bounds q h =
      let inside : q < k.layer_count * k.rows * k.cols = omega arith in
      (
        mod-lt (q / k.cols) valid.some_row,
        mod-lt q valid.some_col,
        (div-lt_iff_lt-mul valid.some_row).1 ((div-lt_iff_lt-mul valid.some_col).1 inside),
      )
