-- ===== src/Via/Keymap/Reset.antt =====
-- Resetting the layout to the original one: rumcake/src/via/handlers.rs, `dynamic_keymap_reset`.
use rumcake.Prelude.{
  ℕ, zero, suc, ◌+◌, ◌%◌, ◌≤◌, ◌<◌, ◌≡◌, ◌≢◌, ◌⊎◌, inl, inr, refl, sym, ap, ◌∙◌, some, List, [],
  ◌∷◌, length, get_elem?, ok, arith,
}
use rumcake.Keyberon.{LayoutOps, IsLayout}
use rumcake.Via.{ViaKeyboard}
use rumcake.Via.Keymap.{
  Coordinates, get_key, change_key, reset_row, reset_layer, reset_layers, dynamic_keymap_reset,
}
use rumcake.Via.Keymap.Keys.{get-change_same}
use rumcake.Via.Keymap.Position.{IsKeyboard}
use rumcake.Via.Keymap.Single.{get-change_apart}

abbrev pub at_key : ℕ → ℕ → ℕ → Coordinates
at_key l row col = record { key_layer = l; key_row = row; key_col = col }

module _ {L A : Type 0} (ops : LayoutOps L A) (k : ViaKeyboard) (layers : ℕ)
    (law : IsLayout ops layers k.rows k.cols) (valid : IsKeyboard k)
    (enough : k.layer_count ≤ layers) where
  -- `m'` has the actions of `m` where `kept` holds.
  abbrev Keeps : L → L → (Coordinates → Type 0) → Type 0
  Keeps m m' kept = (c : Coordinates) → kept c → get_key ops k m' c ≡ get_key ops k m c

  abbrev HasRow : L → ℕ → ℕ → ℕ → List A → Type 0
  HasRow m l row col actions =
      (j : ℕ) (a : A)
      → get_elem? actions j ≡ some a
      → get_key ops k m (at_key l row (col + j)) ≡ some a

  change_byte :
      (m : L) (l row col : ℕ) (a : A)
      → l < layers
      → row < k.rows
      → col < k.cols
      → (m' : L) × (change_key ops k m (at_key l (row % 256) (col % 256)) a ≡ some m')
        × (change_key ops k m (at_key l row col) a ≡ some m')
  unfolding change_key
  change_byte m l row col a hl hr hc =
      let low_row : row % 256 ≡ row = omega (arith, valid.byte_row) in
      let low_col : col % 256 ≡ col = omega (arith, valid.byte_col) in
      let (m', changed) = law.change-in_bounds m row col l a hr hc hl in
      (m', rw (low_row, low_col) changed, changed)

  HasRow-next :
      (m : L) (l row col : ℕ) (a : A) (actions : List A)
      → get_key ops k m (at_key l row col) ≡ some a
      → HasRow m l row (suc col) actions
      → HasRow m l row col (a ∷ actions)
  HasRow-next m l row col a actions here rest zero b e =
      let same : col + 0 ≡ col = omega arith in rw same (here ∙ e)
  HasRow-next m l row col a actions here rest (suc j) b e =
      let same : col + suc j ≡ suc col + j = omega arith in rw same (rest j b e)

  abbrev BesideRow : ℕ → ℕ → ℕ → Coordinates → Type 0
  BesideRow l row col c = (c.key_layer ≢ l) ⊎ ((c.key_row ≢ row) ⊎ (c.key_col < col))

  beside_later :
      (l row col : ℕ) (c : Coordinates)
      → BesideRow l row col c
      → (BesideRow l row (suc col) c) × (at_key l row col ≢ c)
  beside_later l row col c (inl h) = (inl h, λ e. h (sym (ap (λ x. x.key_layer) e)))
  beside_later l row col c (inr (inl h)) = (inr (inl h), λ e. h (sym (ap (λ x. x.key_row) e)))
  beside_later l row col c (inr (inr h)) =
      (inr (inr (omega arith)), λ e. omega (arith, ap (λ x. x.key_col) e))

  reset_row_lem :
      (l row col : ℕ) (actions : List A) (m : L)
      → l < layers
      → row < k.rows
      → col + length actions ≤ k.cols
      → (m' : L) × (reset_row ops k l row col actions m ≡ ok m')
        × HasRow m' l row col actions
        × Keeps m m' (BesideRow l row col)
  unfolding reset_row
  reset_row_lem l row col [] m hl hr hc = (m, refl, (λ j a e. cc), λ c h. refl)
  reset_row_lem l row col (a ∷ actions) m hl hr hc =
      let (m₁, low, changed) = change_byte m l row col a hl hr (omega arith) in
      let (m', run, has, keeps) = reset_row_lem l row (suc col) actions m₁ hl hr (omega arith) in
      let here = get-change_same ops k layers law valid enough m m₁ (at_key l row col) a changed in
      (
        m',
        rw low run,
        HasRow-next m' l row col a actions
            (keeps (at_key l row col) (inr (inr (omega arith))) ∙ here) has,
        λ c h.
            let (later, apart) = beside_later l row col c h in
            keeps c later
            ∙ get-change_apart ops k layers law valid enough m m₁ (at_key l row col) c a apart
                changed,
      )

  -- The original layout fits the keyboard.
  abbrev pub RowsFit : List (List A) → Type 0
  RowsFit [] = Unit {0}
  RowsFit (actions ∷ rows) = (length actions ≤ k.cols) × RowsFit rows

  abbrev pub LayersFit : List (List (List A)) → Type 0
  LayersFit [] = Unit {0}
  LayersFit (rows ∷ rest) = (length rows ≤ k.rows) × (RowsFit rows × LayersFit rest)

  abbrev HasLayer : L → ℕ → ℕ → List (List A) → Type 0
  HasLayer m l row rows =
      (i j : ℕ) (actions : List A) (a : A)
      → get_elem? rows i ≡ some actions
      → get_elem? actions j ≡ some a
      → get_key ops k m (at_key l (row + i) j) ≡ some a

  HasLayer-next :
      (m : L) (l row : ℕ) (actions : List A) (rows : List (List A))
      → HasRow m l row 0 actions
      → HasLayer m l (suc row) rows
      → HasLayer m l row (actions ∷ rows)
  HasLayer-next m l row actions rows here rest zero j bs b e f =
      let same : row + 0 ≡ row = omega arith in
      let start : 0 + j ≡ j = omega arith in
      let first : get_elem? actions j ≡ some b = cc in rw same (rw start at (here j b first))
  HasLayer-next m l row actions rows here rest (suc i) j bs b e f =
      let same : row + suc i ≡ suc row + i = omega arith in rw same (rest i j bs b e f)

  abbrev BesideLayer : ℕ → ℕ → Coordinates → Type 0
  BesideLayer l row c = (c.key_layer ≢ l) ⊎ (c.key_row < row)

  beside_rows :
      (l row : ℕ) (c : Coordinates)
      → BesideLayer l row c
      → BesideLayer l (suc row) c × BesideRow l row 0 c
  beside_rows l row c (inl h) = (inl h, inl h)
  beside_rows l row c (inr h) = (inr (omega arith), inr (inl (λ e. omega arith)))

  reset_layer_lem :
      (l row : ℕ) (rows : List (List A)) (m : L)
      → l < layers
      → row + length rows ≤ k.rows
      → RowsFit rows
      → (m' : L) × (reset_layer ops k l row rows m ≡ ok m')
        × HasLayer m' l row rows
        × Keeps m m' (BesideLayer l row)
  unfolding reset_layer
  reset_layer_lem l row [] m hl hr fit = (m, refl, (λ i j bs b e f. cc), λ c h. refl)
  reset_layer_lem l row (actions ∷ rows) m hl hr (fit, fits) =
      let (m₁, first, has₁, keeps₁) =
        reset_row_lem l row 0 actions m hl (omega arith) (omega arith) in
      let (m', run, has, keeps) = reset_layer_lem l (suc row) rows m₁ hl (omega arith) fits in
      (
        m',
        rw first run,
        HasLayer-next m' l row actions rows
            (λ j a e. keeps (at_key l row (0 + j)) (inr (omega arith)) ∙ has₁ j a e) has,
        λ c h. let (later, apart) = beside_rows l row c h in keeps c later ∙ keeps₁ c apart,
      )

  abbrev HasLayers : L → ℕ → List (List (List A)) → Type 0
  HasLayers m l original =
      (n i j : ℕ) (rows : List (List A)) (actions : List A) (a : A)
      → get_elem? original n ≡ some rows
      → get_elem? rows i ≡ some actions
      → get_elem? actions j ≡ some a
      → get_key ops k m (at_key (l + n) i j) ≡ some a

  HasLayers-next :
      (m : L) (l : ℕ) (rows : List (List A)) (rest : List (List (List A)))
      → HasLayer m l 0 rows
      → HasLayers m (suc l) rest
      → HasLayers m l (rows ∷ rest)
  HasLayers-next m l rows rest here later zero i j rs bs b d e f =
      let same : l + 0 ≡ l = omega arith in
      let start : 0 + i ≡ i = omega arith in
      let first : get_elem? rows i ≡ some bs = cc in rw same (rw start at (here i j bs b first f))
  HasLayers-next m l rows rest here later (suc n) i j rs bs b d e f =
      let same : l + suc n ≡ suc l + n = omega arith in rw same (later n i j rs bs b d e f)

  reset_layers_lem :
      (l : ℕ) (original : List (List (List A))) (m : L)
      → l + length original ≤ layers
      → LayersFit original
      → (m' : L) × (reset_layers ops k l original m ≡ ok m')
        × HasLayers m' l original
        × Keeps m m' (λ c. c.key_layer < l)
  unfolding reset_layers
  reset_layers_lem l [] m h fit = (m, refl, (λ n i j rs bs b d e f. cc), λ c h'. refl)
  reset_layers_lem l (rows ∷ rest) m h (size, (fit, fits)) =
      let (m₁, first, has₁, keeps₁) = reset_layer_lem l 0 rows m (omega arith) (omega arith) fit in
      let (m', run, has, keeps) = reset_layers_lem (suc l) rest m₁ (omega arith) fits in
      (
        m',
        rw first run,
        HasLayers-next m' l rows rest
            (λ i j bs b e f. keeps (at_key l (0 + i) j) (omega arith) ∙ has₁ i j bs b e f) has,
        λ c below. keeps c (omega arith) ∙ keeps₁ c (inl (λ e. omega arith)),
      )

  -- For a keyboard with 1 to 256 rows and columns whose layout obeys the laws, and no more dynamic
  -- layers than it has: resetting the layout does not panic if the original layout fits the keyboard, and afterwards the
  -- key at a layer, row and column of the original layout has its original action.
  pub keymap_reset :
      (original : List (List (List A))) (m : L) (l row col : ℕ) (rows : List (List A))
      (actions : List A) (a : A)
      → length original ≤ layers
      → LayersFit original
      → get_elem? original l ≡ some rows
      → get_elem? rows row ≡ some actions
      → get_elem? actions col ≡ some a
      → (m' : L) × (dynamic_keymap_reset ops k original m ≡ ok m')
        × (get_key ops k m' (at_key l row col) ≡ some a)
  unfolding dynamic_keymap_reset
  keymap_reset original m l row col rows actions a h fit d e f =
      let (m', run, has, _) = reset_layers_lem 0 original m (omega arith) fit in
      let start : 0 + l ≡ l = omega arith in
      (m', run, rw start at (has l row col rows actions a d e f))
