-- ===== src/Via/Protocol/Matrix/Tracks.antt =====
-- The matrix state has the bits of the keys that are down.
use rumcake.Prelude.{
  ℕ, ◌+◌, ◌-◌, ◌*◌, ◌/◌, ◌%◌, ◌<◌, ◌≤◌, ◌≡◌, ◌∙◌, ap, refl, Bool, true, false, ◌&&◌, List, [], ◌∷◌,
  length, set, get_or, length-set, length-replicate, ok, arith, ◌==◌, if◌then◌else◌, Bool-cases,
  ==_iff, inl, inr,
}
use native.Mathlib.Decide.{dec_lt}
use rumcake.Keyberon.{Event, press, release}
use rumcake.Via.{ViaKeyboard}
use rumcake.Via.Protocol.State.{ViaState, row_bytes, default}
use rumcake.Via.Protocol.Matrix.{
  state_byte, set_bit, clear_bit, update_matrix, background_round, track,
}
use rumcake.Via.Protocol.Matrix.Bits.{
  test_bit, test-set_bit, test-clear_bit, set_bit_byte, clear_bit_byte, AllBytes, set-AllBytes,
  get_or-byte, get_or-set, index-get_or, zeros-AllBytes, get_or-zeros, test_bit_zero,
}

-- Where the host looks for a key: row by row, the columns of a row from the last byte on.
abbrev pub key_position : ViaKeyboard → ℕ → ℕ → ℕ
key_position k row col = row_bytes k * row + (row_bytes k - 1 - col / 8)

unfoldable pub is_down : ViaKeyboard → List ℕ → ℕ → ℕ → Bool
is_down k bytes row col = test_bit (get_or bytes (key_position k row col) 0) (col % 8)

-- Whether the last event of a key was a press, if there is one.
unfoldable pub last_pressed : List Event → ℕ → ℕ → Bool → Bool
last_pressed [] row col before = before
last_pressed (press r c ∷ events) row col before =
    last_pressed events row col (if (r == row) && (c == col) then true else before)
last_pressed (release r c ∷ events) row col before =
    last_pressed events row col (if (r == row) && (c == col) then false else before)

abbrev pub OnKeyboard : ViaKeyboard → List Event → Type 0
OnKeyboard k [] = Unit {0}
OnKeyboard k (press r c ∷ events) = (r < k.rows) × (c < k.cols) × OnKeyboard k events
OnKeyboard k (release r c ∷ events) = (r < k.rows) × (c < k.cols) × OnKeyboard k events

row_below : (w r m r' m' : ℕ) → m < w → r < r' → w * r + m < w * r' + m'
row_below w r m r' m' h p =
    let step : w * (r + 1) ≤ w * r' = grind arith in
    let unfolded : w * (r + 1) ≡ w * r + w = grind arith in omega arith

row_unique : (w r m r' m' : ℕ) → m < w → m' < w → w * r + m ≡ w * r' + m' → r ≡ r'
row_unique w r m r' m' h h' e = elim (dec_lt r r') [
  | yes p ↦ absurd (omega (arith, row_below w r m r' m' h p))
  | no p ↦ elim (dec_lt r' r) [
    | yes q ↦ absurd (omega (arith, row_below w r' m' r m h' q))
    | no q ↦ omega arith
  ]
]

module _ (k : ViaKeyboard) where
  col_byte : (c : ℕ) → c < k.cols → c / 8 < row_bytes k
  unfolding row_bytes
  col_byte c h = omega arith

  state_byte_lem : (r c : ℕ) → c < k.cols → state_byte k r c ≡ ok (key_position k r c)
  unfolding state_byte
  state_byte_lem r c h =
      let b = col_byte c h in
      let enough : row_bytes k ≤ row_bytes k * (r + 1) = grind arith in
      let same : row_bytes k * (r + 1) - 1 - c / 8 ≡ key_position k r c = grind arith in
      ground arith

  position_bounds : (r c : ℕ) → r < k.rows → c < k.cols → key_position k r c < row_bytes k * k.rows
  position_bounds r c hr hc = let b = col_byte c hc in grind arith

  -- Two keys with the same bit are the same.
  position_injective :
      (r c r' c' : ℕ)
      → c < k.cols
      → c' < k.cols
      → key_position k r c ≡ key_position k r' c'
      → c % 8 ≡ c' % 8
      → (r ≡ r') × (c ≡ c')
  position_injective r c r' c' hc hc' same bit =
      let b = col_byte c hc in
      let b' = col_byte c' hc' in
      let row : r ≡ r' =
        row_unique (row_bytes k) r (row_bytes k - 1 - c / 8) r' (row_bytes k - 1 - c' / 8)
          (omega arith) (omega arith) same in
      let rows : row_bytes k * r ≡ row_bytes k * r' = ap (λ n. row_bytes k * n) row in
      let byte : c / 8 ≡ c' / 8 = omega arith in (row, omega arith)

  -- The test for the same bit is the test for the same key.
  same_bit :
      (r c r' c' : ℕ)
      → c < k.cols
      → c' < k.cols
      → ((key_position k r c == key_position k r' c') && (c % 8 == c' % 8))
        ≡ ((r == r') && (c == c'))
  same_bit r c r' c' hc hc' = ground (arith, position_injective r c r' c' hc hc')

  changed_bit :
      (bytes : List ℕ) (r c r' c' v : ℕ) (b : Bool)
      → length bytes ≡ row_bytes k * k.rows
      → r < k.rows
      → c < k.cols
      → c' < k.cols
      → test_bit v (c' % 8)
        ≡ (if c % 8 == c' % 8 then b else test_bit (get_or bytes (key_position k r c) 0) (c' % 8))
      → is_down k (set bytes (key_position k r c) v) r' c'
        ≡ (if (r == r') && (c == c') then b else is_down k bytes r' c')
  unfolding is_down
  changed_bit bytes r c r' c' v b len hr hc hc' bit =
      let here = key_position k r c in
      let there = key_position k r' c' in
      let within : here < length bytes = omega (arith, position_bounds r c hr hc) in
      let looked = get_or-set bytes here there v within in
      let keys = same_bit r c r' c' hc hc' in
      elim (Bool-cases (here == there)) [
        | inl same ↦
            let found : get_or (set bytes here v) there 0 ≡ v = rw same at looked in
            let key : (c % 8 == c' % 8) ≡ ((r == r') && (c == c')) = rw same at keys in
            ap (λ (n : ℕ). test_bit n (c' % 8)) found
            ∙ bit
            ∙ ap (λ (t : Bool). if t then b else test_bit (get_or bytes here 0) (c' % 8)) key
            ∙ ap
                (λ (p : ℕ).
                  if (r == r') && (c == c') then b else test_bit (get_or bytes p 0) (c' % 8))
                ((==_iff here there).0 same)
        | inr other ↦
            let found : get_or (set bytes here v) there 0 ≡ get_or bytes there 0 =
              rw other at looked in
            let key : false ≡ ((r == r') && (c == c')) = rw other at keys in
            ap (λ (n : ℕ). test_bit n (c' % 8)) found
            ∙ ap (λ (t : Bool). if t then b else test_bit (get_or bytes there 0) (c' % 8)) key
      ]

  -- A state of the right length, of bytes.
  pub record IsMatrix (bytes : List ℕ) : Type 0 where
    pub len : length bytes ≡ row_bytes k * k.rows
    pub all_bytes : AllBytes bytes

  press_lem :
      (bytes : List ℕ) (r c : ℕ)
      → IsMatrix bytes
      → r < k.rows
      → c < k.cols
      → (bytes' : List ℕ) × (update_matrix k (press r c) bytes ≡ ok bytes')
        × IsMatrix bytes'
        × ((r' c' : ℕ)
            → c' < k.cols
            → is_down k bytes' r' c'
              ≡ (if (r == r') && (c == c') then true else is_down k bytes r' c'))
  unfolding update_matrix
  press_lem bytes r c m hr hc =
      let here = key_position k r c in
      let within : here < length bytes = omega (arith, m.len, position_bounds r c hr hc) in
      let old = get_or bytes here 0 in
      let old_byte = get_or-byte bytes here m.all_bytes in
      let low : c % 8 < 8 = omega arith in
      let byte = set_bit_byte old (c % 8) (c % 8) old_byte low low in
      (
        set bytes here (set_bit old (c % 8)),
        rw (state_byte_lem r c hc, index-get_or bytes here within) refl,
        record {
          len = omega (arith, m.len, length-set bytes here (set_bit old (c % 8)));
          all_bytes = set-AllBytes bytes here (set_bit old (c % 8)) m.all_bytes byte;
        },
        λ r' c' hc'.
            changed_bit bytes r c r' c' (set_bit old (c % 8)) true m.len hr hc hc'
              (test-set_bit old (c % 8) (c' % 8) old_byte low (omega arith)),
      )

  release_lem :
      (bytes : List ℕ) (r c : ℕ)
      → IsMatrix bytes
      → r < k.rows
      → c < k.cols
      → (bytes' : List ℕ) × (update_matrix k (release r c) bytes ≡ ok bytes')
        × IsMatrix bytes'
        × ((r' c' : ℕ)
            → c' < k.cols
            → is_down k bytes' r' c'
              ≡ (if (r == r') && (c == c') then false else is_down k bytes r' c'))
  unfolding update_matrix
  release_lem bytes r c m hr hc =
      let here = key_position k r c in
      let within : here < length bytes = omega (arith, m.len, position_bounds r c hr hc) in
      let old = get_or bytes here 0 in
      let old_byte = get_or-byte bytes here m.all_bytes in
      let low : c % 8 < 8 = omega arith in
      let byte = clear_bit_byte old (c % 8) (c % 8) old_byte low low in
      (
        set bytes here (clear_bit old (c % 8)),
        rw (state_byte_lem r c hc, index-get_or bytes here within) refl,
        record {
          len = omega (arith, m.len, length-set bytes here (clear_bit old (c % 8)));
          all_bytes = set-AllBytes bytes here (clear_bit old (c % 8)) m.all_bytes byte;
        },
        λ r' c' hc'.
            changed_bit bytes r c r' c' (clear_bit old (c % 8)) false m.len hr hc hc'
              (test-clear_bit old (c % 8) (c' % 8) old_byte low (omega arith)),
      )

  default-IsMatrix : IsMatrix (default k).layout_state
  unfolding default
  default-IsMatrix = record {
    len = length-replicate (row_bytes k * k.rows) 0;
    all_bytes = zeros-AllBytes (row_bytes k * k.rows);
  }

  default_up : (r c : ℕ) → is_down k (default k).layout_state r c ≡ false
  unfolding default is_down
  default_up r c =
      ap (λ (n : ℕ). test_bit n (c % 8)) (get_or-zeros (row_bytes k * k.rows) (key_position k r c))
      ∙ test_bit_zero (c % 8) (omega arith)

  module _ (r' c' : ℕ) (hc' : c' < k.cols) where
    tracked_from :
        (events : List Event) (s : ViaState)
        → IsMatrix s.layout_state
        → OnKeyboard k events
        → (s' : ViaState) × (track k events s ≡ ok s')
          × IsMatrix s'.layout_state
          × (s'.layout_options ≡ s.layout_options)
          × (is_down k s'.layout_state r' c'
              ≡ last_pressed events r' c' (is_down k s.layout_state r' c'))
    unfolding track background_round last_pressed
    tracked_from [] s m on = (s, refl, m, refl, refl)
    tracked_from (press r c ∷ events) s m (hr, hc, on) =
        let (bytes, updated, m', bits) = press_lem s.layout_state r c m hr hc in
        let (s', rest, m'', options, down) =
          tracked_from events (record s { layout_state = bytes }) m' on in
        (s', rw updated rest, m'', options, down ∙ ap (last_pressed events r' c') (bits r' c' hc'))
    tracked_from (release r c ∷ events) s m (hr, hc, on) =
        let (bytes, updated, m', bits) = release_lem s.layout_state r c m hr hc in
        let (s', rest, m'', options, down) =
          tracked_from events (record s { layout_state = bytes }) m' on in
        (s', rw updated rest, m'', options, down ∙ ap (last_pressed events r' c') (bits r' c' hc'))

    -- From the state at the start, any sequence of events of keys of the keyboard is tracked without
    -- a panic. Afterwards the bit of a key is set exactly if its last event was a press; the array
    -- has its length, all its numbers are bytes, and the layout options are those of the start.
    pub is_down-track :
        (events : List Event)
        → OnKeyboard k events
        → (s : ViaState) × (track k events (default k) ≡ ok s)
          × IsMatrix s.layout_state
          × (s.layout_options ≡ k.layout_options_default)
          × (is_down k s.layout_state r' c' ≡ last_pressed events r' c' false)
    unfolding default
    is_down-track events on =
        let (s, ran, m, options, down) = tracked_from events (default k) default-IsMatrix on in
        (s, ran, m, options, down ∙ ap (last_pressed events r' c') (default_up r' c'))
