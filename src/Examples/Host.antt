-- ===== src/Examples/Host.antt =====
-- The Via handlers of rumcake/src/via/handlers.rs at concrete inputs: a keyboard of two layers, two
-- rows and three columns, whose layout is a function, and a database that is a function.
use rumcake.Prelude.{
  to_be_bytes, ℕ, ◌≤◌, ◌<◌, ◌≡◌, ◌≢◌, ◌⊎◌, refl, Bool, true, none, some, [], ◌∷◌, ◌++◌, replicate,
  ok, panic, arith, ltb, if_cases, Bool-cases, inl, inr, ap, sym, ◌&&◌, if◌then◌else◌,
}
use rumcake.Keyberon.{LayoutOps, IsLayout, Action, same_key, layer, default_layer}
use rumcake.Keyboard.{Keycode}
use rumcake.Via.{ViaKeyboard}
use rumcake.Via.Storage.{Operation, update_data, dynamic_keymap, layout_options}
use rumcake.Via.Keymap.{
  get_key, is_key, dynamic_keymap_get_keycode, dynamic_keymap_set_keycode, keycode_offset,
  dynamic_keymap_get_buffer, dynamic_keymap_set_buffer, keymap_size,
}
use rumcake.Via.Keymap.Single.{keycode_set_get}
use rumcake.Via.Keymap.Buffer.{IsRestored}
use rumcake.Via.Keymap.Encode.{encode}
use rumcake.Via.Keymap.Offset.{key_byte, keycode_offset_lem}
use rumcake.Via.Keymap.Position.{IsKeyboard}
use rumcake.Via.Keymap.Faithful.{keymap_round_trip}
use rumcake.Via.Keycodes.{
  layer_keycode, convert_action_to_keycode, convert_keycode_to_action, layer_tests,
}
use rumcake.Via.Keycodes.Media.{MediaKey}
use rumcake.Via.Keycodes.RoundTrip.{is_faithful}
use rumcake.Via.Options.{
  set_layout_options, get_layout_options, load_layout_options, layout_options_two_bytes,
  set_layout_options_panics,
}
use rumcake.Examples.Keycodes.{named_page, named_page-IsConsumerPage, config}

abbrev pub keyboard : ViaKeyboard
keyboard = record {
  firmware_version = 1;
  layout_options_size = 1;
  layout_options_default = 0;
  layer_count = 2;
  macro_count = 3;
  macro_buffer_size = 8;
  rows = 2;
  cols = 3;
  num_encoders = 0;
}

pub keyboard-IsKeyboard : IsKeyboard keyboard
keyboard-IsKeyboard = record {
  some_row = omega arith;
  some_col = omega arith;
  byte_row = omega arith;
  byte_col = omega arith;
}

abbrev pub Layout : Type 0
Layout = ℕ → ℕ → ℕ → Action (Keycode MediaKey)

abbrev inside : ℕ → ℕ → ℕ → Bool
inside r c l = ltb r 2 && (ltb c 3 && ltb l 2)

abbrev pub layout_ops : LayoutOps Layout (Action (Keycode MediaKey))
layout_ops = record {
  get_action = λ m r c l. if inside r c l then some (m r c l) else none;
  change_action = λ m r c l a.
      if inside r c l
      then some (λ r' c' l'. if same_key r c l r' c' l' then a else m r' c' l')
      else none;
}

abbrev changed_layout : Layout → ℕ → ℕ → ℕ → Action (Keycode MediaKey) → Layout
changed_layout m r c l a r' c' l' = if same_key r c l r' c' l' then a else m r' c' l'

changed_key :
    (m m' : Layout) (r c l r' c' l' : ℕ) (a : Action (Keycode MediaKey))
    → layout_ops.change_action m r c l a ≡ some m'
    → layout_ops.get_action m' r' c' l'
      ≡ (if same_key r c l r' c' l' then some a else layout_ops.get_action m r' c' l')
changed_key m m' r c l r' c' l' a h =
    if_cases (inside r c l) (some (changed_layout m r c l a)) none (some m') h
      (λ within e.
        let here : changed_layout m r c l a r' c' l' ≡ m' r' c' l' =
          ap (λ o. elim o [ none ↦ a | some f ↦ f r' c' l' ]) e in
        elim (Bool-cases (same_key r c l r' c' l')) [
          | inl same ↦
              let within' : inside r' c' l' ≡ true = ground arith in
              rw (same, within') (ap some (sym (rw same at here)))
          | inr other ↦ let kept : m r' c' l' ≡ m' r' c' l' = rw other at here in rw (other, kept)
        ])
      (λ _ e. cc)

pub layout_ops-IsLayout : IsLayout layout_ops 2 2 3
layout_ops-IsLayout = record {
  get-in_bounds =
      λ m r c l hr hc hl. let within : inside r c l ≡ true = ground arith in (m r c l, rw within);
  change-in_bounds = λ m r c l a hr hc hl.
      let within : inside r c l ≡ true = ground arith in
      ((λ r' c' l'. if same_key r c l r' c' l' then a else m r' c' l'), rw within);
  get-change = changed_key;
}

keymap_round_trip_example :
    (m : Layout) × (operation : Operation) × (dynamic_keymap_set_buffer layout_ops keyboard
        (convert_keycode_to_action named_page config)
        (λ r c l. layer 0)
        8
        4
        (encode (0x5223 ∷ 0x5242 ∷ []) ++ [])
      ≡ ok (m, operation))
    × (update_data dynamic_keymap 8 (encode (0x5223 ∷ 0x5242 ∷ [])) ≡ ok operation)
    × (dynamic_keymap_get_buffer layout_ops keyboard
          (convert_action_to_keycode named_page config)
          m
          8
          4
          (replicate 4 0 ++ (7 ∷ []))
        ≡ ok (encode (0x5223 ∷ 0x5242 ∷ []) ++ (7 ∷ [])))
unfolding is_faithful convert_keycode_to_action layer_tests keymap_size
keymap_round_trip_example =
    keymap_round_trip named_page named_page-IsConsumerPage config layout_ops keyboard 2
      layout_ops-IsLayout keyboard-IsKeyboard (omega arith) (0x5223 ∷ 0x5242 ∷ []) []
      (replicate 4 0) (7 ∷ []) (λ r c l. layer 0) 4
      ((refl, omega arith, (layer 3, refl)), ((refl, omega arith, (default_layer 2, refl)), tt))
      (omega arith) (omega arith) refl

keycode_offset_lem_example :
    ((key_byte keyboard 1 1 2 < 256) × (keycode_offset keyboard 1 1 2 ≡ 22))
    ⊎ ((256 ≤ key_byte keyboard 1 1 2) × (keycode_offset keyboard 1 1 2 ≢ 22))
keycode_offset_lem_example = keycode_offset_lem keyboard 1 1 2 (omega arith) (omega arith)

layout_options_two_bytes_example :
    (options : ℕ) × (operation : Operation) × (set_layout_options 2 (1 ∷ 2 ∷ 3 ∷ 4 ∷ [])
      ≡ ok (options, operation))
    × (get_layout_options 2 options (0 ∷ 0 ∷ 0 ∷ 0 ∷ []) ≡ ok (0 ∷ 0 ∷ 3 ∷ 4 ∷ []))
    × (update_data layout_options 0 (1 ∷ 2 ∷ []) ≡ ok operation)
    × (load_layout_options (1 ∷ 2 ∷ []) ≡ ok 258)
layout_options_two_bytes_example =
    layout_options_two_bytes 1 2 3 4 0 0 0 0 (omega arith) (omega arith) (omega arith) (omega arith)

set_layout_options_panics_example : set_layout_options 4 (1 ∷ 2 ∷ 3 ∷ 4 ∷ []) ≡ panic
set_layout_options_panics_example =
    set_layout_options_panics 4 (1 ∷ 2 ∷ 3 ∷ 4 ∷ []) (omega arith) refl

set_default_layer :
    IsRestored layout_ops keyboard 2 layout_ops-IsLayout keyboard-IsKeyboard
      (omega arith)
      (convert_action_to_keycode named_page config)
      (convert_keycode_to_action named_page config)
      0x5242
unfolding convert_keycode_to_action convert_action_to_keycode layer_tests layer_keycode
set_default_layer = record {
  action = default_layer 2;
  converted = refl;
  back = refl;
  word = omega arith;
}

keycode_set_get_example :
    (m : Layout) × (operation : Operation) × (dynamic_keymap_set_keycode layout_ops keyboard
        (convert_keycode_to_action named_page config)
        (λ r c l. layer 0)
        1
        0
        2
        (to_be_bytes 0x5242)
      ≡ ok (m, some operation))
    × (update_data dynamic_keymap (keycode_offset keyboard 1 0 2) (to_be_bytes 0x5242)
        ≡ ok operation)
    × (dynamic_keymap_get_keycode layout_ops keyboard
          (convert_action_to_keycode named_page config)
          m
          1
          0
          2
          (9 ∷ 9 ∷ [])
        ≡ ok (to_be_bytes 0x5242))
    × (get_key layout_ops keyboard m (record { key_layer = 0; key_row = 0; key_col = 2 })
        ≡ get_key layout_ops keyboard
            (λ r c l. layer 0)
            (record { key_layer = 0; key_row = 0; key_col = 2 }))
unfolding is_key
keycode_set_get_example =
    keycode_set_get layout_ops keyboard 2 layout_ops-IsLayout keyboard-IsKeyboard (omega arith)
      (convert_action_to_keycode named_page config) (convert_keycode_to_action named_page config)
      (λ r c l. layer 0) 1 0 2 0x5242 9 9 (record { key_layer = 0; key_row = 0; key_col = 2 }) refl
      set_default_layer (λ same. omega (arith, ap (λ c. c.key_layer) same))
