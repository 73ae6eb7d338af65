-- ===== src/Via/Keycodes.antt =====
-- rumcake/src/via/protocol_12/keycodes.rs: the conversions between the actions of a layout and the
-- 16-bit keycodes of QMK that the Via app speaks. All features are on.
pub mod Codes
pub mod Media
pub mod Lighting
pub mod RoundTrip
pub mod Changed
use rumcake.Prelude.{
  ℕ, ◌+◌, ◌-◌, ◌%◌, Bool, true, false, Option, none, some, ◌==◌, ltb, leb, in_range, if◌then◌else◌,
  Run, ok, panic,
}
use mathlib.Core.Option
use rumcake.Bluetooth.{BluetoothCommand}
use rumcake.Keyberon.{
  Action, OneShotAction, one_shot_action, SequenceRef, macro_slot, static_sequence, no_op, trans,
  key_code, layer, toggle_layer, default_layer, hold_tap, one_shot, sequence, custom,
  end_on_first_press, is_key_code,
}
use rumcake.Keyboard.{Keycode}
use rumcake.Via.{BacklightType}
use Codes.{
  kc_no, kc_transparent, qk_basic, qk_basic_max, qk_momentary, qk_momentary_max, qk_def_layer,
  qk_def_layer_max, qk_toggle_layer, qk_toggle_layer_max, qk_one_shot_layer, qk_one_shot_layer_max,
  qk_macro, qk_macro_max, qk_lighting, qk_lighting_max, qk_quantum, qk_kb, qk_kb_max, qk_output_usb,
  qk_output_bluetooth, unknown_keycode, qmk_keycode_from_u8,
}
use Media.{ConsumerPage, media_to_keycode, keycode_to_media, first_match}
use Lighting.{
  underglow_to_keycode, simple_to_keycode, simple_matrix_to_keycode, rgb_matrix_to_keycode,
  backlight_table, for_backlight_type, underglow_table,
}

-- `K::BACKLIGHT_TYPE`, and how many sequences `K::get_macro_buffer()` has, if there is one.
pub record KeycodeConfig : Type 0 where
  pub backlight_type : Option BacklightType
  pub macro_count : Option ℕ

-- `if (layer as u16) <= MAX - START { START + layer as u16 } else { UNKNOWN_KEYCODE }`
unfoldable pub layer_keycode : ℕ → ℕ → ℕ → ℕ
layer_keycode start max l =
    if leb (l % 65536) (max - start) then start + l % 65536 else unknown_keycode

-- `sequences.iter().position(..)`, by the address of the sequence.
unfoldable pub sequence_position : ℕ → SequenceRef → Option ℕ
sequence_position count (macro_slot i) = if ltb i count then some i else none
sequence_position count (static_sequence _) = none

unfoldable pub sequence_keycode : Option ℕ → SequenceRef → ℕ
unfolding sequence_position
sequence_keycode none s = unknown_keycode
sequence_keycode (some count) s = elim (sequence_position count s) [
  | none ↦ unknown_keycode
  | some i ↦ qk_macro + i % 65536
]

abbrev pub is_backlight_type : Option BacklightType → BacklightType → Bool
is_backlight_type (some BacklightType.simple_backlight) BacklightType.simple_backlight = true
is_backlight_type (some BacklightType.simple_backlight_matrix)
      BacklightType.simple_backlight_matrix =
    true
is_backlight_type (some BacklightType.rgb_backlight_matrix) BacklightType.rgb_backlight_matrix =
    true
is_backlight_type _ _ = false

unfoldable pub bluetooth_to_keycode : BluetoothCommand → ℕ
bluetooth_to_keycode BluetoothCommand.output_usb = qk_output_usb
bluetooth_to_keycode BluetoothCommand.output_bluetooth = qk_output_bluetooth
bluetooth_to_keycode BluetoothCommand.toggle_output = unknown_keycode

-- `return` what the body of a range returned, otherwise go on.
abbrev pub or_else {ℓ} : {A : Type ℓ} → Option A → A → A
or_else none a = a
or_else (some r) a = r

module _ {C : Type 0} (page : ConsumerPage C) (k : KeycodeConfig) where
  -- The arm of `Action::Custom`.
  unfoldable pub custom_to_keycode : Keycode C → ℕ
  custom_to_keycode (Keycode.custom id) = if leb id 31 then qk_kb + id else unknown_keycode
  custom_to_keycode (Keycode.media c) = elim (page.named c) [
    | none ↦ unknown_keycode
    | some m ↦ media_to_keycode m
  ]
  custom_to_keycode (Keycode.underglow command) = underglow_to_keycode command
  custom_to_keycode (Keycode.simple_backlight command) =
      if is_backlight_type k.backlight_type BacklightType.simple_backlight
      then simple_to_keycode command
      else unknown_keycode
  custom_to_keycode (Keycode.simple_backlight_matrix command) =
      if is_backlight_type k.backlight_type BacklightType.simple_backlight_matrix
      then simple_matrix_to_keycode command
      else unknown_keycode
  custom_to_keycode (Keycode.rgb_backlight_matrix command) =
      if is_backlight_type k.backlight_type BacklightType.rgb_backlight_matrix
      then rgb_matrix_to_keycode command
      else unknown_keycode
  custom_to_keycode (Keycode.bluetooth command) = bluetooth_to_keycode command

  -- `todo!()` panics.
  unfoldable pub convert_action_to_keycode : Action (Keycode C) → Run ℕ
  unfolding custom_to_keycode layer_keycode sequence_keycode
  convert_action_to_keycode no_op = ok kc_no
  convert_action_to_keycode trans = ok kc_transparent
  convert_action_to_keycode (key_code key) = elim (qmk_keycode_from_u8 key) [
    | none ↦ ok unknown_keycode
    | some code ↦ ok code
  ]
  convert_action_to_keycode (layer l) = ok (layer_keycode qk_momentary qk_momentary_max l)
  convert_action_to_keycode (default_layer l) = ok (layer_keycode qk_def_layer qk_def_layer_max l)
  convert_action_to_keycode (toggle_layer l) =
      ok (layer_keycode qk_toggle_layer qk_toggle_layer_max l)
  convert_action_to_keycode (hold_tap _) = panic
  convert_action_to_keycode (one_shot (one_shot_action (layer l) timeout end_config)) =
      ok (layer_keycode qk_one_shot_layer qk_one_shot_layer_max l)
  convert_action_to_keycode (sequence s) = ok (sequence_keycode k.macro_count s)
  convert_action_to_keycode (custom key) = ok (custom_to_keycode key)
  convert_action_to_keycode _ = ok unknown_keycode

  -- The closure that is called for a basic keycode that is no key code.
  unfoldable pub media_action : ℕ → Option (Action (Keycode C))
  media_action keycode =
      Option.map (λ m. custom (Keycode.media (page.variant m))) (keycode_to_media keycode)

  unfoldable pub basic_action : ℕ → Option (Action (Keycode C))
  unfolding media_action
  basic_action keycode =
      if is_key_code keycode then some (key_code keycode) else media_action keycode

  -- `ONE_SHOT_LAYER_ACTIONS.get(layer).map(Action::OneShot)`
  unfoldable pub one_shot_layer_action : ℕ → Option (Action (Keycode C))
  one_shot_layer_action l =
      if ltb l 16 then some (one_shot (one_shot_action (layer l) 5000 end_on_first_press)) else none

  unfoldable pub macro_action : ℕ → Option (Action (Keycode C))
  macro_action number = elim k.macro_count [
    | none ↦ none
    | some count ↦ if ltb number count then some (sequence (macro_slot number)) else none
  ]

  -- The body of the lighting range: `some` is what it returns, `none` falls through.
  unfoldable pub lighting_action : ℕ → Option (Option (Action (Keycode C)))
  lighting_action keycode = elim (first_match keycode backlight_table) [
    | some request ↦ some (Option.map custom (for_backlight_type k.backlight_type request))
    | none ↦
        Option.map (λ command. some (custom (Keycode.underglow command)))
          (first_match keycode underglow_table)
  ]

  -- The body of the quantum range.
  unfoldable pub quantum_action : ℕ → Option (Option (Action (Keycode C)))
  quantum_action keycode =
      if keycode == qk_output_usb
      then some (some (custom (Keycode.bluetooth BluetoothCommand.output_usb)))
      else if keycode == qk_output_bluetooth
      then some (some (custom (Keycode.bluetooth BluetoothCommand.output_bluetooth)))
      else none

  unfoldable pub kb_action : ℕ → Option (Action (Keycode C))
  kb_action keycode =
      if in_range qk_kb qk_kb_max keycode
      then some (custom (Keycode.custom ((keycode - qk_kb) % 256)))
      else none

  -- The tests behind the macro range. The quantum range is written with its start twice.
  unfoldable pub quantum_tests : ℕ → Option (Action (Keycode C))
  quantum_tests keycode =
      if in_range qk_quantum qk_quantum keycode
      then or_else (quantum_action keycode) (kb_action keycode)
      else kb_action keycode

  unfoldable pub lighting_tests : ℕ → Option (Action (Keycode C))
  lighting_tests keycode =
      if in_range qk_lighting qk_lighting_max keycode
      then or_else (lighting_action keycode) (quantum_tests keycode)
      else quantum_tests keycode

  -- The tests behind the basic range.
  unfoldable pub layer_tests : ℕ → Option (Action (Keycode C))
  layer_tests keycode =
      if in_range qk_momentary qk_momentary_max keycode
      then some (layer (keycode - qk_momentary))
      else if in_range qk_def_layer qk_def_layer_max keycode
      then some (default_layer (keycode - qk_def_layer))
      else if in_range qk_toggle_layer qk_toggle_layer_max keycode
      then some (default_layer (keycode - qk_toggle_layer))
      else if in_range qk_one_shot_layer qk_one_shot_layer_max keycode
      then one_shot_layer_action (keycode - qk_one_shot_layer)
      else if in_range qk_macro qk_macro_max keycode
      then macro_action (keycode - qk_macro)
      else lighting_tests keycode

  unfoldable pub convert_keycode_to_action : ℕ → Option (Action (Keycode C))
  convert_keycode_to_action keycode =
      if keycode == kc_no
      then some no_op
      else if keycode == kc_transparent
      then some trans
      else if in_range qk_basic qk_basic_max keycode
      then basic_action keycode
      else layer_tests keycode
