-- ===== src/Via/Keycodes/Changed.antt =====
-- The keycodes of rumcake/src/via/protocol_12/keycodes.rs that come back as another action than the
-- one that was saved, and the action that cannot be saved.
use rumcake.Prelude.{
  ℕ, ◌+◌, ◌<◌, ◌≡◌, ◌⊎◌, inl, inr, refl, Option-cases, none, some, ok, panic, arith,
}
use rumcake.Bluetooth.{BluetoothCommand}
use rumcake.Keyberon.{
  Action, one_shot_action, key_code, layer, toggle_layer, default_layer, hold_tap, one_shot, custom,
}
use rumcake.Keyboard.{Keycode}
use rumcake.Backlight.Simple
use rumcake.Backlight.SimpleMatrix
use rumcake.Backlight.RgbMatrix
use rumcake.Via.{BacklightType}
use rumcake.Via.Keycodes.Codes.{
  unknown_keycode, qk_toggle_layer, qk_backlight_on, qk_backlight_off, qmk_keycode_from_u8,
}
use rumcake.Via.Keycodes.Media.{ConsumerPage, first_match}
use rumcake.Via.Keycodes.Lighting.{
  for_backlight_type, simple_request, simple_matrix_request, rgb_matrix_request,
}
use rumcake.Via.Keycodes.{
  KeycodeConfig, convert_action_to_keycode, convert_keycode_to_action, layer_tests, lighting_tests,
  lighting_action, layer_keycode, bluetooth_to_keycode, quantum_tests, kb_action,
}

-- The commands that turn a backlight of a type on and off.
abbrev pub backlight_on : {C : Type 0} → BacklightType → Keycode C
backlight_on BacklightType.simple_backlight = Keycode.simple_backlight Simple.turn_on
backlight_on BacklightType.simple_backlight_matrix =
    Keycode.simple_backlight_matrix SimpleMatrix.turn_on
backlight_on BacklightType.rgb_backlight_matrix = Keycode.rgb_backlight_matrix RgbMatrix.turn_on

abbrev pub backlight_off : {C : Type 0} → BacklightType → Keycode C
backlight_off BacklightType.simple_backlight = Keycode.simple_backlight Simple.turn_off
backlight_off BacklightType.simple_backlight_matrix =
    Keycode.simple_backlight_matrix SimpleMatrix.turn_off
backlight_off BacklightType.rgb_backlight_matrix = Keycode.rgb_backlight_matrix RgbMatrix.turn_off

module _ {C : Type 0} (page : ConsumerPage C) (k : KeycodeConfig) where
  -- A toggled layer that fits the range is saved as a toggle keycode, but that keycode is read
  -- back as the action that makes the layer the default one.
  pub toggle_layer_changed :
      (l : ℕ)
      → l < 32
      → (convert_action_to_keycode page k (toggle_layer l) ≡ ok (qk_toggle_layer + l))
        × (convert_keycode_to_action page k (qk_toggle_layer + l) ≡ some (default_layer l))
  unfolding convert_action_to_keycode convert_keycode_to_action layer_tests layer_keycode
  toggle_layer_changed l h = (ground arith, ground arith)

  -- The only actions that `convert_action_to_keycode` panics on are the hold-tap actions.
  panics_on_hold_tap :
      (a : Action (Keycode C))
      → ((h : ℕ) × (a ≡ hold_tap h) × (convert_action_to_keycode page k a ≡ panic))
        ⊎ ((code : ℕ) × (convert_action_to_keycode page k a ≡ ok code))
  unfolding convert_action_to_keycode
  panics_on_hold_tap (hold_tap h) = inl (h, refl, refl)
  panics_on_hold_tap (key_code key) = elim (Option-cases (qmk_keycode_from_u8 key)) [
    | inl e ↦ inr (unknown_keycode, rw (e, convert_action_to_keycode))
    | inr (code, e) ↦ inr (code, rw (e, convert_action_to_keycode))
  ]
  panics_on_hold_tap (one_shot (one_shot_action (layer l) timeout end_config)) = inr (_, refl)
  panics_on_hold_tap _ = inr (_, refl)

  -- Whatever the type of the backlight, the keycode that turns it on is read as the command that
  -- turns it off, and the other way round.
  pub backlight_switches_swapped :
      (t : BacklightType)
      → k.backlight_type ≡ some t
      → (convert_keycode_to_action page k qk_backlight_on ≡ some (custom (backlight_off t)))
        × (convert_keycode_to_action page k qk_backlight_off ≡ some (custom (backlight_on t)))
  unfolding convert_keycode_to_action layer_tests lighting_tests lighting_action first_match
      for_backlight_type simple_request simple_matrix_request rgb_matrix_request
  backlight_switches_swapped BacklightType.simple_backlight h = (rw h, rw h)
  backlight_switches_swapped BacklightType.simple_backlight_matrix h = (rw h, rw h)
  backlight_switches_swapped BacklightType.rgb_backlight_matrix h = (rw h, rw h)

  -- No keycode of a Bluetooth command is converted back, since the test for their range only lets
  -- the first keycode of the range through.
  pub bluetooth_keycodes_lost :
      (command : BluetoothCommand)
      → convert_keycode_to_action page k (bluetooth_to_keycode command) ≡ none
  unfolding convert_keycode_to_action layer_tests lighting_tests quantum_tests kb_action
      bluetooth_to_keycode
  bluetooth_keycodes_lost BluetoothCommand.output_usb = refl
  bluetooth_keycodes_lost BluetoothCommand.output_bluetooth = refl
  bluetooth_keycodes_lost BluetoothCommand.toggle_output = refl
