-- ===== src/Examples/Keycodes.antt =====
-- The keycode conversions of rumcake/src/via/protocol_12/keycodes.rs at concrete inputs. The
-- consumer page of the examples has the named variants and nothing else.
use rumcake.Prelude.{◌+◌, ◌≡◌, refl, none, some, ok, arith}
use rumcake.Bluetooth.{BluetoothCommand}
use rumcake.Keyberon.{Action, toggle_layer, default_layer, layer, hold_tap, custom}
use rumcake.Keyboard.{Keycode}
use rumcake.Backlight.Simple
use rumcake.Via.{BacklightType}
use rumcake.Via.Keycodes.Codes.{qk_toggle_layer, qk_backlight_on, qk_backlight_off}
use rumcake.Via.Keycodes.Media.{MediaKey, ConsumerPage, IsConsumerPage}
use rumcake.Via.Keycodes.{
  KeycodeConfig, convert_action_to_keycode, convert_keycode_to_action, bluetooth_to_keycode,
  layer_tests,
}
use rumcake.Via.Keycodes.RoundTrip.{is_faithful, keycode_round_trip}
use rumcake.Via.Keycodes.Changed.{
  toggle_layer_changed, backlight_switches_swapped, bluetooth_keycodes_lost,
}

abbrev pub named_page : ConsumerPage MediaKey
named_page = record { variant = λ m. m; named = λ m. some m }

pub named_page-IsConsumerPage : IsConsumerPage named_page
named_page-IsConsumerPage = record { named-variant = λ m. refl; variant-named = λ c m h. cc }

abbrev pub config : KeycodeConfig
config = record { backlight_type = some BacklightType.simple_backlight; macro_count = some 16 }

keycode_round_trip_example : convert_action_to_keycode named_page config (layer 3) ≡ ok 0x5223
unfolding is_faithful convert_keycode_to_action layer_tests
keycode_round_trip_example =
    keycode_round_trip named_page named_page-IsConsumerPage config 0x5223 (layer 3) refl refl

toggle_layer_changed_example :
    (convert_action_to_keycode named_page config (toggle_layer 3) ≡ ok (qk_toggle_layer + 3))
    × (convert_keycode_to_action named_page config (qk_toggle_layer + 3) ≡ some (default_layer 3))
toggle_layer_changed_example = toggle_layer_changed named_page config 3 (omega arith)

abbrev a_hold_tap : Action (Keycode MediaKey)
a_hold_tap = hold_tap 7

backlight_switches_swapped_example :
    (convert_keycode_to_action named_page config qk_backlight_on
      ≡ some (custom (Keycode.simple_backlight Simple.turn_off)))
    × (convert_keycode_to_action named_page config qk_backlight_off
        ≡ some (custom (Keycode.simple_backlight Simple.turn_on)))
backlight_switches_swapped_example =
    backlight_switches_swapped named_page config BacklightType.simple_backlight refl

bluetooth_keycodes_lost_example :
    convert_keycode_to_action named_page config (bluetooth_to_keycode BluetoothCommand.output_usb)
    ≡ none
bluetooth_keycodes_lost_example =
    bluetooth_keycodes_lost named_page config BluetoothCommand.output_usb
