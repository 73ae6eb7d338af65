-- ===== src/Examples/Protocol.antt =====
-- The commands of rumcake/src/via/protocol_12/mod.rs at concrete packets, for the keyboard of the
-- examples of the handlers.
use rumcake.Prelude.{
  ◌≤◌, ◌<◌, ◌≡◌, ◌⊎◌, refl, inr, true, false, some, none, List, [], ◌∷◌, replicate, ok, panic,
  arith,
}
use rumcake.Keyberon.{Action, Event, press, release}
use rumcake.Keyberon
use rumcake.Keyboard.{Keycode}
use rumcake.Backlight.Simple
use rumcake.Backlight.SimpleMatrix
use rumcake.Backlight.RgbMatrix
use rumcake.Lighting.{from_u8}
use rumcake.Underglow.Effect.{snake, effects}
use rumcake.Via.Lights.{on_slice}
use rumcake.Via.Protocol.Values.{dynamic_keymap_get_layer_count}
use rumcake.Underglow.Task.{Round, underglow_round}
use rumcake.Via.Keycodes.{convert_action_to_keycode, convert_keycode_to_action}
use rumcake.Via.Keycodes.Media.{MediaKey}
use rumcake.Via.Lights.Underglow.{effect}
use rumcake.Via.Protocol.Commands
use rumcake.Via.Protocol.State.{ViaState, default, Host}
use rumcake.Via.Protocol.Dispatch.{Firmware, process_command, process_via_command}
use rumcake.Via.Protocol.Refused.{unsupported_command}
use rumcake.Via.Protocol.Replies.{IsReply, request_replies}
use rumcake.Via.Protocol.Sessions.{matrix_state_reply, underglow_session}
use rumcake.Via.Protocol.Matrix.{track}
use rumcake.Via.Protocol.Matrix.Tracks.{IsMatrix, is_down, last_pressed, is_down-track}
use rumcake.Examples.Host.{keyboard, Layout, layout_ops}
use rumcake.Examples.Keycodes.{named_page, config}
use rumcake.Examples.Notify.{config_eq, config_eq-IsEquality, only_solid, running, stored}

abbrev firmware : Firmware Layout (Action (Keycode MediaKey))
firmware = record {
  layout_ops = layout_ops;
  constants = keyboard;
  original_layout = [];
  handle_via_command = λ bytes. (bytes, false);
  handle_custom_value_command = λ bytes. bytes;
  convert_action_to_keycode = convert_action_to_keycode named_page config;
  convert_keycode_to_action = convert_keycode_to_action named_page config;
  now = 1000;
}

abbrev host : Host Layout
host = record {
  packet = replicate 32 0;
  via_state = record { layout_state = 1 ∷ 2 ∷ []; layout_options = 0 };
  layout = λ r c l. Keyberon.layer 0;
  macros = none;
  lights = record {
    simple_config = record { value = Simple.default; signals = [] };
    simple_commands = [];
    simple_matrix_config = record { value = SimpleMatrix.default; signals = [] };
    simple_matrix_commands = [];
    rgb_matrix_config = record { value = RgbMatrix.default; signals = [] };
    rgb_matrix_commands = [];
    underglow_config = stored;
    underglow_commands = [];
  };
  operations = [];
  bootloader_jump_signalled = false;
  layout_options_set = [];
}

unsupported_command_example :
    process_via_command firmware (record host { packet = 3 ∷ 1 ∷ 7 ∷ [] })
    ≡ ok (record host { packet = 0xff ∷ 1 ∷ 7 ∷ [] })
unsupported_command_example =
    unsupported_command firmware host 3 1 (7 ∷ []) refl
      (inr (refl, (λ e. omega (arith, e)), (λ e. omega (arith, e))))

abbrev layer_count_reply : Host Layout
layer_count_reply = record host { packet = 0 ∷ 2 ∷ replicate 30 0 }

request_replies_example : IsReply host layer_count_reply
unfolding process_command on_slice dynamic_keymap_get_layer_count
request_replies_example =
    request_replies firmware (λ p. refl) host Commands.dynamic_keymap_get_layer_count
      layer_count_reply refl refl

matrix_state_reply_example :
    ((2 ≤ 30)
      × (process_via_command firmware (record host { packet = 2 ∷ 3 ∷ replicate 30 0 })
          ≡ ok (record host { packet = 2 ∷ 3 ∷ 1 ∷ 2 ∷ replicate 28 0 })))
    ⊎ ((30 < 2)
        × (process_via_command firmware (record host { packet = 2 ∷ 3 ∷ replicate 30 0 }) ≡ panic))
matrix_state_reply_example = matrix_state_reply firmware host (replicate 30 0) refl

underglow_session_example :
    (h' : Host Layout) × (r : Round) × (process_via_command firmware
        (record host { packet = 7 ∷ 2 ∷ 2 ∷ 4 ∷ 0 ∷ [] })
      ≡ ok h')
    × (underglow_round config_eq true only_solid h'.lights.underglow_commands
          h'.lights.underglow_config running
        ≡ some r)
    × (let asked : Host Layout = record h' {
      packet = 8 ∷ 2 ∷ 2 ∷ 0 ∷ 9 ∷ [];
      lights = record h'.lights { underglow_config = r.config_state; underglow_commands = [] };
    } in
        process_via_command firmware asked ≡ ok (record asked { packet = 8 ∷ 2 ∷ 2 ∷ 4 ∷ 9 ∷ [] }))
unfolding from_u8 effects
underglow_session_example =
    underglow_session firmware host config_eq config_eq-IsEquality true only_solid running
      (λ bytes. refl) effect 4 0 0 9 [] [] (snake, refl) refl

abbrev events : List Event
events = press 1 2 ∷ press 0 0 ∷ release 1 2 ∷ []

is_down-track_example :
    (s : ViaState) × (track keyboard events (default keyboard) ≡ ok s)
    × IsMatrix keyboard s.layout_state
    × (s.layout_options ≡ 0)
    × (is_down keyboard s.layout_state 0 0 ≡ last_pressed events 0 0 false)
is_down-track_example =
    is_down-track keyboard 0 0 (omega arith) events
      (omega arith, omega arith, (omega arith, omega arith, (omega arith, omega arith, tt)))

abbrev jump_request : Host Layout
jump_request = record host { packet = 0xb ∷ replicate 31 0 }

abbrev jumping : Host Layout
jumping = record jump_request { bootloader_jump_signalled = true }
