-- ===== src/Via/Protocol/Dispatch.antt =====
-- rumcake/src/via/protocol_12/mod.rs, `process_via_command`, and the loop over the reports of
-- `via_process_task` in rumcake/src/via/mod.rs. What a keyboard overrides is a parameter, and so are
-- the two conversions of keycodes and the clock.
use rumcake.Prelude.{
  ℕ, ◌==◌, Bool, true, not, Option, none, some, List, [], ◌∷◌, ◌++◌, length, Run, ok, ◌>>=◌, index,
  slice, from_be_bytes, if◌then◌else◌,
}
use rumcake.Keyberon.{LayoutOps}
use rumcake.Via.{ViaKeyboard}
use rumcake.Via.Keymap.{
  dynamic_keymap_get_keycode, dynamic_keymap_set_keycode, dynamic_keymap_get_buffer,
  dynamic_keymap_set_buffer, dynamic_keymap_reset,
}
use rumcake.Via.Macros.{
  dynamic_keymap_macro_get_count, dynamic_keymap_macro_reset, dynamic_keymap_macro_get_buffer_size,
  dynamic_keymap_macro_get_buffer, dynamic_keymap_macro_set_buffer,
}
use rumcake.Via.Options.{get_layout_options, set_layout_options}
use rumcake.Via.Storage
use rumcake.Via.Storage.{Operation}
use rumcake.Via.Lights.{put, on_slice}
use rumcake.Via.Protocol.Commands
use rumcake.Via.Protocol.Commands.{
  ViaCommandId, command_from_u8, ViaKeyboardValueId, keyboard_value_from_u8,
}
use rumcake.Via.Protocol.Values.{
  via_protocol_version, get_protocol_version, get_uptime, get_switch_matrix_state,
  get_firmware_version, dynamic_keymap_get_layer_count, dynamic_keymap_get_encoder,
  dynamic_keymap_set_encoder,
}
use rumcake.Via.Protocol.State.{Host, reply, send_operation, with_lights}
use rumcake.Via.Protocol.Channels.{custom_command, device_indication}

-- What the commands of a keyboard depend on: its layout and constants, what it overrides of the
-- trait `ViaKeyboard`, the conversions, and the clock in milliseconds.
pub record Firmware (L A : Type 0) : Type 0 where
  pub layout_ops : LayoutOps L A
  pub constants : ViaKeyboard
  pub original_layout : List (List (List A))
  pub handle_via_command : List ℕ → List ℕ × Bool
  pub handle_custom_value_command : List ℕ → List ℕ
  pub convert_action_to_keycode : A → Run ℕ
  pub convert_keycode_to_action : ℕ → Option A
  pub now : ℕ

-- The operation that a handler may have sent.
abbrev pub send_some : {L : Type 0} → Host L → Option Operation → Host L
send_some h none = h
send_some h (some operation) = send_operation h operation

module _ {L A : Type 0} (f : Firmware L A) where
  -- The arms for the values of the keyboard.
  unfoldable pub get_value : Option ViaKeyboardValueId → Host L → Run (Host L)
  get_value (some Commands.uptime) h = reply h (on_slice h.packet 2 6 (get_uptime f.now))
  get_value (some Commands.layout_options) h = reply h (
      on_slice h.packet 2 6
        (get_layout_options f.constants.layout_options_size h.via_state.layout_options))
  get_value (some Commands.switch_matrix_state) h =
      reply h
        (on_slice h.packet 2 (length h.packet) (get_switch_matrix_state h.via_state.layout_state))
  get_value (some Commands.firmware_version) h =
      reply h (on_slice h.packet 2 6 (get_firmware_version f.constants))
  get_value (some Commands.device_indication) h = reply h (put h.packet 0 0xff)
  get_value none h = reply h (put h.packet 0 0xff)

  unfoldable pub set_keyboard_layout_options : Host L → Run (Host L)
  set_keyboard_layout_options h = do
    bytes ← slice h.packet 2 6
    (options, operation) ← set_layout_options f.constants.layout_options_size bytes
    ok (record (send_operation h operation) {
      via_state = record h.via_state { layout_options = options };
      layout_options_set = h.layout_options_set ++ (options ∷ []);
    })

  unfoldable pub set_value : Option ViaKeyboardValueId → Host L → Run (Host L)
  set_value (some Commands.layout_options) h = set_keyboard_layout_options h
  set_value (some Commands.device_indication) h = ok (with_lights h (device_indication h.lights))
  set_value (some Commands.uptime) h = reply h (put h.packet 0 0xff)
  set_value (some Commands.switch_matrix_state) h = reply h (put h.packet 0 0xff)
  set_value (some Commands.firmware_version) h = reply h (put h.packet 0 0xff)
  set_value none h = reply h (put h.packet 0 0xff)

  -- The arms of `match command`.
  unfoldable pub process_command : ViaCommandId → Host L → Run (Host L)
  process_command Commands.get_protocol_version h =
      reply h (on_slice h.packet 1 3 (get_protocol_version via_protocol_version))
  process_command Commands.get_keyboard_value h = do
    id ← index h.packet 1
    get_value (keyboard_value_from_u8 id) h
  process_command Commands.set_keyboard_value h = do
    id ← index h.packet 1
    set_value (keyboard_value_from_u8 id) h
  process_command Commands.eeprom_reset h = ok (send_operation h Storage.delete)
  process_command Commands.bootloader_jump h = ok (record h { bootloader_jump_signalled = true })
  process_command Commands.dynamic_keymap_macro_get_count h =
      reply h (on_slice h.packet 1 2 (dynamic_keymap_macro_get_count f.constants))
  process_command Commands.dynamic_keymap_macro_get_buffer_size h =
      reply h (on_slice h.packet 1 3 (dynamic_keymap_macro_get_buffer_size f.constants))
  process_command Commands.dynamic_keymap_macro_get_buffer h = do
    offset ← slice h.packet 1 3 >>= from_be_bytes
    size ← index h.packet 3
    reply h (
        on_slice h.packet 4 (length h.packet)
          (dynamic_keymap_macro_get_buffer f.constants h.macros offset size))
  process_command Commands.dynamic_keymap_macro_set_buffer h = do
    offset ← slice h.packet 1 3 >>= from_be_bytes
    size ← index h.packet 3
    bytes ← slice h.packet 4 (length h.packet)
    (macros, operation) ← dynamic_keymap_macro_set_buffer f.constants h.macros offset size bytes
    ok (record (send_operation h operation) { macros = macros })
  process_command Commands.dynamic_keymap_macro_reset h =
      ok (record h { macros = dynamic_keymap_macro_reset f.constants h.macros })
  process_command Commands.dynamic_keymap_get_layer_count h =
      reply h (on_slice h.packet 1 2 (dynamic_keymap_get_layer_count f.constants))
  process_command Commands.dynamic_keymap_get_keycode h = do
    layer ← index h.packet 1
    row ← index h.packet 2
    col ← index h.packet 3
    reply h (
        on_slice h.packet 4 6 (
          dynamic_keymap_get_keycode f.layout_ops f.constants f.convert_action_to_keycode h.layout
            layer row col))
  process_command Commands.dynamic_keymap_set_keycode h = do
    layer ← index h.packet 1
    row ← index h.packet 2
    col ← index h.packet 3
    bytes ← slice h.packet 4 6
    (layout, operation) ←
        dynamic_keymap_set_keycode f.layout_ops f.constants f.convert_keycode_to_action h.layout
          layer row col bytes
    ok (record (send_some h operation) { layout = layout })
  process_command Commands.dynamic_keymap_get_encoder h = do
    layer ← index h.packet 1
    encoder_id ← index h.packet 2
    clockwise ← index h.packet 3
    reply h (
        on_slice h.packet 4 6
          (dynamic_keymap_get_encoder f.constants layer encoder_id (not (clockwise == 0))))
  process_command Commands.dynamic_keymap_set_encoder h = do
    layer ← index h.packet 1
    encoder_id ← index h.packet 2
    clockwise ← index h.packet 3
    bytes ← slice h.packet 4 6
    operation ← dynamic_keymap_set_encoder f.constants layer encoder_id (not (clockwise == 0)) bytes
    ok (send_some h operation)
  process_command Commands.dynamic_keymap_get_buffer h = do
    offset ← slice h.packet 1 3 >>= from_be_bytes
    size ← index h.packet 3
    reply h (
        on_slice h.packet 4 (length h.packet) (
          dynamic_keymap_get_buffer f.layout_ops f.constants f.convert_action_to_keycode h.layout
            offset size))
  process_command Commands.dynamic_keymap_set_buffer h = do
    offset ← slice h.packet 1 3 >>= from_be_bytes
    size ← index h.packet 3
    bytes ← slice h.packet 4 (length h.packet)
    (layout, operation) ←
        dynamic_keymap_set_buffer f.layout_ops f.constants f.convert_keycode_to_action h.layout
          offset size bytes
    ok (record (send_operation h operation) { layout = layout })
  process_command Commands.dynamic_keymap_reset h = do
    layout ← dynamic_keymap_reset f.layout_ops f.constants f.original_layout h.layout
    ok (record h { layout = layout })
  process_command Commands.custom_get_value h =
      custom_command f.handle_custom_value_command Commands.custom_get_value h
  process_command Commands.custom_set_value h =
      custom_command f.handle_custom_value_command Commands.custom_set_value h
  process_command Commands.custom_save h =
      custom_command f.handle_custom_value_command Commands.custom_save h
  process_command Commands.unhandled h = reply h (put h.packet 0 0xff)

  -- A number that is no command is only logged.
  unfoldable pub process_known : Option ViaCommandId → Host L → Run (Host L)
  process_known none h = ok h
  process_known (some command) h = process_command command h

  -- What follows the override of the keyboard.
  unfoldable pub process_packet : Host L → Run (Host L)
  process_packet h = do id ← index h.packet 0; process_known (command_from_u8 id) h

  unfoldable pub process_via_command : Host L → Run (Host L)
  process_via_command h =
      let (packet, handled) = f.handle_via_command h.packet in
      let h' : Host L = record h { packet = packet } in if handled then ok h' else process_packet h'

  -- One round of the loop over reports: the new state and the report that is sent back, if any.
  unfoldable pub process_report : Bool → Host L → List ℕ → Run (Host L × Option (List ℕ))
  process_report via_enabled h report =
      let answered : Run (Host L × Option (List ℕ)) = do
        h' ← process_via_command (record h { packet = report })
        ok (h', some h'.packet)
      in if via_enabled then answered else ok (h, none)
