-- ===== src/Via/Protocol/Commands.antt =====
-- rumcake/src/via/protocol_12/mod.rs: the identifiers of the protocol.
use rumcake.Prelude.{ℕ, ◌==◌, Option, some, List, [], ◌∷◌, if◌then◌else◌}
use rumcake.Via.Lights.{from_primitive}

pub data ViaCommandId : Type 0 where
  get_protocol_version get_keyboard_value set_keyboard_value dynamic_keymap_get_keycode
        dynamic_keymap_set_keycode dynamic_keymap_reset custom_set_value custom_get_value
        custom_save eeprom_reset bootloader_jump dynamic_keymap_macro_get_count
        dynamic_keymap_macro_get_buffer_size dynamic_keymap_macro_get_buffer
        dynamic_keymap_macro_set_buffer dynamic_keymap_macro_reset dynamic_keymap_get_layer_count
        dynamic_keymap_get_buffer dynamic_keymap_set_buffer dynamic_keymap_get_encoder
        dynamic_keymap_set_encoder unhandled :
      ViaCommandId

-- The commands from 0x01 to 0x15, in their order.
abbrev pub commands : List ViaCommandId
commands =
    get_protocol_version ∷ get_keyboard_value ∷ set_keyboard_value ∷ dynamic_keymap_get_keycode
    ∷ dynamic_keymap_set_keycode ∷ dynamic_keymap_reset ∷ custom_set_value ∷ custom_get_value
    ∷ custom_save ∷ eeprom_reset ∷ bootloader_jump ∷ dynamic_keymap_macro_get_count
    ∷ dynamic_keymap_macro_get_buffer_size ∷ dynamic_keymap_macro_get_buffer
    ∷ dynamic_keymap_macro_set_buffer ∷ dynamic_keymap_macro_reset ∷ dynamic_keymap_get_layer_count
    ∷ dynamic_keymap_get_buffer ∷ dynamic_keymap_set_buffer ∷ dynamic_keymap_get_encoder
    ∷ dynamic_keymap_set_encoder ∷ []

unfoldable pub command_from_u8 : ℕ → Option ViaCommandId
unfolding from_primitive
command_from_u8 n = if n == 0xff then some unhandled else from_primitive 1 commands n

pub data ViaKeyboardValueId : Type 0 where
  uptime layout_options switch_matrix_state firmware_version device_indication : ViaKeyboardValueId

abbrev pub keyboard_values : List ViaKeyboardValueId
keyboard_values =
    uptime ∷ layout_options ∷ switch_matrix_state ∷ firmware_version ∷ device_indication ∷ []

unfoldable pub keyboard_value_from_u8 : ℕ → Option ViaKeyboardValueId
unfolding from_primitive
keyboard_value_from_u8 = from_primitive 1 keyboard_values

pub data ViaChannelId : Type 0 where
  custom backlight rgb_light rgb_matrix led_matrix : ViaChannelId

unfoldable pub channel_from_u8 : ℕ → Option ViaChannelId
unfolding from_primitive
channel_from_u8 n =
    if n == 5
    then some led_matrix
    else from_primitive 0 (custom ∷ backlight ∷ rgb_light ∷ rgb_matrix ∷ []) n
