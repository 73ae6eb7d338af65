-- ===== src/Via/Protocol/Channels.antt =====
-- rumcake/src/via/protocol_12/mod.rs: the commands of the custom channels, one function for each
-- kind of lights, and `device_indication` of rumcake/src/via/handlers.rs.
use rumcake.Prelude.{ℕ, Option, none, some, List, [], ◌∷◌, ◌++◌, Run, ok, panic, ◌>>=◌, index}
use rumcake.State
use rumcake.Backlight.Simple
use rumcake.Backlight.SimpleMatrix
use rumcake.Backlight.RgbMatrix
use rumcake.Underglow
use rumcake.Via.Lights.Simple.{
  get_value as get_simple_value, set_value as set_simple_value, save as save_simple,
}
use rumcake.Via.Lights.SimpleMatrix.{
  get_value as get_simple_matrix_value, set_value as set_simple_matrix_value,
  save as save_simple_matrix,
}
use rumcake.Via.Lights.RgbMatrix.{
  get_value as get_rgb_matrix_value, set_value as set_rgb_matrix_value, save as save_rgb_matrix,
}
use rumcake.Via.Lights.Underglow.{
  get_value as get_underglow_value, set_value as set_underglow_value, save as save_underglow,
}
use rumcake.Via.Protocol.Commands.{
  ViaCommandId, custom_get_value, custom_set_value, custom_save, ViaChannelId, custom, backlight,
  led_matrix, rgb_matrix, rgb_light, channel_from_u8,
}
use rumcake.Via.Protocol.State.{Host, Lights, reply, with_lights}

-- Commands for one of the tasks, behind those that are in its channel.
abbrev pub send_simple : List Simple.BacklightCommand → Lights → Lights
send_simple cs l = record l { simple_commands = l.simple_commands ++ cs }

abbrev pub send_simple_matrix : List SimpleMatrix.BacklightCommand → Lights → Lights
send_simple_matrix cs l = record l { simple_matrix_commands = l.simple_matrix_commands ++ cs }

abbrev pub send_rgb_matrix : List RgbMatrix.BacklightCommand → Lights → Lights
send_rgb_matrix cs l = record l { rgb_matrix_commands = l.rgb_matrix_commands ++ cs }

abbrev pub send_underglow : List Underglow.UnderglowCommand → Lights → Lights
send_underglow cs l = record l { underglow_commands = l.underglow_commands ++ cs }

unfoldable pub device_indication : Lights → Lights
device_indication l = send_underglow (Underglow.toggle ∷ []) (
    send_rgb_matrix (RgbMatrix.toggle ∷ [])
      (send_simple_matrix (SimpleMatrix.toggle ∷ []) (send_simple (Simple.toggle ∷ []) l)))

module _ {L : Type 0} where
  -- `_ => unreachable!()`
  unfoldable pub simple_channel : ViaCommandId → Host L → Run (Host L)
  simple_channel custom_get_value h =
      reply h (get_simple_value (State.get h.lights.simple_config) h.packet)
  simple_channel custom_set_value h = do
    cs ← set_simple_value h.packet
    ok (with_lights h (send_simple cs h.lights))
  simple_channel custom_save h = ok (with_lights h (send_simple save_simple h.lights))
  simple_channel _ h = panic

  unfoldable pub simple_matrix_channel : ViaCommandId → Host L → Run (Host L)
  simple_matrix_channel custom_get_value h =
      reply h (get_simple_matrix_value (State.get h.lights.simple_matrix_config) h.packet)
  simple_matrix_channel custom_set_value h = do
    cs ← set_simple_matrix_value h.packet
    ok (with_lights h (send_simple_matrix cs h.lights))
  simple_matrix_channel custom_save h =
      ok (with_lights h (send_simple_matrix save_simple_matrix h.lights))
  simple_matrix_channel _ h = panic

  unfoldable pub rgb_matrix_channel : ViaCommandId → Host L → Run (Host L)
  rgb_matrix_channel custom_get_value h =
      reply h (get_rgb_matrix_value (State.get h.lights.rgb_matrix_config) h.packet)
  rgb_matrix_channel custom_set_value h = do
    cs ← set_rgb_matrix_value h.packet
    ok (with_lights h (send_rgb_matrix cs h.lights))
  rgb_matrix_channel custom_save h = ok (with_lights h (send_rgb_matrix save_rgb_matrix h.lights))
  rgb_matrix_channel _ h = panic

  unfoldable pub underglow_channel : ViaCommandId → Host L → Run (Host L)
  underglow_channel custom_get_value h =
      reply h (get_underglow_value (State.get h.lights.underglow_config) h.packet)
  underglow_channel custom_set_value h = do
    cs ← set_underglow_value h.packet
    ok (with_lights h (send_underglow cs h.lights))
  underglow_channel custom_save h = ok (with_lights h (send_underglow save_underglow h.lights))
  underglow_channel _ h = panic

  -- Any other channel is for the keyboard itself.
  unfoldable pub for_channel :
      (List ℕ → List ℕ) → ViaCommandId → Option ViaChannelId → Host L → Run (Host L)
  for_channel handle_custom_value_command command (some backlight) h = simple_channel command h
  for_channel handle_custom_value_command command (some led_matrix) h =
      simple_matrix_channel command h
  for_channel handle_custom_value_command command (some rgb_matrix) h = rgb_matrix_channel command h
  for_channel handle_custom_value_command command (some rgb_light) h = underglow_channel command h
  for_channel handle_custom_value_command command (some custom) h =
      ok (record h { packet = handle_custom_value_command h.packet })
  for_channel handle_custom_value_command command none h =
      ok (record h { packet = handle_custom_value_command h.packet })

  -- The arm of the three custom commands.
  unfoldable pub custom_command : (List ℕ → List ℕ) → ViaCommandId → Host L → Run (Host L)
  custom_command handle_custom_value_command command h = do
    id ← index h.packet 1
    for_channel handle_custom_value_command command (channel_from_u8 id) h
