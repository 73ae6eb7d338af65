-- ===== src/Via/Lights/RgbMatrix.antt =====
-- rumcake/src/via/handlers.rs, the handlers `rgb_backlight_matrix_…`, and rumcake/src/via/protocol_12/mod.rs,
-- the channel `RGBMatrix`: the matrix of colours.
use rumcake.Prelude.{
  ℕ, ◌==◌, Option, none, some, List, [], ◌∷◌, Run, ok, ◌>>=◌, index, slice, if◌then◌else◌,
}
use rumcake.Lighting.{from_u8}
use rumcake.Backlight.RgbMatrix.{BacklightConfig, BacklightCommand}
use rumcake.Backlight.RgbMatrix.Effect.{BacklightEffect, effects}
use rumcake.Via.Lights.{from_primitive, bool_byte, put, on_slice}

pub data ViaRgbMatrixValue : Type 0 where
  brightness effect effect_speed color enabled : ViaRgbMatrixValue

unfoldable pub value_from_u8 : ℕ → Option ViaRgbMatrixValue
unfolding from_primitive
value_from_u8 = from_primitive 1 (brightness ∷ effect ∷ effect_speed ∷ color ∷ enabled ∷ [])

unfoldable pub get_enabled : BacklightConfig → List ℕ → Run (List ℕ)
unfolding put
get_enabled config bytes = put bytes 0 (bool_byte config.enabled)

unfoldable pub set_enabled : List ℕ → Run (List BacklightCommand)
unfolding index
set_enabled bytes = do
  byte ← index bytes 0
  ok ((if byte == 1 then BacklightCommand.turn_on else BacklightCommand.turn_off) ∷ [])

unfoldable pub get_brightness : BacklightConfig → List ℕ → Run (List ℕ)
unfolding put
get_brightness config bytes = put bytes 0 config.val

unfoldable pub set_brightness : List ℕ → Run (List BacklightCommand)
unfolding index
set_brightness bytes = do byte ← index bytes 0; ok (BacklightCommand.set_value byte ∷ [])

unfoldable pub get_speed : BacklightConfig → List ℕ → Run (List ℕ)
unfolding put
get_speed config bytes = put bytes 0 config.speed

unfoldable pub set_speed : List ℕ → Run (List BacklightCommand)
unfolding index
set_speed bytes = do byte ← index bytes 0; ok (BacklightCommand.set_speed byte ∷ [])

unfoldable pub get_effect : (BacklightEffect → ℕ) → BacklightConfig → List ℕ → Run (List ℕ)
unfolding put
get_effect convert_effect_to_qmk_id config bytes =
    put bytes 0 (convert_effect_to_qmk_id config.effect)

unfoldable pub effect_commands : Option BacklightEffect → List BacklightCommand
effect_commands none = []
effect_commands (some e) = BacklightCommand.set_effect e ∷ []

unfoldable pub set_effect : (ℕ → Option BacklightEffect) → List ℕ → Run (List BacklightCommand)
unfolding index effect_commands
set_effect convert_qmk_id_to_effect bytes = do
  byte ← index bytes 0
  ok (effect_commands (convert_qmk_id_to_effect byte))

unfoldable pub get_color : BacklightConfig → List ℕ → Run (List ℕ)
unfolding put
get_color config bytes = do bytes' ← put bytes 0 config.hue; put bytes' 1 config.sat

unfoldable pub set_color : List ℕ → Run (List BacklightCommand)
unfolding index
set_color bytes = do
  hue ← index bytes 0
  sat ← index bytes 1
  ok (BacklightCommand.set_hue hue ∷ BacklightCommand.set_saturation sat ∷ [])

unfoldable pub save : List BacklightCommand
save = BacklightCommand.save_config ∷ []

-- The arms of `CustomGetValue`, on the whole packet.
unfoldable pub value_reply : BacklightConfig → List ℕ → Option ViaRgbMatrixValue → Run (List ℕ)
unfolding on_slice get_brightness get_effect get_speed get_color get_enabled effects
value_reply config bytes none = ok bytes
value_reply config bytes (some brightness) = on_slice bytes 3 4 (get_brightness config)
value_reply config bytes (some effect) = on_slice bytes 3 4 (get_effect effects.discriminant config)
value_reply config bytes (some effect_speed) = on_slice bytes 3 4 (get_speed config)
value_reply config bytes (some color) = on_slice bytes 3 5 (get_color config)
value_reply config bytes (some enabled) = on_slice bytes 3 4 (get_enabled config)

unfoldable pub get_value : BacklightConfig → List ℕ → Run (List ℕ)
unfolding index value_from_u8 value_reply
get_value config bytes = do id ← index bytes 2; value_reply config bytes (value_from_u8 id)

-- The arms of `CustomSetValue`.
unfoldable pub value_commands : List ℕ → Option ViaRgbMatrixValue → Run (List BacklightCommand)
unfolding slice set_brightness set_effect set_speed set_color set_enabled from_u8 effects
value_commands bytes none = ok []
value_commands bytes (some brightness) = slice bytes 3 4 >>= set_brightness
value_commands bytes (some effect) = slice bytes 3 4 >>= set_effect (from_u8 effects)
value_commands bytes (some effect_speed) = slice bytes 3 4 >>= set_speed
value_commands bytes (some color) = slice bytes 3 5 >>= set_color
value_commands bytes (some enabled) = slice bytes 3 4 >>= set_enabled

unfoldable pub set_value : List ℕ → Run (List BacklightCommand)
unfolding index value_from_u8 value_commands
set_value bytes = do id ← index bytes 2; value_commands bytes (value_from_u8 id)
