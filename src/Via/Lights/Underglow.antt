-- ===== src/Via/Lights/Underglow.antt =====
-- rumcake/src/via/handlers.rs, the handlers `underglow_…`, and rumcake/src/via/protocol_12/mod.rs,
-- the channel `RGBLight`: the underglow.
pub mod SetGet
use rumcake.Prelude.{
  ℕ, ◌==◌, Option, none, some, List, [], ◌∷◌, ◌++◌, Run, ok, panic, ◌>>=◌, index, slice,
  if◌then◌else◌, get_elem?,
}
use mathlib.Core.Option
use rumcake.Lighting.{from_u8}
use rumcake.Underglow.{UnderglowConfig, UnderglowCommand}
use rumcake.Underglow.Effect.{UnderglowEffect, effects}
use rumcake.Via.Lights.{from_primitive, bool_byte, put, on_slice}

pub data ViaRgbLightValue : Type 0 where
  brightness effect effect_speed color enabled : ViaRgbLightValue

unfoldable pub value_from_u8 : ℕ → Option ViaRgbLightValue
unfolding from_primitive
value_from_u8 = from_primitive 1 (brightness ∷ effect ∷ effect_speed ∷ color ∷ enabled ∷ [])

unfoldable pub get_enabled : UnderglowConfig → List ℕ → Run (List ℕ)
unfolding put
get_enabled config bytes = put bytes 0 (bool_byte config.enabled)

unfoldable pub set_enabled : List ℕ → Run (List UnderglowCommand)
unfolding index
set_enabled bytes = do
  byte ← index bytes 0
  ok ((if byte == 1 then UnderglowCommand.turn_on else UnderglowCommand.turn_off) ∷ [])

unfoldable pub get_brightness : UnderglowConfig → List ℕ → Run (List ℕ)
unfolding put
get_brightness config bytes = put bytes 0 config.val

unfoldable pub set_brightness : List ℕ → Run (List UnderglowCommand)
unfolding index
set_brightness bytes = do byte ← index bytes 0; ok (UnderglowCommand.set_value byte ∷ [])

unfoldable pub get_speed : UnderglowConfig → List ℕ → Run (List ℕ)
unfolding put
get_speed config bytes = put bytes 0 config.speed

unfoldable pub set_speed : List ℕ → Run (List UnderglowCommand)
unfolding index
set_speed bytes = do byte ← index bytes 0; ok (UnderglowCommand.set_speed byte ∷ [])

-- The conversion is given the whole configuration.
unfoldable pub get_effect : (UnderglowConfig → ℕ) → UnderglowConfig → List ℕ → Run (List ℕ)
unfolding put
get_effect convert_effect_to_qmk_id config bytes = put bytes 0 (convert_effect_to_qmk_id config)

-- The commands for an effect and, if the conversion gives one, for a speed.
unfoldable pub effect_commands : Option (UnderglowEffect × Option ℕ) → List UnderglowCommand
effect_commands none = []
effect_commands (some (e, none)) = UnderglowCommand.set_effect e ∷ []
effect_commands (some (e, some speed)) =
    UnderglowCommand.set_effect e ∷ UnderglowCommand.set_speed speed ∷ []

unfoldable pub set_effect :
    (ℕ → Option (UnderglowEffect × Option ℕ)) → List ℕ → Run (List UnderglowCommand)
unfolding index effect_commands
set_effect convert_qmk_id_to_effect bytes = do
  byte ← index bytes 0
  ok (effect_commands (convert_qmk_id_to_effect byte))

unfoldable pub get_color : UnderglowConfig → List ℕ → Run (List ℕ)
unfolding put
get_color config bytes = do bytes' ← put bytes 0 config.hue; put bytes' 1 config.sat

unfoldable pub set_color : List ℕ → Run (List UnderglowCommand)
unfolding index
set_color bytes = do
  hue ← index bytes 0
  sat ← index bytes 1
  ok (UnderglowCommand.set_hue hue ∷ UnderglowCommand.set_saturation sat ∷ [])

unfoldable pub save : List UnderglowCommand
save = UnderglowCommand.save_config ∷ []

-- The arms of `CustomGetValue`, on the whole packet.
unfoldable pub value_reply : UnderglowConfig → List ℕ → Option ViaRgbLightValue → Run (List ℕ)
unfolding on_slice get_brightness get_effect get_speed get_color get_enabled effects
value_reply config bytes none = ok bytes
value_reply config bytes (some brightness) = on_slice bytes 3 4 (get_brightness config)
value_reply config bytes (some effect) =
    on_slice bytes 3 4 (get_effect (λ c. effects.discriminant c.effect) config)
value_reply config bytes (some effect_speed) = on_slice bytes 3 4 (get_speed config)
value_reply config bytes (some color) = on_slice bytes 3 5 (get_color config)
value_reply config bytes (some enabled) = on_slice bytes 3 4 (get_enabled config)

unfoldable pub get_value : UnderglowConfig → List ℕ → Run (List ℕ)
unfolding index value_from_u8 value_reply
get_value config bytes = do id ← index bytes 2; value_reply config bytes (value_from_u8 id)

-- The arms of `CustomSetValue`.
unfoldable pub value_commands : List ℕ → Option ViaRgbLightValue → Run (List UnderglowCommand)
unfolding slice set_brightness set_effect set_speed set_color set_enabled from_u8 effects
value_commands bytes none = ok []
value_commands bytes (some brightness) = slice bytes 3 4 >>= set_brightness
value_commands bytes (some effect) =
    slice bytes 3 4 >>= set_effect (λ id. Option.map (λ e. (e, none)) (from_u8 effects id))
value_commands bytes (some effect_speed) = slice bytes 3 4 >>= set_speed
value_commands bytes (some color) = slice bytes 3 5 >>= set_color
value_commands bytes (some enabled) = slice bytes 3 4 >>= set_enabled

unfoldable pub set_value : List ℕ → Run (List UnderglowCommand)
unfolding index value_from_u8 value_commands
set_value bytes = do id ← index bytes 2; value_commands bytes (value_from_u8 id)
