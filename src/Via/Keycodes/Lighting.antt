-- ===== src/Via/Keycodes/Lighting.antt =====
-- rumcake/src/via/protocol_12/keycodes.rs: the lighting keycodes, in both directions.
use rumcake.Prelude.{ℕ, Option, none, some, List, [], ◌∷◌}
use rumcake.Keyboard.{Keycode}
use rumcake.Underglow.{UnderglowCommand}
use rumcake.Underglow.Effect.{UnderglowEffect}
use rumcake.Backlight.Simple
use rumcake.Backlight.SimpleMatrix
use rumcake.Backlight.RgbMatrix
use rumcake.Via.{BacklightType}
use rumcake.Via.Keycodes.Codes.{
  qk_backlight_on, qk_backlight_off, qk_backlight_toggle, qk_backlight_down, qk_backlight_up,
  qk_backlight_step, rgb_tog, rgb_mode_forward, rgb_mode_reverse, rgb_hui, rgb_hud, rgb_sai,
  rgb_sad, rgb_vai, rgb_vad, rgb_spi, rgb_spd, rgb_mode_plain, rgb_mode_breathe, rgb_mode_rainbow,
  rgb_mode_swirl, rgb_mode_snake, rgb_mode_knight, rgb_mode_xmas, rgb_mode_gradient,
  rgb_mode_rgbtest, rgb_mode_twinkle, unknown_keycode,
}

-- `Keycode::Underglow(command)` to a keycode.
unfoldable pub underglow_effect_to_keycode : UnderglowEffect → ℕ
underglow_effect_to_keycode UnderglowEffect.solid = rgb_mode_plain
underglow_effect_to_keycode UnderglowEffect.breathing = rgb_mode_breathe
underglow_effect_to_keycode UnderglowEffect.rainbow_mood = rgb_mode_rainbow
underglow_effect_to_keycode UnderglowEffect.rainbow_swirl = rgb_mode_swirl
underglow_effect_to_keycode UnderglowEffect.snake = rgb_mode_snake
underglow_effect_to_keycode UnderglowEffect.knight = rgb_mode_knight
underglow_effect_to_keycode UnderglowEffect.christmas = rgb_mode_xmas
underglow_effect_to_keycode UnderglowEffect.static_gradient = rgb_mode_gradient
underglow_effect_to_keycode UnderglowEffect.rgb_test = rgb_mode_rgbtest
underglow_effect_to_keycode UnderglowEffect.twinkle = rgb_mode_twinkle
underglow_effect_to_keycode _ = unknown_keycode

unfoldable pub underglow_to_keycode : UnderglowCommand → ℕ
unfolding underglow_effect_to_keycode
underglow_to_keycode UnderglowCommand.toggle = rgb_tog
underglow_to_keycode UnderglowCommand.next_effect = rgb_mode_forward
underglow_to_keycode UnderglowCommand.prev_effect = rgb_mode_reverse
underglow_to_keycode (UnderglowCommand.set_effect effect) = underglow_effect_to_keycode effect
underglow_to_keycode (UnderglowCommand.increase_hue _) = rgb_hui
underglow_to_keycode (UnderglowCommand.decrease_hue _) = rgb_hud
underglow_to_keycode (UnderglowCommand.increase_saturation _) = rgb_sai
underglow_to_keycode (UnderglowCommand.decrease_saturation _) = rgb_sad
underglow_to_keycode (UnderglowCommand.increase_value _) = rgb_vai
underglow_to_keycode (UnderglowCommand.decrease_value _) = rgb_vad
underglow_to_keycode (UnderglowCommand.increase_speed _) = rgb_spi
underglow_to_keycode (UnderglowCommand.decrease_speed _) = rgb_spd
underglow_to_keycode _ = unknown_keycode

-- The backlight keycodes are converted only for the kind of backlight that the keyboard names.
unfoldable pub simple_to_keycode : Simple.BacklightCommand → ℕ
simple_to_keycode Simple.BacklightCommand.turn_on = qk_backlight_on
simple_to_keycode Simple.BacklightCommand.turn_off = qk_backlight_off
simple_to_keycode Simple.BacklightCommand.toggle = qk_backlight_toggle
simple_to_keycode Simple.BacklightCommand.next_effect = qk_backlight_step
simple_to_keycode (Simple.BacklightCommand.increase_value _) = qk_backlight_up
simple_to_keycode (Simple.BacklightCommand.decrease_speed _) = qk_backlight_down
simple_to_keycode _ = unknown_keycode

unfoldable pub simple_matrix_to_keycode : SimpleMatrix.BacklightCommand → ℕ
simple_matrix_to_keycode SimpleMatrix.BacklightCommand.turn_on = qk_backlight_on
simple_matrix_to_keycode SimpleMatrix.BacklightCommand.turn_off = qk_backlight_off
simple_matrix_to_keycode SimpleMatrix.BacklightCommand.toggle = qk_backlight_toggle
simple_matrix_to_keycode SimpleMatrix.BacklightCommand.next_effect = qk_backlight_step
simple_matrix_to_keycode (SimpleMatrix.BacklightCommand.increase_value _) = qk_backlight_up
simple_matrix_to_keycode (SimpleMatrix.BacklightCommand.decrease_speed _) = qk_backlight_down
simple_matrix_to_keycode _ = unknown_keycode

unfoldable pub rgb_matrix_to_keycode : RgbMatrix.BacklightCommand → ℕ
rgb_matrix_to_keycode RgbMatrix.BacklightCommand.turn_on = qk_backlight_on
rgb_matrix_to_keycode RgbMatrix.BacklightCommand.turn_off = qk_backlight_off
rgb_matrix_to_keycode RgbMatrix.BacklightCommand.toggle = qk_backlight_toggle
rgb_matrix_to_keycode RgbMatrix.BacklightCommand.next_effect = qk_backlight_step
rgb_matrix_to_keycode (RgbMatrix.BacklightCommand.increase_value _) = qk_backlight_up
rgb_matrix_to_keycode (RgbMatrix.BacklightCommand.decrease_speed _) = qk_backlight_down
rgb_matrix_to_keycode _ = unknown_keycode

-- The commands that the backlight keycodes stand for, of any kind of backlight.
pub data BacklightRequest : Type 0 where
  turn_off turn_on toggle next_effect : BacklightRequest
  decrease_value increase_value : ℕ → BacklightRequest

abbrev pub backlight_table : List (ℕ × BacklightRequest)
backlight_table =
    (qk_backlight_on, turn_off)
    ∷ (qk_backlight_off, turn_on)
    ∷ (qk_backlight_toggle, toggle)
    ∷ (qk_backlight_down, decrease_value 17)
    ∷ (qk_backlight_up, increase_value 17)
    ∷ (qk_backlight_step, next_effect)
    ∷ []

unfoldable pub simple_request : BacklightRequest → Simple.BacklightCommand
simple_request turn_off = Simple.BacklightCommand.turn_off
simple_request turn_on = Simple.BacklightCommand.turn_on
simple_request toggle = Simple.BacklightCommand.toggle
simple_request next_effect = Simple.BacklightCommand.next_effect
simple_request (decrease_value n) = Simple.BacklightCommand.decrease_value n
simple_request (increase_value n) = Simple.BacklightCommand.increase_value n

unfoldable pub simple_matrix_request : BacklightRequest → SimpleMatrix.BacklightCommand
simple_matrix_request turn_off = SimpleMatrix.BacklightCommand.turn_off
simple_matrix_request turn_on = SimpleMatrix.BacklightCommand.turn_on
simple_matrix_request toggle = SimpleMatrix.BacklightCommand.toggle
simple_matrix_request next_effect = SimpleMatrix.BacklightCommand.next_effect
simple_matrix_request (decrease_value n) = SimpleMatrix.BacklightCommand.decrease_value n
simple_matrix_request (increase_value n) = SimpleMatrix.BacklightCommand.increase_value n

unfoldable pub rgb_matrix_request : BacklightRequest → RgbMatrix.BacklightCommand
rgb_matrix_request turn_off = RgbMatrix.BacklightCommand.turn_off
rgb_matrix_request turn_on = RgbMatrix.BacklightCommand.turn_on
rgb_matrix_request toggle = RgbMatrix.BacklightCommand.toggle
rgb_matrix_request next_effect = RgbMatrix.BacklightCommand.next_effect
rgb_matrix_request (decrease_value n) = RgbMatrix.BacklightCommand.decrease_value n
rgb_matrix_request (increase_value n) = RgbMatrix.BacklightCommand.increase_value n

-- `match K::BACKLIGHT_TYPE { .. }` in each of the conversions from a backlight keycode.
unfoldable pub for_backlight_type :
    {C : Type 0} → Option BacklightType → BacklightRequest → Option (Keycode C)
unfolding simple_request simple_matrix_request rgb_matrix_request
for_backlight_type (some BacklightType.simple_backlight) r =
    some (Keycode.simple_backlight (simple_request r))
for_backlight_type (some BacklightType.simple_backlight_matrix) r =
    some (Keycode.simple_backlight_matrix (simple_matrix_request r))
for_backlight_type (some BacklightType.rgb_backlight_matrix) r =
    some (Keycode.rgb_backlight_matrix (rgb_matrix_request r))
for_backlight_type none r = none

abbrev pub underglow_table : List (ℕ × UnderglowCommand)
underglow_table =
    (rgb_tog, UnderglowCommand.toggle)
    ∷ (rgb_mode_forward, UnderglowCommand.next_effect)
    ∷ (rgb_mode_reverse, UnderglowCommand.prev_effect)
    ∷ (rgb_hui, UnderglowCommand.increase_hue 17)
    ∷ (rgb_hud, UnderglowCommand.decrease_hue 17)
    ∷ (rgb_sai, UnderglowCommand.increase_hue 17)
    ∷ (rgb_sad, UnderglowCommand.decrease_saturation 17)
    ∷ (rgb_vai, UnderglowCommand.increase_value 17)
    ∷ (rgb_vad, UnderglowCommand.decrease_value 17)
    ∷ (rgb_spi, UnderglowCommand.increase_speed 17)
    ∷ (rgb_spd, UnderglowCommand.decrease_speed 17)
    ∷ (rgb_mode_plain, UnderglowCommand.set_effect UnderglowEffect.solid)
    ∷ (rgb_mode_breathe, UnderglowCommand.set_effect UnderglowEffect.breathing)
    ∷ (rgb_mode_rainbow, UnderglowCommand.set_effect UnderglowEffect.rainbow_mood)
    ∷ (rgb_mode_swirl, UnderglowCommand.set_effect UnderglowEffect.rainbow_swirl)
    ∷ (rgb_mode_snake, UnderglowCommand.set_effect UnderglowEffect.snake)
    ∷ (rgb_mode_knight, UnderglowCommand.set_effect UnderglowEffect.knight)
    ∷ (rgb_mode_xmas, UnderglowCommand.set_effect UnderglowEffect.christmas)
    ∷ (rgb_mode_gradient, UnderglowCommand.set_effect UnderglowEffect.static_gradient)
    ∷ (rgb_mode_rgbtest, UnderglowCommand.set_effect UnderglowEffect.rgb_test)
    ∷ (rgb_mode_twinkle, UnderglowCommand.set_effect UnderglowEffect.twinkle)
    ∷ []
