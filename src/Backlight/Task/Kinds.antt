-- ===== src/Backlight/Task/Kinds.antt =====
-- rumcake/src/backlight/mod.rs: the three kinds of backlight that the macros are applied to, with
-- what their `sync_to_peripherals` sends to the other half of a split keyboard.
use rumcake.Prelude.{ℕ, List, [], ◌∷◌, Run, ok, ◌>>=◌}
use rumcake.Keyberon.{Event, press, release}
use rumcake.Lighting.{animation_time}
use rumcake.Backlight.Simple
use rumcake.Backlight.Simple.Effect.{
  is_animated as simple_is_animated, is_reactive as simple_is_reactive,
  EnabledEffects as SimpleEffects,
}
use rumcake.Backlight.SimpleMatrix
use rumcake.Backlight.SimpleMatrix.Effect.{
  is_animated as matrix_is_animated, is_reactive as matrix_is_reactive,
  EnabledEffects as SimpleMatrixEffects,
}
use rumcake.Backlight.RgbMatrix
use rumcake.Backlight.RgbMatrix.Effect.{
  is_animated as rgb_is_animated, is_reactive as rgb_is_reactive,
  EnabledEffects as RgbMatrixEffects,
}
use rumcake.Backlight.Task.{BacklightKind}

-- `BacklightAnimator::register_event` of the simple backlight; `fps` is the constant `FPS`.
unfoldable pub register_event : ℕ → Event → Simple.BacklightAnimator → Run Simple.BacklightAnimator
unfolding animation_time
register_event fps (press _ _) a = do
  time ← animation_time a.tick fps a.config.speed
  ok (record a { time_of_last_press = time })
register_event fps (release _ _) a = ok a

unfoldable pub sync_simple_backlight : Simple.BacklightAnimator → List Simple.BacklightCommand
sync_simple_backlight a =
    Simple.reset_time
    ∷ Simple.set_effect a.config.effect
    ∷ Simple.set_value a.config.val
    ∷ Simple.set_speed a.config.speed
    ∷ []

unfoldable pub simple_backlight :
    SimpleEffects
    → ℕ
    → BacklightKind Simple.BacklightConfig Simple.BacklightCommand Simple.BacklightAnimator
unfolding sync_simple_backlight
simple_backlight d fps = record {
  config = λ a. a.config;
  enabled = λ c. c.enabled;
  is_animated = λ c. simple_is_animated c.effect;
  is_reactive = λ c. simple_is_reactive c.effect;
  process_command = Simple.process_command d;
  register_event = register_event fps;
  sync_to_peripherals = sync_simple_backlight;
}

unfoldable pub sync_simple_backlight_matrix :
    SimpleMatrix.BacklightAnimator → List SimpleMatrix.BacklightCommand
sync_simple_backlight_matrix a =
    SimpleMatrix.reset_time
    ∷ SimpleMatrix.set_effect a.config.effect
    ∷ SimpleMatrix.set_value a.config.val
    ∷ SimpleMatrix.set_speed a.config.speed
    ∷ []

-- The presses that the animators of the matrices keep are a parameter.
unfoldable pub simple_backlight_matrix :
    SimpleMatrixEffects
    → (Event → SimpleMatrix.BacklightAnimator → Run SimpleMatrix.BacklightAnimator)
    → BacklightKind SimpleMatrix.BacklightConfig SimpleMatrix.BacklightCommand
        SimpleMatrix.BacklightAnimator
unfolding sync_simple_backlight_matrix
simple_backlight_matrix d register = record {
  config = λ a. a.config;
  enabled = λ c. c.enabled;
  is_animated = λ c. matrix_is_animated c.effect;
  is_reactive = λ c. matrix_is_reactive c.effect;
  process_command = SimpleMatrix.process_command d;
  register_event = register;
  sync_to_peripherals = sync_simple_backlight_matrix;
}

unfoldable pub sync_rgb_backlight_matrix :
    RgbMatrix.BacklightAnimator → List RgbMatrix.BacklightCommand
sync_rgb_backlight_matrix a =
    RgbMatrix.reset_time
    ∷ RgbMatrix.set_effect a.config.effect
    ∷ RgbMatrix.set_value a.config.val
    ∷ RgbMatrix.set_speed a.config.speed
    ∷ RgbMatrix.set_hue a.config.hue
    ∷ RgbMatrix.set_saturation a.config.sat
    ∷ []

unfoldable pub rgb_backlight_matrix :
    RgbMatrixEffects
    → (Event → RgbMatrix.BacklightAnimator → Run RgbMatrix.BacklightAnimator)
    → BacklightKind RgbMatrix.BacklightConfig RgbMatrix.BacklightCommand RgbMatrix.BacklightAnimator
unfolding sync_rgb_backlight_matrix
rgb_backlight_matrix d register = record {
  config = λ a. a.config;
  enabled = λ c. c.enabled;
  is_animated = λ c. rgb_is_animated c.effect;
  is_reactive = λ c. rgb_is_reactive c.effect;
  process_command = RgbMatrix.process_command d;
  register_event = register;
  sync_to_peripherals = sync_rgb_backlight_matrix;
}
