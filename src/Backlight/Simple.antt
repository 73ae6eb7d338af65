-- ===== src/Backlight/Simple.antt =====
-- rumcake/src/backlight/simple_backlight/animations.rs: one brightness for all LEDs.
pub mod Effect
pub mod Commands
use rumcake.Prelude.{ℕ, ◌≡◌, Bool, true, false, not, Option, none, some, do_while, length}
use mathlib.Core.Option
use rumcake.Lighting.{increment, decrement, saturating_add, saturating_sub}
use rumcake.Backlight.Simple.Effect.{
  BacklightEffect, variants, effects, EnabledEffects, is_enabled, solid,
}

pub record BacklightConfig : Type 0 where
  pub enabled : Bool
  pub effect : BacklightEffect
  pub val : ℕ
  pub speed : ℕ

unfoldable pub default : BacklightConfig
default = record { enabled = true; effect = solid; val = 255; speed = 86 }

pub data BacklightCommand : Type 0 where
  toggle turn_on turn_off next_effect prev_effect : BacklightCommand
  set_effect : BacklightEffect → BacklightCommand
  set_value increase_value decrease_value : ℕ → BacklightCommand
  set_speed increase_speed decrease_speed : ℕ → BacklightCommand
  save_config : BacklightCommand
  reset_time : BacklightCommand

-- The fields that commands and key events change. The frame buffer, the driver and the random
-- numbers are only read and written when a frame is rendered. `save_signalled` is the signal
-- that `SaveConfig` raises for the storage task.
pub record BacklightAnimator : Type 0 where
  pub config : BacklightConfig
  pub tick : ℕ
  pub time_of_last_press : ℕ
  pub save_signalled : Bool

abbrev pub with_config : BacklightAnimator → BacklightConfig → BacklightAnimator
with_config a c = record a { config = c }

-- The loops of `NextEffect` and `PrevEffect`; one round for each variant is enough if they end.
unfoldable pub next_enabled : EnabledEffects → BacklightEffect → Option BacklightEffect
next_enabled d = do_while (length variants) (increment effects) (is_enabled d)

unfoldable pub prev_enabled : EnabledEffects → BacklightEffect → Option BacklightEffect
prev_enabled d = do_while (length variants) (decrement effects) (is_enabled d)

abbrev pub with_effect : BacklightAnimator → BacklightEffect → BacklightAnimator
with_effect a e = with_config a (record a.config { effect = e })

-- `none`: the loop for an effect does not end.
unfoldable pub process_command :
    EnabledEffects → BacklightCommand → BacklightAnimator → Option BacklightAnimator
process_command d toggle a =
    some (with_config a (record a.config { enabled = not a.config.enabled }))
process_command d turn_on a = some (with_config a (record a.config { enabled = true }))
process_command d turn_off a = some (with_config a (record a.config { enabled = false }))
process_command d next_effect a = Option.map (with_effect a) (next_enabled d a.config.effect)
process_command d prev_effect a = Option.map (with_effect a) (prev_enabled d a.config.effect)
process_command d (set_effect effect) a = some (with_config a (record a.config { effect = effect }))
process_command d (set_value val) a = some (with_config a (record a.config { val = val }))
process_command d (increase_value amount) a =
    some (with_config a (record a.config { val = saturating_add a.config.val amount }))
process_command d (decrease_value amount) a =
    some (with_config a (record a.config { val = saturating_sub a.config.val amount }))
process_command d (set_speed speed) a = some (with_config a (record a.config { speed = speed }))
process_command d (increase_speed amount) a =
    some (with_config a (record a.config { speed = saturating_add a.config.speed amount }))
process_command d (decrease_speed amount) a =
    some (with_config a (record a.config { speed = saturating_sub a.config.speed amount }))
process_command d save_config a = some (record a { save_signalled = true })
process_command d reset_time a = some (record a { tick = 0 })
