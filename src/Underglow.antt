-- ===== src/Underglow.antt =====
-- rumcake/src/underglow/animations.rs: the configuration, the commands and the animator's state.
pub mod Effect
pub mod Commands
pub mod Task
pub mod Sync
pub mod Events
use rumcake.Prelude.{
  Run, ok, panic, ◌>>=◌, ℕ, ◌≡◌, Bool, true, false, not, Option, none, some, do_while, length,
}
use mathlib.Core.Option
use rumcake.Keyberon.{Event, press, release}
use rumcake.Lighting.{animation_time, increment, decrement, saturating_add, saturating_sub}
use rumcake.Underglow.Effect.{UnderglowEffect, variants, effects, EnabledEffects, is_enabled, solid}

pub record UnderglowConfig : Type 0 where
  pub enabled : Bool
  pub effect : UnderglowEffect
  pub hue : ℕ
  pub sat : ℕ
  pub val : ℕ
  pub speed : ℕ

unfoldable pub default : UnderglowConfig
default = record { enabled = true; effect = solid; hue = 0; sat = 255; val = 255; speed = 86 }

pub data UnderglowCommand : Type 0 where
  toggle turn_on turn_off next_effect prev_effect : UnderglowCommand
  set_effect : UnderglowEffect → UnderglowCommand
  set_hue increase_hue decrease_hue : ℕ → UnderglowCommand
  set_saturation increase_saturation decrease_saturation : ℕ → UnderglowCommand
  set_value increase_value decrease_value : ℕ → UnderglowCommand
  set_speed increase_speed decrease_speed : ℕ → UnderglowCommand
  save_config : UnderglowCommand
  reset_time : UnderglowCommand

-- The fields that commands and key events change. The frame buffer, the driver and the random
-- numbers are only read and written when a frame is rendered. `save_signalled` is the signal
-- that `SaveConfig` raises for the storage task.
pub record UnderglowAnimator : Type 0 where
  pub config : UnderglowConfig
  pub tick : ℕ
  pub time_of_last_press : ℕ
  pub save_signalled : Bool

abbrev pub with_config : UnderglowAnimator → UnderglowConfig → UnderglowAnimator
with_config a c = record a { config = c }

-- The loops of `NextEffect` and `PrevEffect`; one round for each variant is enough if they end.
unfoldable pub next_enabled : EnabledEffects → UnderglowEffect → Option UnderglowEffect
next_enabled d = do_while (length variants) (increment effects) (λ e. not (is_enabled d e))

unfoldable pub prev_enabled : EnabledEffects → UnderglowEffect → Option UnderglowEffect
prev_enabled d = do_while (length variants) (decrement effects) (λ e. not (is_enabled d e))

abbrev pub with_effect : UnderglowAnimator → UnderglowEffect → UnderglowAnimator
with_effect a e = with_config a (record a.config { effect = e })

-- `none`: the loop for an effect does not end.
unfoldable pub process_command :
    EnabledEffects → UnderglowCommand → UnderglowAnimator → Option UnderglowAnimator
process_command d toggle a =
    some (with_config a (record a.config { enabled = not a.config.enabled }))
process_command d turn_on a = some (with_config a (record a.config { enabled = true }))
process_command d turn_off a = some (with_config a (record a.config { enabled = false }))
process_command d next_effect a = Option.map (with_effect a) (next_enabled d a.config.effect)
process_command d prev_effect a = Option.map (with_effect a) (prev_enabled d a.config.effect)
process_command d (set_effect effect) a = some (with_config a (record a.config { effect = effect }))
process_command d (set_hue hue) a = some (with_config a (record a.config { hue = hue }))
process_command d (increase_hue amount) a =
    some (with_config a (record a.config { hue = saturating_add a.config.hue amount }))
process_command d (decrease_hue amount) a =
    some (with_config a (record a.config { hue = saturating_sub a.config.hue amount }))
process_command d (set_saturation sat) a = some (with_config a (record a.config { sat = sat }))
process_command d (increase_saturation amount) a =
    some (with_config a (record a.config { sat = saturating_add a.config.sat amount }))
process_command d (decrease_saturation amount) a =
    some (with_config a (record a.config { sat = saturating_sub a.config.sat amount }))
process_command d (set_value val) a = some (with_config a (record a.config { val = val }))
process_command d (increase_value amount) a =
    some (with_config a (record a.config { val = saturating_add a.config.val amount }))
process_command d (decrease_value amount) a =
    some (with_config a (record a.config { val = saturating_sub a.config.val amount }))
process_command d (set_speed speed) a = some (with_config a (record a.config { speed = speed }))
process_command d (increase_speed amount) a =
    some (with_config a (record a.config { speed = saturating_add a.config.speed amount }))
process_command d (decrease_speed amount) a =
    some (with_config a (record a.config { speed = saturating_sub a.config.speed amount }))
process_command d save_config a = some (record a { save_signalled = true })
process_command d reset_time a = some (record a { tick = 0 })

-- `fps` is the constant `FPS` of the device.
unfoldable pub register_event : ℕ → Event → UnderglowAnimator → Run UnderglowAnimator
unfolding animation_time
register_event fps (press _ _) a = do
  time ← animation_time a.tick fps a.config.speed
  ok (record a { time_of_last_press = time })
register_event fps (release _ _) a = ok a
