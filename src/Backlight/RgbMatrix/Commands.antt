-- ===== src/Backlight/RgbMatrix/Commands.antt =====
-- What the commands do to the animator: rumcake/src/backlight/rgb_backlight_matrix/animations.rs,
-- `process_command`.
use rumcake.Prelude.{
  ℕ, ◌≡◌, refl, Bool, true, not, Option, none, some, arith, IsFirst, do_while-IsFirst,
}
use mathlib.Core.Option
use rumcake.Lighting.{increment, decrement}
use rumcake.Lighting.Select.{increment_loop_ends, decrement_loop_ends}
use rumcake.Backlight.RgbMatrix.Effect.{
  BacklightEffect, effects, effects-IsEnum, EnabledEffects, is_enabled,
}
use rumcake.Backlight.RgbMatrix.{
  BacklightCommand, BacklightAnimator, with_effect, next_enabled, prev_enabled, process_command,
  next_effect, prev_effect,
}

module _ (d : EnabledEffects) (t : BacklightEffect) (on : is_enabled d t ≡ true) where
  next_enabled_ends : (e : BacklightEffect) → (e' : BacklightEffect) × (next_enabled d e ≡ some e')
  unfolding next_enabled effects
  next_enabled_ends e =
      increment_loop_ends effects effects-IsEnum (λ x. not (is_enabled d x)) t (rw on) e

  prev_enabled_ends : (e : BacklightEffect) → (e' : BacklightEffect) × (prev_enabled d e ≡ some e')
  unfolding prev_enabled effects
  prev_enabled_ends e =
      decrement_loop_ends effects effects-IsEnum (λ x. not (is_enabled d x)) t (rw on) e

  -- If some effect is enabled, every command is processed: the loops end.
  rgb_matrix_commands_end :
      (c : BacklightCommand) (a : BacklightAnimator)
      → (a' : BacklightAnimator) × (process_command d c a ≡ some a')
  unfolding process_command
  rgb_matrix_commands_end next_effect a =
      let (e', h) = next_enabled_ends a.config.effect in (with_effect a e', rw h)
  rgb_matrix_commands_end prev_effect a =
      let (e', h) = prev_enabled_ends a.config.effect in (with_effect a e', rw h)
  rgb_matrix_commands_end _ a = (_, refl)

-- The test that keeps the loops of `next_effect` and `prev_effect` going.
abbrev pub is_skipped : EnabledEffects → BacklightEffect → Bool
is_skipped d e = not (is_enabled d e)

module _ (d : EnabledEffects) (a a' : BacklightAnimator) where
  map-with_effect :
      (o : Option BacklightEffect)
      → Option.map (with_effect a) o ≡ some a'
      → (o ≡ some a'.config.effect) × (a' ≡ with_effect a a'.config.effect)
  map-with_effect none h = cc
  map-with_effect (some e) h = ground arith

  -- `next_effect` leaves the first enabled effect behind the current one in the order of the
  -- enum, which starts again from the top; it changes nothing else.
  rgb_matrix_next_effect-IsFirst :
      process_command d next_effect a ≡ some a'
      → ((n : ℕ) × IsFirst (increment effects) (is_skipped d) a.config.effect a'.config.effect n)
        × (a' ≡ with_effect a a'.config.effect)
  unfolding process_command next_enabled
  rgb_matrix_next_effect-IsFirst h =
      let (found, rest) = map-with_effect _ h in
      (do_while-IsFirst (increment effects) (is_skipped d) _ _ _ found, rest)

  -- `prev_effect` leaves the first enabled effect before the current one, in the same way.
  rgb_matrix_prev_effect-IsFirst :
      process_command d prev_effect a ≡ some a'
      → ((n : ℕ) × IsFirst (decrement effects) (is_skipped d) a.config.effect a'.config.effect n)
        × (a' ≡ with_effect a a'.config.effect)
  unfolding process_command prev_enabled
  rgb_matrix_prev_effect-IsFirst h =
      let (found, rest) = map-with_effect _ h in
      (do_while-IsFirst (decrement effects) (is_skipped d) _ _ _ found, rest)
