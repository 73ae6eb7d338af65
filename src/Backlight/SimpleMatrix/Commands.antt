-- ===== src/Backlight/SimpleMatrix/Commands.antt =====
-- What the effect commands of rumcake/src/backlight/simple_backlight_matrix/animations.rs do. Their
-- loops go on while `is_enabled` holds, where those of the other animators go on while it does not.
use rumcake.Prelude.{
  ℕ, ◌≡◌, refl, true, false, Option, none, some, do_while, do_while-IsFirst, do_while_diverges,
  IsFirst, arith,
}
use mathlib.Core.Option
use rumcake.Lighting.{increment, decrement}
use rumcake.Lighting.Select.{increment_loop_ends, decrement_loop_ends}
use rumcake.Backlight.SimpleMatrix.Effect.{
  BacklightEffect, effects, effects-IsEnum, EnabledEffects, is_enabled,
}
use rumcake.Backlight.SimpleMatrix.{
  BacklightCommand, BacklightAnimator, with_effect, next_enabled, prev_enabled, process_command,
  next_effect, prev_effect,
}

module _ (d : EnabledEffects) (all : (e : BacklightEffect) → is_enabled d e ≡ true) where
  -- With every effect enabled, as by default, the loops of `next_effect` and of `prev_effect` do
  -- not end, whatever the fuel, so neither command is ever processed.
  pub simple_matrix_effect_loops_diverge :
      (a : BacklightAnimator) (fuel : ℕ)
      → (do_while fuel (increment effects) (is_enabled d) a.config.effect ≡ none)
        × (do_while fuel (decrement effects) (is_enabled d) a.config.effect ≡ none)
        × (process_command d next_effect a ≡ none)
        × (process_command d prev_effect a ≡ none)
  unfolding process_command next_enabled prev_enabled
  simple_matrix_effect_loops_diverge a fuel =
      let next = λ (n : ℕ).
        do_while_diverges (increment effects) (is_enabled d) n a.config.effect (λ i. all _) in
      let prev = λ (n : ℕ).
        do_while_diverges (decrement effects) (is_enabled d) n a.config.effect (λ i. all _) in
      (next fuel, prev fuel, rw next, rw prev)

module _ (d : EnabledEffects) (a a' : BacklightAnimator) where
  map-with_effect :
      (o : Option BacklightEffect)
      → Option.map (with_effect a) o ≡ some a'
      → (o ≡ some a'.config.effect) × (a' ≡ with_effect a a'.config.effect)
  map-with_effect none h = cc
  map-with_effect (some e) h = ground arith

  -- If `next_effect` is processed, the effect that it leaves is a disabled one, the first behind
  -- the current one; nothing else changes.
  simple_matrix_next_effect_disabled :
      process_command d next_effect a ≡ some a'
      → ((n : ℕ) × IsFirst (increment effects) (is_enabled d) a.config.effect a'.config.effect n)
        × (is_enabled d a'.config.effect ≡ false)
        × (a' ≡ with_effect a a'.config.effect)
  unfolding process_command next_enabled
  simple_matrix_next_effect_disabled h =
      let (found, rest) = map-with_effect _ h in
      let first = do_while-IsFirst (increment effects) (is_enabled d) _ _ _ found in
      (first, first.1.stops, rest)

  -- If `prev_effect` is processed, the effect that it leaves is a disabled one, the first before
  -- the current one; nothing else changes.
  simple_matrix_prev_effect_disabled :
      process_command d prev_effect a ≡ some a'
      → ((n : ℕ) × IsFirst (decrement effects) (is_enabled d) a.config.effect a'.config.effect n)
        × (is_enabled d a'.config.effect ≡ false)
        × (a' ≡ with_effect a a'.config.effect)
  unfolding process_command prev_enabled
  simple_matrix_prev_effect_disabled h =
      let (found, rest) = map-with_effect _ h in
      let first = do_while-IsFirst (decrement effects) (is_enabled d) _ _ _ found in
      (first, first.1.stops, rest)

module _ (d : EnabledEffects) (t : BacklightEffect) (off : is_enabled d t ≡ false) where
  next_enabled_ends : (e : BacklightEffect) → (e' : BacklightEffect) × (next_enabled d e ≡ some e')
  unfolding next_enabled effects
  next_enabled_ends = increment_loop_ends effects effects-IsEnum (is_enabled d) t off

  prev_enabled_ends : (e : BacklightEffect) → (e' : BacklightEffect) × (prev_enabled d e ≡ some e')
  unfolding prev_enabled effects
  prev_enabled_ends = decrement_loop_ends effects effects-IsEnum (is_enabled d) t off

  -- If some effect is disabled, every command is processed.
  simple_matrix_commands_end :
      (c : BacklightCommand) (a : BacklightAnimator)
      → (a' : BacklightAnimator) × (process_command d c a ≡ some a')
  unfolding process_command
  simple_matrix_commands_end next_effect a =
      let (e', h) = next_enabled_ends a.config.effect in (with_effect a e', rw h)
  simple_matrix_commands_end prev_effect a =
      let (e', h) = prev_enabled_ends a.config.effect in (with_effect a e', rw h)
  simple_matrix_commands_end _ a = (_, refl)
