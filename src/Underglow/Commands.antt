-- ===== src/Underglow/Commands.antt =====
-- What the underglow commands do to the animator: rumcake/src/underglow/animations.rs,
-- `process_command`.
use rumcake.Prelude.{
  ℕ, ◌≡◌, refl, Bool, true, not, Option, none, some, arith, IsFirst, do_while-IsFirst,
}
use mathlib.Core.Option
use rumcake.Lighting.{increment, decrement}
use rumcake.Lighting.Select.{increment_loop_ends, decrement_loop_ends}
use rumcake.Underglow.Effect.{UnderglowEffect, effects, effects-IsEnum, EnabledEffects, is_enabled}
use rumcake.Underglow.{
  UnderglowCommand, UnderglowAnimator, with_effect, next_enabled, prev_enabled, process_command,
  next_effect, prev_effect,
}

module _ (d : EnabledEffects) (t : UnderglowEffect) (on : is_enabled d t ≡ true) where
  next_enabled_ends : (e : UnderglowEffect) → (e' : UnderglowEffect) × (next_enabled d e ≡ some e')
  unfolding next_enabled effects
  next_enabled_ends e =
      increment_loop_ends effects effects-IsEnum (λ x. not (is_enabled d x)) t (rw on) e

  prev_enabled_ends : (e : UnderglowEffect) → (e' : UnderglowEffect) × (prev_enabled d e ≡ some e')
  unfolding prev_enabled effects
  prev_enabled_ends e =
      decrement_loop_ends effects effects-IsEnum (λ x. not (is_enabled d x)) t (rw on) e

  -- If some effect is enabled, every command is processed: the loops end.
  pub underglow_commands_end :
      (c : UnderglowCommand) (a : UnderglowAnimator)
      → (a' : UnderglowAnimator) × (process_command d c a ≡ some a')
  unfolding process_command
  underglow_commands_end next_effect a =
      let (e', h) = next_enabled_ends a.config.effect in (with_effect a e', rw h)
  underglow_commands_end prev_effect a =
      let (e', h) = prev_enabled_ends a.config.effect in (with_effect a e', rw h)
  underglow_commands_end _ a = (_, refl)

-- The test that keeps the loops of `next_effect` and `prev_effect` going.
abbrev pub is_skipped : EnabledEffects → UnderglowEffect → Bool
is_skipped d e = not (is_enabled d e)

module _ (d : EnabledEffects) (a a' : UnderglowAnimator) where
  map-with_effect :
      (o : Option UnderglowEffect)
      → Option.map (with_effect a) o ≡ some a'
      → (o ≡ some a'.config.effect) × (a' ≡ with_effect a a'.config.effect)
  map-with_effect none h = cc
  map-with_effect (some e) h = ground arith

  -- `next_effect` leaves the first enabled effect behind the current one in the order of the
  -- enum, which starts again from the top; it changes nothing else.
  pub next_effect-IsFirst :
      process_command d next_effect a ≡ some a'
      → ((n : ℕ) × IsFirst (increment effects) (is_skipped d) a.config.effect a'.config.effect n)
        × (a' ≡ with_effect a a'.config.effect)
  unfolding process_command next_enabled
  next_effect-IsFirst h =
      let (found, rest) = map-with_effect _ h in
      (do_while-IsFirst (increment effects) (is_skipped d) _ _ _ found, rest)

  -- `prev_effect` leaves the first enabled effect before the current one, in the same way.
  prev_effect-IsFirst :
      process_command d prev_effect a ≡ some a'
      → ((n : ℕ) × IsFirst (decrement effects) (is_skipped d) a.config.effect a'.config.effect n)
        × (a' ≡ with_effect a a'.config.effect)
  unfolding process_command prev_enabled
  prev_effect-IsFirst h =
      let (found, rest) = map-with_effect _ h in
      (do_while-IsFirst (decrement effects) (is_skipped d) _ _ _ found, rest)
