-- ===== src/Examples/Simple.antt =====
-- The effect commands of rumcake/src/backlight/simple_backlight at concrete inputs.
use rumcake.Prelude.{◌≡◌, refl, true, false, none, do_while}
use rumcake.Lighting.{increment, decrement}
use rumcake.Backlight.Simple
use rumcake.Backlight.Simple.Effect
use rumcake.Backlight.Simple.Commands.{simple_effect_loops_diverge}

abbrev all_effects : Effect.EnabledEffects
all_effects = record { solid_enabled = true; breathing_enabled = true; reactive_enabled = true }

abbrev one_off : Effect.EnabledEffects
one_off = record { solid_enabled = true; breathing_enabled = false; reactive_enabled = true }

abbrev backlight_at : Effect.BacklightEffect → Simple.BacklightAnimator
backlight_at e = record {
  config = record { enabled = true; effect = e; val = 250; speed = 86 };
  tick = 7;
  time_of_last_press = 0;
  save_signalled = false;
}

all_effects_enabled : (e : Effect.BacklightEffect) → Effect.is_enabled all_effects e ≡ true
unfolding Effect.is_enabled
all_effects_enabled Effect.solid = refl
all_effects_enabled Effect.breathing = refl
all_effects_enabled Effect.reactive = refl

simple_effect_loops_diverge_example :
    (do_while 1000 (increment Effect.effects) (Effect.is_enabled all_effects) Effect.solid ≡ none)
    × (do_while 1000 (decrement Effect.effects) (Effect.is_enabled all_effects) Effect.solid ≡ none)
    × (Simple.process_command all_effects Simple.next_effect (backlight_at Effect.solid) ≡ none)
    × (Simple.process_command all_effects Simple.prev_effect (backlight_at Effect.solid) ≡ none)
simple_effect_loops_diverge_example =
    simple_effect_loops_diverge all_effects all_effects_enabled (backlight_at Effect.solid) 1000
