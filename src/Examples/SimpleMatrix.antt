-- ===== src/Examples/SimpleMatrix.antt =====
-- The effect commands of rumcake/src/backlight/simple_backlight_matrix at concrete inputs.
use rumcake.Prelude.{◌≡◌, refl, true, false, none, do_while}
use rumcake.Lighting.{increment, decrement}
use rumcake.Backlight.SimpleMatrix
use rumcake.Backlight.SimpleMatrix.Effect
use rumcake.Backlight.SimpleMatrix.Commands.{simple_matrix_effect_loops_diverge}

abbrev all_effects : Effect.EnabledEffects
all_effects = record {
  solid_enabled = true;
  alphas_mods_enabled = true;
  gradient_up_down_enabled = true;
  gradient_left_right_enabled = true;
  breathing_enabled = true;
  band_enabled = true;
  band_pin_wheel_enabled = true;
  band_spiral_enabled = true;
  cycle_left_right_enabled = true;
  cycle_up_down_enabled = true;
  cycle_out_in_enabled = true;
  raindrops_enabled = true;
  dual_beacon_enabled = true;
  wave_left_right_enabled = true;
  wave_up_down_enabled = true;
  reactive_enabled = true;
  reactive_wide_enabled = true;
  reactive_cross_enabled = true;
  reactive_nexus_enabled = true;
  reactive_splash_enabled = true;
}

abbrev one_off : Effect.EnabledEffects
one_off = record {
  solid_enabled = true;
  alphas_mods_enabled = false;
  gradient_up_down_enabled = true;
  gradient_left_right_enabled = true;
  breathing_enabled = true;
  band_enabled = true;
  band_pin_wheel_enabled = true;
  band_spiral_enabled = true;
  cycle_left_right_enabled = true;
  cycle_up_down_enabled = true;
  cycle_out_in_enabled = true;
  raindrops_enabled = true;
  dual_beacon_enabled = true;
  wave_left_right_enabled = true;
  wave_up_down_enabled = true;
  reactive_enabled = true;
  reactive_wide_enabled = true;
  reactive_cross_enabled = true;
  reactive_nexus_enabled = true;
  reactive_splash_enabled = true;
}

abbrev backlight_at : Effect.BacklightEffect → SimpleMatrix.BacklightAnimator
backlight_at e = record {
  config = record { enabled = true; effect = e; val = 250; speed = 86 };
  tick = 7;
  save_signalled = false;
}

all_effects_enabled : (e : Effect.BacklightEffect) → Effect.is_enabled all_effects e ≡ true
unfolding Effect.is_enabled
all_effects_enabled Effect.solid = refl
all_effects_enabled Effect.alphas_mods = refl
all_effects_enabled Effect.gradient_up_down = refl
all_effects_enabled Effect.gradient_left_right = refl
all_effects_enabled Effect.breathing = refl
all_effects_enabled Effect.band = refl
all_effects_enabled Effect.band_pin_wheel = refl
all_effects_enabled Effect.band_spiral = refl
all_effects_enabled Effect.cycle_left_right = refl
all_effects_enabled Effect.cycle_up_down = refl
all_effects_enabled Effect.cycle_out_in = refl
all_effects_enabled Effect.raindrops = refl
all_effects_enabled Effect.dual_beacon = refl
all_effects_enabled Effect.wave_left_right = refl
all_effects_enabled Effect.wave_up_down = refl
all_effects_enabled Effect.reactive = refl
all_effects_enabled Effect.reactive_wide = refl
all_effects_enabled Effect.reactive_cross = refl
all_effects_enabled Effect.reactive_nexus = refl
all_effects_enabled Effect.reactive_splash = refl

simple_matrix_effect_loops_diverge_example :
    (do_while 1000 (increment Effect.effects) (Effect.is_enabled all_effects) Effect.solid ≡ none)
    × (do_while 1000 (decrement Effect.effects) (Effect.is_enabled all_effects) Effect.solid ≡ none)
    × (SimpleMatrix.process_command all_effects SimpleMatrix.next_effect (backlight_at Effect.solid)
        ≡ none)
    × (SimpleMatrix.process_command all_effects SimpleMatrix.prev_effect (backlight_at Effect.solid)
        ≡ none)
simple_matrix_effect_loops_diverge_example =
    simple_matrix_effect_loops_diverge all_effects all_effects_enabled (backlight_at Effect.solid)
      1000
