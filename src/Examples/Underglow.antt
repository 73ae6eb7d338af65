-- ===== src/Examples/Underglow.antt =====
-- The commands of rumcake/src/underglow at concrete inputs.
use rumcake.Prelude.{ℕ, suc, ◌<◌, ◌≡◌, refl, true, false, some, IsFirst, do_while, iterate, length}
use rumcake.Lighting.{increment, select_arm, rotate_left}
use rumcake.Lighting.Select.{increment-reaches}
use rumcake.Underglow
use rumcake.Underglow.Effect
use rumcake.Underglow.Commands.{underglow_commands_end, next_effect-IsFirst, is_skipped}
use rumcake.Underglow.Sync.{sync-config}
use rumcake.Underglow.Task.{process_commands, sync_to_peripherals}

abbrev two_effects : Effect.EnabledEffects
two_effects = record {
  solid_enabled = true;
  breathing_enabled = false;
  rainbow_mood_enabled = false;
  rainbow_swirl_enabled = true;
  snake_enabled = false;
  knight_enabled = false;
  christmas_enabled = false;
  static_gradient_enabled = false;
  rgb_test_enabled = false;
  alternating_enabled = false;
  twinkle_enabled = false;
  reactive_enabled = false;
}

abbrev underglow_at : Effect.UnderglowEffect → Underglow.UnderglowAnimator
underglow_at e = record {
  config = record { enabled = true; effect = e; hue = 10; sat = 255; val = 250; speed = 86 };
  tick = 7;
  time_of_last_press = 0;
  save_signalled = false;
}

increment-reaches_example :
    (k : ℕ) × (k < length Effect.effects.variants)
    × (iterate (suc k) (increment Effect.effects) Effect.snake ≡ Effect.breathing)
increment-reaches_example =
    increment-reaches Effect.effects Effect.effects-IsEnum Effect.snake Effect.breathing

underglow_commands_end_example :
    (a : Underglow.UnderglowAnimator) × (Underglow.process_command two_effects Underglow.next_effect
        (underglow_at Effect.solid)
      ≡ some a)
unfolding Effect.is_enabled
underglow_commands_end_example =
    underglow_commands_end two_effects Effect.solid refl Underglow.next_effect
      (underglow_at Effect.solid)

next_effect-IsFirst_example :
    ((n : ℕ) × IsFirst
        (increment Effect.effects)
        (is_skipped two_effects)
        Effect.solid
        Effect.rainbow_swirl
        n)
    × (underglow_at Effect.rainbow_swirl
        ≡ Underglow.with_effect (underglow_at Effect.solid) Effect.rainbow_swirl)
unfolding Underglow.process_command Underglow.next_enabled do_while increment Effect.effects
    Effect.is_enabled Effect.discriminant select_arm rotate_left
next_effect-IsFirst_example =
    next_effect-IsFirst two_effects (underglow_at Effect.solid) (underglow_at Effect.rainbow_swirl)
      refl

abbrev brightest : Underglow.UnderglowAnimator
brightest = record {
  config = record {
    enabled = true;
    effect = Effect.solid;
    hue = 10;
    sat = 255;
    val = 255;
    speed = 86;
  };
  tick = 7;
  time_of_last_press = 0;
  save_signalled = false;
}

sync-config_example :
    (p : Underglow.UnderglowAnimator) × (process_commands two_effects
        (sync_to_peripherals brightest)
        (underglow_at Effect.twinkle)
      ≡ some p)
    × (p.config ≡ record brightest.config { enabled = true })
    × (p.tick ≡ 0)
sync-config_example = sync-config two_effects brightest (underglow_at Effect.twinkle)
