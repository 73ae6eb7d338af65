-- ===== src/Backlight/RgbMatrix/Effect.antt =====
-- The enum `BacklightEffect` of rumcake/src/backlight/rgb_backlight_matrix/animations.rs,
-- with the `vial` feature.
use rumcake.Prelude.{ℕ, ◌≡◌, refl, Bool, true, false, some, List, [], ◌∷◌, get_elem?, arith}
use rumcake.Lighting.{Variants, IsEnum}
use rumcake.Lighting.Select.{Counts, IsEnum-of}

pub data BacklightEffect : Type 0 where
  solid alphas_mods gradient_up_down gradient_left_right breathing colorband_sat colorband_val
        colorband_pin_wheel_sat colorband_pin_wheel_val colorband_spiral_sat colorband_spiral_val
        cycle_all cycle_left_right cycle_up_down rainbow_moving_chevron cycle_out_in
        cycle_out_in_dual cycle_pin_wheel cycle_spiral dual_beacon rainbow_beacon rainbow_pin_wheels
        raindrops jellybean_raindrops hue_breathing hue_pendulum hue_wave pixel_rain pixel_flow
        pixel_fractal typing_heatmap digital_rain solid_reactive_simple solid_reactive
        solid_reactive_wide solid_reactive_multi_wide solid_reactive_cross
        solid_reactive_multi_cross solid_reactive_nexus solid_reactive_multi_nexus splash
        multi_splash solid_splash solid_multi_splash direct_set :
      BacklightEffect

-- `as u8`: the position in the declaration.
unfoldable pub discriminant : BacklightEffect → ℕ
discriminant solid = 0
discriminant alphas_mods = 1
discriminant gradient_up_down = 2
discriminant gradient_left_right = 3
discriminant breathing = 4
discriminant colorband_sat = 5
discriminant colorband_val = 6
discriminant colorband_pin_wheel_sat = 7
discriminant colorband_pin_wheel_val = 8
discriminant colorband_spiral_sat = 9
discriminant colorband_spiral_val = 10
discriminant cycle_all = 11
discriminant cycle_left_right = 12
discriminant cycle_up_down = 13
discriminant rainbow_moving_chevron = 14
discriminant cycle_out_in = 15
discriminant cycle_out_in_dual = 16
discriminant cycle_pin_wheel = 17
discriminant cycle_spiral = 18
discriminant dual_beacon = 19
discriminant rainbow_beacon = 20
discriminant rainbow_pin_wheels = 21
discriminant raindrops = 22
discriminant jellybean_raindrops = 23
discriminant hue_breathing = 24
discriminant hue_pendulum = 25
discriminant hue_wave = 26
discriminant pixel_rain = 27
discriminant pixel_flow = 28
discriminant pixel_fractal = 29
discriminant typing_heatmap = 30
discriminant digital_rain = 31
discriminant solid_reactive_simple = 32
discriminant solid_reactive = 33
discriminant solid_reactive_wide = 34
discriminant solid_reactive_multi_wide = 35
discriminant solid_reactive_cross = 36
discriminant solid_reactive_multi_cross = 37
discriminant solid_reactive_nexus = 38
discriminant solid_reactive_multi_nexus = 39
discriminant splash = 40
discriminant multi_splash = 41
discriminant solid_splash = 42
discriminant solid_multi_splash = 43
discriminant direct_set = 44

abbrev pub variants : List BacklightEffect
variants =
    solid ∷ alphas_mods ∷ gradient_up_down ∷ gradient_left_right ∷ breathing ∷ colorband_sat
    ∷ colorband_val ∷ colorband_pin_wheel_sat ∷ colorband_pin_wheel_val ∷ colorband_spiral_sat
    ∷ colorband_spiral_val ∷ cycle_all ∷ cycle_left_right ∷ cycle_up_down ∷ rainbow_moving_chevron
    ∷ cycle_out_in ∷ cycle_out_in_dual ∷ cycle_pin_wheel ∷ cycle_spiral ∷ dual_beacon
    ∷ rainbow_beacon ∷ rainbow_pin_wheels ∷ raindrops ∷ jellybean_raindrops ∷ hue_breathing
    ∷ hue_pendulum ∷ hue_wave ∷ pixel_rain ∷ pixel_flow ∷ pixel_fractal ∷ typing_heatmap
    ∷ digital_rain ∷ solid_reactive_simple ∷ solid_reactive ∷ solid_reactive_wide
    ∷ solid_reactive_multi_wide ∷ solid_reactive_cross ∷ solid_reactive_multi_cross
    ∷ solid_reactive_nexus ∷ solid_reactive_multi_nexus ∷ splash ∷ multi_splash ∷ solid_splash
    ∷ solid_multi_splash ∷ direct_set ∷ []

unfoldable pub effects : Variants BacklightEffect
unfolding discriminant
effects = record { variants = variants; discriminant = discriminant }

-- The associated constants of the device, one for each effect.
pub record EnabledEffects : Type 0 where
  pub solid_enabled : Bool
  pub alphas_mods_enabled : Bool
  pub gradient_up_down_enabled : Bool
  pub gradient_left_right_enabled : Bool
  pub breathing_enabled : Bool
  pub colorband_sat_enabled : Bool
  pub colorband_val_enabled : Bool
  pub colorband_pin_wheel_sat_enabled : Bool
  pub colorband_pin_wheel_val_enabled : Bool
  pub colorband_spiral_sat_enabled : Bool
  pub colorband_spiral_val_enabled : Bool
  pub cycle_all_enabled : Bool
  pub cycle_left_right_enabled : Bool
  pub cycle_up_down_enabled : Bool
  pub rainbow_moving_chevron_enabled : Bool
  pub cycle_out_in_enabled : Bool
  pub cycle_out_in_dual_enabled : Bool
  pub cycle_pin_wheel_enabled : Bool
  pub cycle_spiral_enabled : Bool
  pub dual_beacon_enabled : Bool
  pub rainbow_beacon_enabled : Bool
  pub rainbow_pin_wheels_enabled : Bool
  pub raindrops_enabled : Bool
  pub jellybean_raindrops_enabled : Bool
  pub hue_breathing_enabled : Bool
  pub hue_pendulum_enabled : Bool
  pub hue_wave_enabled : Bool
  pub pixel_rain_enabled : Bool
  pub pixel_flow_enabled : Bool
  pub pixel_fractal_enabled : Bool
  pub typing_heatmap_enabled : Bool
  pub digital_rain_enabled : Bool
  pub solid_reactive_simple_enabled : Bool
  pub solid_reactive_enabled : Bool
  pub solid_reactive_wide_enabled : Bool
  pub solid_reactive_multi_wide_enabled : Bool
  pub solid_reactive_cross_enabled : Bool
  pub solid_reactive_multi_cross_enabled : Bool
  pub solid_reactive_nexus_enabled : Bool
  pub solid_reactive_multi_nexus_enabled : Bool
  pub splash_enabled : Bool
  pub multi_splash_enabled : Bool
  pub solid_splash_enabled : Bool
  pub solid_multi_splash_enabled : Bool
  pub direct_set_enabled : Bool

unfoldable pub is_enabled : EnabledEffects → BacklightEffect → Bool
is_enabled d solid = d.solid_enabled
is_enabled d alphas_mods = d.alphas_mods_enabled
is_enabled d gradient_up_down = d.gradient_up_down_enabled
is_enabled d gradient_left_right = d.gradient_left_right_enabled
is_enabled d breathing = d.breathing_enabled
is_enabled d colorband_sat = d.colorband_sat_enabled
is_enabled d colorband_val = d.colorband_val_enabled
is_enabled d colorband_pin_wheel_sat = d.colorband_pin_wheel_sat_enabled
is_enabled d colorband_pin_wheel_val = d.colorband_pin_wheel_val_enabled
is_enabled d colorband_spiral_sat = d.colorband_spiral_sat_enabled
is_enabled d colorband_spiral_val = d.colorband_spiral_val_enabled
is_enabled d cycle_all = d.cycle_all_enabled
is_enabled d cycle_left_right = d.cycle_left_right_enabled
is_enabled d cycle_up_down = d.cycle_up_down_enabled
is_enabled d rainbow_moving_chevron = d.rainbow_moving_chevron_enabled
is_enabled d cycle_out_in = d.cycle_out_in_enabled
is_enabled d cycle_out_in_dual = d.cycle_out_in_dual_enabled
is_enabled d cycle_pin_wheel = d.cycle_pin_wheel_enabled
is_enabled d cycle_spiral = d.cycle_spiral_enabled
is_enabled d dual_beacon = d.dual_beacon_enabled
is_enabled d rainbow_beacon = d.rainbow_beacon_enabled
is_enabled d rainbow_pin_wheels = d.rainbow_pin_wheels_enabled
is_enabled d raindrops = d.raindrops_enabled
is_enabled d jellybean_raindrops = d.jellybean_raindrops_enabled
is_enabled d hue_breathing = d.hue_breathing_enabled
is_enabled d hue_pendulum = d.hue_pendulum_enabled
is_enabled d hue_wave = d.hue_wave_enabled
is_enabled d pixel_rain = d.pixel_rain_enabled
is_enabled d pixel_flow = d.pixel_flow_enabled
is_enabled d pixel_fractal = d.pixel_fractal_enabled
is_enabled d typing_heatmap = d.typing_heatmap_enabled
is_enabled d digital_rain = d.digital_rain_enabled
is_enabled d solid_reactive_simple = d.solid_reactive_simple_enabled
is_enabled d solid_reactive = d.solid_reactive_enabled
is_enabled d solid_reactive_wide = d.solid_reactive_wide_enabled
is_enabled d solid_reactive_multi_wide = d.solid_reactive_multi_wide_enabled
is_enabled d solid_reactive_cross = d.solid_reactive_cross_enabled
is_enabled d solid_reactive_multi_cross = d.solid_reactive_multi_cross_enabled
is_enabled d solid_reactive_nexus = d.solid_reactive_nexus_enabled
is_enabled d solid_reactive_multi_nexus = d.solid_reactive_multi_nexus_enabled
is_enabled d splash = d.splash_enabled
is_enabled d multi_splash = d.multi_splash_enabled
is_enabled d solid_splash = d.solid_splash_enabled
is_enabled d solid_multi_splash = d.solid_multi_splash_enabled
is_enabled d direct_set = d.direct_set_enabled

-- The `#[animated]` and `#[reactive]` attributes, by the derive macro `LEDEffect`.
unfoldable pub is_animated : BacklightEffect → Bool
is_animated solid = false
is_animated alphas_mods = false
is_animated gradient_up_down = false
is_animated gradient_left_right = false
is_animated breathing = true
is_animated colorband_sat = true
is_animated colorband_val = true
is_animated colorband_pin_wheel_sat = true
is_animated colorband_pin_wheel_val = true
is_animated colorband_spiral_sat = true
is_animated colorband_spiral_val = true
is_animated cycle_all = true
is_animated cycle_left_right = true
is_animated cycle_up_down = true
is_animated rainbow_moving_chevron = true
is_animated cycle_out_in = true
is_animated cycle_out_in_dual = true
is_animated cycle_pin_wheel = true
is_animated cycle_spiral = true
is_animated dual_beacon = true
is_animated rainbow_beacon = true
is_animated rainbow_pin_wheels = true
is_animated raindrops = true
is_animated jellybean_raindrops = true
is_animated hue_breathing = true
is_animated hue_pendulum = true
is_animated hue_wave = true
is_animated pixel_rain = true
is_animated pixel_flow = true
is_animated pixel_fractal = true
is_animated typing_heatmap = true
is_animated digital_rain = true
is_animated solid_reactive_simple = true
is_animated solid_reactive = true
is_animated solid_reactive_wide = true
is_animated solid_reactive_multi_wide = true
is_animated solid_reactive_cross = true
is_animated solid_reactive_multi_cross = true
is_animated solid_reactive_nexus = true
is_animated solid_reactive_multi_nexus = true
is_animated splash = true
is_animated multi_splash = true
is_animated solid_splash = true
is_animated solid_multi_splash = true
is_animated direct_set = true

unfoldable pub is_reactive : BacklightEffect → Bool
is_reactive solid = false
is_reactive alphas_mods = false
is_reactive gradient_up_down = false
is_reactive gradient_left_right = false
is_reactive breathing = false
is_reactive colorband_sat = false
is_reactive colorband_val = false
is_reactive colorband_pin_wheel_sat = false
is_reactive colorband_pin_wheel_val = false
is_reactive colorband_spiral_sat = false
is_reactive colorband_spiral_val = false
is_reactive cycle_all = false
is_reactive cycle_left_right = false
is_reactive cycle_up_down = false
is_reactive rainbow_moving_chevron = false
is_reactive cycle_out_in = false
is_reactive cycle_out_in_dual = false
is_reactive cycle_pin_wheel = false
is_reactive cycle_spiral = false
is_reactive dual_beacon = false
is_reactive rainbow_beacon = false
is_reactive rainbow_pin_wheels = false
is_reactive raindrops = false
is_reactive jellybean_raindrops = false
is_reactive hue_breathing = false
is_reactive hue_pendulum = false
is_reactive hue_wave = false
is_reactive pixel_rain = false
is_reactive pixel_flow = false
is_reactive pixel_fractal = false
is_reactive typing_heatmap = false
is_reactive digital_rain = false
is_reactive solid_reactive_simple = true
is_reactive solid_reactive = true
is_reactive solid_reactive_wide = true
is_reactive solid_reactive_multi_wide = true
is_reactive solid_reactive_cross = true
is_reactive solid_reactive_multi_cross = true
is_reactive solid_reactive_nexus = true
is_reactive solid_reactive_multi_nexus = true
is_reactive splash = true
is_reactive multi_splash = true
is_reactive solid_splash = true
is_reactive solid_multi_splash = true
is_reactive direct_set = false

nth : (e : BacklightEffect) → get_elem? effects.variants (effects.discriminant e) ≡ some e
unfolding effects
nth solid = refl
nth _ = refl

counts : Counts effects.discriminant 0 effects.variants
unfolding effects
counts = omega arith

pub effects-IsEnum : IsEnum effects
effects-IsEnum = IsEnum-of effects nth counts
