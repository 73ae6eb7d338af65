-- ===== src/Backlight/SimpleMatrix/Effect.antt =====
-- The enum `BacklightEffect` of rumcake/src/backlight/simple_backlight_matrix/animations.rs.
use rumcake.Prelude.{ℕ, ◌≡◌, refl, Bool, true, false, some, List, [], ◌∷◌, get_elem?, arith}
use rumcake.Lighting.{Variants, IsEnum}
use rumcake.Lighting.Select.{Counts, IsEnum-of}

pub data BacklightEffect : Type 0 where
  solid alphas_mods gradient_up_down gradient_left_right breathing band band_pin_wheel band_spiral
        cycle_left_right cycle_up_down cycle_out_in raindrops dual_beacon wave_left_right
        wave_up_down reactive reactive_wide reactive_cross reactive_nexus reactive_splash :
      BacklightEffect

-- `as u8`: the position in the declaration.
unfoldable pub discriminant : BacklightEffect → ℕ
discriminant solid = 0
discriminant alphas_mods = 1
discriminant gradient_up_down = 2
discriminant gradient_left_right = 3
discriminant breathing = 4
discriminant band = 5
discriminant band_pin_wheel = 6
discriminant band_spiral = 7
discriminant cycle_left_right = 8
discriminant cycle_up_down = 9
discriminant cycle_out_in = 10
discriminant raindrops = 11
discriminant dual_beacon = 12
discriminant wave_left_right = 13
discriminant wave_up_down = 14
discriminant reactive = 15
discriminant reactive_wide = 16
discriminant reactive_cross = 17
discriminant reactive_nexus = 18
discriminant reactive_splash = 19

abbrev pub variants : List BacklightEffect
variants =
    solid ∷ alphas_mods ∷ gradient_up_down ∷ gradient_left_right ∷ breathing ∷ band ∷ band_pin_wheel
    ∷ band_spiral ∷ cycle_left_right ∷ cycle_up_down ∷ cycle_out_in ∷ raindrops ∷ dual_beacon
    ∷ wave_left_right ∷ wave_up_down ∷ reactive ∷ reactive_wide ∷ reactive_cross ∷ reactive_nexus
    ∷ reactive_splash ∷ []

unfoldable pub effects : Variants BacklightEffect
unfolding discriminant
effects = record { variants = variants; discriminant = discriminant }

-- The associated constants of the device, one for each effect.
pub record EnabledEffects : Type 0 where
  pub solid_enabled : Bool
  pub alphas_mods_enabled : Bool
  pub gradient_up_down_enabled : Bool
  pub gradient_left_right_enabled : Bool
  pub breathing_enabled : Bool
  pub band_enabled : Bool
  pub band_pin_wheel_enabled : Bool
  pub band_spiral_enabled : Bool
  pub cycle_left_right_enabled : Bool
  pub cycle_up_down_enabled : Bool
  pub cycle_out_in_enabled : Bool
  pub raindrops_enabled : Bool
  pub dual_beacon_enabled : Bool
  pub wave_left_right_enabled : Bool
  pub wave_up_down_enabled : Bool
  pub reactive_enabled : Bool
  pub reactive_wide_enabled : Bool
  pub reactive_cross_enabled : Bool
  pub reactive_nexus_enabled : Bool
  pub reactive_splash_enabled : Bool

unfoldable pub is_enabled : EnabledEffects → BacklightEffect → Bool
is_enabled d solid = d.solid_enabled
is_enabled d alphas_mods = d.alphas_mods_enabled
is_enabled d gradient_up_down = d.gradient_up_down_enabled
is_enabled d gradient_left_right = d.gradient_left_right_enabled
is_enabled d breathing = d.breathing_enabled
is_enabled d band = d.band_enabled
is_enabled d band_pin_wheel = d.band_pin_wheel_enabled
is_enabled d band_spiral = d.band_spiral_enabled
is_enabled d cycle_left_right = d.cycle_left_right_enabled
is_enabled d cycle_up_down = d.cycle_up_down_enabled
is_enabled d cycle_out_in = d.cycle_out_in_enabled
is_enabled d raindrops = d.raindrops_enabled
is_enabled d dual_beacon = d.dual_beacon_enabled
is_enabled d wave_left_right = d.wave_left_right_enabled
is_enabled d wave_up_down = d.wave_up_down_enabled
is_enabled d reactive = d.reactive_enabled
is_enabled d reactive_wide = d.reactive_wide_enabled
is_enabled d reactive_cross = d.reactive_cross_enabled
is_enabled d reactive_nexus = d.reactive_nexus_enabled
is_enabled d reactive_splash = d.reactive_splash_enabled

-- The `#[animated]` and `#[reactive]` attributes, by the derive macro `LEDEffect`.
unfoldable pub is_animated : BacklightEffect → Bool
is_animated solid = false
is_animated alphas_mods = false
is_animated gradient_up_down = false
is_animated gradient_left_right = false
is_animated breathing = true
is_animated band = true
is_animated band_pin_wheel = true
is_animated band_spiral = true
is_animated cycle_left_right = true
is_animated cycle_up_down = true
is_animated cycle_out_in = true
is_animated raindrops = true
is_animated dual_beacon = true
is_animated wave_left_right = true
is_animated wave_up_down = true
is_animated reactive = true
is_animated reactive_wide = true
is_animated reactive_cross = true
is_animated reactive_nexus = true
is_animated reactive_splash = true

unfoldable pub is_reactive : BacklightEffect → Bool
is_reactive solid = false
is_reactive alphas_mods = false
is_reactive gradient_up_down = false
is_reactive gradient_left_right = false
is_reactive breathing = false
is_reactive band = false
is_reactive band_pin_wheel = false
is_reactive band_spiral = false
is_reactive cycle_left_right = false
is_reactive cycle_up_down = false
is_reactive cycle_out_in = false
is_reactive raindrops = false
is_reactive dual_beacon = false
is_reactive wave_left_right = false
is_reactive wave_up_down = false
is_reactive reactive = true
is_reactive reactive_wide = true
is_reactive reactive_cross = true
is_reactive reactive_nexus = true
is_reactive reactive_splash = true

nth : (e : BacklightEffect) → get_elem? effects.variants (effects.discriminant e) ≡ some e
unfolding effects
nth solid = refl
nth _ = refl

counts : Counts effects.discriminant 0 effects.variants
unfolding effects
counts = omega arith

pub effects-IsEnum : IsEnum effects
effects-IsEnum = IsEnum-of effects nth counts
