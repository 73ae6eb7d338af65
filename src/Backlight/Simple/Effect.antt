-- ===== src/Backlight/Simple/Effect.antt =====
-- The enum `BacklightEffect` of rumcake/src/backlight/simple_backlight/animations.rs.
use rumcake.Prelude.{ℕ, ◌≡◌, refl, Bool, true, false, some, List, [], ◌∷◌, get_elem?, arith}
use rumcake.Lighting.{Variants, IsEnum}
use rumcake.Lighting.Select.{Counts, IsEnum-of}

pub data BacklightEffect : Type 0 where
  solid breathing reactive : BacklightEffect

-- `as u8`: the position in the declaration.
unfoldable pub discriminant : BacklightEffect → ℕ
discriminant solid = 0
discriminant breathing = 1
discriminant reactive = 2

abbrev pub variants : List BacklightEffect
variants = solid ∷ breathing ∷ reactive ∷ []

unfoldable pub effects : Variants BacklightEffect
unfolding discriminant
effects = record { variants = variants; discriminant = discriminant }

-- The associated constants of the device, one for each effect.
pub record EnabledEffects : Type 0 where
  pub solid_enabled : Bool
  pub breathing_enabled : Bool
  pub reactive_enabled : Bool

unfoldable pub is_enabled : EnabledEffects → BacklightEffect → Bool
is_enabled d solid = d.solid_enabled
is_enabled d breathing = d.breathing_enabled
is_enabled d reactive = d.reactive_enabled

-- The `#[animated]` and `#[reactive]` attributes, by the derive macro `LEDEffect`.
unfoldable pub is_animated : BacklightEffect → Bool
is_animated solid = false
is_animated breathing = true
is_animated reactive = true

unfoldable pub is_reactive : BacklightEffect → Bool
is_reactive solid = false
is_reactive breathing = false
is_reactive reactive = true

nth : (e : BacklightEffect) → get_elem? effects.variants (effects.discriminant e) ≡ some e
unfolding effects
nth solid = refl
nth _ = refl

counts : Counts effects.discriminant 0 effects.variants
unfolding effects
counts = omega arith

pub effects-IsEnum : IsEnum effects
effects-IsEnum = IsEnum-of effects nth counts
