-- ===== src/Underglow/Effect.antt =====
-- The enum `UnderglowEffect` of rumcake/src/underglow/animations.rs.
use rumcake.Prelude.{ℕ, ◌≡◌, refl, Bool, true, false, some, List, [], ◌∷◌, get_elem?, arith}
use rumcake.Lighting.{Variants, IsEnum}
use rumcake.Lighting.Select.{Counts, IsEnum-of}

pub data UnderglowEffect : Type 0 where
  solid breathing rainbow_mood rainbow_swirl snake knight christmas static_gradient rgb_test
        alternating twinkle reactive :
      UnderglowEffect

-- `as u8`: the position in the declaration.
unfoldable pub discriminant : UnderglowEffect → ℕ
discriminant solid = 0
discriminant breathing = 1
discriminant rainbow_mood = 2
discriminant rainbow_swirl = 3
discriminant snake = 4
discriminant knight = 5
discriminant christmas = 6
discriminant static_gradient = 7
discriminant rgb_test = 8
discriminant alternating = 9
discriminant twinkle = 10
discriminant reactive = 11

abbrev pub variants : List UnderglowEffect
variants =
    solid ∷ breathing ∷ rainbow_mood ∷ rainbow_swirl ∷ snake ∷ knight ∷ christmas ∷ static_gradient
    ∷ rgb_test ∷ alternating ∷ twinkle ∷ reactive ∷ []

unfoldable pub effects : Variants UnderglowEffect
unfolding discriminant
effects = record { variants = variants; discriminant = discriminant }

-- The associated constants of the device, one for each effect.
pub record EnabledEffects : Type 0 where
  pub solid_enabled : Bool
  pub breathing_enabled : Bool
  pub rainbow_mood_enabled : Bool
  pub rainbow_swirl_enabled : Bool
  pub snake_enabled : Bool
  pub knight_enabled : Bool
  pub christmas_enabled : Bool
  pub static_gradient_enabled : Bool
  pub rgb_test_enabled : Bool
  pub alternating_enabled : Bool
  pub twinkle_enabled : Bool
  pub reactive_enabled : Bool

unfoldable pub is_enabled : EnabledEffects → UnderglowEffect → Bool
is_enabled d solid = d.solid_enabled
is_enabled d breathing = d.breathing_enabled
is_enabled d rainbow_mood = d.rainbow_mood_enabled
is_enabled d rainbow_swirl = d.rainbow_swirl_enabled
is_enabled d snake = d.snake_enabled
is_enabled d knight = d.knight_enabled
is_enabled d christmas = d.christmas_enabled
is_enabled d static_gradient = d.static_gradient_enabled
is_enabled d rgb_test = d.rgb_test_enabled
is_enabled d alternating = d.alternating_enabled
is_enabled d twinkle = d.twinkle_enabled
is_enabled d reactive = d.reactive_enabled

-- The `#[animated]` and `#[reactive]` attributes, by the derive macro `LEDEffect`.
unfoldable pub is_animated : UnderglowEffect → Bool
is_animated solid = false
is_animated breathing = true
is_animated rainbow_mood = true
is_animated rainbow_swirl = true
is_animated snake = true
is_animated knight = true
is_animated christmas = true
is_animated static_gradient = false
is_animated rgb_test = true
is_animated alternating = true
is_animated twinkle = true
is_animated reactive = true

unfoldable pub is_reactive : UnderglowEffect → Bool
is_reactive solid = false
is_reactive breathing = false
is_reactive rainbow_mood = false
is_reactive rainbow_swirl = false
is_reactive snake = false
is_reactive knight = false
is_reactive christmas = false
is_reactive static_gradient = false
is_reactive rgb_test = false
is_reactive alternating = false
is_reactive twinkle = false
is_reactive reactive = true

nth : (e : UnderglowEffect) → get_elem? effects.variants (effects.discriminant e) ≡ some e
unfolding effects
nth solid = refl
nth _ = refl

counts : Counts effects.discriminant 0 effects.variants
unfolding effects
counts = omega arith

pub effects-IsEnum : IsEnum effects
effects-IsEnum = IsEnum-of effects nth counts
