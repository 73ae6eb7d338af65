-- ===== src/Via/Lights/Underglow/SetGet.antt =====
-- Setting a value of the underglow, processing what is sent, and getting the value again.
use rumcake.Prelude.{zero, suc, ℕ, ◌<◌, ◌≡◌, refl, ap, some, List, [], ◌∷◌, ok, arith}
use rumcake.Lighting.{from_u8}
use rumcake.Underglow.{UnderglowCommand, UnderglowAnimator, process_command}
use rumcake.Underglow.Effect.{UnderglowEffect, effects, effects-IsEnum, EnabledEffects}
use rumcake.Underglow.Task.{process_commands}
use rumcake.Via.Lights.Windows.{slice_one, slice_two, on_slice_one, on_slice_two}
use rumcake.Via.Lights.Underglow.{
  ViaRgbLightValue, brightness, effect, effect_speed, color, enabled, get_value, set_value,
}

-- The number of a value in a packet.
abbrev pub number : ViaRgbLightValue → ℕ
number brightness = 1
number effect = 2
number effect_speed = 3
number color = 4
number enabled = 5

-- What can be set: an effect by its number, and a switch by 0 or 1.
abbrev pub Accepted : ViaRgbLightValue → ℕ → Type 0
Accepted effect x = (e : UnderglowEffect) × (from_u8 effects x ≡ some e)
Accepted enabled x = x < 2
Accepted _ x = Unit {0}

-- The byte behind the value belongs to a color.
abbrev pub second : ViaRgbLightValue → ℕ → ℕ → ℕ
second color y w = y
second _ y w = w

from_u8-discriminant :
    (x : ℕ) (e : UnderglowEffect) → from_u8 effects x ≡ some e → effects.discriminant e ≡ x
unfolding from_u8
from_u8-discriminant x e h = effects-IsEnum.counted e x h

module _ (d : EnabledEffects) (a : UnderglowAnimator) (p q y p' q' z w : ℕ)
    (rest rest' : List ℕ) where
  -- For each of the values: setting it sends commands, which are processed whatever the effects, and
  -- a request for the value, answered from the configuration that is left then, is given the bytes
  -- that were set.
  pub underglow_set_get :
      (v : ViaRgbLightValue) (x : ℕ)
      → Accepted v x
      → (cs : List UnderglowCommand) × (a' : UnderglowAnimator) × (set_value
            (p ∷ q ∷ number v ∷ x ∷ y ∷ rest)
          ≡ ok cs)
        × (process_commands d cs a ≡ some a')
        × (get_value a'.config (p' ∷ q' ∷ number v ∷ z ∷ w ∷ rest')
            ≡ ok (p' ∷ q' ∷ number v ∷ x ∷ second v y w ∷ rest'))
  unfolding set_value get_value process_commands process_command
  underglow_set_get brightness x _ = (
    UnderglowCommand.set_value x ∷ [],
    _,
    rw (slice_one p q 1 x (y ∷ rest)),
    refl,
    on_slice_one p' q' 1 z (w ∷ rest') x _ refl,
  )
  underglow_set_get effect x (e, h) = (
    UnderglowCommand.set_effect e ∷ [],
    _,
    rw (slice_one p q 2 x (y ∷ rest), h),
    refl,
    on_slice_one p' q' 2 z (w ∷ rest') x _
        (ap (λ (n : ℕ). ok (n ∷ [])) (from_u8-discriminant x e h)),
  )
  underglow_set_get effect_speed x _ = (
    UnderglowCommand.set_speed x ∷ [],
    _,
    rw (slice_one p q 3 x (y ∷ rest)),
    refl,
    on_slice_one p' q' 3 z (w ∷ rest') x _ refl,
  )
  underglow_set_get color x _ = (
    UnderglowCommand.set_hue x ∷ UnderglowCommand.set_saturation y ∷ [],
    _,
    rw (slice_two p q 4 x rest y),
    refl,
    on_slice_two p' q' 4 z rest' w x y _ refl,
  )
  underglow_set_get enabled zero _ = (
    UnderglowCommand.turn_off ∷ [],
    _,
    rw (slice_one p q 5 0 (y ∷ rest)),
    refl,
    on_slice_one p' q' 5 z (w ∷ rest') 0 _ refl,
  )
  underglow_set_get enabled (suc zero) _ = (
    UnderglowCommand.turn_on ∷ [],
    _,
    rw (slice_one p q 5 1 (y ∷ rest)),
    refl,
    on_slice_one p' q' 5 z (w ∷ rest') 1 _ refl,
  )
  underglow_set_get enabled (suc (suc n)) h = absurd (omega arith)
