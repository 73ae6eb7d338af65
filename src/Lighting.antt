-- ===== src/Lighting.antt =====
-- What the lighting features share: rumcake-macros/src/derive.rs (the derive macro `Cycle`, which
-- gives each effect enum `increment` and `decrement`), the `Cycle` trait of rumcake/src/lib.rs and
-- the `u8` conversions that the enums derive (`FromPrimitive`, `as u8`). An enum is the list of its
-- variants in declaration order with its discriminants.
pub mod Cycle
pub mod Select
pub mod Clock
use rumcake.Prelude.{ℕ, ◌+◌, ◌<◌, ◌≡◌, refl, Bool, Option, none, some, List, [], ◌∷◌, ◌++◌}
use rumcake.Prelude.{
  ◌*◌, ◌-◌, ◌/◌, ◌%◌, ◌^◌, min, length, get_elem?, ◌==◌, if◌then◌else◌, Run, ok, panic,
}

-- `idents.rotate_left(1)` and `idents.rotate_right(1)`.
unfoldable pub rotate_left {ℓ} : {A : Type ℓ} → List A → List A
rotate_left [] = []
rotate_left (x ∷ xs) = xs ++ (x ∷ [])

-- The last element of `x ∷ xs`, and the elements before it.
abbrev pub last_of {ℓ} : {A : Type ℓ} → A → List A → A
last_of x [] = x
last_of x (y ∷ ys) = last_of y ys

abbrev pub before_last {ℓ} : {A : Type ℓ} → A → List A → List A
before_last x [] = []
before_last x (y ∷ ys) = x ∷ before_last y ys

unfoldable pub rotate_right {ℓ} : {A : Type ℓ} → List A → List A
rotate_right [] = []
rotate_right (x ∷ xs) = last_of x xs ∷ before_last x xs

-- An enum: `variants` in declaration order, and `as u8`.
pub record Variants (E : Type 0) : Type 0 where
  pub variants : List E
  pub discriminant : E → ℕ

-- The discriminants count the variants from 0 on.
pub record IsEnum {E : Type 0} (v : Variants E) : Type 0 where
  pub nth : (e : E) → get_elem? v.variants (v.discriminant e) ≡ some e
  pub counted : (e : E) (i : ℕ) → get_elem? v.variants i ≡ some e → v.discriminant e ≡ i

-- `match self { #(#enum_name::#idents => #enum_name::#incremented),* }`: the first arm that fits.
-- The generated match is exhaustive, so the last clause is never reached.
unfoldable pub select_arm : {E : Type 0} → (E → ℕ) → List E → List E → E → E
select_arm disc (ident ∷ idents) (target ∷ targets) e =
    if disc ident == disc e then target else select_arm disc idents targets e
select_arm disc _ _ e = e

module _ {E : Type 0} (v : Variants E) where
  unfoldable pub increment : E → E
  increment = select_arm v.discriminant v.variants (rotate_left v.variants)

  unfoldable pub decrement : E → E
  decrement = select_arm v.discriminant v.variants (rotate_right v.variants)

  -- `num::FromPrimitive::from_u8`
  unfoldable pub from_u8 : ℕ → Option E
  from_u8 = get_elem? v.variants

-- `u8::saturating_add` and `u8::saturating_sub`.
unfoldable pub saturating_add : ℕ → ℕ → ℕ
saturating_add a b = min 255 (a + b)

unfoldable pub saturating_sub : ℕ → ℕ → ℕ
saturating_sub a b = a - b

-- `(tick << 8) / (((FPS as u32) << 8) / (speed as u32 + 128 + (speed as u32 >> 1)))` in `u32`,
-- as every animator computes it. A division by 0 panics.
unfoldable pub animation_time : ℕ → ℕ → ℕ → Run ℕ
animation_time tick fps speed =
    let divisor = fps * 256 % 2 ^ 32 / (speed + 128 + speed / 2) in
    if divisor == 0 then panic else ok (tick * 256 % 2 ^ 32 / divisor)
