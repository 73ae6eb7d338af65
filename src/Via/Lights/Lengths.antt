-- ===== src/Via/Lights/Lengths.antt =====
-- The replies to requests for values of the lights have the length of the packet.
use rumcake.Prelude.{
  ℕ, ◌+◌, ◌-◌, ◌≤◌, ◌≡◌, ◌∙◌, sym, ap, inl, inr, none, some, Option, List, [], ◌∷◌, ◌++◌, ◌&&◌,
  ◌==◌, leb, length, take, drop, Run, ok, panic, ◌>>=◌, index, slice, copy_slice, length-copied,
  arith, Bool-cases,
}
use rumcake.Via.Lights.{put, on_slice}
use rumcake.Backlight.Simple.{BacklightConfig as SimpleConfig}
use rumcake.Via.Lights.Simple.{
  ViaBacklightValue, value_reply as simple_backlight_value_reply,
  get_value as get_simple_backlight_value, value_from_u8 as simple_backlight_value_from_u8,
}
use rumcake.Backlight.SimpleMatrix.{BacklightConfig as SimpleMatrixConfig}
use rumcake.Via.Lights.SimpleMatrix.{
  ViaLedMatrixValue, value_reply as simple_backlight_matrix_value_reply,
  get_value as get_simple_backlight_matrix_value,
  value_from_u8 as simple_backlight_matrix_value_from_u8,
}
use rumcake.Backlight.RgbMatrix.{BacklightConfig as RgbMatrixConfig}
use rumcake.Via.Lights.RgbMatrix.{
  ViaRgbMatrixValue, value_reply as rgb_backlight_matrix_value_reply,
  get_value as get_rgb_backlight_matrix_value, value_from_u8 as rgb_backlight_matrix_value_from_u8,
}
use rumcake.Underglow.{UnderglowConfig as UnderglowConfig}
use rumcake.Via.Lights.Underglow.{
  ViaRgbLightValue, value_reply as underglow_value_reply, get_value as get_underglow_value,
  value_from_u8 as underglow_value_from_u8,
}

-- A slice that is copied into a list does not change its length.
copied_length :
    (xs : List ℕ) (from to : ℕ) (src r : List ℕ)
    → copy_slice xs from to src ≡ ok r
    → length r ≡ length xs
unfolding copy_slice
copied_length xs from to src r h =
    elim (Bool-cases (leb from to && (leb to (length xs) && (to - from == length src)))) [
      | inl fits ↦
          let whole : to ≡ from + length src = ground arith in
          let within : to ≤ length xs = ground arith in
          let copied : ◌≡◌ {A = Run (List ℕ)} (ok (take from xs ++ (src ++ drop to xs))) (ok r) =
            rw fits at h in
          let result : take from xs ++ (src ++ drop to xs) ≡ r = cc in
          ap length (sym result) ∙ length-copied xs from to src whole within
      | inr other ↦ let nothing : ◌≡◌ {A = Run (List ℕ)} panic (ok r) = rw other at h in cc
    ]

-- What holds of all results of a run holds of its result behind another run.
pub behind {ℓ κ} :
    {A : Type ℓ} {B : Type κ} (P : B → Type 0) (r : Run A) (g : A → Run B)
    → ((a : A) (b : B) → g a ≡ ok b → P b)
    → (b : B) → (r >>= g) ≡ ok b
    → P b
behind P (ok a) g all b h = all a b h
behind P panic g all b h = cc

pub put-length : (xs : List ℕ) (i v : ℕ) (r : List ℕ) → put xs i v ≡ ok r → length r ≡ length xs
unfolding put
put-length xs i v r h = copied_length xs i (i + 1) (v ∷ []) r h

pub on_slice-length :
    (xs : List ℕ) (from to : ℕ) (handler : List ℕ → Run (List ℕ)) (r : List ℕ)
    → on_slice xs from to handler ≡ ok r
    → length r ≡ length xs
unfolding on_slice
on_slice-length xs from to handler r h =
    behind (λ r. length r ≡ length xs) (slice xs from to) _
      (λ part r' h'.
        behind (λ r. length r ≡ length xs) (handler part) _
          (λ src r'' h''. copied_length xs from to src r'' h'') r' h')
      r h

simple_backlight_reply_length :
    (config : SimpleConfig) (bytes : List ℕ) (v : Option ViaBacklightValue) (r : List ℕ)
    → simple_backlight_value_reply config bytes v ≡ ok r
    → length r ≡ length bytes
unfolding simple_backlight_value_reply
simple_backlight_reply_length config bytes none r h = cc
simple_backlight_reply_length config bytes (some ViaBacklightValue.brightness) r h =
    on_slice-length bytes 3 4 _ r h
simple_backlight_reply_length config bytes (some ViaBacklightValue.effect) r h =
    on_slice-length bytes 3 4 _ r h
simple_backlight_reply_length config bytes (some ViaBacklightValue.effect_speed) r h =
    on_slice-length bytes 3 4 _ r h
simple_backlight_reply_length config bytes (some ViaBacklightValue.enabled) r h =
    on_slice-length bytes 3 4 _ r h

pub get_simple_backlight_length :
    (config : SimpleConfig) (bytes r : List ℕ)
    → get_simple_backlight_value config bytes ≡ ok r
    → length r ≡ length bytes
unfolding get_simple_backlight_value
get_simple_backlight_length config bytes =
    behind (λ r. length r ≡ length bytes) (index bytes 2) _
      (λ id. simple_backlight_reply_length config bytes (simple_backlight_value_from_u8 id))

simple_backlight_matrix_reply_length :
    (config : SimpleMatrixConfig) (bytes : List ℕ) (v : Option ViaLedMatrixValue) (r : List ℕ)
    → simple_backlight_matrix_value_reply config bytes v ≡ ok r
    → length r ≡ length bytes
unfolding simple_backlight_matrix_value_reply
simple_backlight_matrix_reply_length config bytes none r h = cc
simple_backlight_matrix_reply_length config bytes (some ViaLedMatrixValue.brightness) r h =
    on_slice-length bytes 3 4 _ r h
simple_backlight_matrix_reply_length config bytes (some ViaLedMatrixValue.effect) r h =
    on_slice-length bytes 3 4 _ r h
simple_backlight_matrix_reply_length config bytes (some ViaLedMatrixValue.effect_speed) r h =
    on_slice-length bytes 3 4 _ r h
simple_backlight_matrix_reply_length config bytes (some ViaLedMatrixValue.enabled) r h =
    on_slice-length bytes 3 4 _ r h

pub get_simple_backlight_matrix_length :
    (config : SimpleMatrixConfig) (bytes r : List ℕ)
    → get_simple_backlight_matrix_value config bytes ≡ ok r
    → length r ≡ length bytes
unfolding get_simple_backlight_matrix_value
get_simple_backlight_matrix_length config bytes =
    behind (λ r. length r ≡ length bytes) (index bytes 2) _
      (λ id.
        simple_backlight_matrix_reply_length config bytes
          (simple_backlight_matrix_value_from_u8 id))

rgb_backlight_matrix_reply_length :
    (config : RgbMatrixConfig) (bytes : List ℕ) (v : Option ViaRgbMatrixValue) (r : List ℕ)
    → rgb_backlight_matrix_value_reply config bytes v ≡ ok r
    → length r ≡ length bytes
unfolding rgb_backlight_matrix_value_reply
rgb_backlight_matrix_reply_length config bytes none r h = cc
rgb_backlight_matrix_reply_length config bytes (some ViaRgbMatrixValue.brightness) r h =
    on_slice-length bytes 3 4 _ r h
rgb_backlight_matrix_reply_length config bytes (some ViaRgbMatrixValue.effect) r h =
    on_slice-length bytes 3 4 _ r h
rgb_backlight_matrix_reply_length config bytes (some ViaRgbMatrixValue.effect_speed) r h =
    on_slice-length bytes 3 4 _ r h
rgb_backlight_matrix_reply_length config bytes (some ViaRgbMatrixValue.color) r h =
    on_slice-length bytes 3 5 _ r h
rgb_backlight_matrix_reply_length config bytes (some ViaRgbMatrixValue.enabled) r h =
    on_slice-length bytes 3 4 _ r h

pub get_rgb_backlight_matrix_length :
    (config : RgbMatrixConfig) (bytes r : List ℕ)
    → get_rgb_backlight_matrix_value config bytes ≡ ok r
    → length r ≡ length bytes
unfolding get_rgb_backlight_matrix_value
get_rgb_backlight_matrix_length config bytes =
    behind (λ r. length r ≡ length bytes) (index bytes 2) _
      (λ id. rgb_backlight_matrix_reply_length config bytes (rgb_backlight_matrix_value_from_u8 id))

underglow_reply_length :
    (config : UnderglowConfig) (bytes : List ℕ) (v : Option ViaRgbLightValue) (r : List ℕ)
    → underglow_value_reply config bytes v ≡ ok r
    → length r ≡ length bytes
unfolding underglow_value_reply
underglow_reply_length config bytes none r h = cc
underglow_reply_length config bytes (some ViaRgbLightValue.brightness) r h =
    on_slice-length bytes 3 4 _ r h
underglow_reply_length config bytes (some ViaRgbLightValue.effect) r h =
    on_slice-length bytes 3 4 _ r h
underglow_reply_length config bytes (some ViaRgbLightValue.effect_speed) r h =
    on_slice-length bytes 3 4 _ r h
underglow_reply_length config bytes (some ViaRgbLightValue.color) r h =
    on_slice-length bytes 3 5 _ r h
underglow_reply_length config bytes (some ViaRgbLightValue.enabled) r h =
    on_slice-length bytes 3 4 _ r h

pub get_underglow_length :
    (config : UnderglowConfig) (bytes r : List ℕ)
    → get_underglow_value config bytes ≡ ok r
    → length r ≡ length bytes
unfolding get_underglow_value
get_underglow_length config bytes =
    behind (λ r. length r ≡ length bytes) (index bytes 2) _
      (λ id. underglow_reply_length config bytes (underglow_value_from_u8 id))
