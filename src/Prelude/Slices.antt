-- ===== src/Prelude/Slices.antt =====
-- A run of Rust code that returns a value or panics, and the slice operations that may panic.
use Prim.Native.Nat.{ℕ, ◌+◌, ◌-◌, ◌*◌, ◌/◌, ◌%◌, ◌≤◌, ◌<◌}
use mathlib.Core.Path.{◌≡◌, refl, ap, ◌∙◌}
use native.Mathlib.Omega.{arith}
use mathlib.Core.Bool.{true, ◌&&◌}
use mathlib.Core.List.{List, [], ◌∷◌, ◌++◌}
use mathlib.Core.Option.{Option, none, some}
use rumcake.Prelude.Tests.{leb, ◌==◌, if◌then◌else◌}
use rumcake.Prelude.Lists.{
  length, take, drop, get_elem?, length-append, length-take, length-drop, take-length_append,
  drop-length_append,
}

pub data Run {ℓ} (A : Type ℓ) : Type ℓ where
  ok : A → Run A
  panic : Run A

infixl 5 ◌>>=◌
abbrev pub ◌>>=◌ {ℓ κ} : {A : Type ℓ} {B : Type κ} → Run A → (A → Run B) → Run B
ok a >>= f = f a
panic >>= f = panic

-- `unwrap()`, and indexing in general: `none` panics.
abbrev pub unwrap {ℓ} : {A : Type ℓ} → Option A → Run A
unwrap none = panic
unwrap (some a) = ok a

module _ {ℓ} {A : Type ℓ} where
  -- `&data[from..to]`
  unfoldable pub slice : List A → ℕ → ℕ → Run (List A)
  slice xs from to =
      if leb from to && leb to (length xs) then ok (take (to - from) (drop from xs)) else panic

  -- `data[from..to].copy_from_slice(src)`: the ranges must fit and have the same length.
  unfoldable pub copy_slice : List A → ℕ → ℕ → List A → Run (List A)
  copy_slice xs from to src =
      if leb from to && (leb to (length xs) && (to - from == length src))
      then ok (take from xs ++ (src ++ drop to xs))
      else panic

  -- `data[i]`
  unfoldable pub index : List A → ℕ → Run A
  index xs i = unwrap (get_elem? xs i)

-- `u16::to_be_bytes` and `u16::from_be_bytes`.
unfoldable pub to_be_bytes : ℕ → List ℕ
to_be_bytes n = n / 256 % 256 ∷ n % 256 ∷ []

unfoldable pub from_be_bytes : List ℕ → Run ℕ
from_be_bytes (hi ∷ lo ∷ []) = ok (hi * 256 + lo)
from_be_bytes _ = panic

module _ {ℓ} {A : Type ℓ} where
  pub slice_ok :
      (xs : List A) (from to : ℕ)
      → from ≤ to
      → to ≤ length xs
      → slice xs from to ≡ ok (take (to - from) (drop from xs))
  unfolding slice
  slice_ok xs from to h k =
      let fits : leb from to && leb to (length xs) ≡ true = ground arith in rw fits

  pub slice_panics : (xs : List A) (from to : ℕ) → length xs < to → slice xs from to ≡ panic
  unfolding slice
  slice_panics xs from to h = ground arith

  pub copy_slice_ok :
      (xs : List A) (from to : ℕ) (src : List A)
      → to ≡ from + length src
      → to ≤ length xs
      → copy_slice xs from to src ≡ ok (take from xs ++ (src ++ drop to xs))
  unfolding copy_slice
  copy_slice_ok xs from to src e h =
      let fits : leb from to && (leb to (length xs) && (to - from == length src)) ≡ true =
        ground arith in
      rw fits

  pub copy_slice_panics :
      (xs : List A) (from to : ℕ) (src : List A)
      → length xs < to
      → copy_slice xs from to src ≡ panic
  unfolding copy_slice
  copy_slice_panics xs from to src h = ground arith

  -- A window of a list with one in its place is that window.
  pub take-drop_window :
      (xs src ys : List A) (from : ℕ)
      → from ≡ length xs
      → take (length src) (drop from (xs ++ (src ++ ys))) ≡ src
  take-drop_window xs src ys from e =
      rw (e, drop-length_append xs (src ++ ys)) (take-length_append src ys)

  pub length-copied :
      (xs : List A) (from to : ℕ) (src : List A)
      → to ≡ from + length src
      → to ≤ length xs
      → length (take from xs ++ (src ++ drop to xs)) ≡ length xs
  length-copied xs from to src e h = omega (
    arith,
    length-append (take from xs) (src ++ drop to xs),
    length-append src (drop to xs),
    length-take from xs,
    length-drop to xs,
  )

  pub prefix_ok : (xs : List A) (to : ℕ) → to ≤ length xs → slice xs 0 to ≡ ok (take to xs)
  prefix_ok xs to h =
      let whole : to - 0 ≡ to = omega arith in rw whole at (slice_ok xs 0 to (omega arith) h)

  -- `xs[..to].copy_from_slice(src)`
  pub copy_prefix_ok :
      (xs : List A) (to : ℕ) (src : List A)
      → to ≡ length src
      → to ≤ length xs
      → copy_slice xs 0 to src ≡ ok (src ++ drop to xs)
  copy_prefix_ok xs to src e h = copy_slice_ok xs 0 to src (omega arith) h

  -- What was copied into a window is what the window has.
  pub slice-copied :
      (xs : List A) (from to : ℕ) (src : List A)
      → to ≡ from + length src
      → to ≤ length xs
      → slice (take from xs ++ (src ++ drop to xs)) from to ≡ ok src
  slice-copied xs from to src e h =
      let width : to - from ≡ length src = omega arith in
      let start : from ≡ length (take from xs) = omega (arith, length-take from xs) in
      slice_ok _ from to (omega arith) (omega (arith, length-copied xs from to src e h))
      ∙ ap ok (rw width (take-drop_window (take from xs) src (drop to xs) from start))

-- What a run that returns has done first.
pub bind_ok {ℓ κ} :
    {A : Type ℓ} {B : Type κ} (r : Run A) (f : A → Run B) (b : B)
    → (r >>= f) ≡ ok b
    → (a : A) × (r ≡ ok a) × (f a ≡ ok b)
bind_ok (ok a) f b h = (a, refl, h)
bind_ok panic f b h = cc
