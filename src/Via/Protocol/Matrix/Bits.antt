-- ===== src/Via/Protocol/Matrix/Bits.antt =====
-- The bits of a byte, and the bytes of a list, after one of them was changed.
use rumcake.Prelude.{
  index, ok, ℕ, zero, suc, ◌/◌, ◌%◌, ◌^◌, ◌<◌, ◌≡◌, refl, Bool, true, false, not, ◌&&◌, List, [],
  ◌∷◌, length, set, get_or, replicate, arith, ◌==◌, ltb, if◌then◌else◌, passes_below,
  passes_below_lem,
}
use rumcake.Via.Protocol.Matrix.{set_bit, clear_bit}

abbrev pub test_bit : ℕ → ℕ → Bool
test_bit byte bit = byte / 2 ^ bit % 2 == 1

abbrev same_bool : Bool → Bool → Bool
same_bool true b = b
same_bool false b = not b

same_bool_eq : (a b : Bool) → same_bool a b ≡ true → a ≡ b
same_bool_eq true true h = refl
same_bool_eq true false h = cc
same_bool_eq false true h = cc
same_bool_eq false false h = refl

-- What the two changes of a byte do to its bits.
bits_hold : ℕ → ℕ → ℕ → Bool
bits_hold j i b =
    same_bool (test_bit (set_bit b i) j) (if i == j then true else test_bit b j)
    && (same_bool (test_bit (clear_bit b i) j) (if i == j then false else test_bit b j)
        && (ltb (set_bit b i) 256 && ltb (clear_bit b i) 256))

bits_hold_everywhere :
    passes_below (λ b. passes_below (λ i. passes_below (λ j. bits_hold j i b) 8) 8) 256 ≡ true
unfolding passes_below bits_hold set_bit clear_bit
bits_hold_everywhere = refl

bits_hold_lem : (b i j : ℕ) → b < 256 → i < 8 → j < 8 → bits_hold j i b ≡ true
bits_hold_lem b i j hb hi hj =
    passes_below_lem (λ j. bits_hold j i b) 8 j hj
      (passes_below_lem (λ i. passes_below (λ j. bits_hold j i b) 8) 8 i hi
        (passes_below_lem (λ b. passes_below (λ i. passes_below (λ j. bits_hold j i b) 8) 8) 256 b
          hb bits_hold_everywhere))

&&-true : (a b : Bool) → (a && b) ≡ true → (a ≡ true) × (b ≡ true)
&&-true true b h = (refl, h)
&&-true false b h = cc

module _ (b i j : ℕ) (hb : b < 256) (hi : i < 8) (hj : j < 8) where
  parts :
      (same_bool (test_bit (set_bit b i) j) (if i == j then true else test_bit b j) ≡ true)
      × (same_bool (test_bit (clear_bit b i) j) (if i == j then false else test_bit b j) ≡ true)
      × (ltb (set_bit b i) 256 ≡ true)
      × (ltb (clear_bit b i) 256 ≡ true)
  unfolding bits_hold
  parts =
      let (set_ok, more) = &&-true _ _ (bits_hold_lem b i j hb hi hj) in
      let (clear_ok, bytes) = &&-true _ _ more in
      let (set_byte, clear_byte) = &&-true _ _ bytes in (set_ok, clear_ok, set_byte, clear_byte)

  pub test-set_bit : test_bit (set_bit b i) j ≡ (if i == j then true else test_bit b j)
  test-set_bit = same_bool_eq _ _ parts.0

  pub test-clear_bit : test_bit (clear_bit b i) j ≡ (if i == j then false else test_bit b j)
  test-clear_bit = same_bool_eq _ _ parts.1

  pub set_bit_byte : set_bit b i < 256
  set_bit_byte = let below = parts.2 in ground arith

  pub clear_bit_byte : clear_bit b i < 256
  clear_bit_byte = let below = parts.3 in ground arith

-- Every number of the list is a byte.
abbrev pub AllBytes : List ℕ → Type 0
AllBytes [] = Unit {0}
AllBytes (x ∷ xs) = (x < 256) × AllBytes xs

pub set-AllBytes : (xs : List ℕ) (i v : ℕ) → AllBytes xs → v < 256 → AllBytes (set xs i v)
set-AllBytes [] i v h hv = tt
set-AllBytes (x ∷ xs) zero v (hx, h) hv = (hv, h)
set-AllBytes (x ∷ xs) (suc i) v (hx, h) hv = (hx, set-AllBytes xs i v h hv)

pub get_or-byte : (xs : List ℕ) (i : ℕ) → AllBytes xs → get_or xs i 0 < 256
get_or-byte [] i h = omega arith
get_or-byte (x ∷ xs) zero (hx, h) = hx
get_or-byte (x ∷ xs) (suc i) (hx, h) = get_or-byte xs i h

pub get_or-set :
    (xs : List ℕ) (i j v : ℕ)
    → i < length xs
    → get_or (set xs i v) j 0 ≡ (if i == j then v else get_or xs j 0)
get_or-set [] i j v h = absurd (omega arith)
get_or-set (x ∷ xs) zero zero v h = refl
get_or-set (x ∷ xs) zero (suc j) v h = ground arith
get_or-set (x ∷ xs) (suc i) zero v h = ground arith
get_or-set (x ∷ xs) (suc i) (suc j) v h = ground (arith, get_or-set xs i j v (omega arith))

pub index-get_or : (xs : List ℕ) (i : ℕ) → i < length xs → index xs i ≡ ok (get_or xs i 0)
unfolding index
index-get_or [] i h = absurd (omega arith)
index-get_or (x ∷ xs) zero h = refl
index-get_or (x ∷ xs) (suc i) h = index-get_or xs i (omega arith)

pub zeros-AllBytes : (n : ℕ) → AllBytes (replicate n 0)
zeros-AllBytes zero = tt
zeros-AllBytes (suc n) = (omega arith, zeros-AllBytes n)

pub get_or-zeros : (n i : ℕ) → ◌≡◌ {A = ℕ} (get_or (replicate n 0) i 0) 0
get_or-zeros zero i = refl
get_or-zeros (suc n) zero = refl
get_or-zeros (suc n) (suc i) = get_or-zeros n i

pub test_bit_zero : (j : ℕ) → j < 8 → test_bit 0 j ≡ false
unfolding passes_below
test_bit_zero j h =
    same_bool_eq (test_bit 0 j) false
      (passes_below_lem (λ j. same_bool (test_bit 0 j) false) 8 j h refl)
