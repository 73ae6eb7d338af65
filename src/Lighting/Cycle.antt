-- ===== src/Lighting/Cycle.antt =====
-- `increment` and `decrement` walk the variants in order and wrap around.
use rumcake.Prelude.{
  ℕ, zero, suc, ◌<◌, ◌≡◌, refl, sym, ap, ◌∙◌, some, List, [], ◌∷◌, ◌++◌, length, get_elem?, arith,
  length-append,
}
use rumcake.Lighting.{
  rotate_left, rotate_right, last_of, before_last, Variants, IsEnum, select_arm, increment,
  decrement,
}

module _ {ℓ} {A : Type ℓ} where
  get_elem?-append_lt :
      (xs ys : List A) (i : ℕ) → i < length xs → get_elem? (xs ++ ys) i ≡ get_elem? xs i
  get_elem?-append_lt [] ys i h = elim h [ ]
  get_elem?-append_lt (x ∷ xs) ys zero h = refl
  get_elem?-append_lt (x ∷ xs) ys (suc i) h = get_elem?-append_lt xs ys i (omega arith)

  get_elem?-append_end : (xs : List A) (x : A) → get_elem? (xs ++ (x ∷ [])) (length xs) ≡ some x
  get_elem?-append_end [] x = refl
  get_elem?-append_end (y ∷ xs) x = get_elem?-append_end xs x

  get_elem?-before_last :
      (x : A) (xs : List A) (i : ℕ)
      → i < length xs
      → get_elem? (before_last x xs) i ≡ get_elem? (x ∷ xs) i
  get_elem?-before_last x [] i h = elim h [ ]
  get_elem?-before_last x (y ∷ ys) zero h = refl
  get_elem?-before_last x (y ∷ ys) (suc i) h = get_elem?-before_last y ys i (omega arith)

  get_elem?-last_of : (x : A) (xs : List A) → get_elem? (x ∷ xs) (length xs) ≡ some (last_of x xs)
  get_elem?-last_of x [] = refl
  get_elem?-last_of x (y ∷ ys) = get_elem?-last_of y ys

  length-before_last : (x : A) (xs : List A) → length (before_last x xs) ≡ length xs
  length-before_last x [] = refl
  length-before_last x (y ∷ ys) = ap suc (length-before_last y ys)

  pub length-rotate_left : (xs : List A) → length (rotate_left xs) ≡ length xs
  unfolding rotate_left
  length-rotate_left [] = refl
  length-rotate_left (x ∷ xs) = omega (arith, length-append xs (x ∷ []))

  pub length-rotate_right : (xs : List A) → length (rotate_right xs) ≡ length xs
  unfolding rotate_right
  length-rotate_right [] = refl
  length-rotate_right (x ∷ xs) = ap suc (length-before_last x xs)

  pub get_elem?_lt : (xs : List A) (i : ℕ) {a : A} → get_elem? xs i ≡ some a → i < length xs
  get_elem?_lt [] i h = cc
  get_elem?_lt (x ∷ xs) zero h = omega arith
  get_elem?_lt (x ∷ xs) (suc i) h = omega (arith, get_elem?_lt xs i h)

-- The arm that is taken is the one at the position of the matched variant.
select_arm_nth :
    {E : Type 0} (disc : E → ℕ) (xs ys : List E) (e : E) (i : ℕ) (t : E)
    → get_elem? xs i ≡ some e
    → ((a : E) (j : ℕ) → get_elem? xs j ≡ some a → disc a ≡ disc e → j ≡ i)
    → get_elem? ys i ≡ some t
    → select_arm disc xs ys e ≡ t
unfolding select_arm
select_arm_nth disc [] ys e i t hx first hy = cc
select_arm_nth disc (x ∷ xs) [] e i t hx first hy = cc
select_arm_nth disc (x ∷ xs) (y ∷ ys) e zero t hx first hy = ground arith
select_arm_nth disc (x ∷ xs) (y ∷ ys) e (suc i) t hx first hy = ground (
  arith,
  first x 0 refl,
  select_arm_nth disc xs ys e i t hx (λ a j h k. omega (arith, first a (suc j) h k)) hy,
)

module _ {E : Type 0} (v : Variants E) (enum : IsEnum v) where
  pub discriminant-injective : (a b : E) → v.discriminant a ≡ v.discriminant b → a ≡ b
  discriminant-injective a b h = cc (enum.nth a, enum.nth b)

  pub discriminant-lt : (e : E) → v.discriminant e < length v.variants
  discriminant-lt e = get_elem?_lt v.variants (v.discriminant e) (enum.nth e)

  first_arm :
      (e a : E) (j : ℕ)
      → get_elem? v.variants j ≡ some a
      → v.discriminant a ≡ v.discriminant e
      → j ≡ v.discriminant e
  first_arm e a j h k = omega (arith, enum.counted a j h)

  select-target :
      (ys : List E) (e t : E)
      → get_elem? ys (v.discriminant e) ≡ some t
      → select_arm v.discriminant v.variants ys e ≡ t
  select-target ys e t h =
      select_arm_nth v.discriminant v.variants ys e (v.discriminant e) t (enum.nth e) (first_arm e)
        h

module _ {ℓ} {A : Type ℓ} where
  pub get_elem?-some : (xs : List A) (i : ℕ) → i < length xs → (a : A) × (get_elem? xs i ≡ some a)
  get_elem?-some [] i h = elim h [ ]
  get_elem?-some (x ∷ xs) zero h = (x, refl)
  get_elem?-some (x ∷ xs) (suc i) h = get_elem?-some xs i (omega arith)

  rotate_left_nth :
      (xs : List A) (i : ℕ) (t : A)
      → get_elem? xs (suc i) ≡ some t
      → get_elem? (rotate_left xs) i ≡ some t
  unfolding rotate_left
  rotate_left_nth [] i t h = cc
  rotate_left_nth (x ∷ xs) i t h = get_elem?-append_lt xs (x ∷ []) i (get_elem?_lt xs i h) ∙ h

  rotate_left_last :
      (xs : List A) (i : ℕ) (t : A)
      → suc i ≡ length xs
      → get_elem? xs 0 ≡ some t
      → get_elem? (rotate_left xs) i ≡ some t
  unfolding rotate_left
  rotate_left_last [] i t h k = cc
  rotate_left_last (x ∷ xs) i t h k =
      let e : i ≡ length xs = omega arith in rw e (get_elem?-append_end xs x ∙ k)

  rotate_right_nth :
      (xs : List A) (i : ℕ) (t : A)
      → suc i < length xs
      → get_elem? xs i ≡ some t
      → get_elem? (rotate_right xs) (suc i) ≡ some t
  unfolding rotate_right
  rotate_right_nth [] i t h k = elim h [ ]
  rotate_right_nth (x ∷ xs) i t h k = get_elem?-before_last x xs i (omega arith) ∙ k

  rotate_right_first :
      (xs : List A) (i : ℕ) (t : A)
      → suc i ≡ length xs
      → get_elem? xs i ≡ some t
      → get_elem? (rotate_right xs) 0 ≡ some t
  unfolding rotate_right
  rotate_right_first [] i t h k = cc
  rotate_right_first (x ∷ xs) i t h k =
      let e : i ≡ length xs = omega arith in sym (get_elem?-last_of x xs) ∙ (rw e at k)

module _ {E : Type 0} (v : Variants E) (enum : IsEnum v) where
  pub increment-next : (e t : E) → v.discriminant t ≡ suc (v.discriminant e) → increment v e ≡ t
  unfolding increment
  increment-next e t h =
      select-target v enum _ e t (rotate_left_nth v.variants _ t (rw h at (enum.nth t)))

  pub increment-wrap :
      (e t : E)
      → suc (v.discriminant e) ≡ length v.variants
      → v.discriminant t ≡ 0
      → increment v e ≡ t
  unfolding increment
  increment-wrap e t h k =
      select-target v enum _ e t (rotate_left_last v.variants _ t h (rw k at (enum.nth t)))

  pub decrement-prev : (e t : E) → v.discriminant e ≡ suc (v.discriminant t) → decrement v e ≡ t
  unfolding decrement
  decrement-prev e t h =
      select-target v enum _ e t
        (rw h (rotate_right_nth v.variants _ t (rw h at (discriminant-lt v enum e)) (enum.nth t)))

  pub decrement-wrap :
      (e t : E)
      → v.discriminant e ≡ 0
      → suc (v.discriminant t) ≡ length v.variants
      → decrement v e ≡ t
  unfolding decrement
  decrement-wrap e t h k =
      select-target v enum _ e t (rw h (rotate_right_first v.variants _ t k (enum.nth t)))
