-- ===== src/Lighting/Select.antt =====
-- The walk over the variants reaches every one of them, and what that means for the loops that
-- look for the next or the previous effect.
use rumcake.Prelude.{
  ℕ, zero, suc, ◌+◌, ◌-◌, ◌<◌, ◌≡◌, refl, sym, ap, ◌∙◌, Bool, false, some, List, [], ◌∷◌, length,
  get_elem?, arith, iterate, do_while, do_while_ends,
}
use native.Mathlib.Decide.{dec_lt, ℕ_discrete}
use rumcake.Lighting.{Variants, IsEnum, increment, decrement}
use rumcake.Lighting.Cycle.{
  discriminant-lt, discriminant-injective, get_elem?-some, increment-next, increment-wrap,
  decrement-prev, decrement-wrap,
}

iterate-add {ℓ} :
    {S : Type ℓ} (m n : ℕ) (f : S → S) (s : S) → iterate (m + n) f s ≡ iterate n f (iterate m f s)
unfolding iterate
iterate-add zero n f s = let e : 0 + n ≡ n = omega arith in rw e
iterate-add (suc m) n f s =
    let e : suc m + n ≡ suc (m + n) = omega arith in rw e (iterate-add m n f (f s))

iterate-suc {ℓ} : {S : Type ℓ} (n : ℕ) (f : S → S) (s : S) → iterate (suc n) f s ≡ f (iterate n f s)
unfolding iterate
iterate-suc zero f s = refl
iterate-suc (suc n) f s = iterate-suc n f (f s)

module _ {E : Type 0} (v : Variants E) (enum : IsEnum v) where
  pub at_index : (i : ℕ) → i < length v.variants → (t : E) × (v.discriminant t ≡ i)
  at_index i h = let (t, e) = get_elem?-some v.variants i h in (t, enum.counted t i e)

  -- `decrement` undoes `increment`.
  decrement-increment : (e : E) → decrement v (increment v e) ≡ e
  decrement-increment e = elim (ℕ_discrete (suc (v.discriminant e)) (length v.variants)) [
    | yes last ↦
        let (t, h) = at_index 0 (omega (arith, discriminant-lt v enum e)) in
        rw (increment-wrap v enum e t last h) (decrement-wrap v enum t e h last)
    | no inner ↦
        let (t, h) = at_index (suc (v.discriminant e)) (omega (arith, discriminant-lt v enum e)) in
        rw (increment-next v enum e t h) (decrement-prev v enum t e h)
  ]

  -- `increment` undoes `decrement`.
  increment-decrement : (e : E) → increment v (decrement v e) ≡ e
  increment-decrement e = elim (ℕ_discrete (v.discriminant e) 0) [
    | yes first ↦
        let (t, h) = at_index (length v.variants - 1) (omega (arith, discriminant-lt v enum e)) in
        let last : suc (v.discriminant t) ≡ length v.variants =
          omega (arith, discriminant-lt v enum e) in
        rw (decrement-wrap v enum e t first last) (increment-wrap v enum t e last first)
    | no inner ↦
        let (t, h) = at_index (v.discriminant e - 1) (omega (arith, discriminant-lt v enum e)) in
        let next : v.discriminant e ≡ suc (v.discriminant t) = omega arith in
        rw (decrement-prev v enum e t next) (increment-next v enum t e next)
  ]

  -- `n` steps up from `e`, where no wrap lies between.
  climbs :
      (n : ℕ) (e t : E) → v.discriminant t ≡ v.discriminant e + n → iterate n (increment v) e ≡ t
  unfolding iterate
  climbs zero e t h = discriminant-injective v enum e t (omega arith)
  climbs (suc n) e t h =
      let (m, k) = at_index (suc (v.discriminant e)) (omega (arith, discriminant-lt v enum t)) in
      rw (increment-next v enum e m k) (climbs n m t (omega arith))

  -- Up to the last variant, around to the first one, and up to `t`.
  wraps :
      (e t : E)
      → iterate (length v.variants - 1 - v.discriminant e + suc (v.discriminant t)) (increment v) e
        ≡ t
  unfolding iterate
  wraps e t =
      let (last, hl) = at_index (length v.variants - 1) (omega (arith, discriminant-lt v enum e)) in
      let (first, hf) = at_index 0 (omega (arith, discriminant-lt v enum e)) in
      rw (iterate-add _ (suc (v.discriminant t)) (increment v) e) (
        rw
          (climbs (length v.variants - 1 - v.discriminant e) e last
            (omega (arith, discriminant-lt v enum e)))
          (rw (increment-wrap v enum last first (omega (arith, discriminant-lt v enum e)) hf)
            (climbs (v.discriminant t) first t (omega arith))))

  -- Every variant comes up within as many increments as there are variants.
  pub increment-reaches :
      (e t : E) → (k : ℕ) × (k < length v.variants) × (iterate (suc k) (increment v) e ≡ t)
  increment-reaches e t = elim (dec_lt (v.discriminant e) (v.discriminant t)) [
    | yes up ↦
        let k = v.discriminant t - v.discriminant e - 1 in
        (k, omega (arith, discriminant-lt v enum t), climbs (suc k) e t (omega arith))
    | no over ↦
        let k = length v.variants - 1 - v.discriminant e + v.discriminant t in
        let rounds : length v.variants - 1 - v.discriminant e + suc (v.discriminant t) ≡ suc k =
          omega arith in
        (k, omega (arith, discriminant-lt v enum e), rw rounds at (wraps e t))
  ]

  -- The same downwards.
  decrement-iterate :
      (n : ℕ) (e t : E) → iterate n (increment v) e ≡ t → iterate n (decrement v) t ≡ e
  unfolding iterate
  decrement-iterate zero e t h = sym h
  decrement-iterate (suc n) e t h =
      let below = decrement-iterate n (increment v e) t h in
      iterate-suc n (decrement v) t ∙ ap (decrement v) below ∙ decrement-increment e

  pub decrement-reaches :
      (e t : E) → (k : ℕ) × (k < length v.variants) × (iterate (suc k) (decrement v) e ≡ t)
  decrement-reaches e t =
      let (k, h, r) = increment-reaches t e in (k, h, decrement-iterate (suc k) t e r)

  -- A loop over the variants ends, in either direction, if its test fails at some variant.
  module _ (test : E → Bool) (t : E) (stops : test t ≡ false) where
    pub increment_loop_ends :
        (e : E) → (e' : E) × (do_while (length v.variants) (increment v) test e ≡ some e')
    increment_loop_ends e =
        let (k, h, r) = increment-reaches e t in
        do_while_ends (increment v) test k (length v.variants) e (rw r stops) h

    pub decrement_loop_ends :
        (e : E) → (e' : E) × (do_while (length v.variants) (decrement v) test e ≡ some e')
    decrement_loop_ends e =
        let (k, h, r) = decrement-reaches e t in
        do_while_ends (decrement v) test k (length v.variants) e (rw r stops) h

-- What `IsEnum.counted` asks of a written list of variants.
abbrev pub Counts : {E : Type 0} → (E → ℕ) → ℕ → List E → Type 0
Counts disc i [] = Unit {0}
Counts disc i (x ∷ xs) = (disc x ≡ i) × Counts disc (suc i) xs

counted_from :
    {E : Type 0} (disc : E → ℕ) (xs : List E) (b i : ℕ) (e : E)
    → Counts disc b xs
    → get_elem? xs i ≡ some e
    → disc e ≡ b + i
counted_from disc [] b i e c h = cc
counted_from disc (x ∷ xs) b zero e (c, cs) h =
    let same : x ≡ e = (cc) in let start : disc x ≡ b + 0 = omega (arith, c) in rw same at start
counted_from disc (x ∷ xs) b (suc i) e (c, cs) h =
    counted_from disc xs (suc b) i e cs h ∙ omega arith

pub IsEnum-of :
    {E : Type 0} (v : Variants E)
    → ((e : E) → get_elem? v.variants (v.discriminant e) ≡ some e)
    → Counts v.discriminant 0 v.variants
    → IsEnum v
IsEnum-of v nth c = record {
  nth = nth;
  counted = λ e i h. counted_from v.discriminant v.variants 0 i e c h ∙ omega arith;
}
