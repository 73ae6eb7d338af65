-- ===== src/Via/Macros/Mirrors.antt =====
-- The stored macros and the macro buffer of rumcake/src/via/mod.rs, when a window is copied into both.
use rumcake.Prelude.{
  ℕ, zero, suc, ◌+◌, ◌-◌, ◌≤◌, ◌≡◌, refl, sym, ap, ◌∙◌, List, [], ◌∷◌, ◌++◌, length, take, drop,
  replicate, max, arith, length-take, length-replicate, length-copied,
}

-- The bytes of the buffer that are not stored are zeros.
pub record Mirrors (stored buffer : List ℕ) : Type 0 where
  pub fits : length stored ≤ length buffer
  pub padded : buffer ≡ stored ++ drop (length stored) (replicate (length buffer) 0)

take-drop : (n : ℕ) (xs : List ℕ) → take n xs ++ drop n xs ≡ xs
take-drop zero xs = refl
take-drop (suc n) [] = refl
take-drop (suc n) (x ∷ xs) = ap (λ r. x ∷ r) (take-drop n xs)

-- Behind the first list only the second one counts.
drop-append_past :
    (xs ys ys' : List ℕ) (q : ℕ)
    → length xs ≤ q
    → ys ≡ ys'
    → drop q (xs ++ ys) ≡ drop (q - length xs) ys'
drop-append_past [] ys ys' q h e = let same : q - 0 ≡ q = omega arith in rw (same, e)
drop-append_past (x ∷ xs) ys ys' zero h e = absurd (omega arith)
drop-append_past (x ∷ xs) ys ys' (suc q) h e =
    let same : suc q - suc (length xs) ≡ q - length xs = omega arith in
    rw same (drop-append_past xs ys ys' q (omega arith) e)

drop-nil : (n : ℕ) → drop {A = ℕ} n [] ≡ []
drop-nil zero = refl
drop-nil (suc n) = refl

drop-drop_to : (xs : List ℕ) (n q : ℕ) → n ≤ q → drop (q - n) (drop n xs) ≡ drop q xs
drop-drop_to xs zero q h = let same : q - 0 ≡ q = omega arith in rw same
drop-drop_to [] (suc n) zero h = absurd (omega arith)
drop-drop_to [] (suc n) (suc q) h = drop-nil (suc q - suc n)
drop-drop_to (x ∷ xs) (suc n) zero h = absurd (omega arith)
drop-drop_to (x ∷ xs) (suc n) (suc q) h =
    let same : suc q - suc n ≡ q - n = omega arith in rw same (drop-drop_to xs n q (omega arith))

module _ (stored buffer : List ℕ) (mirrors : Mirrors stored buffer) where
  behind_stored : (q : ℕ) → length stored ≤ q → drop q buffer ≡ drop q (replicate (length buffer) 0)
  behind_stored q h =
      let zeros = replicate (length buffer) 0 in
      ap (drop q) mirrors.padded
      ∙ drop-append_past stored (drop (length stored) zeros) (drop (length stored) zeros) q h refl
      ∙ drop-drop_to zeros (length stored) q h

  module _ (offset to : ℕ) (src : List ℕ) (window : to ≡ offset + length src)
      (within : to ≤ length buffer) where
    abbrev copied : List ℕ
    copied = take offset buffer ++ (src ++ drop to buffer)

    behind_copied : (q : ℕ) → to ≤ q → drop q copied ≡ drop q buffer
    behind_copied q h =
        let start : length (take offset buffer) ≡ offset =
          omega (arith, length-take offset buffer) in
        let left : q - length (take offset buffer) - length src ≡ q - to = omega arith in
        drop-append_past (take offset buffer) (src ++ drop to buffer) (src ++ drop to buffer) q
          (omega arith) refl
        ∙ drop-append_past src (drop to buffer) (drop to buffer) (q - length (take offset buffer))
            (omega arith) refl
        ∙ ap (λ n. drop n (drop to buffer)) left
        ∙ drop-drop_to buffer to q h

    pub copied-Mirrors : (q : ℕ) → q ≡ max (length stored) to → Mirrors (take q copied) copied
    copied-Mirrors q e =
        let size : length copied ≡ length buffer =
          length-copied buffer offset to src window within in
        let kept : length (take q copied) ≡ q = omega (arith, length-take q copied, mirrors.fits) in
        record {
          fits = omega (arith, mirrors.fits);
          padded =
              sym (take-drop q copied)
              ∙ ap (λ r. take q copied ++ r)
                  (behind_copied q (omega arith)
                    ∙ behind_stored q (omega arith)
                    ∙ rw (size, kept) refl);
        }

pub zeros-Mirrors : (size : ℕ) → Mirrors [] (replicate size 0)
zeros-Mirrors size = record {
  fits = omega arith;
  padded = ap (λ n. replicate n 0) (sym (length-replicate {A = ℕ} size 0));
}
