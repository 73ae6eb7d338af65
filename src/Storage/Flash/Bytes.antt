-- ===== src/Storage/Flash/Bytes.antt =====
-- The bytes of lists by their places, for the buffer of a page of the flash in rumcake/src/storage.rs.
use rumcake.Prelude.{
  ℕ, zero, suc, ◌+◌, ◌-◌, ◌≤◌, ◌<◌, ◌≡◌, ◌∙◌, refl, ap, ◌&&◌, List, [], ◌∷◌, ◌++◌, length, get_or,
  take, drop, length-take, ltb, leb, if◌then◌else◌, arith,
}
use native.Mathlib.Decide.{dec_lt}

get_or-take : (xs : List ℕ) (n i : ℕ) → i < n → get_or (take n xs) i 0 ≡ get_or xs i 0
get_or-take xs zero i h = absurd (omega arith)
get_or-take [] (suc n) i h = refl
get_or-take (x ∷ xs) (suc n) zero h = refl
get_or-take (x ∷ xs) (suc n) (suc i) h = get_or-take xs n i (omega arith)

get_or-drop : (xs : List ℕ) (n i : ℕ) → get_or (drop n xs) i 0 ≡ get_or xs (n + i) 0
get_or-drop xs zero i = let same : i ≡ 0 + i = omega arith in ap (λ j. get_or xs j 0) same
get_or-drop [] (suc n) i = refl
get_or-drop (x ∷ xs) (suc n) i =
    let same : suc (n + i) ≡ suc n + i = omega arith in
    get_or-drop xs n i ∙ ap (λ j. get_or (x ∷ xs) j 0) same

get_or-append :
    (xs ys : List ℕ) (i : ℕ)
    → get_or (xs ++ ys) i 0
      ≡ (if ltb i (length xs) then get_or xs i 0 else get_or ys (i - length xs) 0)
get_or-append [] ys i = ground arith
get_or-append (x ∷ xs) ys zero = ground arith
get_or-append (x ∷ xs) ys (suc i) = ground (arith, get_or-append xs ys i)

-- The byte of a chunk at an address.
pub get_or-chunk :
    (xs : List ℕ) (page start a : ℕ)
    → page + start ≤ a
    → a < page + start + 512
    → get_or (take 512 (drop start xs)) (a - (page + start)) 0 ≡ get_or xs (a - page) 0
get_or-chunk xs page start a h k =
    get_or-take (drop start xs) 512 (a - (page + start)) (omega arith)
    ∙ get_or-drop xs start (a - (page + start))
    ∙ (let same : start + (a - (page + start)) ≡ a - page = omega arith in
        ap (λ j. get_or xs j 0) same)

-- What the buffer has after new data was copied into it.
pub get_or-patched :
    (op buf : List ℕ) (offset i : ℕ)
    → offset + length buf ≤ length op
    → get_or (take offset op ++ (buf ++ drop (offset + length buf) op)) i 0 ≡ (
        if leb offset i && ltb i (offset + length buf)
        then get_or buf (i - offset) 0
        else get_or op i 0)
get_or-patched op buf offset i fits =
    let front : length (take offset op) ≡ offset = omega (arith, length-take offset op) in
    let rest = drop (offset + length buf) op in
    let whole = get_or-append (take offset op) (buf ++ rest) i in
    let back = get_or-append buf rest (i - length (take offset op)) in
    elim (dec_lt i offset) [
      | yes before ↦ ground (arith, whole, front, get_or-take op offset i before)
      | no from ↦
          let place : i - length (take offset op) ≡ i - offset = omega (arith, front) in
          let back' : get_or (buf ++ rest) (i - length (take offset op)) 0 ≡ (
              if ltb (i - offset) (length buf)
              then get_or buf (i - offset) 0
              else get_or rest (i - offset - length buf) 0) =
            back
            ∙ ap
                (λ j. if ltb j (length buf) then get_or buf j 0 else get_or rest (j - length buf) 0)
                place in
          elim (dec_lt i (offset + length buf)) [
            | yes inside ↦ ground (arith, whole, front, back')
            | no behind ↦
                let there : offset + length buf + (i - offset - length buf) ≡ i = omega arith in
                let old : get_or rest (i - offset - length buf) 0 ≡ get_or op i 0 =
                  get_or-drop op (offset + length buf) (i - offset - length buf)
                  ∙ ap (λ j. get_or op j 0) there in
                ground (arith, whole, front, back', old)
          ]
    ]
