-- ===== src/Via/Keymap/Encode.antt =====
-- Keycodes as pairs of bytes, high byte first, in the packets of Via.
use rumcake.Prelude.{
  ℕ, suc, ◌+◌, ◌-◌, ◌*◌, ◌≤◌, ◌<◌, ◌≡◌, refl, sym, ap, ◌∙◌, List, [], ◌∷◌, ◌++◌, length, drop, ok,
  slice, copy_slice, slice_ok, prefix_ok, copy_slice_ok, to_be_bytes, from_be_bytes, arith,
  length-append, take-drop_window, take-length_append,
}

-- The keycodes as they stand in a buffer.
unfoldable pub encode : List ℕ → List ℕ
unfolding to_be_bytes
encode [] = []
encode (c ∷ cs) = to_be_bytes c ++ encode cs

pub length-encode : (cs : List ℕ) → length (encode cs) ≡ length cs * 2
unfolding encode to_be_bytes
length-encode [] = refl
length-encode (c ∷ cs) = omega (arith, length-encode cs)

pub prefix_encode :
    (cs after : List ℕ) → slice (encode cs ++ after) 0 (length cs * 2) ≡ ok (encode cs)
prefix_encode cs after =
    let size = length-encode cs in
    rw (sym size) (
      prefix_ok (encode cs ++ after) (length (encode cs))
        (omega (arith, length-append (encode cs) after))
      ∙ ap ok (take-length_append (encode cs) after))

pub be_bytes_round_trip : (c : ℕ) → c < 65536 → from_be_bytes (to_be_bytes c) ≡ ok c
unfolding from_be_bytes to_be_bytes
be_bytes_round_trip c h = ap ok (omega arith)

drop-pair :
    (before after : List ℕ) (x y : ℕ) → drop (length before + 2) (before ++ (x ∷ y ∷ after)) ≡ after
drop-pair [] after x y = refl
drop-pair (b ∷ before) after x y =
    let e : suc (length before) + 2 ≡ suc (length before + 2) = omega arith in
    rw e (drop-pair before after x y)

-- A pair of bytes behind `before`.
pub slice_pair :
    (before after : List ℕ) (c from : ℕ)
    → from ≡ length before
    → slice (before ++ (to_be_bytes c ++ after)) from (from + 2) ≡ ok (to_be_bytes c)
unfolding to_be_bytes
slice_pair before after c from h =
    let width : from + 2 - from ≡ 2 = omega arith in
    slice_ok _ from (from + 2) (omega arith)
      (omega (arith, length-append before (to_be_bytes c ++ after)))
    ∙ ap ok (rw width (take-drop_window before (to_be_bytes c) after from h))

pub copy_pair :
    (before after : List ℕ) (x y c from : ℕ)
    → from ≡ length before
    → copy_slice (before ++ (x ∷ y ∷ after)) from (from + 2) (to_be_bytes c)
      ≡ ok (before ++ (to_be_bytes c ++ after))
unfolding to_be_bytes
copy_pair before after x y c from h =
    let fits : from + 2 ≤ length (before ++ (x ∷ y ∷ after)) =
      omega (arith, length-append before (x ∷ y ∷ after)) in
    copy_slice_ok _ from (from + 2) (to_be_bytes c) refl fits
    ∙ ap ok (rw (h, take-length_append before (x ∷ y ∷ after), drop-pair before after x y))

pub behind_pair :
    (before after : List ℕ) (c : ℕ)
    → before ++ (to_be_bytes c ++ after) ≡ (before ++ to_be_bytes c) ++ after
unfolding to_be_bytes
behind_pair [] after c = refl
behind_pair (b ∷ before) after c = ap (λ r. b ∷ r) (behind_pair before after c)

pub length-pair :
    (before : List ℕ) (c o q : ℕ)
    → o ≤ q
    → length before ≡ q * 2 - o * 2
    → length (before ++ to_be_bytes c) ≡ suc q * 2 - o * 2
unfolding to_be_bytes
length-pair before c o q h e = omega (arith, length-append before (to_be_bytes c))
