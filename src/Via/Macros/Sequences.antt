-- ===== src/Via/Macros/Sequences.antt =====
-- Which chunk of the macro buffer each sequence gets: rumcake/src/via/mod.rs,
-- `MacroBuffer::update_buffer`.
use rumcake.Prelude.{
  ℕ, zero, suc, ◌+◌, ◌≡◌, refl, none, some, List, [], ◌∷◌, length, drop, get_elem?, ok, copy_slice,
  bind_ok, arith,
}
use mathlib.Core.Option
use rumcake.Via.Macros.{Span, MacroBuffer, splitn, assign_chunks, update_buffer}

-- How many chunks are taken before sequence `i`: `1 + 2 + .. + i`.
abbrev pub taken_before : ℕ → ℕ
taken_before zero = 0
taken_before (suc i) = taken_before i + suc i

-- The chunk at a position, or what the sequence had.
abbrev pub chunk_or : List Span → ℕ → Span → Span
chunk_or chunks n old = elim (get_elem? chunks n) [ none ↦ old | some chunk ↦ chunk ]

get_elem?-drop : (xs : List Span) (n i : ℕ) → get_elem? (drop n xs) i ≡ get_elem? xs (n + i)
get_elem?-drop xs zero i = let e : 0 + i ≡ i = omega arith in rw e
get_elem?-drop [] (suc n) i = refl
get_elem?-drop (x ∷ xs) (suc n) i =
    let e : suc n + i ≡ suc (n + i) = omega arith in rw e (get_elem?-drop xs n i)

drop-drop : (xs : List Span) (m n : ℕ) → drop m (drop n xs) ≡ drop (n + m) xs
drop-drop xs m zero = let e : 0 + m ≡ m = omega arith in rw e
drop-drop [] zero (suc n) = let e : suc n + 0 ≡ suc (n + 0) = omega arith in rw e
drop-drop [] (suc m) (suc n) = let e : suc n + suc m ≡ suc (n + suc m) = omega arith in rw e
drop-drop (x ∷ xs) m (suc n) =
    let e : suc n + m ≡ suc (n + m) = omega arith in rw e (drop-drop xs m n)

assigned_chunk :
    (chunks actions : List Span) (i j : ℕ)
    → get_elem? (assign_chunks i (drop (taken_before i) chunks) actions) j
      ≡ Option.map (chunk_or chunks (taken_before (i + j) + (i + j))) (get_elem? actions j)
unfolding assign_chunks
assigned_chunk chunks [] i j = refl
assigned_chunk chunks (action ∷ actions) i zero =
    let e : i + 0 ≡ i = omega arith in rw (e, get_elem?-drop chunks (taken_before i) i)
assigned_chunk chunks (action ∷ actions) i (suc j) =
    let e : i + suc j ≡ suc i + j = omega arith in
    rw (e, drop-drop chunks (suc i) (taken_before i)) (assigned_chunk chunks actions (suc i) j)

-- After an update, sequence `i` is the chunk of number `1 + 2 + .. + i + i` of the new buffer, cut at
-- its zeros into one chunk more than there are sequences, and what it was before if there is no
-- chunk of that number.
pub sequence_chunks :
    (m m' : MacroBuffer) (offset : ℕ) (bytes : List ℕ) (i : ℕ)
    → update_buffer m offset bytes ≡ ok m'
    → get_elem? m'.sequences i
      ≡ Option.map
          (chunk_or (splitn (length m.sequences + 1) 0 m'.buffer) (taken_before i + i))
          (get_elem? m.sequences i)
unfolding update_buffer
sequence_chunks m m' offset bytes i h =
    let (buffer, _, made) = bind_ok (copy_slice m.buffer offset _ bytes) _ m' h in
    let here : 0 + i ≡ i = omega arith in
    let assigned = assigned_chunk (splitn (length m.sequences + 1) 0 buffer) m.sequences 0 i in
    cc (made, rw here at assigned)
