-- ===== src/Examples/Macros.antt =====
-- The macro handlers of rumcake/src/via/handlers.rs and the storage task of rumcake/src/via/mod.rs
-- at concrete inputs.
use rumcake.Prelude.{
  ℕ, ◌+◌, ◌≡◌, refl, some, List, [], ◌∷◌, ◌++◌, length, take, drop, replicate, get_elem?, ok, panic,
  arith, copy_slice,
}
use mathlib.Core.Option
use rumcake.Via.{window_len}
use rumcake.Via.Storage.{Operation, update_data, dynamic_keymap_macro}
use rumcake.Via.Macros.{
  MacroBuffer, splitn, update_buffer, dynamic_keymap_macro_get_buffer,
  dynamic_keymap_macro_set_buffer, assign_chunks, first_zero,
}
use rumcake.Via.Macros.Window.{macro_buffer_round_trip, macro_buffer_panics}
use rumcake.Via.Macros.Sequences.{sequence_chunks, chunk_or}
use rumcake.Examples.Host.{keyboard}

abbrev macros : MacroBuffer
macros = record {
  buffer = 65 ∷ 66 ∷ 0 ∷ 67 ∷ 0 ∷ 0 ∷ 0 ∷ 0 ∷ [];
  sequences = replicate 3 (record { start = 0; len = 0 });
}

macro_buffer_round_trip_example :
    let sent : List ℕ = take (window_len 8 5 3) (68 ∷ 0 ∷ 69 ∷ []) in
    (m : MacroBuffer) × (operation : Operation) × (dynamic_keymap_macro_set_buffer keyboard
        (some macros)
        5
        3
        (68 ∷ 0 ∷ 69 ∷ [])
      ≡ ok (some m, operation))
    × (update_data dynamic_keymap_macro 5 sent ≡ ok operation)
    × (length m.buffer ≡ 8)
    × (dynamic_keymap_macro_get_buffer keyboard (some m) 5 3 (replicate 4 9)
        ≡ ok (sent ++ drop (window_len 8 5 3) (replicate 4 9)))
macro_buffer_round_trip_example =
    macro_buffer_round_trip keyboard macros refl 5 3 (68 ∷ 0 ∷ 69 ∷ []) (replicate 4 9)
      (omega arith) (omega arith) (omega arith) (omega arith)

macro_buffer_panics_example :
    (dynamic_keymap_macro_get_buffer keyboard (some macros) 9 1 (replicate 4 9) ≡ panic)
    × (dynamic_keymap_macro_set_buffer keyboard (some macros) 9 1 (68 ∷ []) ≡ panic)
macro_buffer_panics_example =
    macro_buffer_panics keyboard macros refl 9 1 (68 ∷ []) (replicate 4 9) (omega arith)

-- The buffer `AB 0 C 0 DE 0` has the chunks `AB`, `C`, `DE` and an empty one. The second of the
-- three sequences gets the third chunk, and the third sequence gets none.
abbrev three_macros : MacroBuffer
three_macros = record {
  buffer = 65 ∷ 66 ∷ 0 ∷ 67 ∷ 0 ∷ 68 ∷ 69 ∷ 0 ∷ [];
  sequences =
      record { start = 0; len = 2 }
      ∷ record { start = 5; len = 2 }
      ∷ record { start = 0; len = 0 }
      ∷ [];
}

sequence_chunks_example :
    some (record { start = 5; len = 2 })
    ≡ Option.map (chunk_or (splitn (3 + 1) 0 three_macros.buffer) 2) (get_elem? macros.sequences 1)
unfolding update_buffer copy_slice splitn first_zero assign_chunks
sequence_chunks_example = sequence_chunks macros three_macros 5 (68 ∷ 69 ∷ 0 ∷ []) 1 refl
