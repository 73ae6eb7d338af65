-- ===== src/Via/Macros.antt =====
-- rumcake/src/via/mod.rs, `MacroBuffer`, and the handlers of rumcake/src/via/handlers.rs for the
-- macros. A sequence is a slice of the buffer: its start and its length.
pub mod Window
pub mod Sequences
pub mod Mirrors
pub mod Saved
use rumcake.Prelude.{
  ℕ, zero, suc, ◌+◌, ◌%◌, ◌/◌, ◌≡◌, Bool, true, false, Option, none, some, List, [], ◌∷◌, length,
  take, drop, replicate, Run, ok, panic, ◌>>=◌, slice, copy_slice, to_be_bytes, get_elem?, ◌==◌,
  if◌then◌else◌, map,
}
use rumcake.Via.{ViaKeyboard, window_len}
use rumcake.Via.Storage.{Operation, update_data, dynamic_keymap_macro}

pub record Span : Type 0 where
  pub start : ℕ
  pub len : ℕ

pub record MacroBuffer : Type 0 where
  pub buffer : List ℕ
  pub sequences : List Span

-- `MacroBuffer::new`, for `N` bytes and `S` sequences.
unfoldable pub new : ℕ → ℕ → MacroBuffer
new size count = record {
  buffer = replicate size 0;
  sequences = replicate count (record { start = 0; len = 0 });
}

-- The bytes before the first zero, if there is one.
unfoldable pub first_zero : List ℕ → Option ℕ
first_zero [] = none
first_zero (b ∷ bs) =
    let rest = first_zero bs in
    if b == 0 then some 0 else elim rest [ none ↦ none | some n ↦ some (suc n) ]

-- `splitn(limit, |byte| *byte == 0)` of the bytes that begin at `start`: the last of `limit` chunks
-- has what is left, with its zeros.
unfoldable pub splitn : ℕ → ℕ → List ℕ → List Span
splitn zero start bytes = []
splitn (suc zero) start bytes = record { start = start; len = length bytes } ∷ []
splitn (suc (suc more)) start bytes = elim (first_zero bytes) [
  | none ↦ record { start = start; len = length bytes } ∷ []
  | some n ↦
      record { start = start; len = n } ∷ splitn (suc more) (start + n + 1) (drop (suc n) bytes)
]

-- The loop over the sequences, from number `i` on. `nth` takes `i + 1` chunks off the iterator.
unfoldable pub assign_chunks : ℕ → List Span → List Span → List Span
assign_chunks i chunks [] = []
assign_chunks i chunks (action ∷ actions) =
    elim (get_elem? chunks i) [ none ↦ action | some chunk ↦ chunk ]
    ∷ assign_chunks (suc i) (drop (suc i) chunks) actions

unfoldable pub update_buffer : MacroBuffer → ℕ → List ℕ → Run MacroBuffer
unfolding copy_slice splitn assign_chunks
update_buffer m offset bytes = do
  buffer ← copy_slice m.buffer offset (offset + length bytes) bytes
  ok (record {
    buffer = buffer;
    sequences = assign_chunks 0 (splitn (length m.sequences + 1) 0 buffer) m.sequences;
  })

module _ (k : ViaKeyboard) where
  unfoldable pub dynamic_keymap_macro_get_count : List ℕ → Run (List ℕ)
  unfolding copy_slice
  dynamic_keymap_macro_get_count bytes = copy_slice bytes 0 1 (k.macro_count ∷ [])

  -- Nothing but the bytes: the sequences and the stored data stay as they are.
  unfoldable pub dynamic_keymap_macro_reset : Option MacroBuffer → Option MacroBuffer
  dynamic_keymap_macro_reset none = none
  dynamic_keymap_macro_reset (some m) = some (record m { buffer = map (λ _. 0) m.buffer })

  unfoldable pub dynamic_keymap_macro_get_buffer_size : List ℕ → Run (List ℕ)
  unfolding copy_slice
  dynamic_keymap_macro_get_buffer_size bytes =
      copy_slice bytes 0 2 (to_be_bytes k.macro_buffer_size)

  unfoldable pub dynamic_keymap_macro_get_buffer :
      Option MacroBuffer → ℕ → ℕ → List ℕ → Run (List ℕ)
  unfolding slice copy_slice window_len
  dynamic_keymap_macro_get_buffer none offset size bytes = ok bytes
  dynamic_keymap_macro_get_buffer (some m) offset size bytes =
      let len = window_len k.macro_buffer_size offset size in
      do src ← slice m.buffer offset (offset + len); copy_slice bytes 0 len src

  unfoldable pub dynamic_keymap_macro_set_buffer :
      Option MacroBuffer → ℕ → ℕ → List ℕ → Run (Option MacroBuffer × Operation)
  unfolding slice update_buffer window_len update_data
  dynamic_keymap_macro_set_buffer none offset size bytes =
      let len = window_len k.macro_buffer_size offset size in
      do
        stored ← slice bytes 0 len
        operation ← update_data dynamic_keymap_macro offset stored
        ok (none, operation)
  dynamic_keymap_macro_set_buffer (some m) offset size bytes =
      let len = window_len k.macro_buffer_size offset size in
      do
        src ← slice bytes 0 len
        m' ← update_buffer m offset src
        operation ← update_data dynamic_keymap_macro offset src
        ok (some m', operation)
