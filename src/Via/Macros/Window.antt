-- ===== src/Via/Macros/Window.antt =====
-- Reading and writing windows of the macro buffer: rumcake/src/via/handlers.rs,
-- `dynamic_keymap_macro_get_buffer` and `dynamic_keymap_macro_set_buffer`.
use rumcake.Prelude.{
  ℕ, ◌+◌, ◌≤◌, ◌<◌, ◌≡◌, refl, sym, some, List, length, take, drop, replicate, ok, panic, slice,
  prefix_ok, copy_prefix_ok, slice-copied, ◌∙◌, slice_panics, copy_slice_ok, copy_slice_panics,
  length-copied, arith, length-take, ◌++◌,
}
use mathlib.Core.Path.{subst}
use rumcake.Via.{ViaKeyboard, window_len}
use rumcake.Via.Storage.{Operation, write, update_data, dynamic_keymap_macro}
use rumcake.Via.Macros.{
  MacroBuffer, update_buffer, dynamic_keymap_macro_get_buffer, dynamic_keymap_macro_set_buffer,
  splitn, assign_chunks,
}

pub window_len-le :
    (limit offset size : ℕ) → offset ≤ limit → offset + window_len limit offset size ≤ limit
unfolding window_len
window_len-le limit offset size h = ground arith

-- The operation of an update with at most 32 bytes.
pub update_data_ok :
    (key : rumcake.Via.Storage.ViaStorageKeys) (offset : ℕ) (bytes : List ℕ)
    → length bytes ≤ 32
    → update_data key offset bytes
      ≡ ok (write (bytes ++ drop (length bytes) (replicate 32 0)) key offset (length bytes))
unfolding update_data
update_data_ok key offset bytes h =
    rw (copy_slice_ok (replicate 32 0) 0 (length bytes) bytes (omega arith) h)

-- The macro buffer with `bytes` at `offset`, and the operation that stores them.
abbrev pub updated : MacroBuffer → ℕ → List ℕ → MacroBuffer
updated m offset bytes =
    let buffer = take offset m.buffer ++ (bytes ++ drop (offset + length bytes) m.buffer) in
    record {
      buffer = buffer;
      sequences = assign_chunks 0 (splitn (length m.sequences + 1) 0 buffer) m.sequences;
    }

abbrev pub macro_write : ℕ → List ℕ → Operation
macro_write offset bytes =
    write (bytes ++ drop (length bytes) (replicate 32 0)) dynamic_keymap_macro offset (length bytes)

update_buffer_ok :
    (m : MacroBuffer) (offset : ℕ) (bytes : List ℕ)
    → offset + length bytes ≤ length m.buffer
    → update_buffer m offset bytes ≡ ok (updated m offset bytes)
unfolding update_buffer
update_buffer_ok m offset bytes h = rw (copy_slice_ok m.buffer offset _ bytes refl h)

update_buffer_panics :
    (m : MacroBuffer) (offset : ℕ) (bytes : List ℕ)
    → length m.buffer < offset
    → update_buffer m offset bytes ≡ panic
unfolding update_buffer
update_buffer_panics m offset bytes h =
    rw (copy_slice_panics m.buffer offset (offset + length bytes) bytes (omega arith))

pub window_len-le_size : (limit offset size : ℕ) → window_len limit offset size ≤ size
unfolding window_len
window_len-le_size limit offset size = ground arith

pub window_len_within :
    (limit offset size : ℕ) → offset + size ≤ limit → window_len limit offset size ≡ size
unfolding window_len
window_len_within limit offset size h = ground arith

window_len_behind : (limit offset size : ℕ) → limit < offset → window_len limit offset size ≡ 0
unfolding window_len
window_len_behind limit offset size h = ground arith

pub length-take_le : (n : ℕ) (xs : List ℕ) → n ≤ length xs → length (take n xs) ≡ n
length-take_le n xs h = omega (arith, length-take n xs)

module _ (k : ViaKeyboard) (m : MacroBuffer) (size_of : length m.buffer ≡ k.macro_buffer_size) where
  pub macro_set_ok :
      (offset size : ℕ) (bytes : List ℕ)
      → offset ≤ k.macro_buffer_size
      → size ≤ length bytes
      → length bytes ≤ 32
      → let sent = take (window_len k.macro_buffer_size offset size) bytes in
        dynamic_keymap_macro_set_buffer k (some m) offset size bytes
        ≡ ok (some (updated m offset sent), macro_write offset sent)
  unfolding dynamic_keymap_macro_set_buffer
  macro_set_ok offset size bytes begins fits_in packet =
      let len = window_len k.macro_buffer_size offset size in
      let short : len ≤ size = window_len-le_size k.macro_buffer_size offset size in
      let sent = take len bytes in
      let sent_len : length sent ≡ len = length-take_le len bytes (omega arith) in
      let within : offset + length sent ≤ length m.buffer =
        omega (arith, window_len-le k.macro_buffer_size offset size begins) in
      let stored = update_data_ok dynamic_keymap_macro offset sent (omega arith) in
      rw (prefix_ok bytes len (omega arith), update_buffer_ok m offset sent within, stored)

  -- For a macro buffer of the size that the keyboard gives: what the host writes to a window of the macro buffer it reads back from there, and the storage
  -- task is told the same bytes. The window begins within the buffer and fits the packets.
  pub macro_buffer_round_trip :
      (offset size : ℕ) (bytes reply : List ℕ)
      → offset ≤ k.macro_buffer_size
      → size ≤ length bytes
      → size ≤ length reply
      → length bytes ≤ 32
      → let len = window_len k.macro_buffer_size offset size in
        let sent = take len bytes in
        (m' : MacroBuffer) × (operation : Operation) × (dynamic_keymap_macro_set_buffer k
            (some m)
            offset
            size
            bytes
          ≡ ok (some m', operation))
        × (update_data dynamic_keymap_macro offset sent ≡ ok operation)
        × (length m'.buffer ≡ k.macro_buffer_size)
        × (dynamic_keymap_macro_get_buffer k (some m') offset size reply
            ≡ ok (sent ++ drop len reply))
  unfolding dynamic_keymap_macro_set_buffer dynamic_keymap_macro_get_buffer
  macro_buffer_round_trip offset size bytes reply begins fits_in fits_out packet =
      let len = window_len k.macro_buffer_size offset size in
      let short : len ≤ size = window_len-le_size k.macro_buffer_size offset size in
      let sent = take len bytes in
      let sent_len : length sent ≡ len = length-take_le len bytes (omega arith) in
      let within : offset + length sent ≤ length m.buffer =
        omega (arith, window_len-le k.macro_buffer_size offset size begins) in
      let got : slice (updated m offset sent).buffer offset (offset + len) ≡ ok sent =
        subst (λ n. slice (updated m offset sent).buffer offset (offset + n) ≡ ok sent) sent_len
          (slice-copied m.buffer offset (offset + length sent) sent refl within) in
      (
        updated m offset sent,
        macro_write offset sent,
        macro_set_ok offset size bytes begins fits_in packet,
        update_data_ok dynamic_keymap_macro offset sent (omega arith),
        length-copied m.buffer offset _ sent refl within ∙ size_of,
        rw got (copy_prefix_ok reply len sent (sym sent_len) (omega arith)),
      )

  -- A window that begins behind the end of the macro buffer panics, whatever its size.
  pub macro_buffer_panics :
      (offset size : ℕ) (bytes reply : List ℕ)
      → k.macro_buffer_size < offset
      → (dynamic_keymap_macro_get_buffer k (some m) offset size reply ≡ panic)
        × (dynamic_keymap_macro_set_buffer k (some m) offset size bytes ≡ panic)
  unfolding dynamic_keymap_macro_set_buffer dynamic_keymap_macro_get_buffer
  macro_buffer_panics offset size bytes reply h =
      let len = window_len_behind k.macro_buffer_size offset size h in
      (
        rw
            (slice_panics m.buffer offset (offset + window_len k.macro_buffer_size offset size)
              (omega arith))
            refl,
        rw (prefix_ok bytes (window_len k.macro_buffer_size offset size) (omega arith)) (
            rw
              (update_buffer_panics m offset
                (take (window_len k.macro_buffer_size offset size) bytes) (omega arith))
              refl),
      )
