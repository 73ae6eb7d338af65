-- ===== src/Via/Options.antt =====
-- rumcake/src/via/handlers.rs, the layout options, and their part of `via_storage_task` in
-- rumcake/src/via/mod.rs. The handlers are given the four bytes 2 to 5 of a packet.
use rumcake.Prelude.{
  ℕ, ◌+◌, ◌-◌, ◌*◌, ◌/◌, ◌%◌, ◌^◌, ◌<◌, ◌≡◌, refl, ap, List, [], ◌∷◌, length, replicate, Run, ok,
  panic, ◌>>=◌, slice, copy_slice, slice_panics, leb, if◌then◌else◌, arith,
}
use rumcake.Via.Storage.{Operation, update_data, layout_options}

-- `u32::to_be_bytes` and `u32::from_be_bytes`.
unfoldable pub to_be_bytes_32 : ℕ → List ℕ
to_be_bytes_32 n = n / 2 ^ 24 % 256 ∷ n / 2 ^ 16 % 256 ∷ n / 2 ^ 8 % 256 ∷ n % 256 ∷ []

unfoldable pub from_be_bytes_32 : List ℕ → Run ℕ
from_be_bytes_32 (a ∷ b ∷ c ∷ d ∷ []) = ok (((a * 256 + b) * 256 + c) * 256 + d)
from_be_bytes_32 _ = panic

-- `4 - size` for a size above 4 is no index of the array.
unfoldable pub get_layout_options : ℕ → ℕ → List ℕ → Run (List ℕ)
unfolding slice copy_slice to_be_bytes_32
get_layout_options size options bytes =
    let reply : Run (List ℕ) = do
      src ← slice (to_be_bytes_32 options) (4 - size) 4
      copy_slice bytes (4 - size) 4 src
    in if leb size 4 then reply else panic

unfoldable pub set_layout_options : ℕ → List ℕ → Run (ℕ × Operation)
unfolding slice copy_slice from_be_bytes_32 update_data
set_layout_options size bytes =
    let result : Run (ℕ × Operation) = do
      src ← slice bytes 2 (2 + size)
      array ← copy_slice (replicate 4 0) (4 - size) 4 src
      options ← from_be_bytes_32 array
      saved ← slice bytes 0 size
      operation ← update_data layout_options 0 saved
      ok (options, operation)
    in if leb size 4 then result else panic

-- What the storage task signals at the start, for the stored bytes.
unfoldable pub load_layout_options : List ℕ → Run ℕ
unfolding copy_slice from_be_bytes_32
load_layout_options stored =
    let result : Run ℕ = do
      array ← copy_slice (replicate 4 0) (4 - length stored) 4 stored
      from_be_bytes_32 array
    in if leb (length stored) 4 then result else panic

-- With layout options of two bytes, the last two bytes that the host sends are the ones that it
-- reads back in the same place, and the first two are the ones that are stored and that the next
-- start takes for the options.
pub layout_options_two_bytes :
    (a b c d w x y z : ℕ)
    → a < 256
    → b < 256
    → c < 256
    → d < 256
    → (options : ℕ) × (operation : Operation) × (set_layout_options 2 (a ∷ b ∷ c ∷ d ∷ [])
        ≡ ok (options, operation))
      × (get_layout_options 2 options (w ∷ x ∷ y ∷ z ∷ []) ≡ ok (w ∷ x ∷ c ∷ d ∷ []))
      × (update_data layout_options 0 (a ∷ b ∷ []) ≡ ok operation)
      × (load_layout_options (a ∷ b ∷ []) ≡ ok (a * 256 + b))
unfolding set_layout_options get_layout_options load_layout_options
layout_options_two_bytes a b c d w x y z ha hb hc hd =
    let high : ((0 + c) * 256 + d) / 256 % 256 ≡ c = omega arith in
    let low : ((0 + c) * 256 + d) % 256 ≡ d = omega arith in
    (_, _, refl, rw (high, low), refl, ap ok (omega arith))

-- With one byte, the third byte that the host sends comes back in the fourth place, and the first
-- one is stored.
layout_options_one_byte :
    (a b c d w x y z : ℕ)
    → a < 256
    → c < 256
    → (options : ℕ) × (operation : Operation) × (set_layout_options 1 (a ∷ b ∷ c ∷ d ∷ [])
        ≡ ok (options, operation))
      × (get_layout_options 1 options (w ∷ x ∷ y ∷ z ∷ []) ≡ ok (w ∷ x ∷ y ∷ c ∷ []))
      × (update_data layout_options 0 (a ∷ []) ≡ ok operation)
      × (load_layout_options (a ∷ []) ≡ ok a)
unfolding set_layout_options get_layout_options load_layout_options
layout_options_one_byte a b c d w x y z ha hc =
    let low : (0 + c) % 256 ≡ c = omega arith in (_, _, refl, rw low, refl, ap ok (omega arith))

-- With three or more bytes, every request to set the layout options panics.
pub set_layout_options_panics :
    (size : ℕ) (bytes : List ℕ)
    → 2 < size
    → length bytes ≡ 4
    → set_layout_options size bytes ≡ panic
unfolding set_layout_options
set_layout_options_panics size bytes h l =
    rw (slice_panics bytes 2 (2 + size) (omega arith)) (ground arith)
