-- ===== src/Via/Protocol/Matrix.antt =====
-- rumcake/src/via/protocol_12/mod.rs, `background_task`: the state of the switch matrix, one bit for
-- each key, and the jump to the bootloader. Bytes out of the array panic, and so do positions that
-- would be negative, which wrap around to such bytes.
pub mod Bits
pub mod Tracks
use rumcake.Prelude.{
  ℕ, ◌+◌, ◌-◌, ◌*◌, ◌/◌, ◌%◌, ◌^◌, Bool, true, false, Option, some, none, List, [], ◌∷◌, set, Run,
  ok, panic, ◌>>=◌, index, bit_and, bit_or, ltb, if◌then◌else◌,
}
use rumcake.Keyberon.{Event, press, release}
use rumcake.Via.{ViaKeyboard}
use rumcake.Via.Protocol.State.{ViaState, row_bytes}

-- The byte with the bit of a key: the bytes of a row are in reverse.
unfoldable pub state_byte : ViaKeyboard → ℕ → ℕ → Run ℕ
unfolding row_bytes
state_byte k row col =
    let limit = row_bytes k * (row + 1) in
    if ltb (col / 8) limit then ok (limit - 1 - col / 8) else panic

-- `|= 1 << bit` and `&= !(1 << bit)`
unfoldable pub set_bit : ℕ → ℕ → ℕ
set_bit byte bit = bit_or byte (2 ^ bit)

unfoldable pub clear_bit : ℕ → ℕ → ℕ
clear_bit byte bit = bit_and byte (255 - 2 ^ bit)

unfoldable pub update_matrix : ViaKeyboard → Event → List ℕ → Run (List ℕ)
unfolding state_byte set_bit clear_bit
update_matrix k (press row col) bytes = do
  i ← state_byte k row col
  old ← index bytes i
  ok (set bytes i (set_bit old (col % 8)))
update_matrix k (release row col) bytes = do
  i ← state_byte k row col
  old ← index bytes i
  ok (set bytes i (clear_bit old (col % 8)))

-- The options that the storage task has loaded arrive first.
unfoldable pub start_background : ℕ → ViaState → ViaState
start_background options s = record s { layout_options = options }

-- A round of the loop: a matrix event, or the signal for the bootloader (`none`). The second
-- result says whether the task jumps to the bootloader.
unfoldable pub background_round : ViaKeyboard → Option Event → ViaState → Run (ViaState × Bool)
unfolding update_matrix
background_round k (some event) s = do
  bytes ← update_matrix k event s.layout_state
  ok (record s { layout_state = bytes }, false)
background_round k none s = ok (s, true)

-- The rounds for a sequence of matrix events.
unfoldable pub track : ViaKeyboard → List Event → ViaState → Run ViaState
unfolding background_round
track k [] s = ok s
track k (event ∷ events) s = do (s', jumped) ← background_round k (some event) s; track k events s'
