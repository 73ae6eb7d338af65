-- ===== src/Via/Lights.antt =====
-- rumcake/src/via/handlers.rs and rumcake/src/via/protocol_12/mod.rs: what the four kinds of lights
-- share in the commands of the custom channels. A handler is given a part of the packet; one that
-- sends commands to the task of its lights returns them, in order.
pub mod Simple
pub mod SimpleMatrix
pub mod RgbMatrix
pub mod Underglow
pub mod Windows
pub mod Lengths
use rumcake.Prelude.{
  ℕ, ◌+◌, ◌-◌, Bool, true, false, Option, none, some, List, [], ◌∷◌, Run, ok, panic, ◌>>=◌, slice,
  copy_slice, get_elem?, ltb, if◌then◌else◌,
}

-- `num::FromPrimitive::from_u8`, for an enum whose discriminants count from `first` on.
unfoldable pub from_primitive : {E : Type 0} → ℕ → List E → ℕ → Option E
from_primitive first variants n = if ltb n first then none else get_elem? variants (n - first)

-- `as u8` of a `bool`.
abbrev pub bool_byte : Bool → ℕ
bool_byte true = 1
bool_byte false = 0

-- `data[i] = value`
unfoldable pub put : List ℕ → ℕ → ℕ → Run (List ℕ)
unfolding copy_slice
put bytes i value = copy_slice bytes i (i + 1) (value ∷ [])

-- A handler that is given `&mut data[from..to]`.
unfoldable pub on_slice : List ℕ → ℕ → ℕ → (List ℕ → Run (List ℕ)) → Run (List ℕ)
unfolding slice copy_slice
on_slice bytes from to handler = do
  part ← slice bytes from to
  part' ← handler part
  copy_slice bytes from to part'
