-- ===== src/Via/Protocol/Echoes.antt =====
-- Commands of rumcake/src/via/protocol_12/mod.rs that are no requests.
use rumcake.Prelude.{ℕ, ◌≡◌, ◌⊎◌, Bool, true, false, List, length}
use rumcake.Via.Lights.Simple.{set_value as set_simple_value}
use rumcake.Via.Lights.SimpleMatrix.{set_value as set_simple_matrix_value}
use rumcake.Via.Lights.RgbMatrix.{set_value as set_rgb_matrix_value}
use rumcake.Via.Lights.Underglow.{set_value as set_underglow_value}
use rumcake.Via.Protocol.Commands
use rumcake.Via.Protocol.Commands.{ViaCommandId, command_from_u8}
use rumcake.Via.Protocol.State.{Host}
use rumcake.Via.Protocol.Dispatch.{Firmware, set_value}
use rumcake.Via.Protocol.Replies.{IsReply, IsEcho}

-- The two commands that change values of the lights.
abbrev sets_lights : ViaCommandId → Bool
sets_lights Commands.custom_set_value = true
sets_lights Commands.custom_save = true
sets_lights _ = false

module _ {L A : Type 0} (f : Firmware L A)
    (keeps : (p : List ℕ) → length (f.handle_custom_value_command p) ≡ length p) (h : Host L) where
  abbrev pub Answered : Host L → Type 0
  Answered h' = IsReply h h' ⊎ IsEcho h h'
