-- ===== src/Via/Protocol/State.antt =====
-- rumcake/src/via/protocol_12/mod.rs, `ViaState`, and what the commands share with other tasks.
use rumcake.Prelude.{ℕ, ◌+◌, ◌*◌, ◌/◌, Bool, Option, List, [], ◌∷◌, ◌++◌, replicate, Run, ok, ◌>>=◌}
use rumcake.State.{State}
use rumcake.Backlight.Simple
use rumcake.Backlight.SimpleMatrix
use rumcake.Backlight.RgbMatrix
use rumcake.Underglow
use rumcake.Via.{ViaKeyboard}
use rumcake.Via.Macros.{MacroBuffer}
use rumcake.Via.Storage.{Operation}

pub record ViaState : Type 0 where
  pub layout_state : List ℕ
  pub layout_options : ℕ

-- The bytes of a row, by the number of its columns.
unfoldable pub row_bytes : ViaKeyboard → ℕ
row_bytes k = (k.cols + 7) / 8

unfoldable pub default : ViaKeyboard → ViaState
unfolding row_bytes
default k = record {
  layout_state = replicate (row_bytes k * k.rows) 0;
  layout_options = k.layout_options_default;
}

-- For each kind of lights the shared configuration and the commands in its channel.
pub record Lights : Type 0 where
  pub simple_config : State Simple.BacklightConfig
  pub simple_commands : List Simple.BacklightCommand
  pub simple_matrix_config : State SimpleMatrix.BacklightConfig
  pub simple_matrix_commands : List SimpleMatrix.BacklightCommand
  pub rgb_matrix_config : State RgbMatrix.BacklightConfig
  pub rgb_matrix_commands : List RgbMatrix.BacklightCommand
  pub underglow_config : State Underglow.UnderglowConfig
  pub underglow_commands : List Underglow.UnderglowCommand

-- `packet` is the buffer of the command and of its reply, `operations` what was sent to the storage
-- task, `layout_options_set` the calls of `K::handle_set_layout_options`, in order.
pub record Host (L : Type 0) : Type 0 where
  pub packet : List ℕ
  pub via_state : ViaState
  pub layout : L
  pub macros : Option MacroBuffer
  pub lights : Lights
  pub operations : List Operation
  pub bootloader_jump_signalled : Bool
  pub layout_options_set : List ℕ

abbrev pub reply : {L : Type 0} → Host L → Run (List ℕ) → Run (Host L)
reply h r = do packet ← r; ok (record h { packet = packet })

abbrev pub send_operation : {L : Type 0} → Host L → Operation → Host L
send_operation h operation = record h { operations = h.operations ++ (operation ∷ []) }

abbrev pub with_lights : {L : Type 0} → Host L → Lights → Host L
with_lights h lights = record h { lights = lights }
