-- ===== src/Hw.antt =====
-- rumcake/src/hw/mod.rs: the task that chooses where reports go, from the mode that is asked for and
-- from what is connected. Both USB and Bluetooth are on.
pub mod Output
use rumcake.Prelude.{ℕ, ◌≡◌, Bool, true, false, Option, none, some, List, [], ◌∷◌, if◌then◌else◌}
use rumcake.State
use rumcake.State.{State, PartialEq}

pub data OutputMode : Type 0 where
  usb bluetooth : OutputMode

pub data HidOutput : Type 0 where
  usb bluetooth : HidOutput

-- The states that the task reads and writes. Its own listener comes first in the first three.
pub record Outputs : Type 0 where
  pub output_mode : State OutputMode
  pub usb_running : State Bool
  pub bluetooth_connected : State Bool
  pub current_output : State (Option HidOutput)

unfoldable pub choose : OutputMode → Bool → Bool → Option HidOutput
choose usb running connected = if running then some HidOutput.usb else none
choose bluetooth running connected = if connected then some HidOutput.bluetooth else none

-- What the current output should be.
unfoldable pub output : Outputs → Option HidOutput
unfolding choose State.get
output s =
    choose (State.get s.output_mode) (State.get s.usb_running) (State.get s.bluetooth_connected)

-- A wait for the listener of the task takes its signal down.
abbrev pub take_first : List Bool → List Bool
take_first [] = []
take_first (_ ∷ signals) = false ∷ signals

abbrev pub waited : {T : Type 0} → State T → State T
waited s = record s { signals = take_first s.signals }

-- The listener of the task is signalled.
abbrev pub Signalled : {T : Type 0} → State T → Type 0
Signalled s = (others : List Bool) × (s.signals ≡ true ∷ others)

module _ (mode_eq : PartialEq OutputMode) (bool_eq : PartialEq Bool)
    (output_eq : PartialEq (Option HidOutput)) where
  -- A round of the loop up to its wait, which is also what the task begins with.
  unfoldable pub switch_output : Outputs → Outputs
  unfolding output
  switch_output s = record s { current_output = State.set output_eq s.current_output (output s) }

  -- Steps of the task, and of those that change the states that it reads.
  pub data Step : Outputs → Outputs → Type 0 where
    set_mode :
        (s : Outputs) (mode : OutputMode)
        → Step s (record s { output_mode = State.set mode_eq s.output_mode mode })
    set_running :
        (s : Outputs) (running : Bool)
        → Step s (record s { usb_running = State.set bool_eq s.usb_running running })
    set_connected :
        (s : Outputs) (connected : Bool)
        → Step s
            (record s { bluetooth_connected = State.set bool_eq s.bluetooth_connected connected })
    mode_noticed :
        (s : Outputs)
        → Signalled s.output_mode
        → Step s (switch_output (record s { output_mode = waited s.output_mode }))
    running_noticed :
        (s : Outputs)
        → Signalled s.usb_running
        → Step s (switch_output (record s { usb_running = waited s.usb_running }))
    connected_noticed :
        (s : Outputs)
        → Signalled s.bluetooth_connected
        → Step s (switch_output (record s { bluetooth_connected = waited s.bluetooth_connected }))

  pub data Reaches (s : Outputs) : Outputs → Type 0 where
    here : Reaches s s
    next : (t u : Outputs) → Reaches s t → Step t u → Reaches s u
