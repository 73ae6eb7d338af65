-- ===== src/Examples/Hw.antt =====
-- The choice of the output in rumcake/src/hw/mod.rs, when USB comes up.
use rumcake.Prelude.{◌≡◌, ◌↔◌, refl, Bool, true, false, Option, none, some, [], ◌∷◌, arith}
use rumcake.State
use rumcake.State.{State, PartialEq, IsEquality}
use rumcake.Hw.{
  OutputMode, HidOutput, Outputs, choose, output, waited, switch_output, set_running,
  running_noticed, here, next,
}
use rumcake.Hw.Output.{Follows, output-Follows}
use rumcake.Examples.Notify.{same_bool}

abbrev same_mode : OutputMode → OutputMode → Bool
same_mode OutputMode.usb OutputMode.usb = true
same_mode OutputMode.bluetooth OutputMode.bluetooth = true
same_mode _ _ = false

same_mode_iff : (a b : OutputMode) → (same_mode a b ≡ true) ↔ (a ≡ b)
same_mode_iff OutputMode.usb OutputMode.usb = (λ e. refl, λ e. refl)
same_mode_iff OutputMode.usb OutputMode.bluetooth = (λ e. cc, λ e. cc)
same_mode_iff OutputMode.bluetooth OutputMode.usb = (λ e. cc, λ e. cc)
same_mode_iff OutputMode.bluetooth OutputMode.bluetooth = (λ e. refl, λ e. refl)

abbrev mode_eq : PartialEq OutputMode
mode_eq = record { eq = same_mode }

abbrev bool_eq : PartialEq Bool
bool_eq = record { eq = same_bool }

abbrev same_output : Option HidOutput → Option HidOutput → Bool
same_output none none = true
same_output (some HidOutput.usb) (some HidOutput.usb) = true
same_output (some HidOutput.bluetooth) (some HidOutput.bluetooth) = true
same_output _ _ = false

abbrev output_eq : PartialEq (Option HidOutput)
output_eq = record { eq = same_output }

bool_eq-IsEquality : IsEquality bool_eq
bool_eq-IsEquality = record { eq_iff = λ a b. ground arith }

abbrev before : Outputs
before = record {
  output_mode = record { value = OutputMode.usb; signals = false ∷ false ∷ [] };
  usb_running = record { value = false; signals = false ∷ [] };
  bluetooth_connected = record { value = false; signals = false ∷ [] };
  current_output = record { value = none; signals = false ∷ [] };
}

abbrev started : Outputs
started = switch_output mode_eq bool_eq output_eq before

abbrev plugged_in : Outputs
plugged_in = record started { usb_running = State.set bool_eq started.usb_running true }

abbrev switched : Outputs
switched =
    switch_output mode_eq bool_eq output_eq
      (record plugged_in { usb_running = waited plugged_in.usb_running })

output-Follows_example : Follows switched
unfolding switch_output output choose State.get State.set State.set_inner State.notify_listeners
output-Follows_example =
    output-Follows mode_eq bool_eq output_eq (record { eq_iff = same_mode_iff }) bool_eq-IsEquality
      before switched (false, false ∷ [], refl) (false, [], refl) (false, [], refl)
      (next plugged_in switched (next started plugged_in here (set_running started true))
        (running_noticed plugged_in ([], refl)))
