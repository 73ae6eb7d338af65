-- ===== src/Hw/Output.antt =====
-- The output of rumcake/src/hw/mod.rs follows the mode and the connections.
use rumcake.Prelude.{
  ◌≡◌, ◌⊎◌, inl, inr, refl, sym, ap, Bool, true, false, Option, List, ◌∷◌, map, Bool-cases,
}
use mathlib.Core.Path.{subst}
use rumcake.State
use rumcake.State.{State, PartialEq, IsEquality}
use rumcake.Hw.{
  OutputMode, HidOutput, Outputs, output, waited, Signalled, switch_output, Step, set_mode,
  set_running, set_connected, mode_noticed, running_noticed, connected_noticed, Reaches, here, next,
}

-- The state has a listener.
abbrev pub IsListened : {T : Type 0} → State T → Type 0
IsListened s = (signal : Bool) × (others : List Bool) × (s.signals ≡ signal ∷ others)

set-Signalled :
    {T : Type 0} (e : PartialEq T)
    → IsEquality e
    → (s : State T) (v : T) → IsListened s
    → (State.set e s v ≡ s) ⊎ Signalled (State.set e s v)
unfolding State.set State.set_inner State.notify_listeners
set-Signalled e law s v (signal, others, l) = elim (Bool-cases (e.eq s.value v)) [
  | inl same ↦
      inl (rw same (ap (λ w. record s { value = w }) (sym ((law.eq_iff s.value v).0 same))))
  | inr differs ↦
      let raised : (State.set e s v).signals ≡ true ∷ map (λ _. true) others =
        rw (differs, l) refl in
      inr (map (λ _. true) others, raised)
]

value-set : {T : Type 0} (e : PartialEq T) (s : State T) (v : T) → (State.set e s v).value ≡ v
unfolding State.set State.set_inner State.notify_listeners
value-set e s v = elim (Bool-cases (e.eq s.value v)) [
  | inl same ↦ rw same refl
  | inr differs ↦ rw differs refl
]

waited-IsListened : {T : Type 0} (s : State T) → IsListened s → IsListened (waited s)
waited-IsListened s (signal, others, l) = (false, others, rw l refl)

Signalled-IsListened : {T : Type 0} (s : State T) → Signalled s → IsListened s
Signalled-IsListened s (others, l) = (true, others, l)

-- The output is the right one, or the task has been told of a change.
abbrev pub Follows : Outputs → Type 0
Follows s =
    (s.current_output.value ≡ output s)
    ⊎ (Signalled s.output_mode ⊎ (Signalled s.usb_running ⊎ Signalled s.bluetooth_connected))

pub record IsSwitched (s : Outputs) : Type 0 where
  pub mode_listened : IsListened s.output_mode
  pub running_listened : IsListened s.usb_running
  pub connected_listened : IsListened s.bluetooth_connected
  pub follows : Follows s

module _ (mode_eq : PartialEq OutputMode) (bool_eq : PartialEq Bool)
    (output_eq : PartialEq (Option HidOutput)) (mode_law : IsEquality mode_eq)
    (bool_law : IsEquality bool_eq) where
  switch_output-IsSwitched :
      (s : Outputs)
      → IsListened s.output_mode
      → IsListened s.usb_running
      → IsListened s.bluetooth_connected
      → IsSwitched (switch_output mode_eq bool_eq output_eq s)
  unfolding switch_output output
  switch_output-IsSwitched s m r c = record {
    mode_listened = m;
    running_listened = r;
    connected_listened = c;
    follows = inl (value-set output_eq s.current_output (output s));
  }

  Step-IsSwitched :
      {s t : Outputs} → Step mode_eq bool_eq output_eq s t → IsSwitched s → IsSwitched t
  Step-IsSwitched (set_mode s mode) k =
      elim (set-Signalled mode_eq mode_law s.output_mode mode k.mode_listened) [
        | inl same ↦
            subst (λ (x : State OutputMode). IsSwitched (record s { output_mode = x })) (sym same) k
        | inr signalled ↦ record {
          mode_listened = Signalled-IsListened (State.set mode_eq s.output_mode mode) signalled;
          running_listened = k.running_listened;
          connected_listened = k.connected_listened;
          follows = inr (inl signalled);
        }
      ]
  Step-IsSwitched (set_running s running) k =
      elim (set-Signalled bool_eq bool_law s.usb_running running k.running_listened) [
        | inl same ↦
            subst (λ (x : State Bool). IsSwitched (record s { usb_running = x })) (sym same) k
        | inr signalled ↦ record {
          mode_listened = k.mode_listened;
          running_listened =
              Signalled-IsListened (State.set bool_eq s.usb_running running) signalled;
          connected_listened = k.connected_listened;
          follows = inr (inr (inl signalled));
        }
      ]
  Step-IsSwitched (set_connected s connected) k =
      elim (set-Signalled bool_eq bool_law s.bluetooth_connected connected k.connected_listened) [
        | inl same ↦
            subst (λ (x : State Bool). IsSwitched (record s { bluetooth_connected = x })) (sym same)
              k
        | inr signalled ↦ record {
          mode_listened = k.mode_listened;
          running_listened = k.running_listened;
          connected_listened =
              Signalled-IsListened (State.set bool_eq s.bluetooth_connected connected) signalled;
          follows = inr (inr (inr signalled));
        }
      ]
  Step-IsSwitched (mode_noticed s signalled) k =
      switch_output-IsSwitched (record s { output_mode = waited s.output_mode })
        (waited-IsListened s.output_mode k.mode_listened) k.running_listened k.connected_listened
  Step-IsSwitched (running_noticed s signalled) k =
      switch_output-IsSwitched (record s { usb_running = waited s.usb_running }) k.mode_listened
        (waited-IsListened s.usb_running k.running_listened) k.connected_listened
  Step-IsSwitched (connected_noticed s signalled) k =
      switch_output-IsSwitched (record s { bluetooth_connected = waited s.bluetooth_connected })
        k.mode_listened k.running_listened
        (waited-IsListened s.bluetooth_connected k.connected_listened)

  reached-IsSwitched :
      {s t : Outputs} → Reaches mode_eq bool_eq output_eq s t → IsSwitched s → IsSwitched t
  reached-IsSwitched here k = k
  reached-IsSwitched (next t u r step) k = Step-IsSwitched step (reached-IsSwitched r k)

  -- From the first round of the task on, whatever steps the task and those take who change the mode
  -- and the connections: the current output is the one that they call for, or the task has been
  -- told of a change. This is for states that the task listens to, and `PartialEq`s of the mode and
  -- of Booleans that are equality.
  pub output-Follows :
      (s t : Outputs)
      → IsListened s.output_mode
      → IsListened s.usb_running
      → IsListened s.bluetooth_connected
      → Reaches mode_eq bool_eq output_eq (switch_output mode_eq bool_eq output_eq s) t
      → Follows t
  output-Follows s t m r c reached =
      (reached-IsSwitched reached (switch_output-IsSwitched s m r c)).follows
