-- ===== src/Via/Protocol/Sessions.antt =====
-- Commands of rumcake/src/via/protocol_12/mod.rs that belong together: what one of them sets, the
-- tasks process and another one asks for.
use rumcake.Prelude.{
  ℕ, ◌+◌, ◌-◌, ◌≤◌, ◌<◌, ◌≡◌, ◌⊎◌, ◌∙◌, refl, ap, inl, inr, Bool, false, some, List, [], ◌∷◌, ◌++◌,
  length, drop, take-length, drop-length, Run, ok, panic, index, slice, slice_ok, copy_slice_ok,
  copy_prefix_ok, copy_slice_panics, length-append, length-drop, arith,
}
use native.Mathlib.Decide.{dec_lt}
use mathlib.Core.List.{append-nil}
use rumcake.State
use rumcake.State.{State, PartialEq, IsEquality}
use rumcake.State.Notify.{update_notifies}
use rumcake.Underglow.{UnderglowConfig, UnderglowAnimator}
use rumcake.Underglow.Effect.{EnabledEffects}
use rumcake.Underglow.Task.{Round, finish_round, underglow_round, store_config}
use rumcake.Via.Lights.{on_slice}
use rumcake.Via.Lights.Underglow.{ViaRgbLightValue}
use rumcake.Via.Lights.Underglow.SetGet.{number, Accepted, second, underglow_set_get}
use rumcake.Via.Protocol.Commands.{command_from_u8, keyboard_value_from_u8, channel_from_u8}
use rumcake.Via.Protocol.State.{Host}
use rumcake.Via.Protocol.Values.{get_switch_matrix_state}
use rumcake.Via.Protocol.Channels.{custom_command, for_channel, underglow_channel}
use rumcake.Via.Protocol.Dispatch.{
  Firmware, process_command, process_known, process_packet, process_via_command, get_value,
}
use rumcake.Via.Protocol.Refused.{process_via_command_lem}

-- The packet from its third byte on.
slice_rest : (a b : ℕ) (rest : List ℕ) → slice (a ∷ b ∷ rest) 2 (length (a ∷ b ∷ rest)) ≡ ok rest
slice_rest a b rest =
    let width : length (a ∷ b ∷ rest) - 2 ≡ length rest = omega arith in
    slice_ok (a ∷ b ∷ rest) 2 (length (a ∷ b ∷ rest)) (omega arith) (omega arith)
    ∙ ap ok (rw width (take-length rest))

-- A handler that is given it.
on_rest :
    (a b : ℕ) (rest r : List ℕ) (handler : List ℕ → Run (List ℕ))
    → handler rest ≡ ok r
    → length r ≡ length rest
    → on_slice (a ∷ b ∷ rest) 2 (length (a ∷ b ∷ rest)) handler ≡ ok (a ∷ b ∷ r)
unfolding on_slice
on_rest a b rest r handler h len =
    let all : length (a ∷ b ∷ rest) ≡ 2 + length r = omega arith in
    rw (slice_rest a b rest, h)
      (copy_slice_ok (a ∷ b ∷ rest) 2 (length (a ∷ b ∷ rest)) r all (omega arith)
        ∙ ap (λ t. ok (a ∷ b ∷ t)) (ap (λ t. r ++ t) (drop-length rest) ∙ append-nil r))

module _ {L A : Type 0} (f : Firmware L A) (h : Host L) where
  -- In a packet of any length, which is 32 bytes in a report, the host reads the whole matrix state if
  -- it has at most as many bytes as the packet has behind the second one; the rest of the packet
  -- stays as it came, and nothing else changes. With more bytes than that, its request panics.
  pub matrix_state_reply :
      (rest : List ℕ)
      → f.handle_via_command (2 ∷ 3 ∷ rest) ≡ (2 ∷ 3 ∷ rest, false)
      → let bytes = h.via_state.layout_state in
        ((length bytes ≤ length rest)
          × (process_via_command f (record h { packet = 2 ∷ 3 ∷ rest })
              ≡ ok (record h { packet = 2 ∷ 3 ∷ bytes ++ drop (length bytes) rest })))
        ⊎ ((length rest < length bytes)
            × (process_via_command f (record h { packet = 2 ∷ 3 ∷ rest }) ≡ panic))
  unfolding process_packet process_known process_command get_value command_from_u8
      keyboard_value_from_u8 index on_slice get_switch_matrix_state
  matrix_state_reply rest left =
      let bytes = h.via_state.layout_state in
      let start = process_via_command_lem f (record h { packet = 2 ∷ 3 ∷ rest }) left in
      elim (dec_lt (length rest) (length bytes)) [
        | yes p ↦ inr (
          p,
          start
              ∙ rw
                  (slice_rest 2 3 rest, copy_slice_panics rest 0 (length bytes) bytes (omega arith))
                  refl,
        )
        | no p ↦ inl (
          omega arith,
          start
              ∙ rw
                  (on_rest 2 3 rest (bytes ++ drop (length bytes) rest)
                    (get_switch_matrix_state bytes)
                    (copy_prefix_ok rest (length bytes) bytes refl (omega arith))
                    (omega (
                      arith,
                      length-append bytes (drop (length bytes) rest),
                      length-drop (length bytes) rest,
                    )))
                  refl,
        )
      ]

  module _ (eq : PartialEq UnderglowConfig) (law : IsEquality eq) (split_central : Bool)
      (d : EnabledEffects) (a : UnderglowAnimator)
      (left : (bytes : List ℕ) → f.handle_via_command bytes ≡ (bytes, false)) where
    -- For a keyboard that overrides nothing, no waiting commands, a `PartialEq` that is equality, and a
    -- value that is accepted, which is the number of an effect for the effect and 0 or 1 for
    -- `enabled`: the host sets a value of the underglow, the task of the underglow has a round with
    -- the commands that were sent, and the host asks for the value. It is answered with the bytes
    -- that it has set.
    pub underglow_session :
        (v : ViaRgbLightValue) (x y z w : ℕ) (rest rest' : List ℕ)
        → Accepted v x
        → h.lights.underglow_commands ≡ []
        → (h' : Host L) × (r : Round) × (process_via_command f
              (record h { packet = 7 ∷ 2 ∷ number v ∷ x ∷ y ∷ rest })
            ≡ ok h')
          × (underglow_round eq split_central d h'.lights.underglow_commands
                h'.lights.underglow_config a
              ≡ some r)
          × (let asked : Host L = record h' {
            packet = 8 ∷ 2 ∷ number v ∷ z ∷ w ∷ rest';
            lights = record h'.lights {
              underglow_config = r.config_state;
              underglow_commands = [];
            };
          } in
              process_via_command f asked
              ≡ ok (record asked { packet = 8 ∷ 2 ∷ number v ∷ x ∷ second v y w ∷ rest' }))
    unfolding process_packet process_known process_command custom_command for_channel
        underglow_channel command_from_u8 channel_from_u8 index underglow_round finish_round
        store_config State.get
    underglow_session v x y z w rest rest' accepted empty =
        let (cs, a', sent, ran, answered) =
          underglow_set_get d a 7 2 y 8 2 z w rest rest' v x accepted in
        let config = h.lights.underglow_config in
        let stored = (update_notifies eq law config (store_config a')).0 in
        let h' : Host L = record h {
          packet = 7 ∷ 2 ∷ number v ∷ x ∷ y ∷ rest;
          lights = record h.lights { underglow_commands = h.lights.underglow_commands ++ cs };
        } in
        let r = finish_round eq split_central config a' in
        let asked : Host L = record h' {
          packet = 8 ∷ 2 ∷ number v ∷ z ∷ w ∷ rest';
          lights = record h'.lights { underglow_config = r.config_state; underglow_commands = [] };
        } in
        (
          h',
          r,
          process_via_command_lem f (record h { packet = 7 ∷ 2 ∷ number v ∷ x ∷ y ∷ rest }) (left _)
              ∙ rw sent refl,
          rw (empty, ran) refl,
          process_via_command_lem f asked (left _) ∙ rw stored (rw answered refl),
        )
