-- ===== src/Underglow/Sync.antt =====
-- What a round of the underglow task leaves in the shared configuration, on the driver and on the
-- peripherals of a split keyboard.
use rumcake.Prelude.{◌≡◌, ◌≢◌, ◌⊎◌, refl, Bool, true, false, some, List, [], ◌∷◌, arith}
use rumcake.State.{State, PartialEq, IsEquality}
use rumcake.State.Notify.{AllSignalled, update_notifies}
use rumcake.Underglow.Effect.{UnderglowEffect, EnabledEffects, is_enabled}
use rumcake.Underglow.{UnderglowConfig, UnderglowCommand, UnderglowAnimator, process_command}
use rumcake.Underglow.Commands.{underglow_commands_end}
use rumcake.Underglow.Task.{
  DriverCall, turn_on, turn_off, Round, process_commands, store_config, switch_driver,
  sync_to_peripherals, finish_round, underglow_round,
}

-- A peripheral that processes the commands of a round has the central half's configuration and a
-- reset clock, whatever it had before, but keeps its own `enabled` switch.
pub sync-config :
    (d : EnabledEffects) (central peripheral : UnderglowAnimator)
    → (p' : UnderglowAnimator) × (process_commands d (sync_to_peripherals central) peripheral
        ≡ some p')
      × (p'.config ≡ record central.config { enabled = peripheral.config.enabled })
      × (p'.tick ≡ 0)
unfolding process_commands sync_to_peripherals process_command
sync-config d central peripheral = (
  record {
    config = record central.config { enabled = peripheral.config.enabled };
    tick = 0;
    time_of_last_press = peripheral.time_of_last_press;
    save_signalled = peripheral.save_signalled;
  },
  refl,
  refl,
  refl,
)

-- How the driver is called for `enabled` before and after.
abbrev pub Switched : Bool → Bool → List DriverCall → Type 0
Switched before after calls =
    ((before ≡ after) × (calls ≡ []))
    ⊎ (((before ≡ false) × (after ≡ true) × (calls ≡ turn_on ∷ []))
        ⊎ ((before ≡ true) × (after ≡ false) × (calls ≡ turn_off ∷ [])))

switch_driver_lem :
    (s : State UnderglowConfig) (a : UnderglowAnimator)
    → Switched s.value.enabled a.config.enabled (switch_driver (store_config a s.value).1 a)
unfolding switch_driver store_config
switch_driver_lem s a = ground arith

process_commands_total :
    (d : EnabledEffects) (t : UnderglowEffect)
    → is_enabled d t ≡ true
    → (cs : List UnderglowCommand) (a : UnderglowAnimator)
    → (a' : UnderglowAnimator) × (process_commands d cs a ≡ some a')
unfolding process_commands
process_commands_total d t on [] a = (a, refl)
process_commands_total d t on (c ∷ cs) a =
    let (m, h) = underglow_commands_end d t on c a in
    let (a', r) = process_commands_total d t on cs m in (a', rw h r)

module _ (eq : PartialEq UnderglowConfig) (law : IsEquality eq) where
  module _ (a : UnderglowAnimator) (s : State UnderglowConfig) (split_central : Bool) where
    round_value : (finish_round eq split_central s a).config_state.value ≡ a.config
    unfolding finish_round store_config
    round_value = (update_notifies eq law s (store_config a)).0

    round_signals :
        let signals = (finish_round eq split_central s a).config_state.signals in
        ((s.value ≢ a.config) × AllSignalled signals)
        ⊎ ((s.value ≡ a.config) × (signals ≡ s.signals))
    unfolding finish_round store_config
    round_signals =
        let (stored, _, signals) = update_notifies eq law s (store_config a) in rw stored at signals

    round_driver :
        Switched s.value.enabled a.config.enabled (finish_round eq split_central s a).driver_calls
    unfolding finish_round store_config
    round_driver =
        let (_, toggled, _) = update_notifies eq law s (store_config a) in
        rw toggled (switch_driver_lem s a)

  -- If some effect is enabled and the `PartialEq` of the configuration is equality, a round with
  -- any commands ends. The animator has processed them in
  -- order, and the shared configuration is the animator's. Either it differs from the one before
  -- the round and all its listeners are signalled, or it is the same and no signal changes. The
  -- driver is switched exactly when `enabled` differs from the shared configuration before the
  -- round, in the direction of the new value.
  pub underglow_round_lem :
      (split_central : Bool) (d : EnabledEffects) (t : UnderglowEffect)
      → is_enabled d t ≡ true
      → (cs : List UnderglowCommand) (s : State UnderglowConfig) (a : UnderglowAnimator)
      → (r : Round) × (underglow_round eq split_central d cs s a ≡ some r)
        × (process_commands d cs a ≡ some r.animator)
        × (r.config_state.value ≡ r.animator.config)
        × (((s.value ≢ r.animator.config) × AllSignalled r.config_state.signals)
            ⊎ ((s.value ≡ r.animator.config) × (r.config_state.signals ≡ s.signals)))
        × Switched s.value.enabled r.animator.config.enabled r.driver_calls
  unfolding underglow_round
  underglow_round_lem split_central d t on cs s a =
      let (a', h) = process_commands_total d t on cs a in
      (
        finish_round eq split_central s a',
        rw h,
        h,
        round_value a' s split_central,
        round_signals a' s split_central,
        round_driver a' s split_central,
      )
