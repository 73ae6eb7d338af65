-- ===== src/Backlight/Task/Rounds.antt =====
-- What a round of a backlight task leaves in the shared configuration, on the driver and on the
-- peripherals of a split keyboard.
use rumcake.Prelude.{◌≡◌, ◌≢◌, ◌⊎◌, refl, Bool, some, List, [], ◌∷◌, arith, if◌then◌else◌}
use rumcake.State.{State, PartialEq, IsEquality}
use rumcake.State.Notify.{AllSignalled, update_notifies}
use rumcake.Underglow.Sync.{Switched}
use rumcake.Backlight.RgbMatrix
use rumcake.Backlight.RgbMatrix.Effect.{EnabledEffects}
use rumcake.Keyberon.{Event}
use rumcake.Prelude.{Run}
use rumcake.Backlight.Task.{
  BacklightKind, Round, process_commands, store_config, switch_driver, finish_round,
  backlight_round,
}
use rumcake.Backlight.Task.Kinds.{rgb_backlight_matrix}

module _ {Config Command Animator : Type 0} (k : BacklightKind Config Command Animator) where
  driver-Switched :
      (s : State Config) (a : Animator)
      → Switched
          (k.enabled s.value)
          (k.enabled (k.config a))
          (switch_driver k (store_config k a s.value).1 a)
  unfolding switch_driver store_config
  driver-Switched s a = ground arith

  module _
      (ends : (c : Command) (a : Animator)
        → (a' : Animator) × (k.process_command c a ≡ some a')) where
    commands_end :
        (cs : List Command) (a : Animator) → (a' : Animator) × (process_commands k cs a ≡ some a')
    unfolding process_commands
    commands_end [] a = (a, refl)
    commands_end (c ∷ cs) a =
        let (m, h) = ends c a in let (a', r) = commands_end cs m in (a', rw h r)

    -- For a backlight whose commands are all processed, and a `PartialEq` that is equality: a round
    -- of the task with any commands ends. The animator has processed them in order, and the shared
    -- configuration is the animator's. Either it differs from the one before the round and all its
    -- listeners are signalled, or it is the same and no signal changes. The driver is switched
    -- exactly when `enabled` differs from the shared configuration before the round, in the
    -- direction of the new value. The central half of a split keyboard sends its peripherals the
    -- commands of `sync_to_peripherals` for the new animator, any other keyboard sends nothing.
    pub backlight_round_lem :
        (eq : PartialEq Config)
        → IsEquality eq
        → (split_central : Bool) (cs : List Command) (s : State Config) (a : Animator)
        → (r : Round Config Command Animator) × (backlight_round k eq split_central cs s a ≡ some r)
          × (process_commands k cs a ≡ some r.animator)
          × (r.config_state.value ≡ k.config r.animator)
          × (((s.value ≢ k.config r.animator) × AllSignalled r.config_state.signals)
              ⊎ ((s.value ≡ k.config r.animator) × (r.config_state.signals ≡ s.signals)))
          × Switched (k.enabled s.value) (k.enabled (k.config r.animator)) r.driver_calls
          × (r.messages ≡ (if split_central then k.sync_to_peripherals r.animator else []))
    unfolding backlight_round finish_round store_config
    backlight_round_lem eq law split_central cs s a =
        let (a', h) = commands_end cs a in
        let (stored, toggled, signals) = update_notifies eq law s (store_config k a') in
        (
          finish_round k eq split_central s a',
          rw h,
          h,
          stored,
          rw stored at signals,
          rw toggled (driver-Switched s a'),
          refl,
        )

-- A peripheral with a matrix of colours that processes the commands of a round has the central
-- half's configuration and a reset clock, whatever it had before, but keeps its own `enabled`.
rgb_matrix_sync-config :
    (d : EnabledEffects)
    (register : Event → RgbMatrix.BacklightAnimator → Run RgbMatrix.BacklightAnimator)
    (central peripheral : RgbMatrix.BacklightAnimator)
    → let kind = rgb_backlight_matrix d register in
      (p' : RgbMatrix.BacklightAnimator) × (process_commands kind
          (kind.sync_to_peripherals central)
          peripheral
        ≡ some p')
      × (p'.config ≡ record central.config { enabled = peripheral.config.enabled })
      × (p'.tick ≡ 0)
unfolding process_commands rgb_backlight_matrix RgbMatrix.process_command
rgb_matrix_sync-config d register central peripheral = (_, refl, refl, refl)
