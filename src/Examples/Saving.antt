-- ===== src/Examples/Saving.antt =====
-- A round of the task of the simple backlight, and the storage task of the underglow configuration.
use rumcake.Prelude.{
  none, ◌≡◌, ◌≢◌, ◌⊎◌, refl, sym, ap, Bool, true, false, ◌&&◌, Option, some, List, [], ◌∷◌, ◌==◌,
  arith,
}
use rumcake.State
use rumcake.State.{State, PartialEq, IsEquality}
use rumcake.State.Notify.{AllSignalled}
use rumcake.Underglow.{UnderglowConfig}
use rumcake.Underglow.Effect.{effects}
use rumcake.Underglow.Sync.{Switched}
use rumcake.Lighting.Cycle.{discriminant-injective}
use rumcake.Backlight.Simple
use rumcake.Backlight.Simple.Effect
use rumcake.Backlight.Simple.Commands.{simple_commands_end}
use rumcake.Backlight.Task.{BacklightKind, Round, backlight_round, process_commands}
use rumcake.Backlight.Task.Kinds.{simple_backlight}
use rumcake.Backlight.Task.Rounds.{backlight_round_lem}
use rumcake.Backlight.Saving.{
  ConfigDatabase, IsConfigDatabase, Saver, load, on_change, here, next, set_config, change_noticed,
}
use rumcake.Backlight.Saving.Kept.{UpToDate, Untouched, config_kept}
use rumcake.Examples.Notify.{config_eq, config_eq-IsEquality, running, same_bool, stored}

abbrev one_off : Effect.EnabledEffects
one_off = record { solid_enabled = true; breathing_enabled = false; reactive_enabled = true }

abbrev kind : BacklightKind Simple.BacklightConfig Simple.BacklightCommand Simple.BacklightAnimator
kind = simple_backlight one_off 20

abbrev same_config : Simple.BacklightConfig → Simple.BacklightConfig → Bool
same_config a b =
    same_bool a.enabled b.enabled
    && (Effect.effects.discriminant a.effect == Effect.effects.discriminant b.effect
        && (a.val == b.val && a.speed == b.speed))

abbrev simple_eq : PartialEq Simple.BacklightConfig
simple_eq = record { eq = same_config }

simple_eq-IsEquality : IsEquality simple_eq
simple_eq-IsEquality = record {
  eq_iff = λ a b. (
    ground (arith, discriminant-injective Effect.effects Effect.effects-IsEnum a.effect b.effect),
    ground arith,
  );
}

abbrev start : Simple.BacklightAnimator
start = record { config = Simple.default; tick = 9; time_of_last_press = 0; save_signalled = false }

abbrev before : State Simple.BacklightConfig
before = record { value = Simple.default; signals = false ∷ [] }

abbrev commands : List Simple.BacklightCommand
commands = Simple.toggle ∷ Simple.prev_effect ∷ []

backlight_round_lem_example :
    (r : Round Simple.BacklightConfig Simple.BacklightCommand Simple.BacklightAnimator)
    × (backlight_round kind simple_eq true commands before start ≡ some r)
    × (process_commands kind commands start ≡ some r.animator)
    × (r.config_state.value ≡ r.animator.config)
    × (((Simple.default ≢ r.animator.config) × AllSignalled r.config_state.signals)
        ⊎ ((Simple.default ≡ r.animator.config) × (r.config_state.signals ≡ false ∷ [])))
    × Switched Simple.default.enabled r.animator.config.enabled r.driver_calls
    × (r.messages ≡ kind.sync_to_peripherals r.animator)
unfolding simple_backlight Effect.is_enabled
backlight_round_lem_example =
    backlight_round_lem kind (simple_commands_end one_off Effect.breathing refl) simple_eq
      simple_eq-IsEquality true commands before start

-- A database of one entry.
abbrev one_entry : ConfigDatabase (Option UnderglowConfig) UnderglowConfig
one_entry = record { check_metadata = λ d. d; read = λ d. d; write = λ d c. (some c, true) }

one_entry-IsConfigDatabase : IsConfigDatabase one_entry
one_entry-IsConfigDatabase = record { read-write = λ d d' c e. ap (λ p. p.0) (sym e) }

abbrev brighter : UnderglowConfig
brighter = record running.config { val = 77 }

abbrev loaded : Saver (Option UnderglowConfig) UnderglowConfig
loaded = load config_eq one_entry stored none

abbrev changed : Saver (Option UnderglowConfig) UnderglowConfig
changed = record loaded { config_state = State.set config_eq loaded.config_state brighter }

config_kept_example :
    UpToDate config_eq one_entry one_entry-IsConfigDatabase (on_change config_eq one_entry changed)
    ⊎ Untouched config_eq one_entry one_entry-IsConfigDatabase running.config
        (on_change config_eq one_entry changed)
unfolding load State.quiet_set State.set_inner State.set State.notify_listeners effects
config_kept_example =
    config_kept config_eq one_entry one_entry-IsConfigDatabase config_eq-IsEquality stored false
      none (on_change config_eq one_entry changed) refl
      (next changed _ (next loaded _ here (set_config loaded brighter))
        (change_noticed changed refl refl))
