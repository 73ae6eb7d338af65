-- ===== src/Examples/Notify.antt =====
-- `State` of rumcake/src/lib.rs and a round of the underglow task at concrete inputs.
use rumcake.Prelude.{
  ℕ, ◌+◌, ◌≡◌, ◌≢◌, ◌⊎◌, ◌↔◌, refl, Bool, true, false, not, ◌&&◌, some, List, [], ◌∷◌, ◌==◌, ==_iff,
  arith,
}
use rumcake.State
use rumcake.State.{State, PartialEq, IsEquality}
use rumcake.State.Notify.{AllSignalled, update_notifies, quiet_agrees}
use rumcake.Underglow
use rumcake.Underglow.{UnderglowConfig, UnderglowAnimator}
use rumcake.Underglow.Effect.{EnabledEffects, effects, effects-IsEnum, is_enabled, solid, snake}
use rumcake.Underglow.Task.{Round, underglow_round, process_commands}
use rumcake.Underglow.Sync.{Switched, underglow_round_lem}
use rumcake.Lighting.Cycle.{discriminant-injective}

abbrev number_eq : PartialEq ℕ
number_eq = record { eq = ◌==◌ }

number_eq-IsEquality : IsEquality number_eq
number_eq-IsEquality = record { eq_iff = ==_iff }

abbrev two_listeners : State ℕ
two_listeners = record { value = 3; signals = false ∷ true ∷ [] }

update_notifies_example :
    let (s', result) = State.update number_eq two_listeners (λ n. (n + 4, true)) in
    (s'.value ≡ 7)
    × (result ≡ true)
    × (((3 ≢ s'.value) × AllSignalled s'.signals)
        ⊎ ((3 ≡ s'.value) × (s'.signals ≡ false ∷ true ∷ [])))
update_notifies_example =
    update_notifies number_eq number_eq-IsEquality two_listeners (λ n. (n + 4, true))

quiet_agrees_example :
    let doubled : ℕ → ℕ × Bool = λ n. (n + n, false) in
    (State.set number_eq two_listeners 5
      ≡ (State.update number_eq two_listeners (λ _. (5, true))).0)
    × ((State.quiet_set number_eq two_listeners 5).value
        ≡ (State.set number_eq two_listeners 5).value)
    × ((State.quiet_set number_eq two_listeners 5).signals ≡ false ∷ true ∷ [])
    × ((State.quiet_update number_eq two_listeners doubled).0.value
        ≡ (State.update number_eq two_listeners doubled).0.value)
    × ((State.quiet_update number_eq two_listeners doubled).1
        ≡ (State.update number_eq two_listeners doubled).1)
    × ((State.quiet_update number_eq two_listeners doubled).0.signals ≡ false ∷ true ∷ [])
quiet_agrees_example =
    quiet_agrees number_eq number_eq-IsEquality two_listeners 5 true (λ n. (n + n, false))

abbrev pub same_bool : Bool → Bool → Bool
same_bool true b = b
same_bool false b = not b

same_bool_iff : (a b : Bool) → (same_bool a b ≡ true) ↔ (a ≡ b)
same_bool_iff a b = ground arith

abbrev pub same_config : UnderglowConfig → UnderglowConfig → Bool
same_config a b =
    same_bool a.enabled b.enabled
    && (effects.discriminant a.effect == effects.discriminant b.effect
        && (a.hue == b.hue && (a.sat == b.sat && (a.val == b.val && a.speed == b.speed))))

abbrev pub config_eq : PartialEq UnderglowConfig
config_eq = record { eq = same_config }

pub config_eq-IsEquality : IsEquality config_eq
config_eq-IsEquality = record {
  eq_iff = λ a b. (
    ground (arith, discriminant-injective effects effects-IsEnum a.effect b.effect),
    ground arith,
  );
}

abbrev pub only_solid : EnabledEffects
only_solid = record {
  solid_enabled = true;
  breathing_enabled = false;
  rainbow_mood_enabled = false;
  rainbow_swirl_enabled = false;
  snake_enabled = false;
  knight_enabled = false;
  christmas_enabled = false;
  static_gradient_enabled = false;
  rgb_test_enabled = false;
  alternating_enabled = false;
  twinkle_enabled = false;
  reactive_enabled = false;
}

abbrev pub running : UnderglowAnimator
running = record {
  config = record { enabled = true; effect = snake; hue = 1; sat = 2; val = 3; speed = 4 };
  tick = 9;
  time_of_last_press = 0;
  save_signalled = false;
}

abbrev pub stored : State UnderglowConfig
stored = record { value = running.config; signals = false ∷ [] }

abbrev commands : List Underglow.UnderglowCommand
commands = Underglow.toggle ∷ Underglow.next_effect ∷ []

underglow_round_lem_example :
    (r : Round) × (underglow_round config_eq true only_solid commands stored running ≡ some r)
    × (process_commands only_solid commands running ≡ some r.animator)
    × (r.config_state.value ≡ r.animator.config)
    × (((running.config ≢ r.animator.config) × AllSignalled r.config_state.signals)
        ⊎ ((running.config ≡ r.animator.config) × (r.config_state.signals ≡ false ∷ [])))
    × Switched true r.animator.config.enabled r.driver_calls
unfolding is_enabled
underglow_round_lem_example =
    underglow_round_lem config_eq config_eq-IsEquality true only_solid solid refl commands stored
      running
