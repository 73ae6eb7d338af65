-- ===== src/Backlight/Task.antt =====
-- rumcake/src/backlight/mod.rs: the macro `backlight_task_fn`, which gives each kind of backlight its
-- task. What the macro is applied to, an animator with its configuration and its commands, is an
-- interface. The ticker and the discarded matrix events are left out.
pub mod Kinds
pub mod Rounds
use rumcake.Prelude.{
  Bool, true, false, ◌&&◌, Option, none, some, List, [], ◌∷◌, Run, ok, ◌>>=◌, if◌then◌else◌,
}
use mathlib.Core.Option
use rumcake.Keyberon.{Event}
use rumcake.State
use rumcake.State.{State, PartialEq}
use rumcake.Underglow.Task.{DriverCall, turn_on, turn_off, xor_bool}

pub record BacklightKind (Config Command Animator : Type 0) : Type 0 where
  pub config : Animator → Config
  pub enabled : Config → Bool
  pub is_animated : Config → Bool
  pub is_reactive : Config → Bool
  pub process_command : Command → Animator → Option Animator
  pub register_event : Event → Animator → Run Animator
  pub sync_to_peripherals : Animator → List Command

-- What a round with a command leaves behind, up to the next frame.
pub record Round (Config Command Animator : Type 0) : Type 0 where
  pub animator : Animator
  pub config_state : State Config
  pub driver_calls : List DriverCall
  pub messages : List Command

module _ {Config Command Animator : Type 0} (k : BacklightKind Config Command Animator) where
  -- What the task does before its loop.
  unfoldable pub start_driver : Animator → DriverCall
  start_driver a = if k.enabled (k.config a) then turn_on else turn_off

  -- The task sleeps until a command comes if there is nothing to animate.
  unfoldable pub waits_for_command : Animator → Bool
  waits_for_command a = if k.enabled (k.config a) && k.is_animated (k.config a) then false else true

  -- The matrix events since the last frame.
  unfoldable pub register_events : List Event → Animator → Run Animator
  register_events [] a = ok a
  register_events (event ∷ events) a =
      let skipped = register_events events a in
      let registered : Run Animator = do a' ← k.register_event event a; register_events events a'
      in if k.enabled (k.config a) && k.is_reactive (k.config a) then registered else skipped

  -- The received command and those that `try_receive` still finds, in order.
  unfoldable pub process_commands : List Command → Animator → Option Animator
  unfolding Option.bind
  process_commands [] a = some a
  process_commands (c ∷ cs) a = Option.bind (k.process_command c a) (process_commands cs)

  -- The closure given to `BACKLIGHT_CONFIG_STATE.update`.
  unfoldable pub store_config : Animator → Config → Config × Bool
  store_config a stored = (k.config a, xor_bool (k.enabled stored) (k.enabled (k.config a)))

  unfoldable pub switch_driver : Bool → Animator → List DriverCall
  switch_driver toggled a =
      if toggled then (if k.enabled (k.config a) then turn_on else turn_off) ∷ [] else []

  module _ (eq : PartialEq Config) (split_central : Bool) where
    unfoldable pub finish_round : State Config → Animator → Round Config Command Animator
    unfolding store_config switch_driver
    finish_round s a =
        let (s', toggled) = State.update eq s (store_config a) in
        record {
          animator = a;
          config_state = s';
          driver_calls = switch_driver toggled a;
          messages = if split_central then k.sync_to_peripherals a else [];
        }

    unfoldable pub backlight_round :
        List Command → State Config → Animator → Option (Round Config Command Animator)
    unfolding finish_round
    backlight_round cs s a = Option.map (finish_round s) (process_commands cs a)
