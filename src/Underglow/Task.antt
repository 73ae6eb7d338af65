-- ===== src/Underglow/Task.antt =====
-- rumcake/src/underglow/mod.rs: what `underglow_task` does when it has received a command, up to
-- the next frame. The matrix events that it discards and the ticker are left out.
use rumcake.Prelude.{Bool, true, false, not, Option, some, List, [], ◌∷◌, if◌then◌else◌}
use mathlib.Core.Option
use rumcake.State
use rumcake.State.{State, PartialEq}
use rumcake.Underglow.Effect.{EnabledEffects}
use rumcake.Underglow.{
  UnderglowConfig, UnderglowCommand, UnderglowAnimator, process_command, set_effect, set_hue,
  set_saturation, set_value, set_speed, reset_time,
}

-- The calls of the driver that switch the LEDs.
pub data DriverCall : Type 0 where
  turn_on turn_off : DriverCall

-- What a round of the task leaves behind: the animator, the shared configuration, the driver's
-- calls and the commands sent to the peripherals, each in order.
pub record Round : Type 0 where
  pub animator : UnderglowAnimator
  pub config_state : State UnderglowConfig
  pub driver_calls : List DriverCall
  pub messages : List UnderglowCommand

-- The received command and those that `try_receive` still finds, in order.
unfoldable pub process_commands :
    EnabledEffects → List UnderglowCommand → UnderglowAnimator → Option UnderglowAnimator
unfolding Option.bind
process_commands d [] a = some a
process_commands d (c ∷ cs) a = Option.bind (process_command d c a) (process_commands d cs)

abbrev pub xor_bool : Bool → Bool → Bool
xor_bool true b = not b
xor_bool false b = b

-- The closure given to `UNDERGLOW_CONFIG_STATE.update`.
unfoldable pub store_config : UnderglowAnimator → UnderglowConfig → UnderglowConfig × Bool
store_config a config = (a.config, xor_bool config.enabled a.config.enabled)

unfoldable pub switch_driver : Bool → UnderglowAnimator → List DriverCall
switch_driver toggled a =
    if toggled then (if a.config.enabled then turn_on else turn_off) ∷ [] else []

-- The commands for the peripherals of a split keyboard, sent by the central half.
unfoldable pub sync_to_peripherals : UnderglowAnimator → List UnderglowCommand
sync_to_peripherals a =
    reset_time
    ∷ set_effect a.config.effect
    ∷ set_hue a.config.hue
    ∷ set_saturation a.config.sat
    ∷ set_value a.config.val
    ∷ set_speed a.config.speed
    ∷ []

module _ (eq : PartialEq UnderglowConfig) (split_central : Bool) where
  unfoldable pub finish_round : State UnderglowConfig → UnderglowAnimator → Round
  unfolding store_config switch_driver
  finish_round s a =
      let (s', toggled) = State.update eq s (store_config a) in
      record {
        animator = a;
        config_state = s';
        driver_calls = switch_driver toggled a;
        messages = if split_central then sync_to_peripherals a else [];
      }

  unfoldable pub underglow_round :
      EnabledEffects
      → List UnderglowCommand
      → State UnderglowConfig
      → UnderglowAnimator
      → Option Round
  unfolding finish_round
  underglow_round d cs s a = Option.map (finish_round s) (process_commands d cs a)
