-- ===== src/Backlight/Saving.antt =====
-- rumcake/src/backlight/mod.rs, the macro `storage_task_fn`: the task that keeps a configuration in
-- the database. `underglow_storage_task` of rumcake/src/underglow/mod.rs is the same for its own
-- configuration. The calls of the database are an interface.
pub mod Kept
use rumcake.Prelude.{Bool, true, false, ◌≡◌, Option, none, some, List, [], ◌∷◌}
use rumcake.State
use rumcake.State.{State, PartialEq}

-- `StorageService::check_metadata`, `read` and `write`, for the key of the configuration.
pub record ConfigDatabase (D Config : Type 0) : Type 0 where
  pub check_metadata : D → D
  pub read : D → Option Config
  pub write : D → Config → D × Bool

-- What is written is read again.
pub record IsConfigDatabase {D Config : Type 0} (db : ConfigDatabase D Config) : Type 0 where
  pub read-write : (d d' : D) (c : Config) → db.write d c ≡ (d', true) → db.read d' ≡ some c

-- Where the task waits: for either signal, or, after a change, for five seconds to pass.
pub data Phase : Type 0 where
  waiting settling : Phase

-- The signal of the listener is the one of `config_state`.
pub record Saver (D Config : Type 0) : Type 0 where
  pub phase : Phase
  pub config_state : State Config
  pub save_signal : Bool
  pub database : D
  pub last_write_ok : Bool

abbrev pub with_listener : {Config : Type 0} → State Config → Bool → State Config
with_listener s signal = record s { signals = signal ∷ [] }

module _ {D Config : Type 0} (eq : PartialEq Config) (db : ConfigDatabase D Config) where
  -- Before the loop: the stored configuration, if there is one, without a signal.
  unfoldable pub load : State Config → D → Saver D Config
  unfolding State.quiet_set
  load s d =
      let d' = db.check_metadata d in
      record {
        phase = waiting;
        config_state = elim (db.read d') [ none ↦ s | some c ↦ State.quiet_set eq s c ];
        save_signal = false;
        database = d';
        last_write_ok = true;
      }

  -- The closure `save`, whose failure is ignored.
  unfoldable pub save : Saver D Config → Saver D Config
  save s =
      let (d, written) = db.write s.database (State.get s.config_state) in
      record s { database = d; last_write_ok = written }

  -- The arms of the two `select`s.
  unfoldable pub on_save_signal : Saver D Config → Saver D Config
  unfolding save
  on_save_signal s = save (record s { phase = waiting; save_signal = false })

  unfoldable pub on_change : Saver D Config → Saver D Config
  on_change s = record s { phase = settling; config_state = with_listener s.config_state false }

  unfoldable pub on_settled : Saver D Config → Saver D Config
  unfolding save
  on_settled s = save (record s { phase = waiting })

  -- The signal is taken down by the wait and raised again, for the next round.
  unfoldable pub on_change_again : Saver D Config → Saver D Config
  on_change_again s = record s { phase = waiting; config_state = with_listener s.config_state true }

  -- Steps of the task, and of those that change the configuration or request a save.
  pub data Step : Saver D Config → Saver D Config → Type 0 where
    set_config :
        (s : Saver D Config) (c : Config)
        → Step s (record s { config_state = State.set eq s.config_state c })
    request_save : (s : Saver D Config) → Step s (record s { save_signal = true })
    save_signalled : (s : Saver D Config) → s.save_signal ≡ true → Step s (on_save_signal s)
    change_noticed :
        (s : Saver D Config)
        → s.phase ≡ waiting
        → s.config_state.signals ≡ true ∷ []
        → Step s (on_change s)
    settled : (s : Saver D Config) → s.phase ≡ settling → Step s (on_settled s)
    change_noticed_again :
        (s : Saver D Config)
        → s.phase ≡ settling
        → s.config_state.signals ≡ true ∷ []
        → Step s (on_change_again s)

  pub data Reaches (s : Saver D Config) : Saver D Config → Type 0 where
    here : Reaches s s
    next : (t u : Saver D Config) → Reaches s t → Step t u → Reaches s u
