-- ===== src/Backlight/Saving/Kept.antt =====
-- No change of the configuration is forgotten by the storage task.
use rumcake.Prelude.{
  none, Option, Bool, true, false, ◌≡◌, ◌⊎◌, inl, inr, refl, sym, ap, some, [], ◌∷◌, Bool-cases,
}
use mathlib.Core.Path.{subst}
use rumcake.State
use rumcake.State.{State, PartialEq, IsEquality}
use rumcake.Backlight.Saving.{
  ConfigDatabase, IsConfigDatabase, waiting, settling, Saver, load, save, on_save_signal, on_change,
  on_settled, on_change_again, Step, set_config, request_save, save_signalled, change_noticed,
  settled, change_noticed_again, Reaches, here, next,
}

module _ {D Config : Type 0} (eq : PartialEq Config) (db : ConfigDatabase D Config)
    (law : IsConfigDatabase db) where
  -- The stored configuration is the current one, or the task is about to save it, or its last write
  -- failed.
  abbrev pub UpToDate : Saver D Config → Type 0
  UpToDate s =
      ((db.read s.database ≡ some s.config_state.value) ⊎ (s.last_write_ok ≡ false))
      ⊎ ((s.phase ≡ settling) ⊎ (s.config_state.signals ≡ true ∷ []))

  -- Nothing is stored, and the configuration is the one that the firmware started with.
  abbrev pub Untouched : Config → Saver D Config → Type 0
  Untouched initial s = (db.read s.database ≡ none) × (s.config_state.value ≡ initial)

  pub record IsKept (initial : Config) (s : Saver D Config) : Type 0 where
    pub one_listener : (b : Bool) × (s.config_state.signals ≡ b ∷ [])
    pub up_to_date : UpToDate s ⊎ Untouched initial s

  module _ (initial : Config) where
    save-IsKept :
        (s : Saver D Config) (b : Bool)
        → s.config_state.signals ≡ b ∷ []
        → IsKept initial (save eq db s)
    unfolding save State.get
    save-IsKept s b e =
        let written = db.write s.database s.config_state.value in
        record {
          one_listener = (b, e);
          up_to_date = inl (elim (Bool-cases written.1) [
            | inl w ↦ inl (
                inl (
                  law.read-write s.database written.0 s.config_state.value
                    (ap (λ (r : Bool). (written.0, r)) w)))
            | inr w ↦ inl (inr w)
          ]);
        }

    -- After a change the listener is signalled, unless the configuration is the old one.
    set_config-IsKept :
        (s : Saver D Config) (c : Config)
        → IsEquality eq
        → IsKept initial s
        → (b : Bool) → s.config_state.signals ≡ b ∷ []
        → IsKept initial (record s { config_state = State.set eq s.config_state c })
    unfolding State.set State.notify_listeners State.set_inner
    set_config-IsKept s c same k b e = elim (Bool-cases (eq.eq s.config_state.value c)) [
      | inl unchanged ↦
          let old : s.config_state.value ≡ c = (same.eq_iff s.config_state.value c).0 unchanged in
          let kept : State.set eq s.config_state c ≡ s.config_state =
            rw unchanged (ap (λ (v : Config). record s.config_state { value = v }) (sym old)) in
          subst (λ (st : State Config). IsKept initial (record s { config_state = st })) (sym kept)
            k
      | inr changed ↦
          let raised : (State.set eq s.config_state c).signals ≡ true ∷ [] = rw (changed, e) refl in
          record { one_listener = (true, raised); up_to_date = inl (inr (inr raised)) }
    ]

    Step-IsKept :
        {s t : Saver D Config}
        → IsEquality eq
        → Step eq db s t
        → IsKept initial s
        → IsKept initial t
    unfolding on_save_signal on_change on_settled on_change_again
    Step-IsKept same (set_config s c) k =
        let (b, e) = k.one_listener in set_config-IsKept s c same k b e
    Step-IsKept same (request_save s) k = record {
      one_listener = k.one_listener;
      up_to_date = k.up_to_date;
    }
    Step-IsKept same (save_signalled s e) k =
        let (b, one) = k.one_listener in
        save-IsKept (record s { phase = waiting; save_signal = false }) b one
    Step-IsKept same (change_noticed s p e) k = record {
      one_listener = (false, refl);
      up_to_date = inl (inr (inl refl));
    }
    Step-IsKept same (settled s p) k =
        let (b, one) = k.one_listener in save-IsKept (record s { phase = waiting }) b one
    Step-IsKept same (change_noticed_again s p e) k = record {
      one_listener = (true, refl);
      up_to_date = inl (inr (inr refl));
    }

    reached-IsKept :
        {s t : Saver D Config}
        → IsEquality eq
        → IsKept initial s
        → Reaches eq db s t
        → IsKept initial t
    reached-IsKept same k here = k
    reached-IsKept same k (next t u r step) = Step-IsKept same step (reached-IsKept same k r)

  load-IsKept :
      (s : State Config) (b : Bool) (d : D) (o : Option Config)
      → s.signals ≡ b ∷ []
      → db.read (db.check_metadata d) ≡ o
      → IsKept s.value (load eq db s d)
  unfolding load State.quiet_set State.set_inner
  load-IsKept s b d none one nothing = record {
    one_listener = (b, rw nothing one);
    up_to_date = inr (nothing, rw nothing refl);
  }
  load-IsKept s b d (some c) one stored = record {
    one_listener = (b, rw stored one);
    up_to_date = inl (inl (inl (rw stored refl)));
  }

  -- From the start of the task on, with a configuration stored or not, and whatever happens
  -- afterwards: the stored configuration is the current one, or a change is still signalled or waits
  -- for the five seconds to pass, or the last write failed, or nothing is stored and the
  -- configuration is still the one that the firmware started with.
  pub config_kept :
      IsEquality eq
      → (s : State Config) (b : Bool) (d : D) (t : Saver D Config) → s.signals ≡ b ∷ []
      → Reaches eq db (load eq db s d) t
      → UpToDate t ⊎ Untouched s.value t
  config_kept same s b d t one reached =
      (reached-IsKept s.value same (load-IsKept s b d (db.read (db.check_metadata d)) one refl)
        reached).up_to_date
