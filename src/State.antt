-- ===== src/State.antt =====
-- rumcake/src/lib.rs, `State`: a value behind a mutex and the signals of its listeners. The
-- `PartialEq` of the data is a parameter, with the law that its users rely on. A signal is a
-- Boolean that `signal(())` raises and that the listening task takes down again.
pub mod Notify
use rumcake.Prelude.{ℕ, ◌≡◌, ◌↔◌, Bool, true, false, not, List, [], ◌∷◌, map, if◌then◌else◌}

pub record PartialEq (T : Type 0) : Type 0 where
  pub eq : T → T → Bool

pub record IsEquality {T : Type 0} (e : PartialEq T) : Type 0 where
  pub eq_iff : (a b : T) → (e.eq a b ≡ true) ↔ (a ≡ b)

-- `signals` are those of the listeners, in the order of the slice.
pub record State (T : Type 0) : Type 0 where
  pub value : T
  pub signals : List Bool

module _ {T : Type 0} where
  unfoldable pub new : T → List Bool → State T
  new value signals = record { value = value; signals = signals }

  unfoldable pub get : State T → T
  get s = s.value

module _ {T : Type 0} (e : PartialEq T) where
  unfoldable pub notify_listeners : State T → State T
  notify_listeners s = record s { signals = map (λ _. true) s.signals }

  unfoldable pub set_inner : State T → T → State T × Bool
  set_inner s value =
      let changed = not (e.eq s.value value) in (record s { value = value }, changed)

  unfoldable pub set : State T → T → State T
  unfolding set_inner notify_listeners
  set s value = let (s', changed) = set_inner s value in if changed then notify_listeners s' else s'

  unfoldable pub quiet_set : State T → T → State T
  unfolding set_inner
  quiet_set s value = (set_inner s value).0

  -- The updater returns the new value and a result.
  unfoldable pub update_inner {ℓ} : {R : Type ℓ} → State T → (T → T × R) → State T × Bool × R
  update_inner s updater =
      let (data', result) = updater s.value in
      (record s { value = data' }, not (e.eq s.value data'), result)

  unfoldable pub update {ℓ} : {R : Type ℓ} → State T → (T → T × R) → State T × R
  unfolding update_inner notify_listeners
  update s updater =
      let (s', changed, result) = update_inner s updater in
      (if changed then notify_listeners s' else s', result)

  unfoldable pub quiet_update {ℓ} : {R : Type ℓ} → State T → (T → T × R) → State T × R
  unfolding update_inner
  quiet_update s updater = let (s', _changed, result) = update_inner s updater in (s', result)
