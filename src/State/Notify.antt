-- ===== src/State/Notify.antt =====
-- When the listeners of a `State` are signalled.
use rumcake.Prelude.{
  ◌≡◌, ◌≢◌, ◌⊎◌, refl, Bool, true, false, not, sym, List, [], ◌∷◌, map, if◌then◌else◌, Bool-cases,
  inl, inr,
}
use rumcake.State.{
  PartialEq, IsEquality, State, notify_listeners, set, quiet_set, update, quiet_update,
}

-- All signals are up.
abbrev pub AllSignalled : List Bool → Type 0
AllSignalled [] = Unit {0}
AllSignalled (b ∷ bs) = (b ≡ true) × AllSignalled bs

map-true-AllSignalled : (bs : List Bool) → AllSignalled (map (λ _. true) bs)
map-true-AllSignalled [] = tt
map-true-AllSignalled (b ∷ bs) = (refl, map-true-AllSignalled bs)

module _ {T : Type 0} (e : PartialEq T) where
  -- The value does not depend on whether the listeners are notified.
  notified_value :
      (b : Bool) (s : State T) → (if b then notify_listeners e s else s).value ≡ s.value
  unfolding notify_listeners
  notified_value true s = refl
  notified_value false s = refl

module _ {T : Type 0} (e : PartialEq T) (law : IsEquality e) where
  eq_self : (v : T) → e.eq v v ≡ true
  eq_self v = (law.eq_iff v v).1 refl

  ne_false : (a b : T) → a ≢ b → e.eq a b ≡ false
  ne_false a b h = elim (Bool-cases (e.eq a b)) [
    | inl same ↦ absurd (h ((law.eq_iff a b).0 same))
    | inr other ↦ other
  ]

  -- For a `PartialEq` that is equality: after `update` the state holds the updater's value, and the result is the updater's. Either
  -- the value differs from the old one and every listener is signalled, or it is the old one and
  -- no signal changes.
  pub update_notifies :
      {R : Type 0} (s : State T) (updater : T → T × R)
      → let (s', result) = update e s updater in
        (s'.value ≡ (updater s.value).0)
        × (result ≡ (updater s.value).1)
        × (((s.value ≢ s'.value) × AllSignalled s'.signals)
            ⊎ ((s.value ≡ s'.value) × (s'.signals ≡ s.signals)))
  unfolding update
  update_notifies s updater = elim (Bool-cases (e.eq s.value (updater s.value).0)) [
    | inl same ↦ rw same (refl, refl, inr ((law.eq_iff _ _).0 same, refl))
    | inr other ↦ rw other (
      refl,
      refl,
      inl (λ kept. cc ((law.eq_iff _ _).1 kept, other), map-true-AllSignalled s.signals),
    )
  ]

  -- `set` is `update` with a constant. The quiet versions store the same value and return the same
  -- result, and leave every signal as it was.
  pub quiet_agrees :
      {R : Type 0} (s : State T) (v : T) (r : R) (updater : T → T × R)
      → (set e s v ≡ (update e s (λ _. (v, r))).0)
        × ((quiet_set e s v).value ≡ (set e s v).value)
        × ((quiet_set e s v).signals ≡ s.signals)
        × ((quiet_update e s updater).0.value ≡ (update e s updater).0.value)
        × ((quiet_update e s updater).1 ≡ (update e s updater).1)
        × ((quiet_update e s updater).0.signals ≡ s.signals)
  unfolding set quiet_set update quiet_update
  quiet_agrees s v r updater =
      let stored = notified_value e (not (e.eq s.value v)) (record s { value = v }) in
      let updated =
        notified_value e (not (e.eq s.value (updater s.value).0))
          (record s { value = (updater s.value).0 }) in
      (refl, sym stored, refl, sym updated, refl, refl)
