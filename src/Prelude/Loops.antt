-- ===== src/Prelude/Loops.antt =====
-- `while { body; test } {}` with fuel: `none` means that the fuel ran out.
use Prim.Native.Nat.{ℕ, zero, suc}
use mathlib.Core.Bool.{Bool}
use mathlib.Core.Option.{Option, none, some}
use Prim.Native.Nat.{◌<◌}
use mathlib.Core.Path.{◌≡◌, refl}
use mathlib.Core.Bool.{true, false}
use mathlib.Core.Logic.{inl, inr}
use native.Mathlib.Omega.{arith}
use rumcake.Prelude.Tests.{if◌then◌else◌, Bool-cases}

module _ {ℓ} {S : Type ℓ} where
  unfoldable pub do_while : ℕ → (S → S) → (S → Bool) → S → Option S
  do_while zero body test s = none
  do_while (suc fuel) body test s =
      let s' = body s in let rest = do_while fuel body test s' in if test s' then rest else some s'

  unfoldable pub iterate : ℕ → (S → S) → S → S
  iterate zero f s = s
  iterate (suc n) f s = iterate n f (f s)

below_suc {ℓ} :
    (P : ℕ → Type ℓ) (n : ℕ) → P 0 → ((i : ℕ) → i < n → P (suc i)) → (i : ℕ) → i < suc n → P i
below_suc P n first rest zero h = first
below_suc P n first rest (suc i) h = rest i (omega arith)

module _ {ℓ} {S : Type ℓ} (body : S → S) (test : S → Bool) where
  -- The loop ends within `k + 1` rounds if the test fails after one of them.
  pub do_while_ends :
      (k fuel : ℕ) (s : S)
      → test (iterate (suc k) body s) ≡ false
      → k < fuel
      → (s' : S) × (do_while fuel body test s ≡ some s')
  unfolding do_while iterate
  do_while_ends k zero s e h = elim h [ ]
  do_while_ends zero (suc fuel) s e h = (body s, rw e)
  do_while_ends (suc k) (suc fuel) s e h = elim (Bool-cases (test (body s))) [
    | inl more ↦ rw more (do_while_ends k fuel (body s) e (omega arith))
    | inr done ↦ (body s, rw done)
  ]

  -- The state that the loop leaves behind: the first one, after a round at least, that fails the
  -- test.
  pub record IsFirst (s s' : S) (rounds : ℕ) : Type ℓ where
    pub reached : s' ≡ iterate (suc rounds) body s
    pub stops : test s' ≡ false
    pub before : (i : ℕ) → i < rounds → test (iterate (suc i) body s) ≡ true

  pub do_while-IsFirst :
      (fuel : ℕ) (s s' : S) → do_while fuel body test s ≡ some s' → (n : ℕ) × IsFirst s s' n
  unfolding do_while iterate
  do_while-IsFirst zero s s' e = cc
  do_while-IsFirst (suc fuel) s s' e = elim (Bool-cases (test (body s))) [
    | inl more ↦
        let (n, first) = do_while-IsFirst fuel (body s) s' (rw more at e) in
        (
          suc n,
          record {
            reached = first.reached;
            stops = first.stops;
            before = below_suc (λ i. test (iterate (suc i) body s) ≡ true) n more first.before;
          },
        )
    | inr done ↦
        let same : s' ≡ body s = (cc (rw done at e)) in
        (0, record { reached = same; stops = rw same done; before = λ i h. absurd (omega arith) })
  ]

  -- A test that never fails: the loop does not end, whatever the fuel.
  pub do_while_diverges :
      (fuel : ℕ) (s : S)
      → ((i : ℕ) → test (iterate (suc i) body s) ≡ true)
      → do_while fuel body test s ≡ none
  unfolding do_while iterate
  do_while_diverges zero s h = refl
  do_while_diverges (suc fuel) s h = rw (h 0) (do_while_diverges fuel (body s) (λ i. h (suc i)))
