-- ===== src/Via/Lights/Windows.antt =====
-- The parts of a packet that the handlers of the lights are given.
use rumcake.Prelude.{ℕ, ◌≡◌, List, [], ◌∷◌, Run, ok, arith, slice, slice_ok, copy_slice_ok}
use rumcake.Via.Lights.{on_slice}

module _ (a b c x : ℕ) (rest : List ℕ) where
  pub slice_one : slice (a ∷ b ∷ c ∷ x ∷ rest) 3 4 ≡ ok (x ∷ [])
  slice_one = slice_ok (a ∷ b ∷ c ∷ x ∷ rest) 3 4 (omega arith) (omega arith)

  pub on_slice_one :
      (v : ℕ) (handler : List ℕ → Run (List ℕ))
      → handler (x ∷ []) ≡ ok (v ∷ [])
      → on_slice (a ∷ b ∷ c ∷ x ∷ rest) 3 4 handler ≡ ok (a ∷ b ∷ c ∷ v ∷ rest)
  unfolding on_slice
  on_slice_one v handler h =
      rw (slice_one, h)
        (copy_slice_ok (a ∷ b ∷ c ∷ x ∷ rest) 3 4 (v ∷ []) (omega arith) (omega arith))

  module _ (y : ℕ) where
    pub slice_two : slice (a ∷ b ∷ c ∷ x ∷ y ∷ rest) 3 5 ≡ ok (x ∷ y ∷ [])
    slice_two = slice_ok (a ∷ b ∷ c ∷ x ∷ y ∷ rest) 3 5 (omega arith) (omega arith)

    pub on_slice_two :
        (v w : ℕ) (handler : List ℕ → Run (List ℕ))
        → handler (x ∷ y ∷ []) ≡ ok (v ∷ w ∷ [])
        → on_slice (a ∷ b ∷ c ∷ x ∷ y ∷ rest) 3 5 handler ≡ ok (a ∷ b ∷ c ∷ v ∷ w ∷ rest)
    unfolding on_slice
    on_slice_two v w handler h =
        rw (slice_two, h)
          (copy_slice_ok (a ∷ b ∷ c ∷ x ∷ y ∷ rest) 3 5 (v ∷ w ∷ []) (omega arith) (omega arith))
