-- ===== src/Via/Keymap/Buffer.antt =====
-- Writing a part of the keymap buffer and reading it again: rumcake/src/via/handlers.rs,
-- `dynamic_keymap_set_buffer` and `dynamic_keymap_get_buffer`.
use rumcake.Prelude.{
  ℕ, suc, ◌+◌, ◌-◌, ◌*◌, ◌/◌, ◌≤◌, ◌<◌, ◌≡◌, refl, sym, ap, ◌∙◌, Option, some, List, [], ◌∷◌, ◌++◌,
  length, drop, Run, ok, replicate, to_be_bytes, arith,
}
use rumcake.Keyberon.{LayoutOps, IsLayout}
use rumcake.Via.{ViaKeyboard, window_len}
use rumcake.Via.Storage.{Operation, update_data, dynamic_keymap, write}
use rumcake.Via.Macros.Window.{update_data_ok, window_len_within}
use rumcake.Via.Keymap.{
  Coordinates, keymap_size, get_key, change_key, get_keys, set_key, set_keys,
  dynamic_keymap_get_buffer, dynamic_keymap_set_buffer,
}
use rumcake.Via.Keymap.Encode.{
  encode, length-encode, prefix_encode, be_bytes_round_trip, slice_pair, copy_pair, behind_pair,
  length-pair,
}
use rumcake.Via.Keymap.Keys.{change_key_ok, get-change_same, get-change_other}
use rumcake.Via.Keymap.Position.{IsKeyboard, key_number, key_at_lem}

module _ {L A : Type 0} (ops : LayoutOps L A) (k : ViaKeyboard) (layers : ℕ)
    (law : IsLayout ops layers k.rows k.cols) (valid : IsKeyboard k)
    (enough : k.layer_count ≤ layers) where
  module _ (to_keycode : A → Run ℕ) (to_action : ℕ → Option A) where
    -- A keycode that is converted to an action, from which it is converted back.
    pub record IsRestored (c : ℕ) : Type 0 where
      pub action : A
      pub converted : to_action c ≡ some action
      pub back : to_keycode action ≡ ok c
      pub word : c < 65536

    abbrev pub AllRestored : List ℕ → Type 0
    AllRestored [] = Unit {0}
    AllRestored (c ∷ cs) = IsRestored c × AllRestored cs

    -- The keys from number `q` on have actions that are converted to the keycodes.
    abbrev pub Holds : L → ℕ → List ℕ → Type 0
    Holds m q [] = Unit {0}
    Holds m q (c ∷ cs) =
        ((a : A) × (get_key ops k m (key_number k q) ≡ some a) × (to_keycode a ≡ ok c))
        × Holds m (suc q) cs

    pub set_key_ok :
        (m m₁ : L) (c : ℕ) (coords : Coordinates) (r : IsRestored c)
        → change_key ops k m coords r.action ≡ some m₁
        → set_key ops k to_action m coords c ≡ ok m₁
    unfolding set_key
    set_key_ok m m₁ c coords r changed = rw (r.converted, set_key, changed)

    set_keys_step :
        (n c : ℕ) (before rest : List ℕ) (m m₁ : L) (o q : ℕ) (r : IsRestored c)
        → length before ≡ q * 2 - o * 2
        → change_key ops k m (key_number k q) r.action ≡ some m₁
        → set_keys ops k to_action (suc n) (q * 2) (o * 2) m (before ++ (to_be_bytes c ++ rest))
          ≡ set_keys ops k to_action n (suc q * 2) (o * 2) m₁ ((before ++ to_be_bytes c) ++ rest)
    unfolding set_keys
    set_keys_step n c before rest m m₁ o q r e changed =
        let next : q * 2 + 2 ≡ suc q * 2 = omega arith in
        rw (
          slice_pair before rest c (q * 2 - o * 2) (sym e),
          be_bytes_round_trip c r.word,
          key_at_lem k valid q,
          set_key_ok m m₁ c (key_number k q) r changed,
          next,
          behind_pair before rest c,
        )

    get_keys_step :
        (n c x y : ℕ) (before rest : List ℕ) (m : L) (o q : ℕ) (a : A)
        → length before ≡ q * 2 - o * 2
        → get_key ops k m (key_number k q) ≡ some a
        → to_keycode a ≡ ok c
        → get_keys ops k to_keycode (suc n) (q * 2) (o * 2) m (before ++ (x ∷ y ∷ rest))
          ≡ get_keys ops k to_keycode n (suc q * 2) (o * 2) m ((before ++ to_be_bytes c) ++ rest)
    unfolding get_keys
    get_keys_step n c x y before rest m o q a e got back =
        let next : q * 2 + 2 ≡ suc q * 2 = omega arith in
        rw (
          key_at_lem k valid q,
          got,
          back,
          copy_pair before rest x y c (q * 2 - o * 2) (sym e),
          next,
          behind_pair before rest c,
        )

    -- Every round writes the key of its keycode and no other.
    set_keys_lem :
        (cs before after : List ℕ) (m : L) (o q : ℕ)
        → AllRestored cs
        → o ≤ q
        → length before ≡ q * 2 - o * 2
        → (q + length cs) * 2 ≤ keymap_size k
        → (m' : L) × (set_keys ops k to_action
              (length cs)
              (q * 2)
              (o * 2)
              m
              (before ++ (encode cs ++ after))
            ≡ ok m')
          × Holds m' q cs
          × ((p : ℕ) → p < q → get_key ops k m' (key_number k p) ≡ get_key ops k m (key_number k p))
    unfolding set_keys encode
    set_keys_lem [] before after m o q r h e b = (m, refl, tt, λ p lt. refl)
    set_keys_lem (c ∷ cs) before after m o q (r, rs) h e b =
        let (m₁, changed) =
          change_key_ok ops k layers law valid enough m q r.action (omega arith) in
        let (m', run, holds, below) =
          set_keys_lem cs (before ++ to_be_bytes c) after m₁ o (suc q) rs (omega arith)
            (length-pair before c o q h e) (omega arith) in
        (
          m',
          set_keys_step (length cs) c before (encode cs ++ after) m m₁ o q r e changed ∙ run,
          (
            (
              r.action,
              below q (omega arith)
                  ∙ get-change_same ops k layers law valid enough m m₁ (key_number k q) r.action
                      changed,
              r.back,
            ),
            holds,
          ),
          λ p lt.
              below p (omega arith)
              ∙ get-change_other ops k layers law valid enough m m₁ p q r.action
                  (λ same. omega arith) changed,
        )

    -- Reading the keys gives their keycodes.
    get_keys_lem :
        (cs before old after : List ℕ) (m : L) (o q : ℕ)
        → Holds m q cs
        → o ≤ q
        → length before ≡ q * 2 - o * 2
        → length old ≡ length cs * 2
        → get_keys ops k to_keycode (length cs) (q * 2) (o * 2) m (before ++ (old ++ after))
          ≡ ok (before ++ (encode cs ++ after))
    unfolding get_keys encode
    get_keys_lem [] before [] after m o q hs h e l = refl
    get_keys_lem (c ∷ cs) before (x ∷ y ∷ old) after m o q ((a, got, back), hs) h e l =
        get_keys_step (length cs) c x y before (old ++ after) m o q a e got back
        ∙ get_keys_lem cs (before ++ to_be_bytes c) old after m o (suc q) hs (omega arith)
            (length-pair before c o q h e) (omega arith)
        ∙ ap ok (sym (behind_pair before (encode cs ++ after) c))
    get_keys_lem _ _ _ _ _ _ _ _ _ _ l = absurd (omega arith)

    encoded_write : ℕ → List ℕ → Operation
    encoded_write o cs =
        write (encode cs ++ drop (length (encode cs)) (replicate 32 0)) dynamic_keymap (o * 2)
          (length (encode cs))

    told_encode :
        (o : ℕ) (cs : List ℕ)
        → length cs ≤ 16
        → update_data dynamic_keymap (o * 2) (encode cs) ≡ ok (encoded_write o cs)
    unfolding encoded_write
    told_encode o cs h =
        update_data_ok dynamic_keymap (o * 2) (encode cs) (omega (arith, length-encode cs))

    module _ (cs : List ℕ) (o : ℕ) (within : (o + length cs) * 2 ≤ keymap_size k) where
      whole_window : window_len (keymap_size k) (o * 2) (length cs * 2) ≡ length cs * 2
      whole_window = window_len_within (keymap_size k) (o * 2) (length cs * 2) (omega arith)

      all_rounds : (length cs * 2 + 1) / 2 ≡ length cs
      all_rounds = omega arith

      set_buffer_ok :
          (after : List ℕ) (m m' : L)
          → length cs ≤ 16
          → set_keys ops k to_action (length cs) (o * 2) (o * 2) m (encode cs ++ after) ≡ ok m'
          → dynamic_keymap_set_buffer ops k to_action m (o * 2) (length cs * 2) (encode cs ++ after)
            ≡ ok (m', encoded_write o cs)
      unfolding dynamic_keymap_set_buffer
      set_buffer_ok after m m' packet run =
          rw (whole_window, all_rounds, run, prefix_encode cs after, told_encode o cs packet)

      get_buffer_ok :
          (old rest : List ℕ) (m : L)
          → Holds m o cs
          → length old ≡ length cs * 2
          → dynamic_keymap_get_buffer ops k to_keycode m (o * 2) (length cs * 2) (old ++ rest)
            ≡ ok (encode cs ++ rest)
      unfolding dynamic_keymap_get_buffer
      get_buffer_ok old rest m holds l =
          rw (whole_window, all_rounds)
            (get_keys_lem cs [] old rest m o o holds (omega arith) (omega arith) l)

    -- Part of the keymap that the host writes is what it reads back: `cs` are keycodes that convert
    -- to actions and back, `o` and the number of keycodes are within the buffer, and the packets
    -- have room for them. No step panics, and the storage task is told the same bytes.
    pub keymap_buffer_round_trip :
        (cs after old rest : List ℕ) (m : L) (o : ℕ)
        → AllRestored cs
        → (o + length cs) * 2 ≤ keymap_size k
        → length cs ≤ 16
        → length old ≡ length cs * 2
        → (m' : L) × (operation : Operation) × (dynamic_keymap_set_buffer ops k to_action m
              (o * 2)
              (length cs * 2)
              (encode cs ++ after)
            ≡ ok (m', operation))
          × (update_data dynamic_keymap (o * 2) (encode cs) ≡ ok operation)
          × (dynamic_keymap_get_buffer ops k to_keycode m' (o * 2) (length cs * 2) (old ++ rest)
              ≡ ok (encode cs ++ rest))
    keymap_buffer_round_trip cs after old rest m o r b packet l =
        let (m', run, holds, _) = set_keys_lem cs [] after m o o r (omega arith) (omega arith) b in
        (
          m',
          encoded_write o cs,
          set_buffer_ok cs o b after m m' packet run,
          told_encode o cs packet,
          get_buffer_ok cs o b old rest m' holds l,
        )
