-- ===== src/Via/Keymap/Faithful.antt =====
-- The keymap handlers of rumcake/src/via/handlers.rs with the conversions of
-- rumcake/src/via/protocol_12/keycodes.rs, as the protocol calls them.
use rumcake.Prelude.{ℕ, ◌+◌, ◌*◌, ◌≤◌, ◌<◌, ◌≡◌, true, some, List, [], ◌∷◌, ◌++◌, length, ok}
use rumcake.Keyberon.{LayoutOps, IsLayout, Action}
use rumcake.Keyboard.{Keycode}
use rumcake.Via.{ViaKeyboard}
use rumcake.Via.Storage.{Operation, update_data, dynamic_keymap}
use rumcake.Via.Keycodes.{KeycodeConfig, convert_action_to_keycode, convert_keycode_to_action}
use rumcake.Via.Keycodes.Media.{ConsumerPage, IsConsumerPage}
use rumcake.Via.Keycodes.RoundTrip.{is_faithful, keycode_round_trip}
use rumcake.Via.Keymap.{keymap_size, dynamic_keymap_get_buffer, dynamic_keymap_set_buffer}
use rumcake.Via.Keymap.Encode.{encode}
use rumcake.Via.Keymap.Position.{IsKeyboard}
use rumcake.Via.Keymap.Buffer.{AllRestored, keymap_buffer_round_trip}

module _ {C : Type 0} (page : ConsumerPage C) (named : IsConsumerPage page)
    (config : KeycodeConfig) where
  -- Keycodes that are converted to actions, none of which is one of those that read back as another.
  abbrev pub AllFaithful : List ℕ → Type 0
  AllFaithful [] = Unit {0}
  AllFaithful (c ∷ cs) =
      ((is_faithful c ≡ true)
        × (c < 65536)
        × ((a : Action (Keycode C)) × (convert_keycode_to_action page config c ≡ some a)))
      × AllFaithful cs

  module _ {L : Type 0} (ops : LayoutOps L (Action (Keycode C))) (k : ViaKeyboard) (layers : ℕ)
      (law : IsLayout ops layers k.rows k.cols) (valid : IsKeyboard k)
      (enough : k.layer_count ≤ layers) where
    restored :
        (cs : List ℕ)
        → AllFaithful cs
        → AllRestored ops k layers law valid enough
            (convert_action_to_keycode page config)
            (convert_keycode_to_action page config)
            cs
    restored [] _ = tt
    restored (c ∷ cs) ((faithful, word, (a, converted)), rest) = (
      record {
        action = a;
        converted = converted;
        back = keycode_round_trip page named config c a faithful converted;
        word = word;
      },
      restored cs rest,
    )

    -- For a keyboard with 1 to 256 rows and columns whose layout obeys the laws, and no more dynamic
    -- layers than it has: the host reads back the keycodes that it has written to a part of the keymap within the
    -- buffer, at most 16 at a time, if each is converted to an action and is a faithful one. Neither
    -- handler panics, and the storage task is told the bytes that the host sent.
    pub keymap_round_trip :
        (cs after old rest : List ℕ) (m : L) (o : ℕ)
        → AllFaithful cs
        → (o + length cs) * 2 ≤ keymap_size k
        → length cs ≤ 16
        → length old ≡ length cs * 2
        → (m' : L) × (operation : Operation) × (dynamic_keymap_set_buffer ops k
              (convert_keycode_to_action page config)
              m
              (o * 2)
              (length cs * 2)
              (encode cs ++ after)
            ≡ ok (m', operation))
          × (update_data dynamic_keymap (o * 2) (encode cs) ≡ ok operation)
          × (dynamic_keymap_get_buffer ops k
                (convert_action_to_keycode page config)
                m'
                (o * 2)
                (length cs * 2)
                (old ++ rest)
              ≡ ok (encode cs ++ rest))
    keymap_round_trip cs after old rest m o faithful =
        keymap_buffer_round_trip ops k layers law valid enough
          (convert_action_to_keycode page config) (convert_keycode_to_action page config) cs after
          old rest m o (restored cs faithful)
