-- ===== src/Keyberon.antt =====
-- What rumcake uses of the vendored crate keyberon: the actions of a layout, the key codes, and
-- the layout's `get_action` and `change_action`, which are an interface.
use rumcake.Prelude.{ℕ, ◌<◌, ◌≡◌, Bool, ◌&&◌, ◌||◌, Option, some, in_range, ◌==◌, if◌then◌else◌}

-- A key event, with its row and column.
pub data Event : Type 0 where
  press release : ℕ → ℕ → Event

pub data OneShotEndConfig : Type 0 where
  end_on_first_press end_on_first_press_or_repress end_on_first_release
        end_on_first_release_or_repress :
      OneShotEndConfig

-- `&'static &'static [u8]`, by what it points to: an element of the macro buffer's `sequences`, by
-- its position, or other static data, by its address.
pub data SequenceRef : Type 0 where
  macro_slot : ℕ → SequenceRef
  static_sequence : ℕ → SequenceRef

-- `Action`, over the type of the custom actions. A key code is its `as u8`. Static data that
-- rumcake never looks into is an address.
mutual
  pub data Action (T : Type 0) : Type 0 where
    no_op trans : Action T
    key_code : ℕ → Action T
    multiple_key_codes multiple_actions : ℕ → Action T
    layer toggle_layer default_layer : ℕ → Action T
    hold_tap : ℕ → Action T
    one_shot : OneShotAction T → Action T
    tap_dance : ℕ → Action T
    sequence : SequenceRef → Action T
    custom : T → Action T

  pub data OneShotAction (T : Type 0) : Type 0 where
    one_shot_action : Action T → ℕ → OneShotEndConfig → OneShotAction T

-- `KeyCode::from_u8`: the discriminants of the enum are 0x00 to 0xA4 and 0xE0 to 0xE7.
unfoldable pub is_key_code : ℕ → Bool
is_key_code k = in_range 0x00 0xa4 k || in_range 0xe0 0xe7 k

-- `Layout::get_action` and `Layout::change_action`, at a row, a column and a layer; the change is
-- refused (`Err`) where there is no such key.
pub record LayoutOps (L A : Type 0) : Type 0 where
  pub get_action : L → ℕ → ℕ → ℕ → Option A
  pub change_action : L → ℕ → ℕ → ℕ → A → Option L

abbrev pub same_key : ℕ → ℕ → ℕ → ℕ → ℕ → ℕ → Bool
same_key r c l r' c' l' = (r == r') && ((c == c') && (l == l'))

-- What rumcake relies on: the keys are those of an array of `layers` by `rows` by `cols`.
pub record IsLayout {L A : Type 0} (ops : LayoutOps L A) (layers rows cols : ℕ) : Type 0 where
  pub get-in_bounds :
      (m : L) (r c l : ℕ)
      → r < rows
      → c < cols
      → l < layers
      → (a : A) × (ops.get_action m r c l ≡ some a)
  pub change-in_bounds :
      (m : L) (r c l : ℕ) (a : A)
      → r < rows
      → c < cols
      → l < layers
      → (m' : L) × (ops.change_action m r c l a ≡ some m')
  pub get-change :
      (m m' : L) (r c l r' c' l' : ℕ) (a : A)
      → ops.change_action m r c l a ≡ some m'
      → ops.get_action m' r' c' l'
        ≡ (if same_key r c l r' c' l' then some a else ops.get_action m r' c' l')
