-- ===== src/Examples/Reset.antt =====
-- `dynamic_keymap_reset` of rumcake/src/via/handlers.rs at a concrete layout.
use rumcake.Prelude.{◌≡◌, refl, some, List, [], ◌∷◌, ok, arith}
use rumcake.Keyberon.{Action, layer, default_layer}
use rumcake.Keyboard.{Keycode}
use rumcake.Via.Keymap.{get_key, dynamic_keymap_reset}
use rumcake.Via.Keymap.Reset.{at_key, keymap_reset}
use rumcake.Via.Keycodes.Media.{MediaKey}
use rumcake.Examples.Host.{Layout, keyboard, keyboard-IsKeyboard, layout_ops, layout_ops-IsLayout}

abbrev original : List (List (List (Action (Keycode MediaKey))))
original =
    ((layer 1 ∷ layer 2 ∷ layer 3 ∷ []) ∷ (layer 4 ∷ []) ∷ [])
    ∷ ((default_layer 1 ∷ default_layer 2 ∷ []) ∷ [])
    ∷ []

keymap_reset_example :
    (m : Layout) × (dynamic_keymap_reset layout_ops keyboard original (λ r c l. layer 0) ≡ ok m)
    × (get_key layout_ops keyboard m (at_key 1 0 1) ≡ some (default_layer 2))
keymap_reset_example =
    keymap_reset layout_ops keyboard 2 layout_ops-IsLayout keyboard-IsKeyboard (omega arith)
      original (λ r c l. layer 0) 1 0 1 ((default_layer 1 ∷ default_layer 2 ∷ []) ∷ [])
      (default_layer 1 ∷ default_layer 2 ∷ []) (default_layer 2) (omega arith)
      (omega arith, ((omega arith, (omega arith, tt)), (omega arith, ((omega arith, tt), tt)))) refl
      refl refl
