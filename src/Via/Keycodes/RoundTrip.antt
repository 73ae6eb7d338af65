-- ===== src/Via/Keycodes/RoundTrip.antt =====
-- Which keycodes of the host come back when the action that they set is read again.
use rumcake.Prelude.{
  ℕ, ◌+◌, ◌-◌, ◌≤◌, ◌<◌, ◌≡◌, ◌≢◌, refl, Bool, true, false, not, ◌&&◌, none, some, ◌==◌, ==_iff,
  in_range, ok, arith, passes_below, passes_below_lem, if_cases, Option-cases, inl, inr,
}
use rumcake.Keyberon.{Action, is_key_code}
use rumcake.Keyboard.{Keycode}
use rumcake.Underglow.{UnderglowCommand}
use rumcake.Via.Keycodes.Codes.{
  qk_toggle_layer, qk_toggle_layer_max, qk_kb, qk_backlight_on, qk_backlight_off, qk_backlight_down,
  rgb_sai, qk_momentary, qk_momentary_max, qk_def_layer, qk_def_layer_max, qk_macro, qk_macro_max,
  qk_one_shot_layer, qk_one_shot_layer_max, qmk_keycode_from_u8,
}
use rumcake.Via.Keycodes.Media.{
  MediaKey, ConsumerPage, IsConsumerPage, media_to_keycode, keycode_to_media, first_match,
}
use rumcake.Via.Keycodes.Lighting.{
  backlight_table, underglow_table, for_backlight_type, BacklightRequest, underglow_to_keycode,
  simple_to_keycode, simple_matrix_to_keycode, rgb_matrix_to_keycode, simple_request,
  simple_matrix_request, rgb_matrix_request,
}
use rumcake.Via.Keycodes.{
  KeycodeConfig, convert_action_to_keycode, convert_keycode_to_action, basic_action, macro_action,
  one_shot_layer_action, lighting_action, quantum_action, kb_action, quantum_tests, lighting_tests,
  layer_tests, layer_keycode,
}

-- The keycode of a media key, and back.
media_code_returns : ℕ → Bool
unfolding keycode_to_media media_to_keycode
media_code_returns code = elim (keycode_to_media code) [
  | none ↦ true
  | some m ↦ media_to_keycode m == code
]

media_codes_return : passes_below media_code_returns 256 ≡ true
unfolding passes_below media_code_returns
media_codes_return = refl

media_code_at :
    (code : ℕ) (m : MediaKey)
    → keycode_to_media code ≡ some m
    → media_code_returns code ≡ true
    → (media_to_keycode m == code) ≡ true
unfolding media_code_returns
media_code_at code m e h = rw (e, media_code_returns) at h

pub keycode_to_media-to_keycode :
    (code : ℕ) (m : MediaKey)
    → code < 256
    → keycode_to_media code ≡ some m
    → media_to_keycode m ≡ code
keycode_to_media-to_keycode code m h e =
    (==_iff _ _).0
      (media_code_at code m e (passes_below_lem media_code_returns 256 code h media_codes_return))

underglow_returns :
    (code : ℕ) (c : UnderglowCommand)
    → code ≢ rgb_sai
    → first_match code underglow_table ≡ some c
    → underglow_to_keycode c ≡ code
unfolding first_match underglow_to_keycode
underglow_returns code c n h = ground arith

-- A backlight keycode comes back if the request is one of the three that are read as written.
backlight_returns :
    (code : ℕ) (r : BacklightRequest)
    → code ≢ qk_backlight_on
    → code ≢ qk_backlight_off
    → code ≢ qk_backlight_down
    → first_match code backlight_table ≡ some r
    → (simple_to_keycode (simple_request r) ≡ code)
      × (simple_matrix_to_keycode (simple_matrix_request r) ≡ code)
      × (rgb_matrix_to_keycode (rgb_matrix_request r) ≡ code)
unfolding first_match simple_to_keycode simple_matrix_to_keycode rgb_matrix_to_keycode
    simple_request simple_matrix_request rgb_matrix_request
backlight_returns code r n m l h = ground arith

-- The keycodes whose action is another one than the keycode says; the rest is faithful.
unfoldable pub is_faithful : ℕ → Bool
is_faithful code =
    not (in_range 2 3 code)
    && (not (in_range qk_toggle_layer qk_toggle_layer_max code)
        && (not (code == qk_backlight_on)
            && (not (code == qk_backlight_off)
                && (not (code == qk_backlight_down)
                    && (not (code == rgb_sai) && not (in_range (qk_kb + 32) (qk_kb + 63) code))))))

small_faithful : (code : ℕ) → is_faithful code ≡ true → code ≢ 2 × code ≢ 3
unfolding is_faithful
small_faithful code f = (ground arith, ground arith)

not_toggle :
    (code : ℕ) → is_faithful code ≡ true → in_range qk_toggle_layer qk_toggle_layer_max code ≡ false
unfolding is_faithful
not_toggle code f = ground arith

module _ {C : Type 0} (page : ConsumerPage C) (law : IsConsumerPage page) (k : KeycodeConfig) where
  basic_round_trip :
      (code : ℕ) (a : Action (Keycode C))
      → 4 ≤ code
      → code < 256
      → basic_action page k code ≡ some a
      → convert_action_to_keycode page k a ≡ ok code
  unfolding basic_action convert_action_to_keycode is_key_code qmk_keycode_from_u8
  basic_round_trip code a lo hi h = elim (Option-cases (keycode_to_media code)) [
    | inl no_media ↦ ground arith
    | inr (m, e) ↦ ground (arith, keycode_to_media-to_keycode code m hi e, law.named-variant m)
  ]

  lighting_round_trip :
      (code : ℕ) (a : Action (Keycode C))
      → is_faithful code ≡ true
      → lighting_action page k code ≡ some (some a)
      → convert_action_to_keycode page k a ≡ ok code
  unfolding lighting_action convert_action_to_keycode for_backlight_type is_faithful
  lighting_round_trip code a f h = elim (Option-cases (first_match code backlight_table)) [
    | inl none_of_them ↦ elim (Option-cases (first_match code underglow_table)) [
      | inl nothing ↦ ground arith
      | inr (c, e) ↦ ground (arith, underglow_returns code c)
    ]
    | inr (r, e) ↦ ground (arith, backlight_returns code r)
  ]

  kb_round_trip :
      (code : ℕ) (a : Action (Keycode C))
      → is_faithful code ≡ true
      → kb_action page k code ≡ some a
      → convert_action_to_keycode page k a ≡ ok code
  unfolding kb_action convert_action_to_keycode is_faithful
  kb_round_trip code a f h = ground arith

  quantum_round_trip :
      (code : ℕ) (a : Action (Keycode C))
      → is_faithful code ≡ true
      → quantum_tests page k code ≡ some a
      → convert_action_to_keycode page k a ≡ ok code
  unfolding quantum_tests quantum_action
  quantum_round_trip code a f h = ground (arith, kb_round_trip code a)

  lighting_tests_round_trip :
      (code : ℕ) (a : Action (Keycode C))
      → is_faithful code ≡ true
      → lighting_tests page k code ≡ some a
      → convert_action_to_keycode page k a ≡ ok code
  unfolding lighting_tests
  lighting_tests_round_trip code a f h =
      ground (arith, lighting_round_trip code a, quantum_round_trip code a)

  macro_round_trip :
      (code : ℕ) (a : Action (Keycode C))
      → in_range qk_macro qk_macro_max code ≡ true
      → macro_action page k (code - qk_macro) ≡ some a
      → convert_action_to_keycode page k a ≡ ok code
  unfolding macro_action convert_action_to_keycode
  macro_round_trip code a r h = ground arith

  one_shot_round_trip :
      (code : ℕ) (a : Action (Keycode C))
      → in_range qk_one_shot_layer qk_one_shot_layer_max code ≡ true
      → one_shot_layer_action page k (code - qk_one_shot_layer) ≡ some a
      → convert_action_to_keycode page k a ≡ ok code
  unfolding one_shot_layer_action convert_action_to_keycode
  one_shot_round_trip code a r h = ground arith

  -- A layer number that fits its range.
  layer_keycode_lem :
      (start max code : ℕ)
      → start ≤ code
      → code ≤ max
      → max < 65536
      → layer_keycode start max (code - start) ≡ code
  unfolding layer_keycode
  layer_keycode_lem start max code lo hi w = ground arith

  momentary_round_trip :
      (code : ℕ) (a : Action (Keycode C))
      → in_range qk_momentary qk_momentary_max code ≡ true
      → some (Action.layer (code - qk_momentary)) ≡ some a
      → convert_action_to_keycode page k a ≡ ok code
  unfolding convert_action_to_keycode
  momentary_round_trip code a r h =
      ground (arith, layer_keycode_lem qk_momentary qk_momentary_max code)

  def_layer_round_trip :
      (code : ℕ) (a : Action (Keycode C))
      → in_range qk_def_layer qk_def_layer_max code ≡ true
      → some (Action.default_layer (code - qk_def_layer)) ≡ some a
      → convert_action_to_keycode page k a ≡ ok code
  unfolding convert_action_to_keycode
  def_layer_round_trip code a r h =
      ground (arith, layer_keycode_lem qk_def_layer qk_def_layer_max code)

  layer_tests_round_trip :
      (code : ℕ) (a : Action (Keycode C))
      → is_faithful code ≡ true
      → layer_tests page k code ≡ some a
      → convert_action_to_keycode page k a ≡ ok code
  unfolding layer_tests
  layer_tests_round_trip code a f h = if_cases _ _ _ _ h (momentary_round_trip code a) (λ _ h₁.
      if_cases _ _ _ _ h₁ (def_layer_round_trip code a) (λ _ h₂.
        if_cases (in_range qk_toggle_layer qk_toggle_layer_max code)
          (some (Action.default_layer (code - qk_toggle_layer))) _ _ h₂
          (λ toggles _. cc (not_toggle code f, toggles))
          (λ _ h₃. if_cases _ _ _ _ h₃ (one_shot_round_trip code a) (λ _ h₄.
            if_cases _ _ _ _ h₄ (macro_round_trip code a)
              (λ _. lighting_tests_round_trip code a f)))))

  -- A keycode that the host sets and that is converted reads back as the same keycode, unless it
  -- is one of those that `is_faithful` leaves out.
  pub keycode_round_trip :
      (code : ℕ) (a : Action (Keycode C))
      → is_faithful code ≡ true
      → convert_keycode_to_action page k code ≡ some a
      → convert_action_to_keycode page k a ≡ ok code
  unfolding convert_keycode_to_action convert_action_to_keycode
  keycode_round_trip code a f h =
      ground (arith, small_faithful code f, basic_round_trip code a, layer_tests_round_trip code a)
