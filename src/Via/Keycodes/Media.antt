-- ===== src/Via/Keycodes/Media.antt =====
-- rumcake/src/via/protocol_12/keycodes.rs: the media keycodes, in both directions. `Consumer` is an
-- enum of the crate `usbd_human_interface_device`; the conversions name 22 of its variants.
use rumcake.Prelude.{ℕ, ◌≡◌, Option, none, some, List, [], ◌∷◌, ◌==◌, if◌then◌else◌}
use rumcake.Via.Keycodes.Codes.{
  kc_system_power, kc_system_sleep, kc_audio_mute, kc_audio_vol_up, kc_audio_vol_down,
  kc_media_next_track, kc_media_prev_track, kc_media_stop, kc_media_play_pause, kc_media_select,
  kc_media_eject, kc_mail, kc_calculator, kc_www_search, kc_www_home, kc_www_back, kc_www_forward,
  kc_www_stop, kc_www_refresh, kc_media_fast_forward, kc_media_rewind, kc_control_panel,
}

pub data MediaKey : Type 0 where
  power sleep mute volume_increment volume_decrement scan_next_track scan_previous_track stop
        play_pause media_selection eject al_email_reader al_calculator ac_search ac_home ac_back
        ac_forward ac_stop ac_refresh fast_forward rewind al_control_panel :
      MediaKey

-- The consumer page: the variant of each name, and the name of a variant, if it has one here.
pub record ConsumerPage (C : Type 0) : Type 0 where
  pub variant : MediaKey → C
  pub named : C → Option MediaKey

-- The variants are told apart.
pub record IsConsumerPage {C : Type 0} (page : ConsumerPage C) : Type 0 where
  pub named-variant : (m : MediaKey) → page.named (page.variant m) ≡ some m
  pub variant-named : (c : C) (m : MediaKey) → page.named c ≡ some m → page.variant m ≡ c

unfoldable pub media_to_keycode : MediaKey → ℕ
media_to_keycode power = kc_system_power
media_to_keycode sleep = kc_system_sleep
media_to_keycode mute = kc_audio_mute
media_to_keycode volume_increment = kc_audio_vol_up
media_to_keycode volume_decrement = kc_audio_vol_down
media_to_keycode scan_next_track = kc_media_next_track
media_to_keycode scan_previous_track = kc_media_prev_track
media_to_keycode stop = kc_media_stop
media_to_keycode play_pause = kc_media_play_pause
media_to_keycode media_selection = kc_media_select
media_to_keycode eject = kc_media_eject
media_to_keycode al_email_reader = kc_mail
media_to_keycode al_calculator = kc_calculator
media_to_keycode ac_search = kc_www_search
media_to_keycode ac_home = kc_www_home
media_to_keycode ac_back = kc_www_back
media_to_keycode ac_forward = kc_www_forward
media_to_keycode ac_stop = kc_www_stop
media_to_keycode ac_refresh = kc_www_refresh
media_to_keycode fast_forward = kc_media_fast_forward
media_to_keycode rewind = kc_media_rewind
media_to_keycode al_control_panel = kc_control_panel

-- A chain of `if keycode == K { return Some(..); }`, in order.
unfoldable pub first_match : {A : Type 0} → ℕ → List (ℕ × A) → Option A
first_match k [] = none
first_match k ((code, a) ∷ rest) = if k == code then some a else first_match k rest

abbrev pub media_table : List (ℕ × MediaKey)
media_table =
    (kc_system_power, power)
    ∷ (kc_system_sleep, sleep)
    ∷ (kc_audio_mute, mute)
    ∷ (kc_audio_vol_up, volume_increment)
    ∷ (kc_audio_vol_down, volume_decrement)
    ∷ (kc_media_next_track, scan_next_track)
    ∷ (kc_media_prev_track, scan_previous_track)
    ∷ (kc_media_stop, stop)
    ∷ (kc_media_play_pause, play_pause)
    ∷ (kc_media_select, media_selection)
    ∷ (kc_media_eject, eject)
    ∷ (kc_mail, al_email_reader)
    ∷ (kc_calculator, al_calculator)
    ∷ (kc_www_search, ac_search)
    ∷ (kc_www_home, ac_home)
    ∷ (kc_www_back, ac_back)
    ∷ (kc_www_forward, ac_forward)
    ∷ (kc_www_stop, ac_stop)
    ∷ (kc_www_refresh, ac_refresh)
    ∷ (kc_media_fast_forward, fast_forward)
    ∷ (kc_media_rewind, rewind)
    ∷ (kc_control_panel, al_control_panel)
    ∷ []

unfoldable pub keycode_to_media : ℕ → Option MediaKey
unfolding first_match
keycode_to_media k = first_match k media_table
