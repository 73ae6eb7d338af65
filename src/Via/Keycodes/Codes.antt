-- ===== src/Via/Keycodes/Codes.antt =====
-- rumcake/src/via/protocol_12/keycodes.rs: the keycode ranges and the keycodes of QMK that the
-- conversions name, and `UNKNOWN_KEYCODE`.
use rumcake.Prelude.{ℕ, Option, none, some, ◌||◌, in_range, if◌then◌else◌}

abbrev pub kc_no : ℕ
kc_no = 0x0000

abbrev pub qk_basic : ℕ
qk_basic = 0x0000

abbrev pub kc_transparent : ℕ
kc_transparent = 0x0001

abbrev pub kc_system_power : ℕ
kc_system_power = 0x00a5

abbrev pub kc_system_sleep : ℕ
kc_system_sleep = 0x00a6

abbrev pub kc_audio_mute : ℕ
kc_audio_mute = 0x00a8

abbrev pub kc_audio_vol_up : ℕ
kc_audio_vol_up = 0x00a9

abbrev pub kc_audio_vol_down : ℕ
kc_audio_vol_down = 0x00aa

abbrev pub kc_media_next_track : ℕ
kc_media_next_track = 0x00ab

abbrev pub kc_media_prev_track : ℕ
kc_media_prev_track = 0x00ac

abbrev pub kc_media_stop : ℕ
kc_media_stop = 0x00ad

abbrev pub kc_media_play_pause : ℕ
kc_media_play_pause = 0x00ae

abbrev pub kc_media_select : ℕ
kc_media_select = 0x00af

abbrev pub kc_media_eject : ℕ
kc_media_eject = 0x00b0

abbrev pub kc_mail : ℕ
kc_mail = 0x00b1

abbrev pub kc_calculator : ℕ
kc_calculator = 0x00b2

abbrev pub kc_www_search : ℕ
kc_www_search = 0x00b4

abbrev pub kc_www_home : ℕ
kc_www_home = 0x00b5

abbrev pub kc_www_back : ℕ
kc_www_back = 0x00b6

abbrev pub kc_www_forward : ℕ
kc_www_forward = 0x00b7

abbrev pub kc_www_stop : ℕ
kc_www_stop = 0x00b8

abbrev pub kc_www_refresh : ℕ
kc_www_refresh = 0x00b9

abbrev pub kc_media_fast_forward : ℕ
kc_media_fast_forward = 0x00bb

abbrev pub kc_media_rewind : ℕ
kc_media_rewind = 0x00bc

abbrev pub kc_control_panel : ℕ
kc_control_panel = 0x00bf

abbrev pub qk_basic_max : ℕ
qk_basic_max = 0x00ff

abbrev pub qk_momentary : ℕ
qk_momentary = 0x5220

abbrev pub qk_momentary_max : ℕ
qk_momentary_max = 0x523f

abbrev pub qk_def_layer : ℕ
qk_def_layer = 0x5240

abbrev pub qk_def_layer_max : ℕ
qk_def_layer_max = 0x525f

abbrev pub qk_toggle_layer : ℕ
qk_toggle_layer = 0x5260

abbrev pub qk_toggle_layer_max : ℕ
qk_toggle_layer_max = 0x527f

abbrev pub qk_one_shot_layer : ℕ
qk_one_shot_layer = 0x5280

abbrev pub qk_one_shot_layer_max : ℕ
qk_one_shot_layer_max = 0x529f

abbrev pub qk_macro : ℕ
qk_macro = 0x7700

abbrev pub qk_macro_max : ℕ
qk_macro_max = 0x777f

abbrev pub qk_backlight_on : ℕ
qk_backlight_on = 0x7800

abbrev pub qk_lighting : ℕ
qk_lighting = 0x7800

abbrev pub qk_backlight_off : ℕ
qk_backlight_off = 0x7801

abbrev pub qk_backlight_toggle : ℕ
qk_backlight_toggle = 0x7802

abbrev pub qk_backlight_down : ℕ
qk_backlight_down = 0x7803

abbrev pub qk_backlight_up : ℕ
qk_backlight_up = 0x7804

abbrev pub qk_backlight_step : ℕ
qk_backlight_step = 0x7805

abbrev pub rgb_tog : ℕ
rgb_tog = 0x7820

abbrev pub rgb_mode_forward : ℕ
rgb_mode_forward = 0x7821

abbrev pub rgb_mode_reverse : ℕ
rgb_mode_reverse = 0x7822

abbrev pub rgb_hui : ℕ
rgb_hui = 0x7823

abbrev pub rgb_hud : ℕ
rgb_hud = 0x7824

abbrev pub rgb_sai : ℕ
rgb_sai = 0x7825

abbrev pub rgb_sad : ℕ
rgb_sad = 0x7826

abbrev pub rgb_vai : ℕ
rgb_vai = 0x7827

abbrev pub rgb_vad : ℕ
rgb_vad = 0x7828

abbrev pub rgb_spi : ℕ
rgb_spi = 0x7829

abbrev pub rgb_spd : ℕ
rgb_spd = 0x782a

abbrev pub rgb_mode_plain : ℕ
rgb_mode_plain = 0x782b

abbrev pub rgb_mode_breathe : ℕ
rgb_mode_breathe = 0x782c

abbrev pub rgb_mode_rainbow : ℕ
rgb_mode_rainbow = 0x782d

abbrev pub rgb_mode_swirl : ℕ
rgb_mode_swirl = 0x782e

abbrev pub rgb_mode_snake : ℕ
rgb_mode_snake = 0x782f

abbrev pub rgb_mode_knight : ℕ
rgb_mode_knight = 0x7830

abbrev pub rgb_mode_xmas : ℕ
rgb_mode_xmas = 0x7831

abbrev pub rgb_mode_gradient : ℕ
rgb_mode_gradient = 0x7832

abbrev pub rgb_mode_rgbtest : ℕ
rgb_mode_rgbtest = 0x7833

abbrev pub rgb_mode_twinkle : ℕ
rgb_mode_twinkle = 0x7834

abbrev pub qk_lighting_max : ℕ
qk_lighting_max = 0x78ff

abbrev pub qk_quantum : ℕ
qk_quantum = 0x7c00

abbrev pub qk_output_usb : ℕ
qk_output_usb = 0x7c21

abbrev pub qk_output_bluetooth : ℕ
qk_output_bluetooth = 0x7c22

abbrev pub qk_kb : ℕ
qk_kb = 0x7e00

abbrev pub qk_kb_max : ℕ
qk_kb_max = 0x7e3f

abbrev pub unknown_keycode : ℕ
unknown_keycode = 0xffff

-- `QMKKeycodes::from_u8`, as the keycode: the discriminants of that enum below 0x100.
unfoldable pub qmk_keycode_from_u8 : ℕ → Option ℕ
qmk_keycode_from_u8 k =
    if in_range 0x00 0x01 k || (in_range 0x04 0xc2 k || in_range 0xcd 0xe7 k) then some k else none
