-- ===== src/Via/Protocol/Replies.antt =====
-- What a command of rumcake/src/via/protocol_12/mod.rs may change: the packet, or what it is for.
use rumcake.Prelude.{
  ℕ, ◌≡◌, refl, Bool, true, false, Option, none, some, List, length, Run, ok, panic, ◌>>=◌, index,
  slice, from_be_bytes,
}
use mathlib.Core.Path.{subst}
use rumcake.State
use rumcake.Via.Lights.{put, on_slice}
use rumcake.Via.Lights.Lengths.{
  behind, put-length, on_slice-length, get_simple_backlight_length,
  get_simple_backlight_matrix_length, get_rgb_backlight_matrix_length, get_underglow_length,
}
use rumcake.Via.Protocol.Commands
use rumcake.Via.Protocol.Commands.{
  ViaCommandId, ViaKeyboardValueId, keyboard_value_from_u8, ViaChannelId, channel_from_u8,
}
use rumcake.Via.Protocol.State.{Host, reply}
use rumcake.Via.Protocol.Channels.{
  simple_channel, simple_matrix_channel, rgb_matrix_channel, underglow_channel, for_channel,
  custom_command,
}
use rumcake.Via.Protocol.Dispatch.{Firmware, get_value, process_command}

pub ok_injective {ℓ} : {A : Type ℓ} (a b : A) → ok a ≡ ok b → a ≡ b
ok_injective a b e = cc

module _ {L : Type 0} (h : Host L) where
  -- Only the packet has changed, and not its length.
  pub record IsReply (h' : Host L) : Type 0 where
    pub only_packet : h' ≡ record h { packet = h'.packet }
    pub same_length : length h'.packet ≡ length h.packet

  -- The packet goes back as it came.
  abbrev pub IsEcho : Host L → Type 0
  IsEcho h' = h'.packet ≡ h.packet

  reply_lem :
      (r : Run (List ℕ))
      → ((p : List ℕ) → r ≡ ok p → length p ≡ length h.packet)
      → (h' : Host L) → reply h r ≡ ok h'
      → IsReply h'
  reply_lem (ok p) all h' e =
      subst IsReply (ok_injective (record h { packet = p }) h' e)
        (record { only_packet = refl; same_length = all p refl })
  reply_lem panic all h' e = cc

  pub reply-put : (i v : ℕ) (h' : Host L) → reply h (put h.packet i v) ≡ ok h' → IsReply h'
  reply-put i v = reply_lem (put h.packet i v) (put-length h.packet i v)

  reply-on_slice :
      (from to : ℕ) (handler : List ℕ → Run (List ℕ)) (h' : Host L)
      → reply h (on_slice h.packet from to handler) ≡ ok h'
      → IsReply h'
  reply-on_slice from to handler =
      reply_lem (on_slice h.packet from to handler) (on_slice-length h.packet from to handler)

module _ {L A : Type 0} (f : Firmware L A)
    (keeps : (p : List ℕ) → length (f.handle_custom_value_command p) ≡ length p) (h : Host L) where
  value_replies :
      (v : Option ViaKeyboardValueId) (h' : Host L) → get_value f v h ≡ ok h' → IsReply h h'
  unfolding get_value
  value_replies (some Commands.uptime) = reply-on_slice h 2 6 _
  value_replies (some Commands.layout_options) = reply-on_slice h 2 6 _
  value_replies (some Commands.switch_matrix_state) = reply-on_slice h 2 (length h.packet) _
  value_replies (some Commands.firmware_version) = reply-on_slice h 2 6 _
  value_replies (some Commands.device_indication) = reply-put h 0 0xff
  value_replies none = reply-put h 0 0xff

  pub handled_replies :
      (h' : Host L)
      → ◌≡◌ {A = Run (Host L)}
          (ok (record h { packet = f.handle_custom_value_command h.packet }))
          (ok h')
      → IsReply h h'
  handled_replies h' e =
      subst (IsReply h) (ok_injective _ h' e)
        (record { only_packet = refl; same_length = keeps h.packet })

  channel_replies :
      (c : Option ViaChannelId) (h' : Host L)
      → for_channel f.handle_custom_value_command Commands.custom_get_value c h ≡ ok h'
      → IsReply h h'
  unfolding for_channel simple_channel simple_matrix_channel rgb_matrix_channel underglow_channel
  channel_replies (some Commands.backlight) =
      reply_lem h _ (get_simple_backlight_length (State.get h.lights.simple_config) h.packet)
  channel_replies (some Commands.led_matrix) =
      reply_lem h _
        (get_simple_backlight_matrix_length (State.get h.lights.simple_matrix_config) h.packet)
  channel_replies (some Commands.rgb_matrix) =
      reply_lem h _
        (get_rgb_backlight_matrix_length (State.get h.lights.rgb_matrix_config) h.packet)
  channel_replies (some Commands.rgb_light) =
      reply_lem h _ (get_underglow_length (State.get h.lights.underglow_config) h.packet)
  channel_replies (some Commands.custom) = handled_replies
  channel_replies none = handled_replies

  -- The commands that ask for something, and the one that is never carried out.
  abbrev pub is_request : ViaCommandId → Bool
  is_request Commands.get_protocol_version = true
  is_request Commands.get_keyboard_value = true
  is_request Commands.dynamic_keymap_get_keycode = true
  is_request Commands.custom_get_value = true
  is_request Commands.dynamic_keymap_macro_get_count = true
  is_request Commands.dynamic_keymap_macro_get_buffer_size = true
  is_request Commands.dynamic_keymap_macro_get_buffer = true
  is_request Commands.dynamic_keymap_get_layer_count = true
  is_request Commands.dynamic_keymap_get_buffer = true
  is_request Commands.dynamic_keymap_get_encoder = true
  is_request Commands.unhandled = true
  is_request _ = false

  -- A request that is answered changes nothing but the packet, and not its length, if the handler of
  -- the keyboard for other channels keeps the length.
  pub request_replies :
      (c : ViaCommandId) (h' : Host L)
      → is_request c ≡ true
      → process_command f c h ≡ ok h'
      → IsReply h h'
  unfolding process_command custom_command
  request_replies Commands.get_protocol_version h' _ e = reply-on_slice h 1 3 _ h' e
  request_replies Commands.get_keyboard_value h' _ e =
      behind (IsReply h) (index h.packet 1) _ (λ id. value_replies (keyboard_value_from_u8 id)) h' e
  request_replies Commands.dynamic_keymap_get_keycode h' _ e =
      behind (IsReply h) (index h.packet 1) _
        (λ l.
          behind (IsReply h) (index h.packet 2) _
            (λ r. behind (IsReply h) (index h.packet 3) _ (λ c. reply-on_slice h 4 6 _)))
        h' e
  request_replies Commands.custom_get_value h' _ e =
      behind (IsReply h) (index h.packet 1) _ (λ id. channel_replies (channel_from_u8 id)) h' e
  request_replies Commands.dynamic_keymap_macro_get_count h' _ e = reply-on_slice h 1 2 _ h' e
  request_replies Commands.dynamic_keymap_macro_get_buffer_size h' _ e = reply-on_slice h 1 3 _ h' e
  request_replies Commands.dynamic_keymap_macro_get_buffer h' _ e =
      behind (IsReply h) (slice h.packet 1 3 >>= from_be_bytes) _
        (λ offset.
          behind (IsReply h) (index h.packet 3) _ (λ size. reply-on_slice h 4 (length h.packet) _))
        h' e
  request_replies Commands.dynamic_keymap_get_layer_count h' _ e = reply-on_slice h 1 2 _ h' e
  request_replies Commands.dynamic_keymap_get_buffer h' _ e =
      behind (IsReply h) (slice h.packet 1 3 >>= from_be_bytes) _
        (λ offset.
          behind (IsReply h) (index h.packet 3) _ (λ size. reply-on_slice h 4 (length h.packet) _))
        h' e
  request_replies Commands.dynamic_keymap_get_encoder h' _ e =
      behind (IsReply h) (index h.packet 1) _
        (λ l.
          behind (IsReply h) (index h.packet 2) _
            (λ r. behind (IsReply h) (index h.packet 3) _ (λ c. reply-on_slice h 4 6 _)))
        h' e
  request_replies Commands.unhandled h' _ e = reply-put h 0 0xff h' e
  request_replies _ h' r e = cc
