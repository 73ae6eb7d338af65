-- ===== src/Storage.antt =====
-- rumcake/src/storage.rs: the keys of the database, and `StorageService` over the operations of
-- TicKV. TicKV, the hash of a key and the serialization by postcard are third-party code and
-- parameters. The operations run to completion (`get_key`, `append_key`, `invalidate_key` and
-- `garbage_collect` of storage.rs); what comes of one is a `Reply`. The mutex around the database is
-- left out, since every operation holds it from the beginning to the end.
pub mod Map
pub mod Values
pub mod Metadata
pub mod Flash
use rumcake.Prelude.{
  ℕ, Bool, true, false, not, ◌&&◌, ◌||◌, Option, none, some, List, [], ◌∷◌, length, take, Run, ok,
  panic, ◌>>=◌, unwrap, slice, copy_slice, ◌==◌, if◌then◌else◌,
}

pub data StorageKey : Type 0 where
  simple_backlight_config simple_backlight_matrix_config rgb_backlight_matrix_config
        underglow_config bluetooth_profiles layout_options dynamic_keymap dynamic_keymap_encoder
        dynamic_keymap_macro dynamic_keymap_tap_dance dynamic_keymap_combo
        dynamic_keymap_key_override :
      StorageKey

-- `as u8`
unfoldable pub key_byte : StorageKey → ℕ
key_byte simple_backlight_config = 0x00
key_byte simple_backlight_matrix_config = 0x01
key_byte rgb_backlight_matrix_config = 0x02
key_byte underglow_config = 0x10
key_byte bluetooth_profiles = 0x20
key_byte layout_options = 0x30
key_byte dynamic_keymap = 0x31
key_byte dynamic_keymap_encoder = 0x32
key_byte dynamic_keymap_macro = 0x33
key_byte dynamic_keymap_tap_dance = 0x40
key_byte dynamic_keymap_combo = 0x41
key_byte dynamic_keymap_key_override = 0x42

pub data StorageKeyType : Type 0 where
  stored metadata : StorageKeyType

-- `&[key as u8, key_type as u8]`
unfoldable pub key_bytes : StorageKey → StorageKeyType → List ℕ
unfolding key_byte
key_bytes key stored = key_byte key ∷ 0 ∷ []
key_bytes key metadata = key_byte key ∷ 1 ∷ []

-- `(Result<SuccessCode, ErrorCode>, Option<&'static mut [u8]>, usize)`
pub record Reply : Type 0 where
  pub success : Bool
  pub buf : Option (List ℕ)
  pub len : ℕ

-- An instance of TicKV with its flash device, by hashed keys.
pub record TicKv (T : Type 0) : Type 0 where
  pub hash : List ℕ → ℕ
  pub get_key : T → ℕ → List ℕ → Run (T × Reply)
  pub append_key : T → ℕ → List ℕ → ℕ → Run (T × Reply)
  pub invalidate_key : T → ℕ → Run (T × Reply)
  pub garbage_collect : T → Run (T × Reply)

-- `==` of two slices.
unfoldable pub same_bytes : List ℕ → List ℕ → Bool
same_bytes [] [] = true
same_bytes (a ∷ as') (b ∷ bs) = (a == b) && same_bytes as' bs
same_bytes _ _ = false

-- `.0.unwrap()`
abbrev pub succeeded : {T : Type 0} → T × Reply → Run T
succeeded (t, r) = if r.success then ok t else panic

module _ {T : Type 0} (kv : TicKv T) where
  unfoldable pub hashed : StorageKey → StorageKeyType → ℕ
  hashed key key_type = kv.hash (key_bytes key key_type)

  -- The old entry is invalidated, and `len` bytes of `value` are appended.
  unfoldable pub replace : T → ℕ → List ℕ → ℕ → Run (T × Reply)
  replace t h value len = do
    (t₁, _) ← kv.invalidate_key t h
    t₂ ← kv.garbage_collect t₁ >>= succeeded
    kv.append_key t₂ h value len

  -- Whether the metadata has changed, and the buffer that it was read into.
  unfoldable pub metadata_changed : List ℕ → Reply → Run (Bool × List ℕ)
  metadata_changed current r = elim r.buf [
    | none ↦ panic
    | some buf ↦ ok (
      if r.success then not (length current == r.len) || not (same_bytes current buf) else true,
      buf,
    )
  ]

  unfoldable pub check_metadata : T → List ℕ → StorageKey → List ℕ → Run T
  check_metadata t buffer key current = do
    (t₁, r) ← kv.get_key t (hashed key metadata) buffer
    (will_reset, buf) ← metadata_changed current r
    buf' ← copy_slice buf 0 (length current) current
    let reset : Run T = replace t₁ (hashed key metadata) buf' (length current) >>= succeeded
    if will_reset then reset else ok t₁

  -- The whole buffer, and how many bytes of it are the value. `none` is `Err(())`.
  unfoldable pub read_raw : T → List ℕ → StorageKey → Run (T × Option (List ℕ × ℕ))
  read_raw t buffer key = do
    (t', r) ← kv.get_key t (hashed key stored) buffer
    let found : Run (T × Option (List ℕ × ℕ)) = do buf ← unwrap r.buf; ok (t', some (buf, r.len))
    if r.success then found else ok (t', none)

  unfoldable pub write_raw : T → List ℕ → StorageKey → List ℕ → Run (T × Bool)
  write_raw t buffer key bytes = do
    buf ← copy_slice buffer 0 (length bytes) bytes
    (t', r) ← replace t (hashed key stored) buf (length bytes)
    ok (t', r.success)

  unfoldable pub delete : T → StorageKey → Run (T × Bool)
  delete t key = do
    (t₁, r) ← kv.invalidate_key t (hashed key stored)
    t₂ ← kv.garbage_collect t₁ >>= succeeded
    ok (t₂, r.success)

  -- `from_bytes` and `to_slice` are those of postcard; the latter gives the bytes that it has
  -- written to the buffer.
  unfoldable pub read :
      {V : Type 0} → (List ℕ → Option V) → T → List ℕ → StorageKey → Run (T × Option V)
  read {V} from_bytes t buffer key = do
    (t', r) ← kv.get_key t (hashed key stored) buffer
    let found : Run (T × Option V) = do
      buf ← unwrap r.buf
      bytes ← slice buf 0 r.len
      ok (t', from_bytes bytes)
    if r.success then found else ok (t', none)

  unfoldable pub write_serialized : T → ℕ → Option (List ℕ) → Run (T × Bool)
  write_serialized t h none = ok (t, false)
  write_serialized t h (some serialized) = do
    (t', r) ← replace t h serialized (length serialized)
    ok (t', r.success)

  unfoldable pub write :
      {V : Type 0} → (V → List ℕ → Option (List ℕ)) → T → List ℕ → StorageKey → V → Run (T × Bool)
  write to_slice t buffer key value = write_serialized t (hashed key stored) (to_slice value buffer)
