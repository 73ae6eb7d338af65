-- ===== src/Via/Storage.antt =====
-- rumcake/src/via/mod.rs, module `storage`: the operations that the handlers send to the storage
-- task, and what the task does with one. The database is an interface.
use rumcake.Prelude.{
  ℕ, ◌+◌, ◌*◌, ◌≡◌, ◌≢◌, Bool, true, Option, none, some, List, length, replicate, Run, ok, ◌>>=◌,
  slice, copy_slice, max,
}
pub mod Onto
pub mod Service
use rumcake.Storage.{StorageKey}
use rumcake.Via.{ViaKeyboard}

pub data ViaStorageKeys : Type 0 where
  layout_options dynamic_keymap dynamic_keymap_macro dynamic_keymap_encoder : ViaStorageKeys

-- `From<ViaStorageKeys> for StorageKey`
unfoldable pub storage_key : ViaStorageKeys → StorageKey
storage_key layout_options = StorageKey.layout_options
storage_key dynamic_keymap = StorageKey.dynamic_keymap
storage_key dynamic_keymap_macro = StorageKey.dynamic_keymap_macro
storage_key dynamic_keymap_encoder = StorageKey.dynamic_keymap_encoder

pub data Operation : Type 0 where
  write : List ℕ → ViaStorageKeys → ℕ → ℕ → Operation
  delete : Operation

-- What is sent. The buffer has the 32 bytes of a Via packet.
unfoldable pub update_data : ViaStorageKeys → ℕ → List ℕ → Run Operation
unfolding copy_slice
update_data key offset bytes = do
  buf ← copy_slice (replicate 32 0) 0 (length bytes) bytes
  ok (write buf key offset (length bytes))

-- The operations of `StorageService` that the task calls, on the keys of Via: `none` and `false`
-- stand for `Err(())`. A read gives a slice and how many bytes of it are the stored ones.
pub record Database (D : Type 0) : Type 0 where
  pub read_raw : D → ViaStorageKeys → Option (List ℕ × ℕ)
  pub write_raw : D → ViaStorageKeys → List ℕ → D × Bool
  pub delete : D → ViaStorageKeys → D

-- `buf[..stored_len].copy_from_slice(stored_data)` into zeros, if there is stored data, and how
-- many bytes of it there are.
unfoldable pub stored_or_zeros : ℕ → Option (List ℕ × ℕ) → Run (List ℕ × ℕ)
unfolding copy_slice
stored_or_zeros size none = ok (replicate size 0, 0)
stored_or_zeros size (some (stored, stored_len)) = do
  buf ← copy_slice (replicate size 0) 0 stored_len stored
  ok (buf, stored_len)

-- The bytes that are stored for a key: the old ones with `len` bytes of `data` at `offset`.
unfoldable pub patched : List ℕ → ℕ → ℕ → List ℕ → Run (List ℕ)
unfolding slice copy_slice
patched buf offset len bytes = do src ← slice bytes 0 len; copy_slice buf offset (offset + len) src

module _ {D : Type 0} (db : Database D) (k : ViaKeyboard) where
  -- A whole array is stored for this key, of `size` bytes.
  unfoldable pub write_array : D → ViaStorageKeys → ℕ → List ℕ → ℕ → ℕ → Run D
  unfolding stored_or_zeros patched
  write_array d key size bytes offset len = do
    (buf, _) ← stored_or_zeros size (db.read_raw d key)
    buf' ← patched buf offset len bytes
    ok (db.write_raw d key buf').0

  unfoldable pub write_macros : D → List ℕ → ℕ → ℕ → Run D
  unfolding stored_or_zeros patched slice
  write_macros d bytes offset len = do
    (buf, stored_len) ← stored_or_zeros k.macro_buffer_size (db.read_raw d dynamic_keymap_macro)
    buf' ← patched buf offset len bytes
    stored ← slice buf' 0 (max stored_len (offset + len))
    ok (db.write_raw d dynamic_keymap_macro stored).0

  -- One round of the loop of `via_storage_task`. Failures of the database are only logged.
  unfoldable pub process_operation : D → Operation → Run D
  unfolding write_array write_macros slice
  process_operation d (write bytes layout_options offset len) = do
    src ← slice bytes 0 len
    ok (db.write_raw d layout_options src).0
  process_operation d (write bytes dynamic_keymap offset len) =
      write_array d dynamic_keymap (k.layer_count * k.cols * k.rows * 2) bytes offset len
  process_operation d (write bytes dynamic_keymap_macro offset len) =
      write_macros d bytes offset len
  process_operation d (write bytes dynamic_keymap_encoder offset len) =
      write_array d dynamic_keymap_encoder (k.layer_count * k.num_encoders * 2 * 2) bytes offset len
  process_operation d delete =
      let d₁ = db.delete d layout_options in
      let d₂ = db.delete d₁ dynamic_keymap in
      let d₃ = db.delete d₂ dynamic_keymap_macro in ok (db.delete d₃ dynamic_keymap_encoder)
