-- ===== src/Via/Storage/Onto.antt =====
-- Writing onto stored data: the rounds of `via_storage_task` in rumcake/src/via/mod.rs over the
-- `read_raw` of rumcake/src/storage.rs.
use rumcake.Prelude.{
  ℕ, ◌*◌, ◌<◌, ◌≡◌, ◌≢◌, ◌∙◌, refl, sym, ap, Option, some, List, ◌++◌, length, drop, replicate, ok,
  panic, copy_slice, arith, length-append, length-drop,
}
use rumcake.Storage.{TicKv, stored, hashed, read_raw}
use rumcake.Storage.Map.{IsTicKv, read_raw_lem}
use rumcake.Via.{ViaKeyboard}
use rumcake.Via.Storage.{
  ViaStorageKeys, layout_options, dynamic_keymap, dynamic_keymap_macro, dynamic_keymap_encoder,
  storage_key, write, Database, stored_or_zeros, write_array, write_macros, process_operation,
}

copy_slice_mismatch :
    (xs : List ℕ) (to : ℕ) (src : List ℕ) → to ≢ length src → copy_slice xs 0 to src ≡ panic
unfolding copy_slice
copy_slice_mismatch xs to src h = ground arith

pub ok_injective {ℓ} : {A : Type ℓ} (a b : A) → ok a ≡ ok b → a ≡ b
ok_injective a b e = cc

module _ {D : Type 0} (db : Database D) (k : ViaKeyboard) (d : D) where
  -- A slice that is longer than what is stored.
  longer_panics :
      (key : ViaStorageKeys) (buf : List ℕ) (stored_len : ℕ)
      → key ≢ layout_options
      → stored_len ≢ length buf
      → db.read_raw d key ≡ some (buf, stored_len)
      → (bytes : List ℕ) (offset len : ℕ)
      → process_operation db k d (write bytes key offset len) ≡ panic
  unfolding process_operation write_array write_macros stored_or_zeros
  longer_panics layout_options buf stored_len apart differ found bytes offset len =
      absurd (apart refl)
  longer_panics dynamic_keymap buf stored_len apart differ found bytes offset len =
      rw
        (
          found,
          copy_slice_mismatch (replicate (k.layer_count * k.cols * k.rows * 2) 0) stored_len buf
              differ,
        )
        refl
  longer_panics dynamic_keymap_macro buf stored_len apart differ found bytes offset len =
      rw (found, copy_slice_mismatch (replicate k.macro_buffer_size 0) stored_len buf differ) refl
  longer_panics dynamic_keymap_encoder buf stored_len apart differ found bytes offset len =
      rw
        (
          found,
          copy_slice_mismatch (replicate (k.layer_count * k.num_encoders * 2 * 2) 0) stored_len buf
              differ,
        )
        refl

  -- With the answer of `StorageService` for its key, read into a buffer that is longer than the
  -- stored value, every write of keys, macros or encoders onto a stored value panics.
  pub write_onto_stored_panics :
      {T : Type 0} (kv : TicKv T) (lookup : T → ℕ → Option (List ℕ))
      → IsTicKv kv lookup
      → (t t' : T) (buffer value : List ℕ) (key : ViaStorageKeys) → key ≢ layout_options
      → lookup t (hashed kv (storage_key key) stored) ≡ some value
      → length value < length buffer
      → read_raw kv t buffer (storage_key key) ≡ ok (t', db.read_raw d key)
      → (bytes : List ℕ) (offset len : ℕ)
      → process_operation db k d (write bytes key offset len) ≡ panic
  write_onto_stored_panics {T} kv lookup law t t' buffer value key apart found longer answer =
      let (t₁, ran, _) =
        read_raw_lem kv lookup law t buffer (storage_key key) (some value) found (omega arith) in
      let buf = value ++ drop (length value) buffer in
      let same : ◌≡◌ {A = T × Option (List ℕ × ℕ)} (t₁, some (buf, length value))
          (t', db.read_raw d key) =
        ok_injective _ _ (sym ran ∙ answer) in
      longer_panics key buf (length value) apart
        (λ e. omega (
          arith,
          e,
          length-append value (drop (length value) buffer),
          length-drop (length value) buffer,
        ))
        (sym (ap (λ p. p.1) same))
