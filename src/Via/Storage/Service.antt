-- ===== src/Via/Storage/Service.antt =====
-- The database of the Via storage task in rumcake/src/via/mod.rs is the `StorageService` of
-- rumcake/src/storage.rs.
use rumcake.Prelude.{ℕ, ◌≤◌, ◌≡◌, Option, List, length, ok}
use rumcake.Storage.{TicKv, stored, hashed, read_raw, write_raw}
use rumcake.Storage.Map.{IsTicKv, Fits}
use rumcake.Via.Storage.{ViaStorageKeys, storage_key, Database}

-- `db` answers as the functions of the service do, with `buffer` for the buffer of the device, as
-- long as what is read or written fits it. A read leaves the instance of TicKV as it is.
pub record IsService {T : Type 0} (kv : TicKv T) (lookup : T → ℕ → Option (List ℕ))
    (law : IsTicKv kv lookup) (db : Database T) (buffer : List ℕ) : Type 0 where
  pub reads :
      (t : T) (key : ViaStorageKeys) (v : Option (List ℕ))
      → lookup t (hashed kv (storage_key key) stored) ≡ v
      → Fits kv lookup law t buffer (storage_key key) v
      → read_raw kv t buffer (storage_key key) ≡ ok (t, db.read_raw t key)
  pub writes :
      (t : T) (key : ViaStorageKeys) (bytes : List ℕ)
      → length bytes ≤ length buffer
      → write_raw kv t buffer (storage_key key) bytes ≡ ok (db.write_raw t key bytes)
