-- ===== src/Via/Macros/Saved.antt =====
-- The first window of macros that the host writes: `dynamic_keymap_macro_set_buffer` of
-- rumcake/src/via/handlers.rs, then the round of `via_storage_task` in rumcake/src/via/mod.rs that
-- its operation causes, over the `StorageService` of rumcake/src/storage.rs.
use rumcake.Prelude.{
  panic, false, ℕ, ◌+◌, ◌≡◌, Option, none, some, List, ◌++◌, length, take, drop, replicate, ok,
}
use rumcake.Via.{ViaKeyboard}
use rumcake.Via.Storage.{write, dynamic_keymap_macro, storage_key, Database, process_operation}
use rumcake.Storage.{TicKv, stored, hashed, write_raw}
use rumcake.Storage.Map.{IsTicKv}
use rumcake.Via.Storage.Service.{IsService}
use rumcake.Via.Macros.Mirrors.{Mirrors}

-- The bytes that the task stores for the first window of macros: those up to the end of the window.
abbrev first_stored : ℕ → ℕ → List ℕ → List ℕ
first_stored size offset src =
    take (offset + length src)
      (take offset (replicate size 0) ++ (src ++ drop (offset + length src) (replicate size 0)))

module _ {T : Type 0} (kv : TicKv T) (lookup : T → ℕ → Option (List ℕ)) (law : IsTicKv kv lookup)
    (db : Database T) (buffer : List ℕ) (service : IsService kv lookup law db buffer)
    (k : ViaKeyboard) (t : T) where
  abbrev pub entry : T → Option (List ℕ)
  entry t' = lookup t' (hashed kv (storage_key dynamic_keymap_macro) stored)

  -- What is stored mirrors the macro buffer, and the task panics on any further write of macros.
  abbrev pub SavedOnce : T → List ℕ → Type 0
  SavedOnce t' macros =
      (bytes : List ℕ) × (entry t' ≡ some bytes)
      × Mirrors bytes macros
      × ((next : List ℕ) (offset len : ℕ)
          → process_operation db k t' (write next dynamic_keymap_macro offset len) ≡ panic)

  -- The service could not store what the task gave it, and nothing is stored.
  abbrev pub NotSaved : T → Type 0
  NotSaved t' =
      (bytes : List ℕ) × (write_raw kv t buffer (storage_key dynamic_keymap_macro) bytes
        ≡ ok (t', false))
      × (entry t' ≡ none)
