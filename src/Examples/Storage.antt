-- ===== src/Examples/Storage.antt =====
-- `StorageService` of rumcake/src/storage.rs over a map for TicKV, and the Via storage task over it.
use rumcake.Prelude.{
  replicate, ℕ, ◌*◌, ◌+◌, ◌≡◌, ◌⊎◌, inl, refl, Bool, true, false, Option, none, some, List, [], ◌∷◌,
  ◌++◌, length, drop, take, Run, ok, panic, ◌==◌, if◌then◌else◌, arith,
}
use rumcake.Storage.{
  TicKv, Reply, StorageKey, stored, metadata, key_byte, key_bytes, hashed, write_raw, read, write,
  metadata_changed, check_metadata, read_raw,
}
use rumcake.Storage.Map.{IsTicKv, Replaced, write_raw_lem}
use rumcake.Storage.Values.{write-read}
use rumcake.Storage.Metadata.{Updated, AppendFails, metadata_always_changed, metadata_checked}
use rumcake.Via.Storage
use rumcake.Via.Storage.{Database, process_operation}
use rumcake.Via.Storage.Onto.{write_onto_stored_panics}
use rumcake.Via.Macros.{MacroBuffer}
use rumcake.Examples.Host.{keyboard}

abbrev Entries : Type 0
Entries = ℕ → Option (List ℕ)

abbrev two_bytes : List ℕ → ℕ
two_bytes (a ∷ b ∷ _) = a * 256 + b
two_bytes _ = 0

abbrev answer : Entries → List ℕ → Option (List ℕ) → Run (Entries × Reply)
answer t buffer none = ok (t, record { success = false; buf = some buffer; len = 0 })
answer t buffer (some value) = ok (
  t,
  record { success = true; buf = some (value ++ drop (length value) buffer); len = length value },
)

abbrev entry_set : Entries → ℕ → Option (List ℕ) → Entries
entry_set t h v k = if h == k then v else t k

abbrev done : Bool → Reply
done b = record { success = b; buf = none; len = 0 }

abbrev entries : TicKv Entries
entries = record {
  hash = two_bytes;
  get_key = λ t h buffer. answer t buffer (t h);
  append_key = λ t h value len. ok (entry_set t h (some (take len value)), done true);
  invalidate_key = λ t h. ok (entry_set t h none, done true);
  garbage_collect = λ t. ok (t, done true);
}

abbrev lookup : Entries → ℕ → Option (List ℕ)
lookup t = t

entries-IsTicKv : IsTicKv entries lookup
entries-IsTicKv = record {
  get-found = λ t h buffer value found fits. (t, rw found refl, λ k. refl);
  get-missing = λ t h buffer missing. (t, buffer, 0, rw missing refl, refl, λ k. refl);
  invalidate = λ t h. (entry_set t h none, done true, refl, λ k. refl);
  collect = λ t. (t, done true, refl, refl, λ k. refl);
  append = λ t h value len missing fits.
      (entry_set t h (some (take len value)), done true, refl, inl (refl, λ k. refl));
}

-- The stored underglow configuration and its metadata.
abbrev saved : Entries
saved h =
    if h == 0x1000
    then some (1 ∷ 2 ∷ [])
    else if h == 0x1001
    then some (9 ∷ [])
    else if h == 0x3100
    then some (0 ∷ 4 ∷ [])
    else none

abbrev buffer : List ℕ
buffer = 0 ∷ 0 ∷ 0 ∷ 0 ∷ []

write_raw_lem_example :
    (t' : Entries) × (written : Bool) × (write_raw entries saved buffer StorageKey.underglow_config
        (7 ∷ 8 ∷ [])
      ≡ ok (t', written))
    × Replaced entries lookup entries-IsTicKv saved t'
        (hashed entries StorageKey.underglow_config stored)
        (7 ∷ 8 ∷ [])
        written
write_raw_lem_example =
    write_raw_lem entries lookup entries-IsTicKv saved buffer StorageKey.underglow_config
      (7 ∷ 8 ∷ []) (omega arith)

-- A number as one byte.
abbrev one_byte : ℕ → List ℕ → Option (List ℕ)
one_byte n _ = some (n ∷ [])

abbrev from_one_byte : List ℕ → Option ℕ
from_one_byte (n ∷ []) = some n
from_one_byte _ = none

write-read_example :
    (t' t'' : Entries) × (written : Bool) × (write entries one_byte saved buffer
        StorageKey.underglow_config 7
      ≡ ok (t', written))
    × (read entries from_one_byte t' (0 ∷ 0 ∷ []) StorageKey.underglow_config
        ≡ ok (t'', (if written then some 7 else none)))
write-read_example =
    write-read entries lookup entries-IsTicKv one_byte from_one_byte saved buffer (0 ∷ 0 ∷ [])
      (7 ∷ []) StorageKey.underglow_config 7 refl refl (omega arith)

metadata_checked_example :
    ((check_metadata entries saved buffer StorageKey.underglow_config (5 ∷ 6 ∷ []) ≡ panic)
      × AppendFails entries lookup entries-IsTicKv saved buffer StorageKey.underglow_config
          (5 ∷ 6 ∷ [])
          (omega arith))
    ⊎ ((t' : Entries) × (check_metadata entries saved buffer StorageKey.underglow_config
            (5 ∷ 6 ∷ [])
          ≡ ok t')
        × Updated entries lookup entries-IsTicKv saved buffer StorageKey.underglow_config
            (5 ∷ 6 ∷ [])
            (omega arith)
            t')
unfolding hashed key_bytes key_byte
metadata_checked_example =
    metadata_checked entries lookup entries-IsTicKv saved buffer StorageKey.underglow_config
      (5 ∷ 6 ∷ []) (omega arith) (some (9 ∷ [])) refl (omega arith)

metadata_always_changed_example :
    (t₁ : Entries) × (r : Reply) × (buf : List ℕ) × (entries.get_key saved
        (hashed entries StorageKey.underglow_config metadata)
        buffer
      ≡ ok (t₁, r))
    × (metadata_changed entries (9 ∷ []) r ≡ ok (true, buf))
unfolding hashed key_bytes key_byte
metadata_always_changed_example =
    metadata_always_changed entries lookup entries-IsTicKv saved buffer StorageKey.underglow_config
      (9 ∷ []) (omega arith) (9 ∷ []) (omega arith) refl (omega arith)

-- The answers of `StorageService` to the Via storage task.
abbrev answer_of : Run (Entries × Option (List ℕ × ℕ)) → Option (List ℕ × ℕ)
answer_of (ok p) = p.1
answer_of panic = none

abbrev written_of : Entries → Run (Entries × Bool) → Entries × Bool
written_of t (ok p) = p
written_of t panic = (t, false)

abbrev database : List ℕ → Database Entries
database buffer = record {
  read_raw = λ t key. answer_of (read_raw entries t buffer (Storage.storage_key key));
  write_raw =
      λ t key bytes. written_of t (write_raw entries t buffer (Storage.storage_key key) bytes);
  delete = λ t key. t;
}

write_onto_stored_panics_example :
    process_operation
      (database buffer)
      keyboard
      saved
      (Storage.write (9 ∷ 9 ∷ []) Storage.dynamic_keymap 0 2)
    ≡ panic
unfolding hashed key_bytes key_byte read_raw Storage.storage_key
write_onto_stored_panics_example =
    write_onto_stored_panics (database buffer) keyboard saved entries lookup entries-IsTicKv saved
      saved buffer (0 ∷ 4 ∷ []) Storage.dynamic_keymap (λ e. cc) refl (omega arith) refl
      (9 ∷ 9 ∷ []) 0 2

-- A buffer of the device that is longer than the macro buffer of the keyboard.
abbrev nine_bytes : List ℕ
nine_bytes = replicate 9 0

abbrev empty_macros : MacroBuffer
empty_macros = record {
  buffer = replicate 8 0;
  sequences = replicate 3 (record { start = 0; len = 0 });
}
