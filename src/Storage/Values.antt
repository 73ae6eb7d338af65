-- ===== src/Storage/Values.antt =====
-- Values that `StorageService` of rumcake/src/storage.rs writes are read again.
use rumcake.Prelude.{
  ℕ, ◌≤◌, ◌≡◌, ◌∙◌, inl, inr, refl, ap, Bool, true, Option, none, some, List, ◌++◌, length, take,
  drop, take-length, take-length_append, prefix_ok, length-append, ok, ◌==◌, ==_iff, Bool-cases,
  if◌then◌else◌, arith,
}
use rumcake.Storage.{
  TicKv, StorageKey, stored, hashed, read, write_serialized, write, read_raw, write_raw,
}
use rumcake.Storage.Map.{IsTicKv, Replaced, replace_lem, write_raw_lem, read_raw_lem}

module _ {T : Type 0} (kv : TicKv T) (lookup : T → ℕ → Option (List ℕ))
    (law : IsTicKv kv lookup) where
  -- The entry of the key itself.
  pub own_entry :
      (t t' : T) (h : ℕ) (value : List ℕ) (written : Bool)
      → Replaced kv lookup law t t' h value written
      → lookup t' h ≡ (if written then some value else none)
  own_entry t t' h value written now =
      let self : (h == h) ≡ true = (==_iff h h).1 refl in now h ∙ rw self refl

  -- What was written raw is read raw, into any buffer that it fits: the value is in front of the
  -- buffer, with its length. After a failed write there is nothing to read.
  write_raw-read_raw :
      (t : T) (buffer buffer' : List ℕ) (key : StorageKey) (value : List ℕ)
      → length value ≤ length buffer
      → length value ≤ length buffer'
      → (t' t'' : T) × (written : Bool) × (write_raw kv t buffer key value ≡ ok (t', written))
        × (read_raw kv t' buffer' key
            ≡ ok (
              t'',
              (if written then some (value ++ drop (length value) buffer', length value) else none),
            ))
  write_raw-read_raw t buffer buffer' key value fits fits' =
      let (t', written, ran, now) = write_raw_lem kv lookup law t buffer key value fits in
      let entry = own_entry t t' (hashed kv key stored) value written now in
      elim (Bool-cases written) [
        | inl success ↦
            let found : lookup t' (hashed kv key stored) ≡ some value = entry ∙ rw success refl in
            let (t'', got, _) =
              read_raw_lem kv lookup law t' buffer' key (some value) found fits' in
            (t', t'', written, ran, got ∙ rw success refl)
        | inr failure ↦
            let missing : lookup t' (hashed kv key stored) ≡ none = entry ∙ rw failure refl in
            let (t'', got, _) = read_raw_lem kv lookup law t' buffer' key none missing tt in
            (t', t'', written, ran, got ∙ rw failure refl)
      ]

  -- A value that can be serialized, and whose bytes are read back as the value: after a write that
  -- succeeds it is read from the key, and after one that fails nothing is.
  pub write-read :
      {V : Type 0} (to_slice : V → List ℕ → Option (List ℕ)) (from_bytes : List ℕ → Option V)
      (t : T) (buffer buffer' serialized : List ℕ) (key : StorageKey) (value : V)
      → to_slice value buffer ≡ some serialized
      → from_bytes serialized ≡ some value
      → length serialized ≤ length buffer'
      → (t' t'' : T) × (written : Bool) × (write kv to_slice t buffer key value ≡ ok (t', written))
        × (read kv from_bytes t' buffer' key ≡ ok (t'', (if written then some value else none)))
  unfolding write write_serialized read
  write-read to_slice from_bytes t buffer buffer' serialized key value to from fits =
      let h = hashed kv key stored in
      let (t', r, ran, now) =
        replace_lem kv lookup law t h serialized (length serialized) (omega arith) in
      let entry : lookup t' h ≡ (if r.success then some serialized else none) =
        rw (take-length serialized) at
          (own_entry t t' h (take (length serialized) serialized) r.success now) in
      elim (Bool-cases r.success) [
        | inl success ↦
            let found : lookup t' h ≡ some serialized = entry ∙ rw success refl in
            let (t'', got, _) = law.get-found t' h buffer' serialized found fits in
            let tail = drop (length serialized) buffer' in
            let enough : length serialized ≤ length (serialized ++ tail) =
              omega (arith, length-append serialized tail) in
            (
              t',
              t'',
              r.success,
              ap (write_serialized kv t h) to ∙ rw ran refl,
              rw
                  (
                    got,
                    prefix_ok (serialized ++ tail) (length serialized) enough,
                    take-length_append serialized tail,
                    from,
                    success,
                  )
                  refl,
            )
        | inr failure ↦
            let missing : lookup t' h ≡ none = entry ∙ rw failure refl in
            let (t'', buffer'', n, got, _, _) = law.get-missing t' h buffer' missing in
            (
              t',
              t'',
              r.success,
              ap (write_serialized kv t h) to ∙ rw ran refl,
              rw (got, failure) refl,
            )
      ]
