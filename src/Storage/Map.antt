-- ===== src/Storage/Map.antt =====
-- `StorageService` is a map from keys to values, but for a write that fails. What rumcake relies on
-- of TicKV is a map from hashed keys.
use rumcake.Prelude.{
  ℕ, ◌≤◌, ◌≡◌, ◌⊎◌, ◌∙◌, inl, inr, refl, Bool, true, false, Option, none, some, List, ◌++◌, length,
  take, drop, take-length_append, copy_prefix_ok, length-append, ok, ◌==◌, ==_iff, if◌then◌else◌,
  arith,
}
use rumcake.Storage.{TicKv, Reply, StorageKey, stored, hashed, replace, read_raw, write_raw}

-- `lookup` is what the instance has for a hashed key.
pub record IsTicKv {T : Type 0} (kv : TicKv T) (lookup : T → ℕ → Option (List ℕ)) : Type 0 where
  -- The value is written to the front of the buffer, which is given back.
  pub get-found :
      (t : T) (h : ℕ) (buffer value : List ℕ)
      → lookup t h ≡ some value
      → length value ≤ length buffer
      → (t' : T) × (kv.get_key t h buffer
          ≡ ok (
            t',
            record {
              success = true;
              buf = some (value ++ drop (length value) buffer);
              len = length value;
            },
          ))
        × ((k : ℕ) → lookup t' k ≡ lookup t k)
  pub get-missing :
      (t : T) (h : ℕ) (buffer : List ℕ)
      → lookup t h ≡ none
      → (t' : T) × (buffer' : List ℕ) × (n : ℕ) × (kv.get_key t h buffer
          ≡ ok (t', record { success = false; buf = some buffer'; len = n }))
        × (length buffer' ≡ length buffer)
        × ((k : ℕ) → lookup t' k ≡ lookup t k)
  pub invalidate :
      (t : T) (h : ℕ)
      → (t' : T) × (r : Reply) × (kv.invalidate_key t h ≡ ok (t', r))
        × ((k : ℕ) → lookup t' k ≡ (if h == k then none else lookup t k))
  pub collect :
      (t : T)
      → (t' : T) × (r : Reply) × (kv.garbage_collect t ≡ ok (t', r))
        × (r.success ≡ true)
        × ((k : ℕ) → lookup t' k ≡ lookup t k)
  -- A new key: the value is stored, or there is no space and nothing changes.
  pub append :
      (t : T) (h : ℕ) (value : List ℕ) (len : ℕ)
      → lookup t h ≡ none
      → len ≤ length value
      → (t' : T) × (r : Reply) × (kv.append_key t h value len ≡ ok (t', r))
        × (((r.success ≡ true)
              × ((k : ℕ) → lookup t' k ≡ (if h == k then some (take len value) else lookup t k)))
            ⊎ ((r.success ≡ false) × ((k : ℕ) → lookup t' k ≡ lookup t k)))

module _ {T : Type 0} (kv : TicKv T) (lookup : T → ℕ → Option (List ℕ))
    (law : IsTicKv kv lookup) where
  -- What a replaced entry is afterwards, and the others.
  abbrev pub Replaced : T → T → ℕ → List ℕ → Bool → Type 0
  Replaced t t' h value written =
      (k : ℕ)
      → lookup t' k ≡ (if h == k then (if written then some value else none) else lookup t k)

  replaced :
      (t t₂ t' : T) (h : ℕ) (value : List ℕ) (written : Bool)
      → ((k : ℕ) → lookup t₂ k ≡ (if h == k then none else lookup t k))
      → ((written ≡ true) × ((k : ℕ) → lookup t' k ≡ (if h == k then some value else lookup t₂ k)))
        ⊎ ((written ≡ false) × ((k : ℕ) → lookup t' k ≡ lookup t₂ k))
      → Replaced t t' h value written
  replaced t t₂ t' h value written gone (inl (success, now)) k = ground (arith, gone k, now k)
  replaced t t₂ t' h value written gone (inr (failed, now)) k = ground (arith, gone k, now k)

  pub replace_lem :
      (t : T) (h : ℕ) (value : List ℕ) (len : ℕ)
      → len ≤ length value
      → (t' : T) × (r : Reply) × (replace kv t h value len ≡ ok (t', r))
        × Replaced t t' h (take len value) r.success
  unfolding replace
  replace_lem t h value len fits =
      let (t₁, r₁, invalidated, gone) = law.invalidate t h in
      let (t₂, r₂, collected, fine, same) = law.collect t₁ in
      let emptied : (k : ℕ) → lookup t₂ k ≡ (if h == k then none else lookup t k) =
        λ k. same k ∙ gone k in
      let self : (h == h) ≡ true = (==_iff h h).1 refl in
      let missing : lookup t₂ h ≡ none = emptied h ∙ rw self refl in
      let (t₃, r₃, appended, outcome) = law.append t₂ h value len missing fits in
      (
        t₃,
        r₃,
        rw (invalidated, collected, fine, appended) refl,
        replaced t t₂ t₃ h (take len value) r₃.success emptied outcome,
      )

  module _ (t : T) (buffer : List ℕ) (key : StorageKey) where
    -- A write of a value that fits the buffer returns. If it says so, the value is the one of the
    -- key; if not, the key has no value any more. All other keys keep theirs.
    pub write_raw_lem :
        (value : List ℕ)
        → length value ≤ length buffer
        → (t' : T) × (written : Bool) × (write_raw kv t buffer key value ≡ ok (t', written))
          × Replaced t t' (hashed kv key stored) value written
    unfolding write_raw
    write_raw_lem value fits =
        let buf = value ++ drop (length value) buffer in
        let enough : length value ≤ length buf =
          omega (arith, length-append value (drop (length value) buffer)) in
        let (t', r, ran, now) = replace_lem t (hashed kv key stored) buf (length value) enough in
        (
          t',
          r.success,
          rw (copy_prefix_ok buffer (length value) value refl fits, ran) refl,
          rw (take-length_append value (drop (length value) buffer)) at now,
        )

    abbrev pub Fits : Option (List ℕ) → Type 0
    Fits none = Unit {0}
    Fits (some value) = length value ≤ length buffer

    abbrev pub front : Option (List ℕ) → Option (List ℕ × ℕ)
    front none = none
    front (some value) = some (value ++ drop (length value) buffer, length value)

    -- A read of a value that fits the buffer gives the whole buffer, with the value in front and its
    -- length, and a read of a missing value fails; both leave all values as they are.
    pub read_raw_lem :
        (v : Option (List ℕ))
        → lookup t (hashed kv key stored) ≡ v
        → Fits v
        → (t' : T) × (read_raw kv t buffer key ≡ ok (t', front v))
          × ((k : ℕ) → lookup t' k ≡ lookup t k)
    unfolding read_raw
    read_raw_lem none missing _ =
        let (t', buffer', n, ran, len, same) =
          law.get-missing t (hashed kv key stored) buffer missing in
        (t', rw ran refl, same)
    read_raw_lem (some value) found fits =
        let (t', ran, same) = law.get-found t (hashed kv key stored) buffer value found fits in
        (t', rw ran refl, same)
