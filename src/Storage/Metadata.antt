-- ===== src/Storage/Metadata.antt =====
-- What `check_metadata` of rumcake/src/storage.rs does to the database.
use rumcake.Prelude.{
  ℕ, ◌≤◌, ◌<◌, ◌≡◌, ◌≢◌, ◌⊎◌, ◌∙◌, inl, inr, refl, sym, ap, Bool, true, false, not, ◌||◌, Option,
  none, some, List, [], ◌∷◌, ◌++◌, length, take, drop, take-length, take-length_append,
  length-append, length-drop, copy_prefix_ok, Run, ok, panic, ◌>>=◌, ◌==◌, ==_iff, Bool-cases,
  if◌then◌else◌, arith,
}
use mathlib.Core.Path.{subst}
use rumcake.Storage.{
  TicKv, Reply, StorageKey, metadata, hashed, replace, same_bytes, metadata_changed, check_metadata,
}
use rumcake.Storage.Map.{IsTicKv, Fits, Replaced, replace_lem}

same_bytes-length : (xs ys : List ℕ) → length xs ≢ length ys → same_bytes xs ys ≡ false
unfolding same_bytes
same_bytes-length [] [] h = absurd (h refl)
same_bytes-length [] (y ∷ ys) h = refl
same_bytes-length (x ∷ xs) [] h = refl
same_bytes-length (x ∷ xs) (y ∷ ys) h =
    ground (arith, same_bytes-length xs ys (λ e. h (omega (arith, e))))

same_bytes_eq : (xs ys : List ℕ) → same_bytes xs ys ≡ true → xs ≡ ys
unfolding same_bytes
same_bytes_eq [] [] h = refl
same_bytes_eq [] (y ∷ ys) h = cc
same_bytes_eq (x ∷ xs) [] h = cc
same_bytes_eq (x ∷ xs) (y ∷ ys) h = ground (arith, same_bytes_eq xs ys)

or_true : (b : Bool) → (b || true) ≡ true
or_true true = refl
or_true false = refl

nor : (a b : Bool) → (not a || not b) ≡ false → (a ≡ true) × (b ≡ true)
nor true true h = (refl, refl)
nor true false h = cc
nor false b h = cc

-- Metadata that equals the whole buffer and has the length of the value is the value.
unchanged_value :
    (current value tail : List ℕ)
    → (length current == length value) ≡ true
    → same_bytes current (value ++ tail) ≡ true
    → value ≡ current
unchanged_value current value tail len same =
    sym (take-length_append value tail)
    ∙ ap (take (length value)) (sym (same_bytes_eq current (value ++ tail) same))
    ∙ ap (λ (n : ℕ). take n current) (sym ((==_iff (length current) (length value)).0 len))
    ∙ take-length current

module _ {T : Type 0} (kv : TicKv T) (lookup : T → ℕ → Option (List ℕ)) (law : IsTicKv kv lookup)
    (t : T) (buffer : List ℕ) (key : StorageKey) (current : List ℕ)
    (fits : length current ≤ length buffer) where
  -- What comes of the rest of `check_metadata`, for the buffer that `get_key` gave back.
  check_rest : T → Bool → List ℕ → Run T
  check_rest t₁ will_reset buf =
      if will_reset
      then (replace kv t₁ (hashed kv key metadata) (current ++ drop (length current) buf)
            (length current)
          >>= λ p. if p.1.success then ok p.0 else panic)
      else ok t₁

  check_metadata_rest :
      (t₁ : T) (r : Reply) (will_reset : Bool) (buf : List ℕ)
      → kv.get_key t (hashed kv key metadata) buffer ≡ ok (t₁, r)
      → metadata_changed kv current r ≡ ok (will_reset, buf)
      → length buf ≡ length buffer
      → check_metadata kv t buffer key current ≡ check_rest t₁ will_reset buf
  unfolding check_metadata check_rest
  check_metadata_rest t₁ r will_reset buf got changed same =
      rw (got, changed, copy_prefix_ok buf (length current) current refl (omega arith)) refl

  whole_buffer :
      (value : List ℕ)
      → length value ≤ length buffer
      → length (value ++ drop (length value) buffer) ≡ length buffer
  whole_buffer value small =
      omega
        (arith, length-append value (drop (length value) buffer), length-drop (length value) buffer)

  -- With a buffer that is longer than the metadata, the metadata counts as changed whatever is
  -- stored, since the whole buffer is compared.
  pub metadata_always_changed :
      (value : List ℕ)
      → length current < length buffer
      → lookup t (hashed kv key metadata) ≡ some value
      → length value ≤ length buffer
      → (t₁ : T) × (r : Reply) × (buf : List ℕ) × (kv.get_key t (hashed kv key metadata) buffer
          ≡ ok (t₁, r))
        × (metadata_changed kv current r ≡ ok (true, buf))
  unfolding metadata_changed
  metadata_always_changed value longer found small =
      let (t₁, got, same) = law.get-found t (hashed kv key metadata) buffer value found small in
      let buf = value ++ drop (length value) buffer in
      let differs : same_bytes current buf ≡ false =
        same_bytes-length current buf
          (λ e. let whole = whole_buffer value small in omega (arith, e)) in
      (t₁, _, buf, got, rw (differs, or_true) refl)

  -- What `check_metadata` leaves if it returns: the current metadata, and all other entries.
  abbrev pub Updated : T → Type 0
  Updated t' =
      (k : ℕ) → lookup t' k ≡ (if hashed kv key metadata == k then some current else lookup t k)

  -- After `get_key`, the old metadata was invalidated and TicKV has failed to append the current one,
  -- which is in front of the buffer that `get_key` gave back.
  abbrev pub AppendFails : Type 0
  AppendFails =
      (t₁ t₂ : T) × (r r' : Reply) × (buf : List ℕ) × (kv.get_key t (hashed kv key metadata) buffer
        ≡ ok (t₁, r))
      × (r.buf ≡ some buf)
      × (replace kv t₁ (hashed kv key metadata) (current ++ drop (length current) buf)
            (length current)
          ≡ ok (t₂, r'))
      × (r'.success ≡ false)

  abbrev Outcome : Run T → Type 0
  Outcome r = ((r ≡ panic) × AppendFails) ⊎ ((t' : T) × (r ≡ ok t') × Updated t')

  updated :
      (t' t₁ : T) (h : ℕ) (value : List ℕ) (written : Bool)
      → written ≡ true
      → value ≡ current
      → ((k : ℕ) → lookup t₁ k ≡ lookup t k)
      → Replaced kv lookup law t₁ t' h value written
      → (k : ℕ) → lookup t' k ≡ (if h == k then some current else lookup t k)
  updated t' t₁ h value written success front same now k = ground (arith, now k, same k)

  own_kept :
      (h : ℕ)
      → lookup t h ≡ some current
      → (k : ℕ) → lookup t k ≡ (if h == k then some current else lookup t k)
  own_kept h found k = elim (Bool-cases (h == k)) [
    | inl same ↦ rw same (ap (lookup t) (sym ((==_iff h k).0 same)) ∙ found)
    | inr other ↦ rw other refl
  ]

  reset_lem :
      (t₁ : T) (r : Reply) (buf : List ℕ)
      → kv.get_key t (hashed kv key metadata) buffer ≡ ok (t₁, r)
      → r.buf ≡ some buf
      → ((k : ℕ) → lookup t₁ k ≡ lookup t k)
      → Outcome (check_rest t₁ true buf)
  unfolding check_rest
  reset_lem t₁ r buf got given same =
      let tail = drop (length current) buf in
      let value = current ++ tail in
      let (t', r', ran, now) =
        replace_lem kv lookup law t₁ (hashed kv key metadata) value (length current)
          (omega (arith, length-append current tail)) in
      let front : take (length current) value ≡ current = take-length_append current tail in
      elim (Bool-cases r'.success) [
        | inl success ↦ inr (
          t',
          rw (ran, success) refl,
          λ k.
              updated t' t₁ (hashed kv key metadata) (take (length current) value) r'.success
                success front same now k,
        )
        | inr failure ↦ inl (rw (ran, failure) refl, (t₁, t', r, r', buf, got, given, ran, failure))
      ]

  -- What `check_metadata` does, for any stored metadata, or none, and current metadata that fit the
  -- buffer: it returns, the metadata is the current one afterwards and every other entry is what it
  -- was, that of the data included. Or it panics, and then `append_key` has failed for the current
  -- metadata, on the instance that `get_key` left and whose old metadata was invalidated.
  pub metadata_checked :
      (v : Option (List ℕ))
      → lookup t (hashed kv key metadata) ≡ v
      → Fits kv lookup law t buffer key v
      → Outcome (check_metadata kv t buffer key current)
  unfolding metadata_changed check_rest
  metadata_checked none missing _ =
      let (t₁, buf, n, got, whole, same) =
        law.get-missing t (hashed kv key metadata) buffer missing in
      subst Outcome (sym (check_metadata_rest t₁ _ true buf got refl whole))
        (reset_lem t₁ _ buf got refl same)
  metadata_checked (some value) found small =
      let (t₁, got, same) = law.get-found t (hashed kv key metadata) buffer value found small in
      let buf = value ++ drop (length value) buffer in
      let whole = whole_buffer value small in
      elim (Bool-cases (not (length current == length value) || not (same_bytes current buf))) [
        | inl changed ↦
            subst Outcome (sym (check_metadata_rest t₁ _ true buf got (rw changed refl) whole))
              (reset_lem t₁ _ buf got refl same)
        | inr kept ↦ inr (
          t₁,
          check_metadata_rest t₁ _ false buf got (rw kept refl) whole,
          λ k.
              same k
              ∙ own_kept (hashed kv key metadata)
                  (found
                    ∙ ap some (
                        unchanged_value current value (drop (length value) buffer) (nor _ _ kept).0
                          (nor _ _ kept).1))
                  k,
        )
      ]
