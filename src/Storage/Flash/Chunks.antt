-- ===== src/Storage/Flash/Chunks.antt =====
-- The chunks that `FlashDevice` of rumcake/src/storage.rs writes to an erased page. What it relies on of
-- the driver is NOR flash without faults.
use rumcake.Prelude.{
  ℕ, zero, suc, ◌+◌, ◌-◌, ◌*◌, ◌^◌, ◌≤◌, ◌<◌, ◌≡◌, ◌∙◌, refl, ap, true, ◌&&◌, List, length, get_or,
  take, drop, length-take, length-drop, ok, slice_ok, ltb, leb, if◌then◌else◌, arith,
}
use native.Mathlib.Decide.{dec_lt}
use native.Mathlib.Nat.{mod-eq_of_lt}
use rumcake.Storage.Flash.{FlashStorage, write_chunks, as_u32}
use rumcake.Storage.Flash.Bytes.{get_or-chunk}

-- `byte` is what the flash has at an address. Erased bytes are 255, and only those are written. An
-- erase is of whole pages.
pub record IsFlash {F : Type 0} (driver : FlashStorage F) (byte : F → ℕ → ℕ) : Type 0 where
  pub some_page : 0 < driver.erase_size
  pub erase :
      (f : F) (page : ℕ)
      → let from = page * driver.erase_size in
        let to = from + driver.erase_size in
        (f' : F) × (driver.erase f from to ≡ (f', true))
        × ((a : ℕ) → byte f' a ≡ (if leb from a && ltb a to then 255 else byte f a))
  pub write :
      (f : F) (offset : ℕ) (bytes : List ℕ)
      → ((i : ℕ) → i < length bytes → byte f (offset + i) ≡ 255)
      → (f' : F) × (driver.write f offset bytes ≡ (f', true))
        × ((a : ℕ)
            → byte f' a ≡ (
                if leb offset a && ltb a (offset + length bytes)
                then get_or bytes (a - offset) 0
                else byte f a))
  pub blocking_read :
      (f : F) (offset : ℕ) (buf : List ℕ)
      → (f' : F) × (buf' : List ℕ) × (driver.blocking_read f offset buf ≡ (f', buf', true))
        × (length buf' ≡ length buf)
        × ((i : ℕ) → i < length buf → get_or buf' i 0 ≡ byte f (offset + i))
        × ((a : ℕ) → byte f' a ≡ byte f a)

module _ {F : Type 0} (driver : FlashStorage F) (byte : F → ℕ → ℕ) (law : IsFlash driver byte) where
  -- What the chunks from `start` on leave.
  abbrev pub Written : F → F → ℕ → ℕ → List ℕ → Type 0
  Written f f' page start buf =
      (a : ℕ)
      → byte f' a ≡ (
          if leb (page + start) a && ltb a (page + length buf)
          then get_or buf (a - page) 0
          else byte f a)

  -- The bytes of the page from `start` on are erased.
  abbrev pub Erased : F → ℕ → ℕ → List ℕ → Type 0
  Erased f page start buf = (i : ℕ) → start + i < length buf → byte f (page + start + i) ≡ 255

  -- What one chunk leaves.
  abbrev Chunk : F → F → ℕ → ℕ → List ℕ → Type 0
  Chunk f f₁ page start buf =
      (a : ℕ)
      → byte f₁ a ≡ (
          if leb (page + start) a && ltb a (page + start + 512)
          then get_or (take 512 (drop start buf)) (a - (page + start)) 0
          else byte f a)

  still-Erased :
      (f f₁ : F) (page start : ℕ) (buf : List ℕ)
      → Chunk f f₁ page start buf
      → Erased f page start buf
      → Erased f₁ page (start + 512) buf
  still-Erased f f₁ page start buf now erased i h =
      let here : page + (start + 512) + i ≡ page + start + (512 + i) = omega arith in
      let was : byte f (page + (start + 512) + i) ≡ 255 =
        ap (byte f) here ∙ erased (512 + i) (omega arith) in
      ground (arith, now (page + (start + 512) + i), was)

  write-Chunk :
      (f : F) (page start : ℕ) (buf : List ℕ)
      → start + 512 ≤ length buf
      → Erased f page start buf
      → (f₁ : F) × (driver.write f (page + start) (take 512 (drop start buf)) ≡ (f₁, true))
        × Chunk f f₁ page start buf
  write-Chunk f page start buf fits erased =
      let size : length (take 512 (drop start buf)) ≡ 512 =
        omega (arith, length-take 512 (drop start buf), length-drop start buf) in
      let (f₁, wrote, now) =
        law.write f (page + start) (take 512 (drop start buf))
          (λ i h. erased i (omega (arith, size))) in
      (
        f₁,
        wrote,
        λ a.
            now a
            ∙ ap
                (λ n.
                  if leb (page + start) a && ltb a (page + start + n)
                  then get_or (take 512 (drop start buf)) (a - (page + start)) 0
                  else byte f a)
                size,
      )

  -- One chunk, and the others behind it.
  chunk_then :
      (f f₁ f' : F) (page start : ℕ) (buf : List ℕ)
      → start + 512 ≤ length buf
      → ((a : ℕ)
          → byte f₁ a ≡ (
              if leb (page + start) a && ltb a (page + start + 512)
              then get_or (take 512 (drop start buf)) (a - (page + start)) 0
              else byte f a))
      → Written f₁ f' page (start + 512) buf
      → Written f f' page start buf
  chunk_then f f₁ f' page start buf fits now later a = elim (dec_lt a (page + start)) [
    | yes before ↦ ground (arith, later a, now a)
    | no from ↦ elim (dec_lt a (page + start + 512)) [
      | yes inside ↦
          ground (arith, later a, now a, get_or-chunk buf page start a (omega arith) (omega arith))
      | no behind ↦ ground (arith, later a, now a)
    ]
  ]

  chunks_step :
      (rounds start : ℕ) (f f₁ f' : F) (page : ℕ) (buf : List ℕ)
      → start + 512 ≤ length buf
      → page + start < 2 ^ 32
      → driver.write f (page + start) (take 512 (drop start buf)) ≡ (f₁, true)
      → write_chunks driver rounds (start + 512) f₁ page buf ≡ ok (f', true)
      → write_chunks driver (suc rounds) start f page buf ≡ ok (f', true)
  unfolding write_chunks
  chunks_step rounds start f f₁ f' page buf fits small wrote ran =
      let bytes = take 512 (drop start buf) in
      let width : start + 512 - start ≡ 512 = omega arith in
      let address : as_u32 (page + start) ≡ page + start = mod-eq_of_lt small in
      let call : driver.write f (as_u32 (page + start)) bytes ≡ (f₁, true) =
        ap (λ n. driver.write f n bytes) address ∙ wrote in
      rw
        (
          slice_ok buf start (start + 512) (omega arith) fits
              ∙ ap (λ n. ok (take n (drop start buf))) width,
          call,
          ran,
        )
        refl

  pub chunks-Written :
      (rounds start : ℕ) (f : F) (page : ℕ) (buf : List ℕ)
      → length buf ≡ start + rounds * 512
      → page + length buf < 2 ^ 32
      → Erased f page start buf
      → (f' : F) × (write_chunks driver rounds start f page buf ≡ ok (f', true))
        × Written f f' page start buf
  unfolding write_chunks
  chunks-Written zero start f page buf len small erased = (f, refl, λ a. ground arith)
  chunks-Written (suc rounds) start f page buf len small erased =
      let (f₁, wrote, now) = write-Chunk f page start buf (omega arith) erased in
      let (f', ran, later) =
        chunks-Written rounds (start + 512) f₁ page buf (omega arith) small
          (still-Erased f f₁ page start buf now erased) in
      (
        f',
        chunks_step rounds start f f₁ f' page buf (omega arith) (omega arith) wrote ran,
        chunk_then f f₁ f' page start buf (omega arith) now later,
      )
