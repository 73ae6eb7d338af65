-- ===== src/Storage/Flash/Pages.antt =====
-- A write of rumcake/src/storage.rs goes through the whole page: `FlashDevice` reads it, erases it and
-- writes it again with the new data.
use rumcake.Prelude.{
  ℕ, ◌+◌, ◌-◌, ◌*◌, ◌/◌, ◌%◌, ◌^◌, ◌≤◌, ◌<◌, ◌≡◌, ◌∙◌, refl, sym, ap, true, ◌&&◌, none, some, List,
  ◌++◌, length, get_or, take, drop, length-copied, ok, copy_slice_ok, ltb, leb, if◌then◌else◌,
  arith,
}
use mathlib.Core.Path.{subst}
use native.Mathlib.Decide.{dec_lt}
use native.Mathlib.Nat.{mod-eq_of_lt, div-add-mod', add-mul}
use rumcake.Storage.Flash
use rumcake.Storage.Flash.{
  FlashStorage, FlashDevice, write_chunks, write_page, controller_write, perform_pending_flash_op,
  as_u32,
}
use rumcake.Storage.Flash.Bytes.{get_or-patched}
use rumcake.Storage.Flash.Chunks.{IsFlash, chunks-Written}

module _ {F : Type 0} (driver : FlashStorage F) (byte : F → ℕ → ℕ) (law : IsFlash driver byte) where
  -- The bytes of a flash that has new data at an address, the others being the old ones.
  abbrev pub Patched : F → F → ℕ → List ℕ → Type 0
  Patched f f' address buf =
      (a : ℕ)
      → byte f' a ≡ (
          if leb address a && ltb a (address + length buf)
          then get_or buf (a - address) 0
          else byte f a)

  -- The page was read to `op`, erased, and written again with the new data at the offset.
  rewritten :
      (f f₀ f₁ f' : F) (page offset size size' : ℕ) (op buf : List ℕ)
      → size ≡ length op
      → size' ≡ length op
      → offset + length buf ≤ length op
      → ((i : ℕ) → i < length op → get_or op i 0 ≡ byte f (page + i))
      → ((a : ℕ) → byte f₀ a ≡ byte f a)
      → ((a : ℕ) → byte f₁ a ≡ (if leb page a && ltb a (page + size) then 255 else byte f₀ a))
      → ((a : ℕ)
          → byte f' a ≡ (
              if leb (page + 0) a && ltb a (page + size')
              then get_or (take offset op ++ (buf ++ drop (offset + length buf) op)) (a - page) 0
              else byte f₁ a))
      → Patched f f' (page + offset) buf
  rewritten f f₀ f₁ f' page offset size size' op buf e e' fits was same erased now a =
      elim (dec_lt a page) [
        | yes before ↦ ground (arith, now a, erased a, same a)
        | no from ↦ elim (dec_lt a (page + length op)) [
          | yes inside ↦
              let place : a - page - offset ≡ a - (page + offset) = omega arith in
              let here : page + (a - page) ≡ a = omega arith in
              let old : get_or op (a - page) 0 ≡ byte f a =
                was (a - page) (omega arith) ∙ ap (byte f) here in
              let new : get_or buf (a - page - offset) 0 ≡ get_or buf (a - (page + offset)) 0 =
                ap (λ j. get_or buf j 0) place in
              ground (arith, now a, get_or-patched op buf offset (a - page) fits, old, new)
          | no behind ↦ ground (arith, now a, erased a, same a)
        ]
      ]

  erased_page :
      (f₀ f₁ : F) (page size i : ℕ)
      → ((a : ℕ) → byte f₁ a ≡ (if leb page a && ltb a (page + size) then 255 else byte f₀ a))
      → i < size
      → byte f₁ (page + 0 + i) ≡ 255
  erased_page f₀ f₁ page size i erased h = ground (arith, erased (page + 0 + i))

  module _ (d : FlashDevice F) (s n : ℕ) (aligned : d.start ≡ s * driver.erase_size)
      (chunks : driver.erase_size ≡ n * 512) (whole : length d.op_buf ≡ driver.erase_size)
      (address : ℕ) where
    -- The number of the page of the address, in the whole flash.
    abbrev pub page_number : ℕ
    page_number = s + address / driver.erase_size

    page_start :
        d.start + address / driver.erase_size * driver.erase_size ≡ page_number * driver.erase_size
    page_start = rw aligned (sym (add-mul s (address / driver.erase_size) driver.erase_size))

    page_start' : d.start + address - address % driver.erase_size ≡ page_number * driver.erase_size
    page_start' = omega (arith, page_start, div-add-mod' address driver.erase_size)

    rounds_enough : (driver.erase_size + 511) / 512 ≡ n
    rounds_enough = omega arith

    -- The device after a write that TicKV has asked for, and after it was carried out.
    abbrev asked : F → List ℕ → ℕ → FlashDevice F
    asked flash op_buf len = record d {
      flash = flash;
      op_buf = op_buf;
      pending = some (Flash.write address len);
    }

    abbrev carried_out : F → List ℕ → FlashDevice F
    carried_out flash op_buf = record d { flash = flash; op_buf = op_buf; pending = none }

    abbrev pub page_address : ℕ
    page_address = page_number * driver.erase_size

    module _ (small : page_address + driver.erase_size < 2 ^ 32) where
      controller_write_lem :
          (f₀ : F) (op buf : List ℕ)
          → driver.blocking_read d.flash page_address d.op_buf ≡ (f₀, op, true)
          → address % driver.erase_size + length buf ≤ length op
          → controller_write driver d address buf
            ≡ ok (
              asked f₀
                  (take (address % driver.erase_size) op
                    ++ (buf ++ drop (address % driver.erase_size + length buf) op))
                  (length buf),
              true,
            )
      unfolding controller_write
      controller_write_lem f₀ op buf got fits =
          let offset = address % driver.erase_size in
          let at : as_u32 (d.start + address - offset) ≡ page_address =
            ap (λ m. m % 2 ^ 32) page_start' ∙ mod-eq_of_lt (omega arith) in
          let call : driver.blocking_read d.flash (as_u32 (d.start + address - offset)) d.op_buf
              ≡ (f₀, op, true) =
            ap (λ m. driver.blocking_read d.flash m d.op_buf) at ∙ got in
          rw (call, copy_slice_ok op offset (offset + length buf) buf refl fits) refl

      perform_write_lem :
          (f₀ f₁ f' : F) (op : List ℕ) (len : ℕ)
          → driver.erase f₀ page_address (page_address + driver.erase_size) ≡ (f₁, true)
          → write_chunks driver n 0 f₁ page_address op ≡ ok (f', true)
          → perform_pending_flash_op driver (asked f₀ op len) ≡ ok (carried_out f' op, true)
      unfolding perform_pending_flash_op write_page
      perform_write_lem f₀ f₁ f' op len erased ran =
          let size = driver.erase_size in
          let from : as_u32 (d.start + address - address % size) ≡ page_address =
            ap (λ m. m % 2 ^ 32) page_start' ∙ mod-eq_of_lt (omega arith) in
          let to : as_u32 (d.start + address - address % size + size) ≡ page_address + size =
            ap (λ m. (m + size) % 2 ^ 32) page_start' ∙ mod-eq_of_lt small in
          rw (from, to, erased, page_start, rounds_enough, ran) refl

    -- A write that TicKV asks for, to bytes within one page, and that is then carried out, returns.
    -- Nothing is pending any more, the flash has the new data at its address, and every other byte
    -- is the old one. This is for a driver without faults, pages of a multiple of 512 bytes, a
    -- partition that starts at a page, and addresses that fit 32 bits.
    pub page_rewritten :
        (buf : List ℕ)
        → page_address + driver.erase_size < 2 ^ 32
        → address % driver.erase_size + length buf ≤ driver.erase_size
        → (d₁ d₂ : FlashDevice F) × (controller_write driver d address buf ≡ ok (d₁, true))
          × (perform_pending_flash_op driver d₁ ≡ ok (d₂, true))
          × (d₂.pending ≡ none)
          × Patched d.flash d₂.flash (d.start + address) buf
    page_rewritten buf small fits =
        let size = driver.erase_size in
        let offset = address % size in
        let (f₀, op, got, len, was, same) = law.blocking_read d.flash page_address d.op_buf in
        let op' = take offset op ++ (buf ++ drop (offset + length buf) op) in
        let fits' : offset + length buf ≤ length op = omega (arith, len, whole, fits) in
        let len' : length op' ≡ size =
          length-copied op offset (offset + length buf) buf refl fits' ∙ len ∙ whole in
        let (f₁, erased, now₁) = law.erase f₀ page_number in
        let (f', ran, now) =
          chunks-Written driver byte law n 0 f₁ page_address op' (omega (arith, len'))
            (omega (arith, len', small))
            (λ i h. erased_page f₀ f₁ page_address size i now₁ (omega (arith, len', h))) in
        let patched =
          rewritten d.flash f₀ f₁ f' page_address offset size (length op') op buf
            (omega (arith, len, whole)) (omega (arith, len', len, whole)) fits'
            (λ i h. was i (omega (arith, len, h))) same now₁ now in
        let there : page_address + offset ≡ d.start + address =
          omega (arith, page_start, div-add-mod' address size) in
        (
          asked f₀ op' (length buf),
          carried_out f' op',
          controller_write_lem small f₀ op buf got fits',
          perform_write_lem small f₀ f₁ f' op' (length buf) erased ran,
          refl,
          subst (λ a. Patched d.flash f' a buf) there patched,
        )
