-- ===== src/Examples/Flash.antt =====
-- `FlashDevice` of rumcake/src/storage.rs over a flash that is a function of the address.
use rumcake.Prelude.{
  ℕ, zero, suc, ◌+◌, ◌-◌, ◌<◌, ◌≡◌, ◌∙◌, refl, ap, true, none, List, [], ◌∷◌, length, get_or,
  replicate, length-replicate, ok, leb, ltb, ◌&&◌, if◌then◌else◌, arith,
}
use rumcake.Storage.Flash.{FlashStorage, FlashDevice, controller_write, perform_pending_flash_op}
use rumcake.Storage.Flash.Chunks.{IsFlash}
use rumcake.Storage.Flash.Pages.{Patched, page_rewritten}

abbrev Cells : Type 0
Cells = ℕ → ℕ

abbrev read_cells : Cells → ℕ → List ℕ → List ℕ
read_cells f offset [] = []
read_cells f offset (_ ∷ buf) = f offset ∷ read_cells f (offset + 1) buf

abbrev cells : FlashStorage Cells
cells = record {
  erase_size = 512;
  erase = λ f from to. ((λ a. if leb from a && ltb a to then 255 else f a), true);
  write = λ f offset bytes. (
    (λ a.
        if leb offset a && ltb a (offset + length bytes) then get_or bytes (a - offset) 0 else f a),
    true,
  );
  read = λ f offset buf. (f, read_cells f offset buf, true);
  blocking_read = λ f offset buf. (f, read_cells f offset buf, true);
}

abbrev byte : Cells → ℕ → ℕ
byte f = f

length-read_cells :
    (f : Cells) (offset : ℕ) (buf : List ℕ) → length (read_cells f offset buf) ≡ length buf
length-read_cells f offset [] = refl
length-read_cells f offset (_ ∷ buf) = ap suc (length-read_cells f (offset + 1) buf)

get_or-read_cells :
    (f : Cells) (offset : ℕ) (buf : List ℕ) (i : ℕ)
    → i < length buf
    → get_or (read_cells f offset buf) i 0 ≡ f (offset + i)
get_or-read_cells f offset [] i h = absurd (omega arith)
get_or-read_cells f offset (_ ∷ buf) zero h =
    let here : offset ≡ offset + 0 = omega arith in ap f here
get_or-read_cells f offset (_ ∷ buf) (suc i) h =
    let there : offset + 1 + i ≡ offset + suc i = omega arith in
    get_or-read_cells f (offset + 1) buf i (omega arith) ∙ ap f there

cells-IsFlash : IsFlash cells byte
cells-IsFlash = record {
  some_page = omega arith;
  erase = λ f page. (_, refl, λ a. refl);
  write = λ f offset bytes erased. (_, refl, λ a. refl);
  blocking_read = λ f offset buf. (
    f,
    read_cells f offset buf,
    refl,
    length-read_cells f offset buf,
    get_or-read_cells f offset buf,
    λ a. refl,
  );
}

-- A partition of two pages behind the first one.
abbrev device : FlashDevice Cells
device = record {
  flash = λ a. a;
  start = 512;
  end_address = 1536;
  pending = none;
  op_buf = replicate 512 0;
}

page_rewritten_example :
    (d₁ d₂ : FlashDevice Cells) × (controller_write cells device 515 (7 ∷ 8 ∷ []) ≡ ok (d₁, true))
    × (perform_pending_flash_op cells d₁ ≡ ok (d₂, true))
    × (d₂.pending ≡ none)
    × Patched cells byte cells-IsFlash device.flash d₂.flash 1027 (7 ∷ 8 ∷ [])
page_rewritten_example =
    page_rewritten cells byte cells-IsFlash device 1 1 refl refl (length-replicate {A = ℕ} 512 0)
      515 (7 ∷ 8 ∷ []) (omega arith) (omega arith)
