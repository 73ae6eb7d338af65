-- ===== src/Storage/Flash.antt =====
-- rumcake/src/storage.rs: `FlashDevice`, the flash that TicKV is given, and what the loop of
-- `continue_to_completion` does between two steps of TicKV. The driver of the flash is a parameter.
-- The length that a log message slices `op_buf` by is left out.
pub mod Bytes
pub mod Chunks
pub mod Pages
use rumcake.Prelude.{
  ℕ, zero, suc, ◌+◌, ◌-◌, ◌*◌, ◌/◌, ◌%◌, ◌^◌, Bool, true, false, ◌&&◌, Option, none, some, List, [],
  ◌∷◌, length, Run, ok, panic, ◌>>=◌, slice, copy_slice, ltb, ◌==◌, if◌then◌else◌,
}

-- A driver; a read is given the buffer that it fills. `false` is `Err`.
pub record FlashStorage (F : Type 0) : Type 0 where
  pub erase_size : ℕ
  pub erase : F → ℕ → ℕ → F × Bool
  pub write : F → ℕ → List ℕ → F × Bool
  pub read : F → ℕ → List ℕ → F × List ℕ × Bool
  pub blocking_read : F → ℕ → List ℕ → F × List ℕ × Bool

pub data PendingOperation : Type 0 where
  read : ℕ → PendingOperation
  write : ℕ → ℕ → PendingOperation
  delete : ℕ → PendingOperation

pub record FlashDevice (F : Type 0) : Type 0 where
  pub flash : F
  pub start : ℕ
  pub end_address : ℕ
  pub pending : Option PendingOperation
  pub op_buf : List ℕ

-- `as u32`
abbrev pub as_u32 : ℕ → ℕ
as_u32 n = n % 2 ^ 32

module _ {F : Type 0} (driver : FlashStorage F) where
  -- The assertions on the partition.
  unfoldable pub new : F → ℕ → ℕ → List ℕ → Run (FlashDevice F)
  new flash config_start config_end op_buf =
      if ltb config_start config_end
        && (((config_end - config_start) % driver.erase_size == 0)
            && (config_start % driver.erase_size == 0))
      then ok (record {
        flash = flash;
        start = config_start;
        end_address = config_end;
        pending = none;
        op_buf = op_buf;
      })
      else panic

  unfoldable pub read_page : FlashDevice F → ℕ → FlashDevice F × Bool
  read_page d address =
      let (flash, op_buf, success) = driver.read d.flash (as_u32 (d.start + address)) d.op_buf in
      (record d { flash = flash; op_buf = op_buf }, success)

  -- The loop over chunks of 512 bytes, from the chunk at `start` of the page on.
  unfoldable pub write_chunks : ℕ → ℕ → F → ℕ → List ℕ → Run (F × Bool)
  unfolding slice
  write_chunks zero start flash page op_buf = ok (flash, true)
  write_chunks (suc rounds) start flash page op_buf = slice op_buf start (start + 512) >>= λ bytes.
      let (flash', written) = driver.write flash (as_u32 (page + start)) bytes in
      let rest = write_chunks rounds (start + 512) flash' page op_buf in
      if written then rest else ok (flash', false)

  -- The whole page of the address is erased and written.
  unfoldable pub write_page : FlashDevice F → ℕ → Run (FlashDevice F × Bool)
  unfolding write_chunks
  write_page d address =
      let size = driver.erase_size in
      let page = d.start + address - address % size in
      let (flash, erased) = driver.erase d.flash (as_u32 page) (as_u32 (page + size)) in
      let chunks : Run (FlashDevice F × Bool) =
        write_chunks ((size + 511) / 512) 0 flash (d.start + address / size * size) d.op_buf
        >>= λ p. ok (record d { flash = p.0 }, p.1) in
      if erased then chunks else ok (record d { flash = flash }, false)

  unfoldable pub erase_page : FlashDevice F → ℕ → FlashDevice F × Bool
  erase_page d address =
      let start = d.start + address in
      let (flash, erased) =
        driver.erase d.flash (as_u32 start) (as_u32 (d.start + address + driver.erase_size)) in
      (record d { flash = flash }, erased)

  -- The functions of `FlashController`, which TicKV calls: they leave an operation pending.
  unfoldable pub read_region : FlashDevice F → ℕ → FlashDevice F
  read_region d region_number = record d { pending = some (PendingOperation.read region_number) }

  unfoldable pub erase_region : FlashDevice F → ℕ → FlashDevice F
  erase_region d region_number = record d { pending = some (PendingOperation.delete region_number) }

  -- `false` is `WriteFail`, and `true` is `WriteNotReady`, as an operation is pending now.
  unfoldable pub controller_write : FlashDevice F → ℕ → List ℕ → Run (FlashDevice F × Bool)
  unfolding copy_slice
  controller_write d address buf =
      let offset = address % driver.erase_size in
      let (flash, op_buf, success) =
        driver.blocking_read d.flash (as_u32 (d.start + address - offset)) d.op_buf in
      let patched : Run (FlashDevice F × Bool) =
        copy_slice op_buf offset (offset + length buf) buf >>= λ bytes. ok (
          record d {
            flash = flash;
            op_buf = bytes;
            pending = some (PendingOperation.write address (length buf));
          },
          true,
        ) in
      if success then patched else ok (record d { flash = flash; op_buf = op_buf }, false)

  -- Nothing is pending afterwards. The page that a read leaves in `op_buf` is the read buffer that
  -- TicKV is given.
  unfoldable pub perform_pending_flash_op : FlashDevice F → Run (FlashDevice F × Bool)
  unfolding write_page read_page erase_page
  perform_pending_flash_op d =
      let d' : FlashDevice F = record d { pending = none } in
      elim d.pending [
        | none ↦ ok (d', true)
        | some operation ↦ elim operation [
          | read page ↦ ok (read_page d' (page * driver.erase_size))
          | write address len ↦ write_page d' address
          | delete page ↦ ok (erase_page d' (page * driver.erase_size))
        ]
      ]
