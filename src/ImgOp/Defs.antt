-- ===== src/ImgOp/Defs.antt =====
-- The functions of src/mcuboot_img_op.c.
use ruuvi_air_mcuboot.Prelude.{ℕ, zero, suc, ◌-◌, ◌%◌, Bool, true, false, not, List, ◌++◌}
use ruuvi_air_mcuboot.Prelude.{length, replicate, take, memcmp_eq, ltb, ◌==◌, if◌then◌else◌, ℤ}
use ruuvi_air_mcuboot.Prelude.{is_neg, is_zero, to_u32, add32, M, pure, out_of_fuel, lift}
use ruuvi_air_mcuboot.Prelude.{◌>>=◌, ◌>>◌}
use ruuvi_air_mcuboot.Platform.Files.{FileApi, Whence}
use ruuvi_air_mcuboot.Platform.Flash.{FlashApi, FlashArea}

abbrev pub tmp_buf_size : ℕ
tmp_buf_size = 256

-- `cb_img_process_t`; the buffer comes cut to `buf_len`.
abbrev pub Callback : Type 0 → Type 0
Callback W = FlashArea → ℕ → List ℕ → M W Bool

-- The bytes that make the length a multiple of 4.
unfoldable pub padding_of : ℕ → ℕ
padding_of len = if not (len % 4 == 0) then 4 - len % 4 else 0

-- What is handed to the callback: the bytes read, padded by UINT8_MAX.
unfoldable pub padded : List ℕ → ℕ → List ℕ
padded bytes len = take len bytes ++ replicate (padding_of len) 255

-- A file size that `fs_tell` gives: `off_t` assigned to `size_t`.
abbrev pub size_of : ℤ → ℕ
size_of rc = to_u32 rc

module _ {W : Type 0} (files : FileApi W) (flash : FlashApi W) where
  -- The loop of `img_process`: its `is_success`.
  unfoldable pub img_loop : Callback W → FlashArea → ℕ → ℕ → ℕ → ℕ → M W Bool
  img_loop cb fa f zero rem_len offset = out_of_fuel
  img_loop cb fa f (suc fuel) rem_len offset = if not (ltb 0 rem_len) then pure true else do
    let len = if ltb tmp_buf_size rem_len then tmp_buf_size else rem_len
    r ← lift (files.fs_read f len)
    if is_neg r.rc then pure false else if not (to_u32 r.rc == len) then pure false else do
      done ← cb fa offset (padded r.bytes len)
      if not done then pure false else img_loop cb fa f fuel (rem_len - len) (add32 offset len)

  -- After the destination has been erased, or need not be.
  unfoldable pub img_copy : Callback W → FlashArea → ℕ → ℕ → M W Bool
  img_copy cb fa f size = do
    is_success ← img_loop cb fa f (suc size) size 0
    lift (flash.flash_area_close fa)
    pure is_success

  -- From the test of the file's size on.
  unfoldable pub img_sized : Bool → Callback W → FlashArea → ℕ → ℕ → M W Bool
  img_sized flag_erase_dst cb fa f size =
      if ltb fa.fa_size size
      then pure false
      else if flag_erase_dst
      then (do
        rc ← lift (flash.flash_area_erase fa 0 fa.fa_size)
        if not (is_zero rc) then pure false else img_copy cb fa f size)
      else img_copy cb fa f size

  -- From the open flash area on: `fs_tell` at the end of the file gives its size.
  unfoldable pub img_opened : Bool → Callback W → FlashArea → ℕ → M W Bool
  img_opened flag_erase_dst cb fa f = do
    rc ← lift (files.fs_seek f 0 Whence.seek_end)
    if not (is_zero rc) then pure false else do
      src_file_size ← lift (files.fs_tell f)
      rc ← lift (files.fs_seek f 0 Whence.seek_set)
      if not (is_zero rc)
          then pure false
          else img_sized flag_erase_dst cb fa f (size_of src_file_size)

  -- Every early return leaves the flash area open, as the source does.
  unfoldable pub img_process : ℕ → ℕ → Bool → Callback W → M W Bool
  img_process fa_id_dst f flag_erase_dst cb = do
    (rc, fa) ← lift (flash.flash_area_open fa_id_dst)
    if not (is_zero rc) then pure false else img_opened flag_erase_dst cb fa f

module _ {W : Type 0} (flash : FlashApi W) where
  unfoldable pub cb_img_write : Callback W
  cb_img_write fa offset buf = do
    rc ← lift (flash.flash_area_write fa offset buf)
    pure (is_zero rc)

  unfoldable pub cb_img_cmp : Callback W
  cb_img_cmp fa offset buf = do
    r ← lift (flash.flash_area_read fa offset (length buf))
    if not (is_zero r.rc) then pure false else pure (memcmp_eq buf r.bytes (length buf))

module _ {W : Type 0} (files : FileApi W) (flash : FlashApi W) where
  unfoldable pub mcuboot_img_op_copy : ℕ → ℕ → M W Bool
  mcuboot_img_op_copy fa_id_dst f = img_process files flash fa_id_dst f true (cb_img_write flash)

  unfoldable pub mcuboot_img_op_cmp : ℕ → ℕ → M W Bool
  mcuboot_img_op_cmp fa_id_dst f = img_process files flash fa_id_dst f false (cb_img_cmp flash)
