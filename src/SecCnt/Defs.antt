-- ===== src/SecCnt/Defs.antt =====
-- `file_img_get_security_cnt`. The counter that it writes is given as the bytes of the `uint32_t`.
use ruuvi_air_mcuboot.Prelude.{ℕ, true, not, ◌||◌, Option, none, some, []}
use ruuvi_air_mcuboot.Prelude.{◌==◌, if◌then◌else◌, ℤ, pos, minus_one, is_zero, M, pure, ◌>>=◌}
use ruuvi_air_mcuboot.Platform.Format.{ImageHeader, ImageFormat, CounterFormat}
use ruuvi_air_mcuboot.Platform.Files.{FileApi, ReadResult}
use ruuvi_air_mcuboot.Tlv.{
  TlvIter, Next, found, no_more, failed, load_image_data, file_tlv_iter_begin, file_tlv_iter_next,
}

-- `sizeof(*img_security_cnt)`
abbrev pub security_cnt_size : ℕ
security_cnt_size = 4

-- A code, with nothing written through the pointer.
abbrev pub refused : ℤ → ReadResult
refused rc = record { rc = rc; bytes = [] }

module _ {W : Type 0} (fmt : ImageFormat) (api : FileApi W) (c : CounterFormat) where
  -- What `file_tlv_iter_next` has answered.
  unfoldable pub counter_answered : ℕ → Next → M W ReadResult
  counter_answered p_file (found off len type) =
      if not (len == security_cnt_size) then pure (refused c.boot_ebadimage) else do
        r ← load_image_data api p_file off len
        pure (record r { rc = if is_zero r.rc then pos 0 else c.boot_eflash })
  counter_answered p_file no_more = pure (refused minus_one)
  counter_answered p_file failed = pure (refused minus_one)

  -- What `file_tlv_iter_begin` has answered.
  unfoldable pub counter_begun : ℕ → Option TlvIter → M W ReadResult
  counter_begun p_file none = pure (refused minus_one)
  counter_begun p_file (some it) = do a ← file_tlv_iter_next fmt api it; counter_answered p_file a.0

  -- The call, once `hdr` is known not to be NULL.
  unfoldable pub security_cnt_of : ImageHeader → ℕ → ℕ → M W ReadResult
  security_cnt_of hdr p_file img_security_cnt =
      if p_file == 0 || img_security_cnt == 0
      then pure (refused c.boot_ebadargs)
      else if hdr.ih_protect_tlv_size == 0
      then pure (refused c.boot_ebadimage)
      else do
        it ← file_tlv_iter_begin fmt api hdr p_file c.image_tlv_sec_cnt true
        counter_begun p_file it

  -- `img_security_cnt` is the address to write to, of which only NULL, 0, is told apart.
  unfoldable pub file_img_get_security_cnt : Option ImageHeader → ℕ → ℕ → M W ReadResult
  file_img_get_security_cnt none p_file img_security_cnt = pure (refused c.boot_ebadargs)
  file_img_get_security_cnt (some hdr) p_file img_security_cnt =
      security_cnt_of hdr p_file img_security_cnt
