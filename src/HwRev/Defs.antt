-- ===== src/HwRev/Defs.antt =====
-- The functions of src/fw_img_hw_rev.c.
use ruuvi_air_mcuboot.Prelude.{ℕ, zero, suc, ◌+◌, ◌*◌, ◌^◌, ◌%◌, Bool, true, false, not, ◌&&◌}
use ruuvi_air_mcuboot.Prelude.{Option, none, some, List, get_or, set, replicate, overwrite}
use ruuvi_air_mcuboot.Prelude.{ltb, leb, ◌==◌, if◌then◌else◌, is_neg, is_zero, to_u32, add32}
use ruuvi_air_mcuboot.Prelude.{M, pure, out_of_fuel, lift, ◌>>=◌, ◌>>◌}
use ruuvi_air_mcuboot.Platform.Format.{ImageHeader, Tlv, ImageFormat}
use ruuvi_air_mcuboot.Platform.Files.{FileApi, Whence}
use ruuvi_air_mcuboot.Platform.Flash.{FlashApi, FlashArea}
use ruuvi_air_mcuboot.Platform.System.{SystemApi, Config}

-- `sizeof(p_hw_rev->hw_rev_name)`
abbrev pub hw_rev_name_size : ℕ
hw_rev_name_size = 16

-- `fw_image_hw_rev_t`; the name is the whole array.
pub record HwRev : Type 0 where
  pub hw_rev_num : ℕ
  pub hw_rev_name : List ℕ

-- `{ 0 }`
abbrev pub no_hw_rev : HwRev
no_hw_rev = record { hw_rev_num = 0; hw_rev_name = replicate hw_rev_name_size 0 }

-- The Boolean that a function returns, with what it writes through `p_hw_rev`.
pub record Handled : Type 0 where
  pub ok : Bool
  pub hw_rev : HwRev

-- Where TLVs start and end.
pub record Span : Type 0 where
  pub start_off : ℕ
  pub end_off : ℕ

-- The bytes stand in disjoint bits, so that `|=` adds them.
unfoldable pub u32_from_bytes_be : List ℕ → ℕ
u32_from_bytes_be buf =
    (get_or buf 0 0 * 2 ^ 24 + get_or buf 1 0 * 2 ^ 16 + get_or buf 2 0 * 2 ^ 8 + get_or buf 3 0)
    % 2 ^ 32

-- Both TLVs have been found.
unfoldable pub is_complete : HwRev → Bool
is_complete h = not (get_or h.hw_rev_name 0 0 == 0) && not (h.hw_rev_num == 0)

-- Before the search: the number is 0 and the name is empty.
unfoldable pub cleared : HwRev → HwRev
cleared h = record { hw_rev_num = 0; hw_rev_name = set h.hw_rev_name 0 0 }

-- What follows a read of the number, and a read of the name: `bytes` is what was read.
unfoldable pub with_num : HwRev → List ℕ → HwRev
with_num h bytes = record h { hw_rev_num = u32_from_bytes_be (overwrite (replicate 4 0) bytes) }

unfoldable pub with_name : HwRev → List ℕ → ℕ → HwRev
with_name h bytes len = record h { hw_rev_name = set (overwrite h.hw_rev_name bytes) len 0 }

-- The bytes of the info, from a buffer of zeros.
unfoldable pub span_of : ImageFormat → ℕ → ℕ → List ℕ → Option Span
span_of fmt magic start_offset bytes =
    let info = fmt.parse_tlv_info (overwrite (replicate fmt.tlv_info_size 0) bytes) in
    let start = add32 start_offset fmt.tlv_info_size in
    if not (info.it_magic == magic)
    then none
    else some (record { start_off = start; end_off = add32 start info.it_tlv_tot })

module _ {W : Type 0} (fmt : ImageFormat) (cfg : Config) (files : FileApi W) where
  unfoldable pub find_tlvs_in_file : ℕ → ℕ → ℕ → M W (Option Span)
  find_tlvs_in_file f magic start_offset = do
    rc ← lift (files.fs_seek f start_offset Whence.seek_set)
    if not (is_zero rc) then pure none else do
      r ← lift (files.fs_read f fmt.tlv_info_size)
      if is_neg r.rc then pure none else pure (span_of fmt magic start_offset r.bytes)

  -- The first `if`, on the number, and the second, on the name.
  unfoldable pub handle_num_in_file : Tlv → ℕ → HwRev → M W Handled
  handle_num_in_file tlv f h =
      if not (tlv.it_type == cfg.hw_rev_id_tlv)
      then pure (record { ok = true; hw_rev = h })
      else if not (tlv.it_len == 4)
      then pure (record { ok = false; hw_rev = h })
      else if not (h.hw_rev_num == 0)
      then pure (record { ok = false; hw_rev = h })
      else do
        r ← lift (files.fs_read f 4)
        if is_neg r.rc
            then pure (record { ok = false; hw_rev = h })
            else pure (record { ok = true; hw_rev = with_num h r.bytes })

  unfoldable pub handle_name_in_file : Tlv → ℕ → HwRev → M W Handled
  handle_name_in_file tlv f h =
      if not (tlv.it_type == cfg.hw_rev_name_tlv)
      then pure (record { ok = true; hw_rev = h })
      else if leb hw_rev_name_size tlv.it_len
      then pure (record { ok = false; hw_rev = h })
      else if not (get_or h.hw_rev_name 0 0 == 0)
      then pure (record { ok = false; hw_rev = h })
      else do
        r ← lift (files.fs_read f tlv.it_len)
        if is_neg r.rc
            then pure (record { ok = false; hw_rev = h })
            else pure (record { ok = true; hw_rev = with_name h r.bytes tlv.it_len })

  unfoldable pub fw_img_hw_rev_handle_tlv_hw_rev_in_file : Tlv → ℕ → HwRev → M W Handled
  fw_img_hw_rev_handle_tlv_hw_rev_in_file tlv f h = do
    a ← handle_num_in_file tlv f h
    if not a.ok then pure a else handle_name_in_file tlv f a.hw_rev

  -- The loop; `tlv` is the bytes of the variable `tlv`, which a short read changes in part.
  unfoldable pub find_loop_in_file : ℕ → ℕ → Span → ℕ → List ℕ → HwRev → M W Handled
  find_loop_in_file zero f span data_off tlv h = out_of_fuel
  find_loop_in_file (suc fuel) f span data_off tlv h =
      if ltb span.end_off (add32 data_off fmt.tlv_size)
      then pure (record { ok = false; hw_rev = h })
      else do
        rc ← lift (files.fs_seek f data_off Whence.seek_set)
        if not (is_zero rc) then pure (record { ok = false; hw_rev = h }) else do
          r ← lift (files.fs_read f fmt.tlv_size)
          if is_neg r.rc then pure (record { ok = false; hw_rev = h }) else do
            let tlv' = overwrite tlv r.bytes
            let it_len = (fmt.parse_tlv tlv').it_len
            a ← fw_img_hw_rev_handle_tlv_hw_rev_in_file (fmt.parse_tlv tlv') f h
            if not a.ok
                then pure a
                else if is_complete a.hw_rev
                then pure a
                else find_loop_in_file fuel f span (add32 data_off (fmt.tlv_size + it_len)) tlv'
                    a.hw_rev

  -- From the image header on.
  unfoldable pub find_with_header_in_file : ℕ → ImageHeader → HwRev → M W Handled
  find_with_header_in_file f hdr h = do
    found ← find_tlvs_in_file f fmt.tlv_prot_info_magic (add32 hdr.ih_hdr_size hdr.ih_img_size)
    elim found as (λ _. M W Handled) [
      | none ↦ pure (record { ok = false; hw_rev = h })
      | some span ↦
          find_loop_in_file (suc span.end_off) f span span.start_off (replicate fmt.tlv_size 0) h
    ]

  unfoldable pub fw_img_hw_rev_find_in_file : ℕ → HwRev → M W Handled
  fw_img_hw_rev_find_in_file f h = do
    rc ← lift (files.fs_seek f 0 Whence.seek_set)
    if not (is_zero rc) then pure (record { ok = false; hw_rev = cleared h }) else do
      r ← lift (files.fs_read f fmt.header_size)
      if is_neg r.rc
          then pure (record { ok = false; hw_rev = cleared h })
          else if not (to_u32 r.rc == fmt.header_size)
          then pure (record { ok = false; hw_rev = cleared h })
          else find_with_header_in_file f (fmt.parse_header r.bytes) (cleared h)

module _ {W : Type 0} (fmt : ImageFormat) (cfg : Config) (sys : SystemApi W)
    (flash : FlashApi W) where
  unfoldable pub find_tlvs_in_flash_area : FlashArea → ℕ → ℕ → M W (Option Span)
  find_tlvs_in_flash_area fa magic start_offset = do
    r ← lift (flash.flash_area_read fa start_offset fmt.tlv_info_size)
    if not (is_zero r.rc) then pure none else pure (span_of fmt magic start_offset r.bytes)

  unfoldable pub handle_num_in_flash_area : Tlv → FlashArea → ℕ → HwRev → M W Handled
  handle_num_in_flash_area tlv fa data_off h =
      if not (tlv.it_type == cfg.hw_rev_id_tlv)
      then pure (record { ok = true; hw_rev = h })
      else if not (tlv.it_len == 4)
      then pure (record { ok = false; hw_rev = h })
      else if not (h.hw_rev_num == 0)
      then pure (record { ok = false; hw_rev = h })
      else do
        r ← lift (flash.flash_area_read fa (add32 data_off fmt.tlv_size) 4)
        if not (is_zero r.rc)
            then pure (record { ok = false; hw_rev = h })
            else pure (record { ok = true; hw_rev = with_num h r.bytes })

  unfoldable pub handle_name_in_flash_area : Tlv → FlashArea → ℕ → HwRev → M W Handled
  handle_name_in_flash_area tlv fa data_off h =
      if not (tlv.it_type == cfg.hw_rev_name_tlv)
      then pure (record { ok = true; hw_rev = h })
      else if leb hw_rev_name_size tlv.it_len
      then pure (record { ok = false; hw_rev = h })
      else if not (get_or h.hw_rev_name 0 0 == 0)
      then pure (record { ok = false; hw_rev = h })
      else do
        r ← lift (flash.flash_area_read fa (add32 data_off fmt.tlv_size) tlv.it_len)
        if not (is_zero r.rc)
            then pure (record { ok = false; hw_rev = h })
            else pure (record { ok = true; hw_rev = with_name h r.bytes tlv.it_len })

  unfoldable pub fw_img_hw_rev_handle_tlv_hw_rev_in_flash_area :
      Tlv → FlashArea → ℕ → HwRev → M W Handled
  fw_img_hw_rev_handle_tlv_hw_rev_in_flash_area tlv fa data_off h = do
    a ← handle_num_in_flash_area tlv fa data_off h
    if not a.ok then pure a else handle_name_in_flash_area tlv fa data_off a.hw_rev

  unfoldable pub find_loop_in_flash_area : ℕ → FlashArea → Span → ℕ → HwRev → M W Handled
  find_loop_in_flash_area zero fa span data_off h = out_of_fuel
  find_loop_in_flash_area (suc fuel) fa span data_off h =
      if ltb span.end_off (add32 data_off fmt.tlv_size)
      then pure (record { ok = false; hw_rev = h })
      else do
        r ← lift (flash.flash_area_read fa data_off fmt.tlv_size)
        if not (is_zero r.rc) then pure (record { ok = false; hw_rev = h }) else do
          let tlv = fmt.parse_tlv r.bytes
          a ← fw_img_hw_rev_handle_tlv_hw_rev_in_flash_area tlv fa data_off h
          if not a.ok
              then pure a
              else if is_complete a.hw_rev
              then pure a
              else find_loop_in_flash_area fuel fa span (add32 data_off (fmt.tlv_size + tlv.it_len))
                  a.hw_rev

  unfoldable pub fw_img_hw_rev_find_in_flash_area_internal : FlashArea → HwRev → M W Handled
  fw_img_hw_rev_find_in_flash_area_internal fa h = do
    (rc, hdr) ← lift (sys.boot_image_load_header fa)
    if not (is_zero rc) then pure (record { ok = false; hw_rev = h }) else do
      found ←
          find_tlvs_in_flash_area fa fmt.tlv_prot_info_magic (add32 hdr.ih_hdr_size hdr.ih_img_size)
      elim found as (λ _. M W Handled) [
        | none ↦ pure (record { ok = false; hw_rev = h })
        | some span ↦ find_loop_in_flash_area (suc span.end_off) fa span span.start_off h
      ]

  unfoldable pub fw_img_hw_rev_find_in_flash_area : ℕ → HwRev → M W Handled
  fw_img_hw_rev_find_in_flash_area fa_id h = do
    (rc, fa) ← lift (flash.flash_area_open fa_id)
    if not (is_zero rc) then pure (record { ok = false; hw_rev = cleared h }) else do
      a ← fw_img_hw_rev_find_in_flash_area_internal fa (cleared h)
      lift (flash.flash_area_close fa)
      pure a
