-- ===== src/FwUpdate/Checks.antt =====
-- The checks of one update file: the first half of src/mcuboot_fw_update.c.
use ruuvi_air_mcuboot.Prelude.{ℕ, ◌+◌, ◌*◌, Bool, true, false, not, ◌&&◌}
use ruuvi_air_mcuboot.Prelude.{Option, none, some, List, [], ◌∷◌, get_or, memcmp_eq}
use ruuvi_air_mcuboot.Prelude.{
  ltb, leb, ◌==◌, if◌then◌else◌, is_neg, is_zero, to_u32, add32, sub32, pos,
}
use ruuvi_air_mcuboot.Prelude.{M, pure, lift, ◌>>=◌, ◌>>◌}
use ruuvi_air_mcuboot.Platform.Format.{ImageHeader, ImageFormat}
use ruuvi_air_mcuboot.Platform.Files.{FileApi, Whence}
use ruuvi_air_mcuboot.Platform.Crypto.{Crypto, is_success}
use ruuvi_air_mcuboot.Platform.System.{SystemApi, Config, FwInfo}
use ruuvi_air_mcuboot.SafeAdd.{boot_u32_safe_add}
use ruuvi_air_mcuboot.BtldrFs.{btldr_fs_open_file, btldr_fs_close_file, btldr_fs_get_file_size}
use ruuvi_air_mcuboot.BtldrFs.{btldr_fs_is_file_exist, btldr_fs_unlink_file}
use ruuvi_air_mcuboot.Validate.{file_img_validate}
use ruuvi_air_mcuboot.HwRev.Defs.{HwRev, no_hw_rev, fw_img_hw_rev_find_in_file}

-- `MCUBOOT_HOOK_TMPBUF_SZ`
abbrev pub tmpbuf_size : ℕ
tmpbuf_size = 256

-- A `uint32_t` in memory: the processor is little-endian.
unfoldable pub u32_le : List ℕ → ℕ
u32_le bs = get_or bs 0 0 + 256 * (get_or bs 1 0 + 256 * (get_or bs 2 0 + 256 * get_or bs 3 0))

-- The two structs that the checks fill through pointers; the header is none while it is zeroed.
pub record FileFacts : Type 0 where
  pub img_hdr : Option ImageHeader
  pub hw_rev : HwRev

abbrev pub no_facts : FileFacts
no_facts = record { img_hdr = none; hw_rev = no_hw_rev }

-- The Boolean that a check returns, with what it writes.
pub record Checked : Type 0 where
  pub ok : Bool
  pub facts : FileFacts

-- A header with the sum that goes through `p_img_size`.
pub record Loaded : Type 0 where
  pub hdr : ImageHeader
  pub img_size : ℕ

-- `reset_addr` lies in the flash area.
unfoldable pub is_reset_inside : ℕ → ℕ → ℕ → Bool
is_reset_inside dst_fa_addr dst_fa_size reset_addr =
    leb dst_fa_addr reset_addr && ltb reset_addr (add32 dst_fa_addr dst_fa_size)

-- The sum of the header's sizes, where the header is accepted.
unfoldable pub header_img_size : Config → ImageHeader → Option ℕ
header_img_size cfg hdr =
    if not (hdr.ih_magic == cfg.image_magic)
    then none
    else if cfg.is_non_bootable hdr.ih_flags
    then none
    else boot_u32_safe_add hdr.ih_img_size hdr.ih_hdr_size

module _ {W : Type 0} (fmt : ImageFormat) (c : Crypto) (cfg : Config) (files : FileApi W)
    (sys : SystemApi W) where
  -- `fs_close`, and the return behind it.
  abbrev pub close_and : {A : Type 0} → ℕ → A → M W A
  close_and f a = do rc ← lift (sys.fs_close f); pure a

  -- From the open file and its size on.
  unfoldable pub validate_b0_read : ℕ → ℕ → ℕ → M W Bool
  validate_b0_read f file_size dst_fa_addr = do
    r ← lift (files.fs_read f file_size)
    lift (sys.load_shared r.bytes)
    if is_neg r.rc
        then close_and f false
        else if not (to_u32 r.rc == file_size)
        then close_and f false
        else do
          info ← lift (sys.fw_info_find cfg.shared_addr)
          elim info as (λ _. M W Bool) [
            | none ↦ close_and f false
            | some p_fw_info ↦
                let addr_offset = sub32 p_fw_info.address dst_fa_addr in
                if leb cfg.shared_size addr_offset then close_and f false else do
                  ok ← lift (
                      sys.bl_validate_firmware p_fw_info.address
                        (add32 cfg.shared_addr addr_offset))
                  if not ok then close_and f false else close_and f true
          ]

  unfoldable pub validate_b0_signature : List ℕ → ℕ → ℕ → M W Bool
  validate_b0_signature name dst_fa_addr dst_fa_size =
      if not (dst_fa_size == cfg.shared_size) then pure false else do
        f ← btldr_fs_open_file sys cfg name
        if f == 0 then pure false else do
          file_size ← btldr_fs_get_file_size files f
          if ltb cfg.shared_size (to_u32 file_size)
              then close_and f false
              else validate_b0_read f (to_u32 file_size) dst_fa_addr

  unfoldable pub load_image_header_from_file : ℕ → M W (Option Loaded)
  load_image_header_from_file f = do
    r ← lift (files.fs_read f fmt.header_size)
    if is_neg r.rc
        then pure none
        else if not (to_u32 r.rc == fmt.header_size)
        then pure none
        else elim (header_img_size cfg (fmt.parse_header r.bytes)) as (λ _. M W (Option Loaded)) [
          | none ↦ pure none
          | some img_size ↦ do
            file_size ← btldr_fs_get_file_size files f
            pure (
                if ltb (to_u32 file_size) img_size
                then none
                else some (record { hdr = fmt.parse_header r.bytes; img_size = img_size }))
        ]

  -- The file with its header; none where `filep` is NULL.
  unfoldable pub open_file_and_load_image_header : List ℕ → M W (Option (ℕ × Loaded))
  open_file_and_load_image_header name = do
    f ← btldr_fs_open_file sys cfg name
    if f == 0 then pure none else do
      loaded ← load_image_header_from_file f
      elim loaded as (λ _. M W (Option (ℕ × Loaded))) [
        | none ↦ do btldr_fs_close_file sys cfg f; pure none
        | some l ↦ pure (some (f, l))
      ]

  -- From the hardware revision on.
  unfoldable pub validate_image : ℕ → ℕ → ImageHeader → M W Checked
  validate_image f dst_fa_size hdr = do
    a ← fw_img_hw_rev_find_in_file fmt cfg files f no_hw_rev
    validity_res ← file_img_validate fmt files c f hdr dst_fa_size tmpbuf_size none (pos 0)
    pure (record {
      ok = is_success validity_res;
      facts = record { img_hdr = some hdr; hw_rev = a.hw_rev };
    })

  -- From the open file on. `leave` is what is done at each return: `validate_file` closes the file.
  unfoldable pub validate_open_file : (Checked → M W Checked) → ℕ → ℕ → ℕ → Loaded → M W Checked
  validate_open_file leave f dst_fa_addr dst_fa_size l =
      if leb dst_fa_size l.img_size then leave (record { ok = false; facts = no_facts }) else do
        let bad : Checked = record {
          ok = false;
          facts = record { img_hdr = some l.hdr; hw_rev = no_hw_rev };
        }
        rc ← lift (files.fs_seek f (l.hdr.ih_hdr_size + 4) Whence.seek_set)
        if not (is_zero rc) then leave bad else do
          r ← lift (files.fs_read f 4)
          if is_neg r.rc
              then leave bad
              else if not (to_u32 r.rc == 4)
              then leave bad
              else if not (is_reset_inside dst_fa_addr dst_fa_size (u32_le r.bytes))
              then leave bad
              else do a ← validate_image f dst_fa_size l.hdr; if not a.ok then leave a else leave a

  unfoldable pub validate_file : List ℕ → ℕ → ℕ → M W Checked
  validate_file name dst_fa_addr dst_fa_size = do
    exists ← btldr_fs_is_file_exist sys cfg name
    if not exists then pure (record { ok = false; facts = no_facts }) else do
      opened ← open_file_and_load_image_header name
      elim opened as (λ _. M W Checked) [
        | none ↦ pure (record { ok = false; facts = no_facts })
        | some (f, l) ↦ validate_open_file (close_and f) f dst_fa_addr dst_fa_size l
      ]

  -- After a failed check: the file is removed.
  unfoldable pub remove_and_fail : List ℕ → FileFacts → M W Checked
  remove_and_fail name facts = do
    removed ← btldr_fs_unlink_file sys cfg name
    pure (record { ok = false; facts = facts })

  unfoldable pub check_file : List ℕ → ℕ → ℕ → Bool → M W Checked
  check_file name dst_fa_addr dst_fa_size flag_validate_b0_signature = do
    exists ← btldr_fs_is_file_exist sys cfg name
    if not exists
        then pure (record { ok = false; facts = no_facts })
        else if flag_validate_b0_signature
        then (do
          valid ← validate_b0_signature name dst_fa_addr dst_fa_size
          if not valid
              then remove_and_fail name no_facts
              else do a ← validate_file name dst_fa_addr dst_fa_size; pure (record a { ok = true }))
        else (do
          a ← validate_file name dst_fa_addr dst_fa_size
          if not a.ok then remove_and_fail name a.facts else pure a)

  unfoldable pub fw_info_check_in_file : ℕ → ℕ → M W (Option FwInfo)
  fw_info_check_in_file f offset = do
    rc ← lift (files.fs_seek f offset Whence.seek_set)
    if not (is_zero rc) then pure none else do
      r ← lift (files.fs_read f cfg.fw_info_size)
      let info = cfg.parse_fw_info r.bytes
      pure (
          if is_neg r.rc
          then none
          else if not (to_u32 r.rc == cfg.fw_info_size)
          then none
          else if memcmp_eq info.magic cfg.fw_info_magic cfg.fw_info_magic_len
          then some info
          else none)

  -- The loop over the offsets.
  unfoldable pub find_fw_info_at : ℕ → List ℕ → M W (Option FwInfo)
  find_fw_info_at f [] = pure none
  find_fw_info_at f (offset ∷ offsets) = do
    info ← fw_info_check_in_file f offset
    elim info as (λ _. M W (Option FwInfo)) [
      | none ↦ find_fw_info_at f offsets
      | some i ↦ pure (some i)
    ]

  unfoldable pub fw_info_find_in_file : List ℕ → M W (Option FwInfo)
  fw_info_find_in_file name = do
    f ← btldr_fs_open_file sys cfg name
    if f == 0 then pure none else do
      info ← find_fw_info_at f cfg.fw_info_allowed_offsets
      rc ← lift (sys.fs_close f)
      pure info
