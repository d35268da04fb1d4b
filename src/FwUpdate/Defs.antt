-- ===== src/FwUpdate/Defs.antt =====
-- The update of one slot and of all slots: the second half of src/mcuboot_fw_update.c.
use ruuvi_air_mcuboot.Prelude.{
  ℕ, Bool, true, false, not, ◌&&◌, ◌||◌, Option, none, some, List, [], ◌∷◌,
}
use ruuvi_air_mcuboot.Prelude.{get_or, ltb, ◌==◌, if◌then◌else◌, ℤ, pos, negsuc, is_neg, is_zero}
use ruuvi_air_mcuboot.Prelude.{M, pure, lift, ◌>>=◌, ◌>>◌}
use ruuvi_air_mcuboot.Platform.Format.{ImageHeader, ImageFormat, ImageVersion}
use ruuvi_air_mcuboot.Platform.Files.{FileApi}
use ruuvi_air_mcuboot.Platform.Flash.{FlashApi}
use ruuvi_air_mcuboot.Platform.Crypto.{Crypto}
use ruuvi_air_mcuboot.Platform.System.{SystemApi, Config, FwInfo}
use ruuvi_air_mcuboot.BtldrFs.{btldr_fs_open_file, btldr_fs_close_file, btldr_fs_unlink_file}
use ruuvi_air_mcuboot.BtldrFs.{btldr_fs_is_file_exist, btldr_fs_mount, btldr_fs_unmount}
use ruuvi_air_mcuboot.BtldrFs.{get_flash_area_address_and_size, load_image_header}
use ruuvi_air_mcuboot.ImgOp.{mcuboot_img_op_copy}
use ruuvi_air_mcuboot.HwRev.Defs.{HwRev}
use ruuvi_air_mcuboot.FwUpdate.Checks.{FileFacts, check_file, validate_b0_signature}
use ruuvi_air_mcuboot.FwUpdate.Checks.{validate_file, fw_info_find_in_file}
use ruuvi_air_mcuboot.FwUpdate.Version.{boot_version_cmp}

-- `0 == strcmp(a, b)` on arrays that hold a NUL.
abbrev pub strcmp_eq : List ℕ → List ℕ → Bool
strcmp_eq [] [] = true
strcmp_eq [] (y ∷ ys) = y == 0
strcmp_eq (x ∷ xs) [] = x == 0
strcmp_eq (x ∷ xs) (y ∷ ys) = x == y && (x == 0 || strcmp_eq xs ys)

-- The device has a revision name and the image another one.
unfoldable pub is_hw_rev_mismatch : HwRev → HwRev → Bool
is_hw_rev_mismatch expected found =
    not (get_or expected.hw_rev_name 0 0 == 0)
    && not (strcmp_eq expected.hw_rev_name found.hw_rev_name)

-- `a < b` on return codes.
unfoldable pub is_less : ℤ → ℤ → Bool
is_less (pos a) (pos b) = ltb a b
is_less (pos a) (negsuc b) = false
is_less (negsuc a) (pos b) = true
is_less (negsuc a) (negsuc b) = ltb b a

-- The version of an image header; a header that was not loaded is zeroed.
abbrev pub version_of : Option ImageHeader → ImageVersion
version_of none = record { iv_major = 0; iv_minor = 0; iv_revision = 0; iv_build_num = 0 }
version_of (some hdr) = hdr.ih_ver

-- The verdict once the header of the slot has been loaded. The first comparison is that of the
-- file's version with itself, as the source has it.
unfoldable pub is_upgrade : Config → ImageVersion → ℕ → ImageVersion → Bool
is_upgrade cfg s0_s1_version dst_fa_id file_version =
    let rc = boot_version_cmp cfg.cmp_build_number file_version file_version in
    let version_check = boot_version_cmp cfg.cmp_build_number file_version s0_s1_version in
    let is_mcuboot = cfg.s0 == dst_fa_id || cfg.s1 == dst_fa_id in
    not (
      is_neg
        (if not (is_neg rc) && is_mcuboot && is_less version_check rc then version_check else rc))

-- How `mcuboot_fw_update` ends.
pub data Ending : Type 0 where
  rebooted returned : Ending

module _ {W : Type 0} (fmt : ImageFormat) (c : Crypto) (cfg : Config) (s0_s1_version : ImageVersion)
    (files : FileApi W) (flash : FlashApi W) (sys : SystemApi W) where
  unfoldable pub img_invalidate : ℕ → M W Bool
  img_invalidate fa_id = do
    (rc, fa) ← lift (flash.flash_area_open fa_id)
    if not (is_zero rc) then pure false else do
      info ← lift (sys.fw_info_find fa.fa_off)
      elim info as (λ _. M W Bool) [
        | none ↦ do lift (flash.flash_area_close fa); pure false
        | some p_fw_info ↦ do
          lift (sys.fw_info_invalidate p_fw_info)
          lift (flash.flash_area_close fa)
          pure true
      ]

  unfoldable pub check_downgrade_prevention : ℕ → Option ImageHeader → M W Bool
  check_downgrade_prevention dst_fa_id file_img_hdr = do
    loaded ← load_image_header sys flash dst_fa_id
    pure (elim loaded [
      | none ↦ false
      | some dst_img_hdr ↦ is_upgrade cfg s0_s1_version dst_fa_id (version_of file_img_hdr)
    ])

  unfoldable pub remove_file : List ℕ → M W Bool
  remove_file name = do removed ← btldr_fs_unlink_file sys cfg name; pure false

  -- All checks have passed: the copy, whose result is not used.
  unfoldable pub install : List ℕ → ℕ → M W Bool
  install name dst_fa_id = do
    f ← btldr_fs_open_file sys cfg name
    if f == 0 then remove_file name else do
      copied ← mcuboot_img_op_copy files flash dst_fa_id f
      btldr_fs_close_file sys cfg f
      removed ← btldr_fs_unlink_file sys cfg name
      pure true

  unfoldable pub prevent_downgrade : List ℕ → ℕ → Option ImageHeader → M W Bool
  prevent_downgrade name dst_fa_id file_img_hdr =
      if not cfg.downgrade_prevention then install name dst_fa_id else do
        ok ← check_downgrade_prevention dst_fa_id file_img_hdr
        if not ok then remove_file name else install name dst_fa_id

  -- From the firmware informations of the file and of the slot on.
  unfoldable pub compare_and_install : List ℕ → ℕ → HwRev → FileFacts → FwInfo → FwInfo → M W Bool
  compare_and_install name dst_fa_id p_hw_rev facts file_fw_info dst_fw_info =
      if is_hw_rev_mismatch p_hw_rev facts.hw_rev
      then remove_file name
      else if ltb file_fw_info.version dst_fw_info.version
      then remove_file name
      else prevent_downgrade name dst_fa_id facts.img_hdr

  unfoldable pub update_with_info : List ℕ → ℕ → ℕ → HwRev → FileFacts → Option FwInfo → M W Bool
  update_with_info name dst_fa_id dst_fa_addr p_hw_rev facts none = remove_file name
  update_with_info name dst_fa_id dst_fa_addr p_hw_rev facts (some file_fw_info) = do
    dst ← lift (sys.fw_info_find dst_fa_addr)
    elim dst as (λ _. M W Bool) [
      | none ↦ remove_file name
      | some dst_fw_info ↦
          compare_and_install name dst_fa_id p_hw_rev facts file_fw_info dst_fw_info
    ]

  unfoldable pub check_file_and_update : List ℕ → ℕ → HwRev → Bool → M W Bool
  check_file_and_update name dst_fa_id p_hw_rev flag_validate_b0_signature = do
    area ← get_flash_area_address_and_size sys flash dst_fa_id
    elim area as (λ _. M W Bool) [
      | none ↦ pure false
      | some (dst_fa_addr, dst_fa_size) ↦ do
        a ← check_file fmt c cfg files sys name dst_fa_addr dst_fa_size flag_validate_b0_signature
        if not a.ok then pure false else do
          info ← fw_info_find_in_file fmt c cfg files sys name
          update_with_info name dst_fa_id dst_fa_addr p_hw_rev a.facts info
    ]

  -- From the file that exists on.
  unfoldable pub check_mcuboot_file : List ℕ → ℕ → ℕ → HwRev → M W Bool
  check_mcuboot_file name dst_fa_addr dst_fa_size p_hw_rev = do
    valid ← validate_b0_signature fmt c cfg files sys name dst_fa_addr dst_fa_size
    if not valid then remove_file name else do
      a ← validate_file fmt c cfg files sys name dst_fa_addr dst_fa_size
      info ← fw_info_find_in_file fmt c cfg files sys name
      elim info as (λ _. M W Bool) [
        | none ↦ remove_file name
        | some file_fw_info ↦
            if is_hw_rev_mismatch p_hw_rev a.facts.hw_rev then remove_file name else pure true
      ]

  unfoldable pub check_update_for_mcuboot : List ℕ → ℕ → HwRev → M W Bool
  check_update_for_mcuboot name dst_fa_id p_hw_rev = do
    exists ← btldr_fs_is_file_exist sys cfg name
    if not exists then pure false else do
      area ← get_flash_area_address_and_size sys flash dst_fa_id
      elim area as (λ _. M W Bool) [
        | none ↦ pure false
        | some (dst_fa_addr, dst_fa_size) ↦ check_mcuboot_file name dst_fa_addr dst_fa_size p_hw_rev
      ]

  -- The loader and the application, after the MCUboot slots.
  unfoldable pub check_app_updates : HwRev → Bool → M W Bool
  check_app_updates p_hw_rev mcuboot_found = do
    loader ← check_file_and_update cfg.loader_file_name cfg.mcuboot_secondary p_hw_rev false
    app ← check_file_and_update cfg.app_file_name cfg.mcuboot_primary p_hw_rev false
    pure (mcuboot_found || loader || app)

  unfoldable pub check_updates_on_fs : ℕ → HwRev → M W Bool
  check_updates_on_fs mcuboot_active_slot p_hw_rev =
      if mcuboot_active_slot == 0
      then (do
        found ← check_file_and_update cfg.mcuboot1_file_name cfg.s1 p_hw_rev true
        pending ← check_update_for_mcuboot cfg.mcuboot0_file_name cfg.s0 p_hw_rev
        if pending
            then (do done ← img_invalidate cfg.s0; pure true)
            else check_app_updates p_hw_rev found)
      else (do
        found ← check_file_and_update cfg.mcuboot0_file_name cfg.s0 p_hw_rev true
        pending ← check_update_for_mcuboot cfg.mcuboot1_file_name cfg.s1 p_hw_rev
        if pending then pure true else check_app_updates p_hw_rev found)

  -- `sys_reboot` does not return.
  unfoldable pub mcuboot_fw_update : ℕ → HwRev → M W Ending
  mcuboot_fw_update mcuboot_active_slot p_hw_rev = do
    mounted ← btldr_fs_mount sys cfg flash
    if not mounted then pure returned else do
      found ← check_updates_on_fs mcuboot_active_slot p_hw_rev
      if found
          then (do lift sys.sys_reboot; pure rebooted)
          else (do btldr_fs_unmount sys cfg; pure returned)
