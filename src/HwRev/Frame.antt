-- ===== src/HwRev/Frame.antt =====
-- What the search for a hardware revision in a file keeps, while reading the file keeps it.
use ruuvi_air_mcuboot.Prelude.{
  ℕ, zero, suc, List, false, not, is_zero, add32, Keeps, Keeps-if, Keeps-pure, Keeps-bind,
  Keeps-Option,
}
use ruuvi_air_mcuboot.Platform.Format.{ImageFormat, ImageHeader, Tlv}
use ruuvi_air_mcuboot.Platform.Files.{FileApi}
use ruuvi_air_mcuboot.Platform.System.{SystemApi, Config}
use ruuvi_air_mcuboot.Platform.Frame.{
  IsFileFramed, IsFlashFramed, IsSystemFramed, Keeps-boot_image_load_header, frame_rules,
}
use ruuvi_air_mcuboot.Platform.Flash.{FlashApi, FlashArea}
use ruuvi_air_mcuboot.HwRev.Defs.{
  HwRev, Span, find_tlvs_in_file, handle_num_in_file, handle_name_in_file,
  fw_img_hw_rev_handle_tlv_hw_rev_in_file, find_loop_in_file, find_with_header_in_file,
  fw_img_hw_rev_find_in_file, find_tlvs_in_flash_area, handle_num_in_flash_area,
  handle_name_in_flash_area, fw_img_hw_rev_handle_tlv_hw_rev_in_flash_area, find_loop_in_flash_area,
  fw_img_hw_rev_find_in_flash_area_internal, fw_img_hw_rev_find_in_flash_area,
}

module _ {W : Type 0} {I : W → Type 0} (files : FileApi W) (law : IsFileFramed files I)
    (fmt : ImageFormat) (cfg : Config) (f : ℕ) where
  find_tlvs-Keeps :
      (magic start_offset : ℕ) → Keeps I (find_tlvs_in_file fmt cfg files f magic start_offset)
  unfolding find_tlvs_in_file
  find_tlvs-Keeps magic start_offset = search frame_rules depth 20

  handle_num-Keeps : (tlv : Tlv) (h : HwRev) → Keeps I (handle_num_in_file fmt cfg files tlv f h)
  unfolding handle_num_in_file
  handle_num-Keeps tlv h = search frame_rules depth 20

  handle_name-Keeps : (tlv : Tlv) (h : HwRev) → Keeps I (handle_name_in_file fmt cfg files tlv f h)
  unfolding handle_name_in_file
  handle_name-Keeps tlv h = search frame_rules depth 20

  handle_tlv-Keeps :
      (tlv : Tlv) (h : HwRev)
      → Keeps I (fw_img_hw_rev_handle_tlv_hw_rev_in_file fmt cfg files tlv f h)
  unfolding fw_img_hw_rev_handle_tlv_hw_rev_in_file
  handle_tlv-Keeps tlv h = search (handle_num-Keeps, handle_name-Keeps, frame_rules) depth 20

  find_loop-Keeps :
      (fuel : ℕ) (span : Span) (data_off : ℕ) (tlv : List ℕ) (h : HwRev)
      → Keeps I (find_loop_in_file fmt cfg files fuel f span data_off tlv h)
  unfolding find_loop_in_file
  find_loop-Keeps zero span data_off tlv h = search frame_rules
  find_loop-Keeps (suc fuel) span data_off tlv h =
      let rest = find_loop-Keeps fuel span in search (handle_tlv-Keeps, rest, frame_rules) depth 20

  find_with_header-Keeps :
      (hdr : ImageHeader) (h : HwRev) → Keeps I (find_with_header_in_file fmt cfg files f hdr h)
  unfolding find_with_header_in_file
  find_with_header-Keeps hdr h =
      Keeps-bind _ _ (find_tlvs-Keeps _ _) (λ found.
        Keeps-Option found _ _ (search frame_rules) (λ span. find_loop-Keeps _ span _ _ h))

  pub find_in_file-Keeps : (h : HwRev) → Keeps I (fw_img_hw_rev_find_in_file fmt cfg files f h)
  unfolding fw_img_hw_rev_find_in_file
  find_in_file-Keeps h = search (find_with_header-Keeps, frame_rules) depth 20

-- The same in a flash area, while reading flash keeps it.
module _ {W : Type 0} {I : W → Type 0} (sys : SystemApi W) (sys_law : IsSystemFramed sys I)
    (flash : FlashApi W) (law : IsFlashFramed flash I) (fmt : ImageFormat) (cfg : Config) where
  find_tlvs_in_area-Keeps :
      (fa : FlashArea) (magic start_offset : ℕ)
      → Keeps I (find_tlvs_in_flash_area fmt cfg sys flash fa magic start_offset)
  unfolding find_tlvs_in_flash_area
  find_tlvs_in_area-Keeps fa magic start_offset = search frame_rules depth 20

  handle_num_in_area-Keeps :
      (tlv : Tlv) (fa : FlashArea) (data_off : ℕ) (h : HwRev)
      → Keeps I (handle_num_in_flash_area fmt cfg sys flash tlv fa data_off h)
  unfolding handle_num_in_flash_area
  handle_num_in_area-Keeps tlv fa data_off h = search frame_rules depth 20

  handle_name_in_area-Keeps :
      (tlv : Tlv) (fa : FlashArea) (data_off : ℕ) (h : HwRev)
      → Keeps I (handle_name_in_flash_area fmt cfg sys flash tlv fa data_off h)
  unfolding handle_name_in_flash_area
  handle_name_in_area-Keeps tlv fa data_off h = search frame_rules depth 20

  handle_tlv_in_area-Keeps :
      (tlv : Tlv) (fa : FlashArea) (data_off : ℕ) (h : HwRev)
      → Keeps I (fw_img_hw_rev_handle_tlv_hw_rev_in_flash_area fmt cfg sys flash tlv fa data_off h)
  unfolding fw_img_hw_rev_handle_tlv_hw_rev_in_flash_area
  handle_tlv_in_area-Keeps tlv fa data_off h =
      search (handle_num_in_area-Keeps, handle_name_in_area-Keeps, frame_rules) depth 20

  find_loop_in_area-Keeps :
      (fuel : ℕ) (fa : FlashArea) (span : Span) (data_off : ℕ) (h : HwRev)
      → Keeps I (find_loop_in_flash_area fmt cfg sys flash fuel fa span data_off h)
  unfolding find_loop_in_flash_area
  find_loop_in_area-Keeps zero fa span data_off h = search frame_rules
  find_loop_in_area-Keeps (suc fuel) fa span data_off h =
      let rest = find_loop_in_area-Keeps fuel fa span in
      search (handle_tlv_in_area-Keeps, rest, frame_rules) depth 20

  find_internal-Keeps :
      (fa : FlashArea) (h : HwRev)
      → Keeps I (fw_img_hw_rev_find_in_flash_area_internal fmt cfg sys flash fa h)
  unfolding fw_img_hw_rev_find_in_flash_area_internal
  find_internal-Keeps fa h =
      Keeps-bind _ _ (Keeps-boot_image_load_header sys fa sys_law) (λ (rc, hdr).
        Keeps-if (not (is_zero rc)) _ _ (Keeps-pure (record { ok = false; hw_rev = h })) (
          Keeps-bind _ _
            (find_tlvs_in_area-Keeps fa fmt.tlv_prot_info_magic
              (add32 hdr.ih_hdr_size hdr.ih_img_size))
            (λ found.
              Keeps-Option found _ _ (Keeps-pure (record { ok = false; hw_rev = h }))
                (λ span. find_loop_in_area-Keeps (suc span.end_off) fa span span.start_off h))))

  pub find_in_flash_area-Keeps :
      (fa_id : ℕ) (h : HwRev) → Keeps I (fw_img_hw_rev_find_in_flash_area fmt cfg sys flash fa_id h)
  unfolding fw_img_hw_rev_find_in_flash_area
  find_in_flash_area-Keeps fa_id h = search (find_internal-Keeps, frame_rules) depth 20
