-- ===== src/FwUpdate/Frame.antt =====
-- What the checks of an update file keep, while reading and removing files and looking up firmware
-- informations keep it.
use ruuvi_air_mcuboot.Prelude.{M, true}
use ruuvi_air_mcuboot.Prelude.{
  ℕ, none, some, ltb, if◌then◌else◌, false, not, ◌==◌, leb, is_neg, to_u32, add32, sub32, List, [],
  ◌∷◌, Bool, Keeps, Keeps-bind, Keeps-if, Keeps-then, Keeps-pure, Keeps-Option,
}
use ruuvi_air_mcuboot.Platform.Format.{ImageFormat, ImageHeader}
use ruuvi_air_mcuboot.Platform.Files.{FileApi}
use ruuvi_air_mcuboot.Platform.Crypto.{Crypto}
use ruuvi_air_mcuboot.Platform.System.{SystemApi, Config}
use ruuvi_air_mcuboot.Platform.Frame.{
  IsFileFramed, IsSystemFramed, frame_rules, Keeps-fs_read, Keeps-fs_close, Keeps-load_shared,
  Keeps-bl_validate_firmware, Keeps-fw_info_find,
}
use ruuvi_air_mcuboot.BtldrFs.Frame.{
  open_file-Keeps, close_file-Keeps, unlink_file-Keeps, is_file_exist-Keeps, get_file_size-Keeps,
}
use ruuvi_air_mcuboot.Validate.Frame.{file_img_validate-Keeps}
use ruuvi_air_mcuboot.HwRev.Frame.{find_in_file-Keeps}
use ruuvi_air_mcuboot.FwUpdate.Checks.{
  FileFacts, Checked, close_and, Loaded, header_img_size, validate_b0_read, validate_b0_signature,
  load_image_header_from_file, open_file_and_load_image_header, validate_image, validate_open_file,
  validate_file, remove_and_fail, check_file, fw_info_check_in_file, find_fw_info_at,
  fw_info_find_in_file,
}

module _ {W : Type 0} {I : W → Type 0} (files : FileApi W) (law : IsFileFramed files I)
    (sys : SystemApi W) (sys_law : IsSystemFramed sys I) (fmt : ImageFormat) (c : Crypto)
    (cfg : Config) where
  close_and-Keeps : {A : Type 0} (f : ℕ) (a : A) → Keeps I (close_and fmt c cfg files sys f a)
  close_and-Keeps f a = Keeps-bind _ _ (Keeps-fs_close sys f sys_law) (λ rc. Keeps-pure a)

  b0_read-Keeps :
      (f file_size dst_fa_addr : ℕ)
      → Keeps I (validate_b0_read fmt c cfg files sys f file_size dst_fa_addr)
  unfolding validate_b0_read
  b0_read-Keeps f file_size dst_fa_addr =
      let stop = close_and-Keeps f false in
      Keeps-bind _ _ (Keeps-fs_read files f file_size law) (λ r.
        Keeps-then _ _ (Keeps-load_shared sys r.bytes sys_law) (
          Keeps-if (is_neg r.rc) _ _ stop (
            Keeps-if (not (to_u32 r.rc == file_size)) _ _ stop (
              Keeps-bind _ _ (Keeps-fw_info_find sys cfg.shared_addr sys_law) (λ info.
                Keeps-Option info _ _ stop (λ i.
                  Keeps-if (leb cfg.shared_size (sub32 i.address dst_fa_addr)) _ _ stop (
                    Keeps-bind _ _
                      (Keeps-bl_validate_firmware sys i.address
                        (add32 cfg.shared_addr (sub32 i.address dst_fa_addr)) sys_law)
                      (λ ok. Keeps-if (not ok) _ _ stop (close_and-Keeps f true)))))))))

  pub validate_b0_signature-Keeps :
      (name : List ℕ) (dst_fa_addr dst_fa_size : ℕ)
      → Keeps I (validate_b0_signature fmt c cfg files sys name dst_fa_addr dst_fa_size)
  unfolding validate_b0_signature
  validate_b0_signature-Keeps name dst_fa_addr dst_fa_size = Keeps-if _ _ _ (Keeps-pure false) (
      Keeps-bind _ _ (open_file-Keeps sys sys_law cfg name) (λ f.
        Keeps-if _ _ _ (Keeps-pure false) (
          Keeps-bind _ _ (get_file_size-Keeps files law f) (λ size.
            Keeps-if _ _ _ (close_and-Keeps f false) (b0_read-Keeps f (to_u32 size) dst_fa_addr)))))

  pub load_header-Keeps : (f : ℕ) → Keeps I (load_image_header_from_file fmt c cfg files sys f)
  unfolding load_image_header_from_file
  load_header-Keeps f = Keeps-bind _ _ (Keeps-fs_read files f fmt.header_size law) (λ r.
      Keeps-if (is_neg r.rc) _ _ (Keeps-pure none) (
        Keeps-if (not (to_u32 r.rc == fmt.header_size)) _ _ (Keeps-pure none) (
          Keeps-Option (header_img_size cfg (fmt.parse_header r.bytes)) _ _ (Keeps-pure none) (λ n.
            Keeps-bind _ _ (get_file_size-Keeps files law f) (λ size. Keeps-pure (
              if ltb (to_u32 size) n
              then none
              else some (record { hdr = fmt.parse_header r.bytes; img_size = n })))))))

  open_and_load-Keeps :
      (name : List ℕ) → Keeps I (open_file_and_load_image_header fmt c cfg files sys name)
  unfolding open_file_and_load_image_header
  open_and_load-Keeps name = Keeps-bind _ _ (open_file-Keeps sys sys_law cfg name) (λ f.
      Keeps-if _ _ _ (Keeps-pure _) (
        Keeps-bind _ _ (load_header-Keeps f) (λ loaded.
          Keeps-Option loaded _ _ (search (close_file-Keeps, frame_rules) depth 20)
            (λ l. search frame_rules))))

  pub validate_image-Keeps :
      (f dst_fa_size : ℕ) (hdr : ImageHeader)
      → Keeps I (validate_image fmt c cfg files sys f dst_fa_size hdr)
  unfolding validate_image
  validate_image-Keeps f dst_fa_size hdr =
      search (find_in_file-Keeps, file_img_validate-Keeps, frame_rules) depth 20

  pub open_file_checks-Keeps :
      (leave : Checked → M W Checked)
      → ((a : Checked) → Keeps I (leave a))
      → (f dst_fa_addr dst_fa_size : ℕ) (l : Loaded)
      → Keeps I (validate_open_file fmt c cfg files sys leave f dst_fa_addr dst_fa_size l)
  unfolding validate_open_file
  open_file_checks-Keeps leave keeps f dst_fa_addr dst_fa_size l =
      search (keeps, validate_image-Keeps, frame_rules) depth 20

  pub validate_file-Keeps :
      (name : List ℕ) (dst_fa_addr dst_fa_size : ℕ)
      → Keeps I (validate_file fmt c cfg files sys name dst_fa_addr dst_fa_size)
  unfolding validate_file
  validate_file-Keeps name dst_fa_addr dst_fa_size =
      Keeps-bind _ _ (is_file_exist-Keeps sys sys_law cfg name) (λ exists.
        Keeps-if _ _ _ (Keeps-pure _) (
          Keeps-bind _ _ (open_and_load-Keeps name) (λ opened.
            Keeps-Option opened _ _ (search frame_rules) (λ (f, l).
              open_file_checks-Keeps (close_and fmt c cfg files sys f) (close_and-Keeps f) f
                dst_fa_addr dst_fa_size l))))

  pub remove_and_fail-Keeps :
      (name : List ℕ) (facts : FileFacts) → Keeps I (remove_and_fail fmt c cfg files sys name facts)
  unfolding remove_and_fail
  remove_and_fail-Keeps name facts = search (unlink_file-Keeps, frame_rules) depth 20

  pub check_file-Keeps :
      (name : List ℕ) (dst_fa_addr dst_fa_size : ℕ) (flag : Bool)
      → Keeps I (check_file fmt c cfg files sys name dst_fa_addr dst_fa_size flag)
  unfolding check_file
  check_file-Keeps name dst_fa_addr dst_fa_size flag =
      search
        (
          is_file_exist-Keeps, validate_b0_signature-Keeps, validate_file-Keeps,
          remove_and_fail-Keeps, frame_rules,
        )
        depth 20

  check_info-Keeps : (f offset : ℕ) → Keeps I (fw_info_check_in_file fmt c cfg files sys f offset)
  unfolding fw_info_check_in_file
  check_info-Keeps f offset = search frame_rules depth 20

  pub find_info_at-Keeps :
      (f : ℕ) (offsets : List ℕ) → Keeps I (find_fw_info_at fmt c cfg files sys f offsets)
  unfolding find_fw_info_at
  find_info_at-Keeps f [] = search frame_rules
  find_info_at-Keeps f (offset ∷ offsets) =
      Keeps-bind _ _ (check_info-Keeps f offset)
        (λ info. Keeps-Option info _ _ (find_info_at-Keeps f offsets) (λ i. search frame_rules))

  pub fw_info_find_in_file-Keeps :
      (name : List ℕ) → Keeps I (fw_info_find_in_file fmt c cfg files sys name)
  unfolding fw_info_find_in_file
  fw_info_find_in_file-Keeps name =
      search (open_file-Keeps, find_info_at-Keeps, frame_rules) depth 20
