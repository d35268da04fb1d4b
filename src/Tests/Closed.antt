-- ===== src/Tests/Closed.antt =====
-- The checks of a file, with the open files.
use ruuvi_air_mcuboot.Prelude.{drop, ap, List}
use ruuvi_air_mcuboot.Prelude.{ℕ, ◌+◌, ◌≡◌, inr, refl, true, false, some, pos, [], ◌∷◌}
use ruuvi_air_mcuboot.Prelude.{replicate, length, slice, overwrite}
use ruuvi_air_mcuboot.Platform.Files.{FileApi}
use ruuvi_air_mcuboot.Platform.System.{SystemApi}
use ruuvi_air_mcuboot.Platform.Frame.{IsFileFramed, IsSystemFramed}
use ruuvi_air_mcuboot.Tests.Memory.{memory_seek, layout, toy}
use ruuvi_air_mcuboot.Tests.Updates.{signed, settings}
use ruuvi_air_mcuboot.BtldrFs.{
  btldr_fs_is_file_exist, btldr_fs_lock_and_get_abs_path, btldr_fs_unlock, is_existing_file,
  abs_path, btldr_fs_open_file, btldr_fs_close_file, btldr_fs_unlink_file, btldr_fs_get_file_size,
}
use ruuvi_air_mcuboot.FwUpdate.{
  Checked, check_file, validate_file, open_file_and_load_image_header, load_image_header_from_file,
  header_img_size, validate_open_file, is_reset_inside, u32_le, validate_image,
  fw_info_find_in_file, find_fw_info_at, fw_info_check_in_file, remove_and_fail,
}
use ruuvi_air_mcuboot.SafeAdd.{boot_u32_safe_add, boot_tlv_off}
use ruuvi_air_mcuboot.Tlv.{
  load_image_data, file_tlv_iter_begin, begin_at_first, begin_at_info, start_iter, iter_next_with,
  file_tlv_iter_next, iter_loop, iter_round, skip_info, after_tlv, file_tlv_iter_is_prot, take_tlv,
}
use ruuvi_air_mcuboot.Validate.{
  file_img_validate, file_img_hash, hash_loop, hashed_size, validate_from, validate_loop,
  switch_tlv, file_image_validate_tlv, conclude, digest_of, file_image_validate_tlv_expected_hash,
  seeded, file_image_validate_tlv_expected_key, file_image_validate_tlv_expected_sig,
  file_img_find_key, find_key_from, is_allowed, is_key_id, is_rogue, key_u8, validate_next,
}
use ruuvi_air_mcuboot.HwRev.Defs.{
  is_complete, cleared, with_num, with_name, span_of, u32_from_bytes_be, find_tlvs_in_file,
  handle_num_in_file, handle_name_in_file, fw_img_hw_rev_handle_tlv_hw_rev_in_file,
  find_loop_in_file, find_with_header_in_file, fw_img_hw_rev_find_in_file,
}
use ruuvi_air_mcuboot.FwUpdate.Files.{IsTracked}
use ruuvi_air_mcuboot.FwUpdate.Closing.{quiet, check_file-closes}

-- The position of the file, and the open files.
abbrev World : Type 0
World = ℕ × List ℕ

abbrev opens : World → List ℕ
opens w = w.1

abbrev files : FileApi World
files = record {
  fs_seek = λ f off whence w. (pos 0, (memory_seek signed off whence, w.1));
  fs_tell = λ f w. (pos w.0, w);
  fs_read = λ f n w. (
    record { rc = pos (length (slice signed w.0 n)); bytes = slice signed w.0 n },
    (w.0 + length (slice signed w.0 n), w.1),
  );
}

abbrev system : SystemApi World
system = record {
  fs_open = λ path w. (record { rc = pos 0; filep = 1 }, (0, 1 ∷ w.1));
  fs_close = λ f w. (pos 0, (w.0, drop 1 w.1));
  fs_unlink = λ path w. (pos 0, w);
  fs_stat = λ path w. (record { rc = pos 0; is_file = true }, w);
  fs_mount = λ w. (pos 0, w);
  fs_statvfs = λ w. (pos 0, w);
  fs_unmount = λ w. (pos 0, w);
  flash_area_flatten = λ fa off n w. (pos 0, w);
  k_mutex_lock = λ w. (tt, w);
  k_mutex_unlock = λ w. (tt, w);
  boot_image_load_header = λ fa w. ((pos 0, layout.parse_header (slice signed 0 32)), w);
  fw_info_find = λ address w. (some (settings.parse_fw_info signed), w);
  fw_info_invalidate = λ info w. (tt, w);
  bl_validate_firmware = λ address start w. (true, w);
  load_shared = λ bytes w. (tt, w);
  sys_reboot = λ w. (tt, w);
}

files-IsFileFramed : (n : List ℕ) → IsFileFramed files (λ w. w.1 ≡ n)
files-IsFileFramed n = record {
  fs_seek_lem = λ f off whence w h. h;
  fs_tell_lem = λ f w h. h;
  fs_read_lem = λ f m w h. h;
}

quiet-IsSystemFramed : (n : List ℕ) → IsSystemFramed (quiet system) (λ w. w.1 ≡ n)
quiet-IsSystemFramed n = record {
  fs_open_lem = λ path w h. h;
  fs_close_lem = λ f w h. h;
  fs_unlink_lem = λ path w h. h;
  fs_stat_lem = λ path w h. h;
  k_mutex_lock_lem = λ w h. h;
  k_mutex_unlock_lem = λ w h. h;
  boot_image_load_header_lem = λ fa w h. h;
  fw_info_find_lem = λ address w h. h;
  bl_validate_firmware_lem = λ address start w h. h;
  load_shared_lem = λ bytes w h. h;
}

system-IsTracked : IsTracked system opens
system-IsTracked = record {
  fs_open_lem = λ path w. inr (refl, (0, refl), refl);
  fs_close_lem = λ f rest w e. ap (λ xs. drop 1 xs) e;
}

abbrev accepted : Checked
accepted = record {
  ok = true;
  facts = record {
    img_hdr = some (layout.parse_header (slice signed 0 32));
    hw_rev = record { hw_rev_num = 2; hw_rev_name = 65 ∷ 66 ∷ replicate 14 0 };
  };
}

checks :
    check_file layout toy settings files system (65 ∷ []) 0 96 false (0, [])
    ≡ some (accepted, (80, []))
unfolding btldr_fs_is_file_exist btldr_fs_lock_and_get_abs_path btldr_fs_unlock is_existing_file
    abs_path btldr_fs_open_file btldr_fs_close_file btldr_fs_unlink_file btldr_fs_get_file_size
    check_file validate_file open_file_and_load_image_header load_image_header_from_file
    header_img_size validate_open_file is_reset_inside u32_le validate_image fw_info_find_in_file
    find_fw_info_at fw_info_check_in_file remove_and_fail boot_u32_safe_add boot_tlv_off
    load_image_data file_tlv_iter_begin begin_at_first begin_at_info start_iter iter_next_with
    file_tlv_iter_next iter_loop iter_round skip_info after_tlv file_tlv_iter_is_prot take_tlv
    file_img_validate file_img_hash hash_loop hashed_size validate_from validate_loop switch_tlv
    file_image_validate_tlv conclude digest_of file_image_validate_tlv_expected_hash seeded
    file_image_validate_tlv_expected_key file_image_validate_tlv_expected_sig file_img_find_key
    find_key_from is_allowed is_key_id is_rogue key_u8 validate_next is_complete cleared with_num
    with_name span_of u32_from_bytes_be find_tlvs_in_file handle_num_in_file handle_name_in_file
    fw_img_hw_rev_handle_tlv_hw_rev_in_file find_loop_in_file find_with_header_in_file
    fw_img_hw_rev_find_in_file overwrite
checks = refl

finds_info :
    fw_info_find_in_file layout toy settings files system (65 ∷ []) (80, [])
    ≡ some (some (settings.parse_fw_info (slice signed 0 8)), (8, []))
unfolding btldr_fs_is_file_exist btldr_fs_lock_and_get_abs_path btldr_fs_unlock is_existing_file
    abs_path btldr_fs_open_file btldr_fs_close_file btldr_fs_unlink_file btldr_fs_get_file_size
    check_file validate_file open_file_and_load_image_header load_image_header_from_file
    header_img_size validate_open_file is_reset_inside u32_le validate_image fw_info_find_in_file
    find_fw_info_at fw_info_check_in_file remove_and_fail boot_u32_safe_add boot_tlv_off
    load_image_data file_tlv_iter_begin begin_at_first begin_at_info start_iter iter_next_with
    file_tlv_iter_next iter_loop iter_round skip_info after_tlv file_tlv_iter_is_prot take_tlv
    file_img_validate file_img_hash hash_loop hashed_size validate_from validate_loop switch_tlv
    file_image_validate_tlv conclude digest_of file_image_validate_tlv_expected_hash seeded
    file_image_validate_tlv_expected_key file_image_validate_tlv_expected_sig file_img_find_key
    find_key_from is_allowed is_key_id is_rogue key_u8 validate_next is_complete cleared with_num
    with_name span_of u32_from_bytes_be find_tlvs_in_file handle_num_in_file handle_name_in_file
    fw_img_hw_rev_handle_tlv_hw_rev_in_file find_loop_in_file find_with_header_in_file
    fw_img_hw_rev_find_in_file overwrite
finds_info = refl

check_file-closes_example : (opens (80, []) ≡ opens (0, [])) × (opens (8, []) ≡ opens (0, []))
check_file-closes_example =
    check_file-closes opens files files-IsFileFramed system system-IsTracked quiet-IsSystemFramed
      layout toy settings (65 ∷ []) 0 96 false (0, []) (80, []) (8, []) accepted
      (some (settings.parse_fw_info (slice signed 0 8))) checks finds_info
