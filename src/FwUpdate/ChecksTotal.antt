-- ===== src/FwUpdate/ChecksTotal.antt =====
-- The parts of the checks of an update file that read no image end, whatever the calls do.
use ruuvi_air_mcuboot.Prelude.{true}
use ruuvi_air_mcuboot.Prelude.{
  ℕ, [], ◌∷◌, List, false, not, none, some, is_neg, to_u32, ◌==◌, leb, sub32, add32,
}
use ruuvi_air_mcuboot.Prelude.{
  Total, Total-pure, Total-lift, Total-if, Total-bind, Total-then, Total-Option, total_rules,
}
use ruuvi_air_mcuboot.Platform.Format.{ImageFormat}
use ruuvi_air_mcuboot.Platform.Files.{FileApi}
use ruuvi_air_mcuboot.Platform.Crypto.{Crypto}
use ruuvi_air_mcuboot.Platform.System.{SystemApi, Config}
use ruuvi_air_mcuboot.BtldrFs.Total.{open_file-Total, unlink_file-Total, get_file_size-Total}
use ruuvi_air_mcuboot.FwUpdate.Checks.{
  FileFacts, close_and, validate_b0_read, validate_b0_signature, remove_and_fail,
  fw_info_check_in_file, find_fw_info_at, fw_info_find_in_file,
}

module _ {W : Type 0} (files : FileApi W) (sys : SystemApi W) (fmt : ImageFormat) (c : Crypto)
    (cfg : Config) where
  close_and-Total : {A : Type 0} (f : ℕ) (a : A) → Total (close_and fmt c cfg files sys f a)
  close_and-Total f a = Total-bind _ _ (Total-lift (sys.fs_close f)) (λ rc. Total-pure a)

  b0_read-Total :
      (f file_size addr : ℕ) → Total (validate_b0_read fmt c cfg files sys f file_size addr)
  unfolding validate_b0_read
  b0_read-Total f file_size addr =
      let stop = close_and-Total f false in
      Total-bind _ _ (Total-lift (files.fs_read f file_size)) (λ r.
        Total-then _ _ (Total-lift (sys.load_shared r.bytes)) (
          Total-if (is_neg r.rc) _ _ stop (
            Total-if (not (to_u32 r.rc == file_size)) _ _ stop (
              Total-bind _ _ (Total-lift (sys.fw_info_find cfg.shared_addr)) (λ info.
                Total-Option info _ _ stop (λ i.
                  Total-if (leb cfg.shared_size (sub32 i.address addr)) _ _ stop (
                    Total-bind _ _
                      (Total-lift (
                        sys.bl_validate_firmware i.address
                          (add32 cfg.shared_addr (sub32 i.address addr))))
                      (λ ok. Total-if (not ok) _ _ stop (close_and-Total f true)))))))))

  pub b0_signature-Total :
      (name : List ℕ) (addr size : ℕ)
      → Total (validate_b0_signature fmt c cfg files sys name addr size)
  unfolding validate_b0_signature
  b0_signature-Total name addr size = Total-if _ _ _ (Total-pure false) (
      Total-bind _ _ (open_file-Total sys cfg name) (λ f. Total-if _ _ _ (Total-pure false) (
        Total-bind _ _ (get_file_size-Total files f)
          (λ n. Total-if _ _ _ (close_and-Total f false) (b0_read-Total f (to_u32 n) addr)))))

  pub remove_and_fail-Total :
      (name : List ℕ) (facts : FileFacts) → Total (remove_and_fail fmt c cfg files sys name facts)
  unfolding remove_and_fail
  remove_and_fail-Total name facts = search (unlink_file-Total, total_rules)

  info_check-Total : (f offset : ℕ) → Total (fw_info_check_in_file fmt c cfg files sys f offset)
  unfolding fw_info_check_in_file
  info_check-Total f offset = search total_rules depth 20

  find_info-Total :
      (f : ℕ) (offsets : List ℕ) → Total (find_fw_info_at fmt c cfg files sys f offsets)
  unfolding find_fw_info_at
  find_info-Total f [] = Total-pure none
  find_info-Total f (offset ∷ offsets) =
      let rest = find_info-Total f offsets in
      Total-bind _ _ (info_check-Total f offset)
        (λ info. Total-Option info _ _ rest (λ i. Total-pure (some i)))

  pub info_in_file-Total : (name : List ℕ) → Total (fw_info_find_in_file fmt c cfg files sys name)
  unfolding fw_info_find_in_file
  info_in_file-Total name = search (open_file-Total, find_info-Total, total_rules) depth 20
