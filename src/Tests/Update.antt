-- ===== src/Tests/Update.antt =====
-- Versions at concrete values.
use ruuvi_air_mcuboot.Prelude.{ℕ, true, false, [], ◌∷◌}
use ruuvi_air_mcuboot.Platform.Format.{ImageVersion}
use ruuvi_air_mcuboot.Platform.System.{Config}
use ruuvi_air_mcuboot.FwUpdate.Version.{boot_version_cmp}
use ruuvi_air_mcuboot.FwUpdate.Order.{Compared, boot_version_cmp_lem}

abbrev version : ℕ → ℕ → ℕ → ℕ → ImageVersion
version major minor revision build = record {
  iv_major = major;
  iv_minor = minor;
  iv_revision = revision;
  iv_build_num = build;
}

abbrev pub config : Config
config = record {
  mnt_point = 47 ∷ [];
  abs_path_size = 16;
  littlefs_storage1 = 9;
  s0 = 1;
  s1 = 2;
  mcuboot_primary = 3;
  mcuboot_secondary = 4;
  mcuboot0_file_name = 48 ∷ [];
  mcuboot1_file_name = 49 ∷ [];
  loader_file_name = 76 ∷ [];
  app_file_name = 65 ∷ [];
  shared_addr = 4096;
  shared_size = 64;
  image_magic = 7;
  is_non_bootable = λ flags. false;
  hw_rev_id_tlv = 160;
  hw_rev_name_tlv = 161;
  fw_info_size = 8;
  parse_fw_info = λ bs. record { magic = bs; address = 0; version = 1 };
  fw_info_magic = 1 ∷ [];
  fw_info_magic_len = 1;
  fw_info_allowed_offsets = 0 ∷ 512 ∷ [];
  downgrade_prevention = true;
  cmp_build_number = false;
}

boot_version_cmp_lem_example :
    Compared true
      (version 1 2 3 4)
      (version 1 2 4 0)
      (boot_version_cmp true (version 1 2 3 4) (version 1 2 4 0))
boot_version_cmp_lem_example = boot_version_cmp_lem true (version 1 2 3 4) (version 1 2 4 0)
