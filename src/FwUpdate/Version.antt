-- ===== src/FwUpdate/Version.antt =====
-- `boot_version_cmp` of src/mcuboot_fw_update.c.
use ruuvi_air_mcuboot.Prelude.{Bool, ltb, if◌then◌else◌, ℤ, pos, minus_one}
use ruuvi_air_mcuboot.Platform.Format.{ImageVersion}

-- The flag is MCUBOOT_VERSION_CMP_USE_BUILD_NUMBER.
unfoldable pub boot_version_cmp : Bool → ImageVersion → ImageVersion → ℤ
boot_version_cmp use_build_number ver1 ver2 =
    if ltb ver2.iv_major ver1.iv_major
    then pos 1
    else if ltb ver1.iv_major ver2.iv_major
    then minus_one
    else if ltb ver2.iv_minor ver1.iv_minor
    then pos 1
    else if ltb ver1.iv_minor ver2.iv_minor
    then minus_one
    else if ltb ver2.iv_revision ver1.iv_revision
    then pos 1
    else if ltb ver1.iv_revision ver2.iv_revision
    then minus_one
    else if use_build_number
    then (if ltb ver2.iv_build_num ver1.iv_build_num
        then pos 1
        else if ltb ver1.iv_build_num ver2.iv_build_num
        then minus_one
        else pos 0)
    else pos 0
