-- ===== src/Platform/Hook.antt =====
-- What the start-up hook calls of MCUboot and of SEGGER's RTT, and the constants of its build.
use ruuvi_air_mcuboot.Prelude.{ℕ, Bool, List, ℤ}
use ruuvi_air_mcuboot.Platform.Format.{ImageHeader, ImageVersion}
use ruuvi_air_mcuboot.Platform.Flash.{FlashArea}

-- `struct image_max_size`
pub record ImageMaxSize : Type 0 where
  pub calculated : Bool
  pub max_size : ℕ

pub record HookApi (W : Type 0) : Type 0 where
  pub boot_save_boot_status : ℕ → ImageHeader → FlashArea → W → ℤ × W
  -- the sizes of image 0 and of MCUboot's own image
  pub boot_save_shared_data : ImageHeader → FlashArea → ℕ → ImageMaxSize → ImageMaxSize → W → ℤ × W
  -- milliseconds
  pub k_msleep : ℕ → W → Unit {0} × W
  pub arch_irq_lock : W → Unit {0} × W
  -- the index of the buffer, and the bytes
  pub segger_rtt_write : ℕ → List ℕ → W → Unit {0} × W

-- The board that the build is for.
pub data BoardRev : Type 0 where
  rev_1 rev_2 other_board : BoardRev

pub record HookConfig : Type 0 where
  pub board_rev : BoardRev
  -- `MCUBOOT_MEASURED_BOOT`, `MCUBOOT_DATA_SHARING`, `CONFIG_NCS_IS_VARIANT_IMAGE`
  pub measured_boot : Bool
  pub data_sharing : Bool
  pub is_variant_image : Bool
  -- `FLASH_AREA_IMAGE_PRIMARY` and `FLASH_AREA_IMAGE_SECONDARY`
  pub image_primary : ℕ → ℕ
  pub image_secondary : ℕ → ℕ
  pub mcuboot_image_number : ℕ
  -- what `snprintf` leaves for "%u.%u.%u+%u" in 32 bytes
  pub snprintf_version : ImageVersion → List ℕ
  -- `MCUBOOT_VERSION_TWEAK_STRING`, with its NUL
  pub version_tweak_string : List ℕ
  -- `CONFIG_USE_SEGGER_RTT`; the linker's addresses and those of the device tree
  pub use_segger_rtt : Bool
  pub rtt_buff_data_start : ℕ
  pub rtt_buff_data_end : ℕ
  pub sram_base_address : ℕ
  pub rtt_data_sram_addr : ℕ
  pub rtt_data_sram_size : ℕ
