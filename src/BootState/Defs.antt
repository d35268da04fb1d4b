-- ===== src/BootState/Defs.antt =====
-- `boot_loader_state_t` without the fields that no accessor reads, and its accessors. An index
-- outside its array, which C leaves open, is none.
use ruuvi_air_mcuboot.Prelude.{ℕ, ◌==◌, Bool, Option, none, some, List, get_elem?}
use ruuvi_air_mcuboot.Prelude.{◌||◌, ltb, if◌then◌else◌, sub32}
use ruuvi_air_mcuboot.Platform.Format.{ImageHeader}

infixl 5 ◌>>=◌
abbrev pub ◌>>=◌ : {A B : Type 0} → Option A → (A → Option B) → Option B
◌>>=◌ none f = none
◌>>=◌ (some a) f = f a

-- The readers of Zephyr's `struct flash_area`, and of `boot_sector_t`, which is that struct too or
-- MCUboot's `struct flash_sector`. An offset is the `uint32_t` that it is converted to.
pub record SectorApi (Area Sector : Type 0) : Type 0 where
  pub flash_area_get_off : Area → ℕ
  pub sector_get_off : Sector → ℕ
  pub sector_get_size : Sector → ℕ

-- The types of a swap in bootutil_public.h that install an image.
pub record SwapTypes : Type 0 where
  pub boot_swap_type_test : ℕ
  pub boot_swap_type_revert : ℕ
  pub boot_swap_type_perm : ℕ

-- A slot of an image.
pub record BootImg (Area Sector : Type 0) : Type 0 where
  pub hdr : ImageHeader
  pub area : Area
  pub sectors : List Sector
  pub num_sectors : ℕ

-- `boot_loader_state_t`
pub record BootLoaderState (Area Sector : Type 0) : Type 0 where
  pub imgs : List (List (BootImg Area Sector))
  pub swap_type : List ℕ
  pub write_sz : ℕ
  pub curr_img_idx : ℕ

-- `BOOT_IS_UPGRADE`
unfoldable pub boot_is_upgrade : SwapTypes → ℕ → Bool
boot_is_upgrade t swap_type =
    swap_type == t.boot_swap_type_test
    || swap_type == t.boot_swap_type_revert
    || swap_type == t.boot_swap_type_perm

-- `boot_image_number` is `BOOT_IMAGE_NUMBER`.
module _ {Area Sector : Type 0} (boot_image_number : ℕ) where
  -- `BOOT_CURR_IMG`
  unfoldable pub boot_curr_img : BootLoaderState Area Sector → ℕ
  boot_curr_img state = if ltb 1 boot_image_number then state.curr_img_idx else 0

  -- `BOOT_IMG`
  unfoldable pub boot_img : BootLoaderState Area Sector → ℕ → Option (BootImg Area Sector)
  boot_img state slot = do slots ← get_elem? state.imgs (boot_curr_img state); get_elem? slots slot

  -- `BOOT_SWAP_TYPE`
  unfoldable pub boot_swap_type : BootLoaderState Area Sector → Option ℕ
  boot_swap_type state = get_elem? state.swap_type (boot_curr_img state)

  unfoldable pub boot_img_hdr : BootLoaderState Area Sector → ℕ → Option ImageHeader
  boot_img_hdr state slot = do img ← boot_img state slot; some img.hdr

  unfoldable pub boot_img_num_sectors : BootLoaderState Area Sector → ℕ → Option ℕ
  boot_img_num_sectors state slot = do img ← boot_img state slot; some img.num_sectors

  module _ (api : SectorApi Area Sector) where
    unfoldable pub boot_img_slot_off : BootLoaderState Area Sector → ℕ → Option ℕ
    boot_img_slot_off state slot = do
      img ← boot_img state slot
      some (api.flash_area_get_off img.area)

    unfoldable pub boot_img_sector_size : BootLoaderState Area Sector → ℕ → ℕ → Option ℕ
    boot_img_sector_size state slot sector = do
      img ← boot_img state slot
      s ← get_elem? img.sectors sector
      some (api.sector_get_size s)

    unfoldable pub boot_img_sector_off : BootLoaderState Area Sector → ℕ → ℕ → Option ℕ
    boot_img_sector_off state slot sector = do
      img ← boot_img state slot
      s ← get_elem? img.sectors sector
      first ← get_elem? img.sectors 0
      some (sub32 (api.sector_get_off s) (api.sector_get_off first))
