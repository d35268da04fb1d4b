-- ===== src/Tests/Sectors.antt =====
-- A boot state of two images; the second has a slot of three sectors.
use ruuvi_air_mcuboot.Prelude.{ℕ, ◌+◌, ◌≡◌, refl, some, true, false, [], ◌∷◌}
use ruuvi_air_mcuboot.Prelude.{take, arith}
use ruuvi_air_mcuboot.BootState.{
  SectorApi, BootImg, BootLoaderState, SwapTypes, boot_is_upgrade, boot_curr_img, boot_img,
  boot_swap_type, boot_img_hdr, boot_img_num_sectors, boot_img_slot_off, boot_img_sector_size,
  boot_img_sector_off,
}
use ruuvi_air_mcuboot.BootState.Sectors.{total, boot_img_sector_off_lem}
use ruuvi_air_mcuboot.Tests.Image.{image_header}

-- A sector is its offset and its size; an area is its offset.
abbrev readers : SectorApi ℕ (ℕ × ℕ)
readers = record {
  flash_area_get_off = λ o. o;
  sector_get_off = λ s. s.0;
  sector_get_size = λ s. s.1;
}

abbrev slot_1 : BootImg ℕ (ℕ × ℕ)
slot_1 = record {
  hdr = image_header;
  area = 0x8000;
  sectors = (0x8000, 0x1000) ∷ (0x9000, 0x2000) ∷ (0xb000, 0x1000) ∷ [];
  num_sectors = 3;
}

abbrev slot_0 : BootImg ℕ (ℕ × ℕ)
slot_0 = record { hdr = image_header; area = 0x4000; sectors = []; num_sectors = 0 }

abbrev boot_state : BootLoaderState ℕ (ℕ × ℕ)
boot_state = record {
  imgs = ([]) ∷ (slot_0 ∷ slot_1 ∷ []) ∷ [];
  swap_type = 1 ∷ 3 ∷ [];
  write_sz = 4;
  curr_img_idx = 1;
}

is_slot : boot_img 2 boot_state 1 ≡ some slot_1
unfolding boot_img boot_curr_img
is_slot = refl

boot_img_sector_off_lem_example :
    (boot_img_sector_off 2 readers boot_state 1 2 ≡ some (total readers (take 2 slot_1.sectors)))
    × ((n : ℕ) × (boot_img_sector_size 2 readers boot_state 1 2 ≡ some n)
        × (total readers (take 3 slot_1.sectors) ≡ total readers (take 2 slot_1.sectors) + n))
boot_img_sector_off_lem_example =
    boot_img_sector_off_lem readers 2 boot_state 1 0x8000 2 slot_1 is_slot
      (refl, (refl, (refl, tt))) (omega arith) (omega arith)

last_sector : boot_img_sector_off 2 readers boot_state 1 2 ≡ some 0x3000
unfolding boot_img_sector_off boot_img boot_curr_img
last_sector = refl

slot_facts :
    (boot_img_slot_off 2 readers boot_state 0 ≡ some 0x4000)
    × (boot_img_num_sectors 2 boot_state 1 ≡ some 3)
    × (boot_img_hdr 2 boot_state 1 ≡ some image_header)
    × (boot_swap_type 2 boot_state ≡ some 3)
unfolding boot_img_slot_off boot_img_num_sectors boot_img_hdr boot_swap_type boot_img boot_curr_img
slot_facts = (refl, refl, refl, refl)

abbrev types : SwapTypes
types = record { boot_swap_type_test = 2; boot_swap_type_revert = 4; boot_swap_type_perm = 3 }

upgrades : (boot_is_upgrade types 4 ≡ true) × (boot_is_upgrade types 1 ≡ false)
unfolding boot_is_upgrade
upgrades = (refl, refl)
