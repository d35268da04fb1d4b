-- ===== src/Tests/Tlv.antt =====
-- The iterator, the reading and the hash on the five-byte image.
use ruuvi_air_mcuboot.Prelude.{◌+◌, ◌<◌, ◌^◌, ◌≡◌, ◌↔◌, refl, true, false, take, length, ◌≤◌}
use ruuvi_air_mcuboot.Prelude.{some, none, pos, is_zero, Runs, arith}
use ruuvi_air_mcuboot.Platform.Files.{IsOpen}
use ruuvi_air_mcuboot.Tests.Memory.{
  memory, At, memory-IsOpenFile, layout, layout-IsFormat, toy, toy-IsCrypto,
}
use ruuvi_air_mcuboot.Tests.Image.{image, image_header}
use ruuvi_air_mcuboot.SafeAdd.{
  boot_u32_safe_add, boot_u16_safe_add, boot_u32_safe_add_iff, boot_u16_safe_add_iff,
}
use ruuvi_air_mcuboot.Tlv.{TlvIter, load_image_data, file_tlv_iter_begin, file_tlv_iter_next}
use ruuvi_air_mcuboot.Tlv.Load.{Loaded, load_image_data_lem}
use ruuvi_air_mcuboot.Tlv.Round.{Answered}
use ruuvi_air_mcuboot.Tlv.Iter.{file_tlv_iter_next_lem}
use ruuvi_air_mcuboot.Tlv.Begin.{MaybeBegun, file_tlv_iter_begin_lem}
use ruuvi_air_mcuboot.Validate.{seeded, file_img_hash}
use ruuvi_air_mcuboot.Validate.Hash.{signed_size, file_img_hash_lem}

-- At the first TLV, looking for the key.
abbrev iter : TlvIter
iter = record {
  hdr = some image_header;
  p_file = 1;
  type = 1;
  prot = false;
  prot_end = 5;
  tlv_off = 9;
  tlv_end = 27;
}

file_tlv_iter_next_lem_example :
    Runs
      (λ a w. Answered layout image image_header iter a.0 a.1 × IsOpen (memory image) 1 image At w)
      (file_tlv_iter_next layout (memory image) iter 0)
file_tlv_iter_next_lem_example =
    file_tlv_iter_next_lem layout layout-IsFormat image image_header (omega arith) (memory image) 1
      At (memory-IsOpenFile image (omega arith)) iter 0
      (record { has_hdr = refl; has_file = refl; no_wrap = omega arith }) (0, refl)

file_tlv_iter_begin_lem_example :
    Runs
      (λ o w. MaybeBegun layout image image_header 1 1 false o × IsOpen (memory image) 1 image At w)
      (file_tlv_iter_begin layout (memory image) image_header 1 1 false 0)
file_tlv_iter_begin_lem_example =
    file_tlv_iter_begin_lem layout layout-IsFormat image image_header (omega arith) 1 1 false
      (memory image) At (memory-IsOpenFile image (omega arith)) 0 (0, refl)

file_img_hash_lem_example :
    Runs
      (λ a w.
        ((is_zero a.rc ≡ true)
          → (a.out
              ≡ toy.sha_finish (
                  toy.sha_update (seeded toy none (pos 0)) (take (signed_size image_header) image)))
            × (signed_size image_header ≤ length image))
        × IsOpen (memory image) 1 image At w)
      (file_img_hash (memory image) toy 1 image_header 2 none (pos 0) 0)
file_img_hash_lem_example =
    file_img_hash_lem toy toy-IsCrypto image (memory image) 1 At
      (memory-IsOpenFile image (omega arith)) 2 (omega arith) (omega arith) image_header none
      (pos 0) 0 (omega arith) (0, refl)

load_image_data_lem_example :
    Runs
      (λ r w. Loaded image 2 3 r × IsOpen (memory image) 1 image At w)
      (load_image_data (memory image) 1 2 3 0)
load_image_data_lem_example =
    load_image_data_lem (memory image) 1 image At (memory-IsOpenFile image (omega arith)) 2 3 0
      (omega arith) (0, refl)

boot_u32_safe_add_iff_example :
    (boot_u32_safe_add 4294967295 1 ≡ some 0) ↔ ((4294967295 + 1 < 2 ^ 32) × (0 ≡ 4294967295 + 1))
boot_u32_safe_add_iff_example = boot_u32_safe_add_iff 4294967295 1 0 (omega arith) (omega arith)

boot_u16_safe_add_iff_example :
    (boot_u16_safe_add 65000 500 ≡ some 65500) ↔ ((65000 + 500 < 2 ^ 16) × (65500 ≡ 65000 + 500))
boot_u16_safe_add_iff_example = boot_u16_safe_add_iff 65000 500 65500 (omega arith) (omega arith)
