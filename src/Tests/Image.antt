-- ===== src/Tests/Image.antt =====
-- A signed image of five bytes, and its validation.
use ruuvi_air_mcuboot.Prelude.{
  ℕ, ◌≡◌, refl, List, [], ◌∷◌, Option, set, some, none, pos, Runs, arith,
}
use ruuvi_air_mcuboot.Platform.Format.{ImageHeader}
use ruuvi_air_mcuboot.Platform.Files.{IsOpen}
use ruuvi_air_mcuboot.Platform.Crypto.{FihRet, fih_success, fih_failure}
use ruuvi_air_mcuboot.Tests.Memory.{
  memory, At, memory-IsOpenFile, layout, layout-IsFormat, toy, toy-IsCrypto,
}
use ruuvi_air_mcuboot.SafeAdd.{boot_tlv_off}
use ruuvi_air_mcuboot.Tlv.{
  load_image_data, file_tlv_iter_begin, begin_at_first, begin_at_info, start_iter, iter_next_with,
  file_tlv_iter_next, iter_loop, iter_round, skip_info, after_tlv, file_tlv_iter_is_prot, take_tlv,
}
use ruuvi_air_mcuboot.Validate.{
  file_img_validate, file_img_hash, hash_loop, hashed_size, validate_from, validate_loop,
  switch_tlv, file_image_validate_tlv, conclude, digest_of, file_image_validate_tlv_expected_hash,
  seeded, file_image_validate_tlv_expected_key, file_image_validate_tlv_expected_sig,
  file_img_find_key, find_key_from, is_allowed, is_key_id, is_rogue, key_u8, validate_next,
}
use ruuvi_air_mcuboot.Validate.Sound.{Valid, file_img_validate_sound}

-- Header and image, the info, a hash TLV, a key TLV for the key 9, a signature TLV.
abbrev pub image : List ℕ
image =
    1 ∷ 2 ∷ 3 ∷ 4 ∷ 5 ∷ 0x07 ∷ 0x69 ∷ 22 ∷ 0 ∷ 0x10 ∷ 0 ∷ 2 ∷ 0 ∷ 15 ∷ 5 ∷ 0x01 ∷ 0 ∷ 2 ∷ 0 ∷ 9 ∷ 1
    ∷ 0x22 ∷ 0 ∷ 2 ∷ 0 ∷ 15 ∷ 5 ∷ []

abbrev pub image_header : ImageHeader
image_header = record {
  ih_magic = 0;
  ih_hdr_size = 2;
  ih_protect_tlv_size = 0;
  ih_img_size = 3;
  ih_flags = 0;
  ih_ver = record { iv_major = 1; iv_minor = 0; iv_revision = 0; iv_build_num = 0 };
}

-- The run on a content; the line names all that it goes through.
abbrev Result : Type 0
Result = Option (FihRet × ℕ)

unfoldable validate : List ℕ → Result
unfolding file_img_validate file_img_hash hash_loop hashed_size load_image_data file_tlv_iter_begin
    begin_at_first boot_tlv_off begin_at_info validate_from start_iter validate_loop
    file_image_validate_tlv file_tlv_iter_next iter_next_with iter_loop iter_round skip_info
    after_tlv file_tlv_iter_is_prot take_tlv conclude digest_of
    file_image_validate_tlv_expected_hash file_image_validate_tlv_expected_key
    file_image_validate_tlv_expected_sig file_img_find_key find_key_from is_allowed is_key_id
    is_rogue key_u8 seeded switch_tlv validate_next
validate bytes = file_img_validate layout (memory bytes) toy 1 image_header 100 2 none (pos 0) 0

accepts : validate image ≡ some (fih_success, 27)
unfolding validate
accepts = refl

-- With another first byte the digest is another.
rejects : validate (set image 0 9) ≡ some (fih_failure, 15)
unfolding validate
rejects = refl

file_img_validate_sound_example :
    Runs
      (λ r w.
        (r ≡ fih_success → Valid layout image image_header toy 1 100 none (pos 0))
        × IsOpen (memory image) 1 image At w)
      (file_img_validate layout (memory image) toy 1 image_header 100 2 none (pos 0) 0)
file_img_validate_sound_example =
    file_img_validate_sound layout layout-IsFormat image image_header (omega arith) toy toy-IsCrypto
      (memory image) 1 At (memory-IsOpenFile image (omega arith)) 100 2 (omega arith) (omega arith)
      none (pos 0) 0 (omega arith) (0, refl)
