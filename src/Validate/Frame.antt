-- ===== src/Validate/Frame.antt =====
-- What the validation of an image keeps, while reading the file keeps it.
use ruuvi_air_mcuboot.Prelude.{ℕ, zero, suc, List, Option, none, some, ℤ, Keeps}
use ruuvi_air_mcuboot.Platform.Format.{ImageFormat, ImageHeader}
use ruuvi_air_mcuboot.Platform.Files.{FileApi}
use ruuvi_air_mcuboot.Platform.Crypto.{Crypto}
use ruuvi_air_mcuboot.Platform.Frame.{IsFileFramed, frame_rules}
use ruuvi_air_mcuboot.Tlv.{TlvIter, Next, found, no_more, failed}
use ruuvi_air_mcuboot.Tlv.Frame.{
  load_image_data-Keeps, file_tlv_iter_begin-Keeps, file_tlv_iter_next-Keeps,
}
use ruuvi_air_mcuboot.Validate.Defs.{
  Progress, hash_loop, file_img_hash, file_image_validate_tlv_expected_hash,
  file_image_validate_tlv_expected_key, file_image_validate_tlv_expected_sig, switch_tlv,
  validate_next, file_image_validate_tlv, validate_loop, validate_from, file_img_validate,
}

module _ {W : Type 0} {I : W → Type 0} (files : FileApi W) (law : IsFileFramed files I) (c : Crypto)
    (f : ℕ) where
  open c use {ShaContext}

  hash_loop-Keeps :
      (fuel tmp_buf_sz size off : ℕ) (ctx : ShaContext)
      → Keeps I (hash_loop files c f fuel tmp_buf_sz size off ctx)
  unfolding hash_loop
  hash_loop-Keeps zero tmp_buf_sz size off ctx = search frame_rules
  hash_loop-Keeps (suc fuel) tmp_buf_sz size off ctx =
      let rest = hash_loop-Keeps fuel tmp_buf_sz size in
      search (load_image_data-Keeps, rest, frame_rules) depth 20

  pub file_img_hash-Keeps :
      (hdr : ImageHeader) (tmp_buf_sz : ℕ) (seed : Option (List ℕ)) (seed_len : ℤ)
      → Keeps I (file_img_hash files c f hdr tmp_buf_sz seed seed_len)
  unfolding file_img_hash
  file_img_hash-Keeps hdr tmp_buf_sz seed seed_len = search (hash_loop-Keeps, frame_rules) depth 20

  module _ (fmt : ImageFormat) where
    expected_hash-Keeps :
        (off len : ℕ) (hash : List ℕ) (p : Progress)
        → Keeps I (file_image_validate_tlv_expected_hash fmt files c f off len hash p)
    unfolding file_image_validate_tlv_expected_hash
    expected_hash-Keeps off len hash p = search (load_image_data-Keeps, frame_rules) depth 20

    expected_key-Keeps :
        (off len : ℕ) (p : Progress)
        → Keeps I (file_image_validate_tlv_expected_key fmt files c f off len p)
    unfolding file_image_validate_tlv_expected_key
    expected_key-Keeps off len p = search (load_image_data-Keeps, frame_rules) depth 20

    expected_sig-Keeps :
        (off len : ℕ) (hash : List ℕ) (p : Progress)
        → Keeps I (file_image_validate_tlv_expected_sig fmt files c f off len hash p)
    unfolding file_image_validate_tlv_expected_sig
    expected_sig-Keeps off len hash p = search (load_image_data-Keeps, frame_rules) depth 20

    switch_tlv-Keeps :
        (type off len : ℕ) (hash : List ℕ) (p : Progress)
        → Keeps I (switch_tlv fmt files c f type off len hash p)
    unfolding switch_tlv
    switch_tlv-Keeps type off len hash p =
        search (expected_hash-Keeps, expected_key-Keeps, expected_sig-Keeps, frame_rules) depth 20

    validate_next-Keeps :
        (hash : List ℕ) (p : Progress) (n : Next) → Keeps I (validate_next fmt files c f hash p n)
    unfolding validate_next
    validate_next-Keeps hash p (found off len type) =
        search (switch_tlv-Keeps, frame_rules) depth 20
    validate_next-Keeps hash p no_more = search frame_rules
    validate_next-Keeps hash p failed = search frame_rules

    validate_tlv-Keeps :
        (hash : List ℕ) (p : Progress) → Keeps I (file_image_validate_tlv fmt files c f hash p)
    unfolding file_image_validate_tlv
    validate_tlv-Keeps hash p =
        search (file_tlv_iter_next-Keeps, validate_next-Keeps, frame_rules) depth 20

    validate_loop-Keeps :
        (fuel : ℕ) (hash : List ℕ) (p : Progress)
        → Keeps I (validate_loop fmt files c f fuel hash p)
    unfolding validate_loop
    validate_loop-Keeps zero hash p = search frame_rules
    validate_loop-Keeps (suc fuel) hash p =
        let rest = validate_loop-Keeps fuel hash in
        search (validate_tlv-Keeps, rest, frame_rules) depth 20

    validate_from-Keeps :
        (fa_size : ℕ) (hash : List ℕ) (begun : Option TlvIter)
        → Keeps I (validate_from fmt files c f fa_size hash begun)
    unfolding validate_from
    validate_from-Keeps fa_size hash none = search frame_rules
    validate_from-Keeps fa_size hash (some it) = search (validate_loop-Keeps, frame_rules) depth 20

    pub file_img_validate-Keeps :
        (hdr : ImageHeader) (fa_size tmp_buf_sz : ℕ) (seed : Option (List ℕ)) (seed_len : ℤ)
        → Keeps I (file_img_validate fmt files c f hdr fa_size tmp_buf_sz seed seed_len)
    unfolding file_img_validate
    file_img_validate-Keeps hdr fa_size tmp_buf_sz seed seed_len =
        search (file_img_hash-Keeps, file_tlv_iter_begin-Keeps, validate_from-Keeps, frame_rules)
          depth 20
