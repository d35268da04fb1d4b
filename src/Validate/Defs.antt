-- ===== src/Validate/Defs.antt =====
-- The functions of src/file_img_validate.c.
use ruuvi_air_mcuboot.Prelude.{ℕ, zero, suc, ◌-◌, ◌%◌, Bool, true, false, not, ◌&&◌, ◌||◌}
use ruuvi_air_mcuboot.Prelude.{Option, none, some, List, [], ◌∷◌, length, take, memcmp_eq}
use ruuvi_air_mcuboot.Prelude.{ltb, ◌==◌, if◌then◌else◌, ℤ, pos, negsuc, is_neg, is_zero}
use ruuvi_air_mcuboot.Prelude.{minus_one, add32, M, pure, out_of_fuel, ◌>>=◌}
use ruuvi_air_mcuboot.Platform.Format.{ImageHeader, ImageFormat}
use ruuvi_air_mcuboot.Platform.Files.{FileApi}
use ruuvi_air_mcuboot.Platform.Crypto.{Crypto, FihRet, fih_failure, is_success}
use ruuvi_air_mcuboot.Tlv.{TlvIter, Next, found, no_more, failed, load_image_data}
use ruuvi_air_mcuboot.Tlv.{file_tlv_iter_begin, file_tlv_iter_next, file_tlv_iter_is_prot}

-- A return code with what the function writes through a pointer.
pub record Answer (A : Type 0) : Type 0 where
  pub rc : ℤ
  pub out : A

-- The local variables of `file_img_validate` that its loop changes.
pub record Progress : Type 0 where
  pub it : TlvIter
  pub key_id : ℤ
  pub image_hash_valid : Bool
  pub valid_signature : FihRet

-- Before the loop.
abbrev pub initial : TlvIter → Progress
initial it = record {
  it = it;
  key_id = minus_one;
  image_hash_valid = false;
  valid_signature = fih_failure;
}

-- The type may stand in the unprotected area: the search through `allowed_unprot_tlvs`.
unfoldable pub is_allowed : List ℕ → ℕ → Bool
is_allowed [] type = false
is_allowed (t ∷ ts) type = type == t || is_allowed ts type

module _ (c : Crypto) where
  open c use {ShaContext, sha_init, sha_update, sha_finish, image_hash_size, bootutil_keys}

  unfoldable pub digest_of : List ℕ → List ℕ
  digest_of bytes = sha_finish (sha_update sha_init bytes)

  -- The loop over `bootutil_keys` from the index `i` on.
  unfoldable pub find_key_from : List ℕ → ℕ → ℕ → List (List ℕ) → ℤ
  find_key_from keyhash keyhash_len i [] = minus_one
  find_key_from keyhash keyhash_len i (key ∷ keys) =
      if memcmp_eq (digest_of key) keyhash keyhash_len
      then pos i
      else find_key_from keyhash keyhash_len (suc i) keys

  unfoldable pub file_img_find_key : List ℕ → ℕ → ℤ
  file_img_find_key keyhash keyhash_len =
      if ltb image_hash_size keyhash_len
      then minus_one
      else find_key_from keyhash keyhash_len 0 bootutil_keys

  -- The context that the image's bytes go into.
  unfoldable pub seeded : Option (List ℕ) → ℤ → ShaContext
  seeded none seed_len = sha_init
  seeded (some seed) (negsuc n) = sha_init
  seeded (some seed) (pos n) = if ltb 0 n then sha_update sha_init (take n seed) else sha_init

  -- `0 <= *p_key_id && *p_key_id < bootutil_key_cnt`
  unfoldable pub is_key_id : ℤ → Bool
  is_key_id (pos n) = ltb n (length bootutil_keys)
  is_key_id (negsuc n) = false

  -- `0 == file_tlv_iter_is_prot(p_it, off)` and the type is not allowed there.
  unfoldable pub is_rogue : TlvIter → ℕ → ℕ → Bool
  is_rogue it off type = elim (file_tlv_iter_is_prot it off) [
    | none ↦ false
    | some prot ↦ not prot && not (is_allowed c.unprot_tlvs type)
  ]

-- `fih_rc` at OUT, from the code with which the loop ended.
unfoldable pub conclude : ℤ → Progress → FihRet
conclude rc p =
    if is_neg rc then fih_failure else if p.image_hash_valid then p.valid_signature else fih_failure

-- `(uint8_t)*p_key_id`
unfoldable pub key_u8 : ℤ → ℕ
key_u8 (pos n) = n % 256
key_u8 (negsuc n) = 255 - n % 256

-- What is hashed: header, image and protected TLVs.
unfoldable pub hashed_size : ImageHeader → ℕ
hashed_size hdr = add32 (add32 hdr.ih_hdr_size hdr.ih_img_size) hdr.ih_protect_tlv_size

module _ {W : Type 0} (api : FileApi W) (c : Crypto) (p_file : ℕ) where
  open c use {ShaContext, sha_update, sha_finish}

  -- The loop of `file_img_hash`; `tmp_buf_sz` bytes are read at a time.
  unfoldable pub hash_loop : ℕ → ℕ → ℕ → ℕ → ShaContext → M W (Answer ShaContext)
  hash_loop zero tmp_buf_sz size off ctx = out_of_fuel
  hash_loop (suc fuel) tmp_buf_sz size off ctx =
      if not (ltb off size) then pure (record { rc = pos 0; out = ctx }) else do
        let blk_sz = if ltb tmp_buf_sz (size - off) then tmp_buf_sz else size - off
        r ← load_image_data api p_file off blk_sz
        if not (is_zero r.rc)
            then pure (record { rc = r.rc; out = ctx })
            else hash_loop fuel tmp_buf_sz size (add32 off blk_sz) (sha_update ctx r.bytes)

  -- The fuel allows for blocks of one byte. After a failure `hash_result` is as it was: unset.
  unfoldable pub file_img_hash : ImageHeader → ℕ → Option (List ℕ) → ℤ → M W (Answer (List ℕ))
  file_img_hash hdr tmp_buf_sz seed seed_len = do
    let size = hashed_size hdr
    a ← hash_loop (suc size) tmp_buf_sz size 0 (seeded c seed seed_len)
    pure (record { rc = a.rc; out = if is_zero a.rc then sha_finish a.out else [] })

module _ {W : Type 0} (fmt : ImageFormat) (api : FileApi W) (c : Crypto) (p_file : ℕ) where
  open c use {image_hash_size, boot_fih_memequal, bootutil_verify_sig, key_buf_size}
  open c use {sig_buf_size, expected_sig_len}

  -- Each of these three returns its Boolean with what it writes.
  unfoldable pub file_image_validate_tlv_expected_hash :
      ℕ → ℕ → List ℕ → Progress → M W (Bool × Progress)
  file_image_validate_tlv_expected_hash off len hash p =
      if not (image_hash_size == len) then pure (false, p) else do
        r ← load_image_data api p_file off image_hash_size
        if not (is_zero r.rc)
            then pure (false, p)
            else if not (is_success (boot_fih_memequal hash r.bytes image_hash_size))
            then pure (false, p)
            else pure (true, record p { image_hash_valid = true })

  unfoldable pub file_image_validate_tlv_expected_key : ℕ → ℕ → Progress → M W (Bool × Progress)
  file_image_validate_tlv_expected_key off len p =
      if ltb key_buf_size len then pure (false, p) else do
        r ← load_image_data api p_file off len
        if not (is_zero r.rc)
            then pure (false, p)
            else pure (true, record p { key_id = file_img_find_key c r.bytes (len % 256) })

  unfoldable pub file_image_validate_tlv_expected_sig :
      ℕ → ℕ → List ℕ → Progress → M W (Bool × Progress)
  file_image_validate_tlv_expected_sig off len hash p =
      if not (expected_sig_len len) || ltb sig_buf_size len then pure (false, p) else do
        r ← load_image_data api p_file off len
        if not (is_zero r.rc)
            then pure (false, p)
            else pure (
              true,
              record p {
                valid_signature = bootutil_verify_sig hash r.bytes (key_u8 p.key_id);
                key_id = minus_one;
              },
            )

  -- The `switch` over the type, on a TLV that has passed the test on rogue TLVs. `break` after a
  -- false result is `return -1`.
  unfoldable pub switch_tlv : ℕ → ℕ → ℕ → List ℕ → Progress → M W (ℤ × Progress)
  switch_tlv type off len hash p =
      if type == c.expected_hash_tlv
      then (do
        (done, p') ← file_image_validate_tlv_expected_hash off len hash p
        pure (if done then pos 0 else minus_one, p'))
      else if type == c.expected_key_tlv
      then (do
        (done, p') ← file_image_validate_tlv_expected_key off len p
        pure (if done then pos 0 else minus_one, p'))
      else if type == c.expected_sig_tlv
      then (if not (is_key_id c p.key_id) then pure (pos 1, record p { key_id = minus_one }) else do
        (done, p') ← file_image_validate_tlv_expected_sig off len hash p
        pure (if done then pos 0 else minus_one, p'))
      else pure (pos 0, p)

  -- From the iterator's answer on.
  unfoldable pub validate_next : List ℕ → Progress → Next → M W (ℤ × Progress)
  validate_next hash p (found off len type) =
      if is_rogue c p.it off type then pure (minus_one, p) else switch_tlv type off len hash p
  validate_next hash p no_more = pure (pos 1, p)
  validate_next hash p failed = pure (minus_one, p)

  unfoldable pub file_image_validate_tlv : List ℕ → Progress → M W (ℤ × Progress)
  file_image_validate_tlv hash p = do
    (next, it') ← file_tlv_iter_next fmt api p.it
    validate_next hash (record p { it = it' }) next

  unfoldable pub validate_loop : ℕ → List ℕ → Progress → M W (ℤ × Progress)
  validate_loop zero hash p = out_of_fuel
  validate_loop (suc fuel) hash p = do
    (rc, p') ← file_image_validate_tlv hash p
    if not (is_zero rc) then pure (rc, p') else validate_loop fuel hash p'

  unfoldable pub validate_from : ℕ → List ℕ → Option TlvIter → M W FihRet
  validate_from fa_size hash none = pure fih_failure
  validate_from fa_size hash (some it) = if ltb fa_size it.tlv_end then pure fih_failure else do
    (rc, p) ← validate_loop (suc (it.tlv_end - it.tlv_off)) hash (initial it)
    pure (conclude rc p)

  unfoldable pub file_img_validate : ImageHeader → ℕ → ℕ → Option (List ℕ) → ℤ → M W FihRet
  file_img_validate hdr fa_size tmp_buf_sz seed seed_len = do
    a ← file_img_hash api c p_file hdr tmp_buf_sz seed seed_len
    if not (is_zero a.rc) then pure fih_failure else do
      begun ← file_tlv_iter_begin fmt api hdr p_file fmt.tlv_any false
      validate_from fa_size a.out begun
