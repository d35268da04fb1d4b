-- ===== src/Platform/Crypto.antt =====
-- The hash, the signature check and the keys that bootutil and its configuration supply.
use ruuvi_air_mcuboot.Prelude.{ℕ, ◌<◌, ◌^◌, ◌≡◌, ◌≢◌, List, [], ◌++◌, Bool, length, take}

-- `fih_ret`; any value other than FIH_SUCCESS is a failure to the code.
pub data FihRet : Type 0 where
  fih_success fih_failure : FihRet

-- `FIH_EQ(r, FIH_SUCCESS)`
abbrev pub is_success : FihRet → Bool
is_success fih_success = Bool.true
is_success fih_failure = Bool.false

pub record Crypto : Type 1 where
  pub ShaContext : Type 0
  pub sha_init : ShaContext
  pub sha_update : ShaContext → List ℕ → ShaContext
  pub sha_finish : ShaContext → List ℕ
  pub boot_fih_memequal : List ℕ → List ℕ → ℕ → FihRet
  -- hash, signature, key id
  pub bootutil_verify_sig : List ℕ → List ℕ → ℕ → FihRet
  -- `bootutil_keys[i].key`; the list's length is `bootutil_key_cnt`
  pub bootutil_keys : List (List ℕ)
  pub image_hash_size : ℕ
  pub expected_hash_tlv : ℕ
  pub expected_key_tlv : ℕ
  pub key_buf_size : ℕ
  pub expected_sig_tlv : ℕ
  pub sig_buf_size : ℕ
  pub expected_sig_len : ℕ → Bool
  -- the types in `allowed_unprot_tlvs`, which names constants of image.h, without the end mark
  pub unprot_tlvs : List ℕ

module _ (c : Crypto) where
  open c use {ShaContext, sha_update, sha_finish, boot_fih_memequal, image_hash_size}

  -- Hashing nothing changes nothing. Hashing block by block is hashing the blocks in a row, and a comparison that succeeds has
  -- compared equal bytes. A digest fills `IMAGE_HASH_SIZE` bytes.
  pub record IsCrypto : Type 0 where
    pub sha_update-nil : (ctx : ShaContext) → sha_update ctx [] ≡ ctx
    pub sha_update-append :
        (ctx : ShaContext) (xs ys : List ℕ)
        → sha_update (sha_update ctx xs) ys ≡ sha_update ctx (xs ++ ys)
    pub hash_size_small : image_hash_size < 2 ^ 16
    pub length-sha_finish : (ctx : ShaContext) → length (sha_finish ctx) ≡ image_hash_size
    pub memequal_sound :
        (xs ys : List ℕ) (n : ℕ) → boot_fih_memequal xs ys n ≡ fih_success → take n xs ≡ take n ys

  -- Equal bytes compare equal, and the three TLVs have types of their own.
  pub record IsDistinct : Type 0 where
    pub memequal_refl : (xs : List ℕ) (n : ℕ) → boot_fih_memequal xs xs n ≡ fih_success
    pub key-ne-hash : c.expected_key_tlv ≢ c.expected_hash_tlv
    pub sig-ne-hash : c.expected_sig_tlv ≢ c.expected_hash_tlv
    pub sig-ne-key : c.expected_sig_tlv ≢ c.expected_key_tlv
