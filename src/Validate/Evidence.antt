-- ===== src/Validate/Evidence.antt =====
-- What a valid image shows, said of the file's bytes alone: the TLVs that the walk lists, a hash
-- TLV that holds the digest, a key TLV that names a key, a signature TLV that the key accepts.
use ruuvi_air_mcuboot.Prelude.{ℕ, ◌≤◌, ◌<◌, ◌%◌, ◌≡◌, true, some, List, ℤ, pos}
use ruuvi_air_mcuboot.Prelude.{negsuc, get_elem?, take, slice}
use ruuvi_air_mcuboot.Platform.Format.{ImageHeader, ImageFormat}
use ruuvi_air_mcuboot.Platform.Crypto.{Crypto, fih_success}
use ruuvi_air_mcuboot.Tlv.{TlvIter}
use ruuvi_air_mcuboot.Tlv.Walk.{Walk}
use ruuvi_air_mcuboot.Tlv.Round.{IsTlv}
use ruuvi_air_mcuboot.Validate.Defs.{digest_of}

abbrev pub Any : ℕ → Type 0
Any t = Unit {0}

module _ (fmt : ImageFormat) (content : List ℕ) (hdr : ImageHeader) (c : Crypto) (begun : TlvIter)
    (digest : List ℕ) where
  -- The area that the iterator `begun` walks lists a TLV with this payload and type.
  pub record Entry (off len type : ℕ) : Type 0 where
    pub at : ℕ
    pub walk : Walk fmt content hdr begun.prot_end Any begun.tlv_off at
    pub before_end : at < begun.tlv_end
    pub tlv : IsTlv fmt content hdr begun.prot_end at off len type

  pub record HashShown : Type 0 where
    pub off : ℕ
    pub entry : Entry off c.image_hash_size c.expected_hash_tlv
    pub equal : slice content off c.image_hash_size ≡ digest

  -- The key of that number is one of the bootloader's, and a key TLV holds the hash of it, or the
  -- first bytes of the hash.
  pub record KeyShown (key_id : ℕ) : Type 0 where
    pub key : List ℕ
    pub listed : get_elem? c.bootutil_keys key_id ≡ some key
    pub off : ℕ
    pub len : ℕ
    pub entry : Entry off len c.expected_key_tlv
    pub fits : len ≤ c.key_buf_size
    pub hash_eq : take (len % 256) (digest_of c key) ≡ take (len % 256) (slice content off len)

  pub record SigShown : Type 0 where
    pub key_id : ℕ
    pub key : KeyShown key_id
    pub off : ℕ
    pub len : ℕ
    pub entry : Entry off len c.expected_sig_tlv
    pub length_ok : c.expected_sig_len len ≡ true
    pub accepted : c.bootutil_verify_sig digest (slice content off len) (key_id % 256) ≡ fih_success

  -- `key_id` is that of a key that has been shown, or stands for none.
  abbrev pub MaybeKey : ℤ → Type 0
  MaybeKey (pos k) = KeyShown k
  MaybeKey (negsuc n) = Unit {0}
