-- ===== src/Validate/WellSigned.antt =====
-- A well signed image, said of the file's bytes alone. Its TLVs are others, then a hash, then the
-- hash of a key, then a signature: the order in which MCUboot's tools write them.
use ruuvi_air_mcuboot.Prelude.{
  ℕ, ◌+◌, ◌%◌, ◌≤◌, ◌<◌, ◌≡◌, ◌≢◌, ◌⊎◌, true, false, List, [], ◌∷◌, ◌++◌, length, take, slice,
  memcmp_eq,
}
use ruuvi_air_mcuboot.Platform.Format.{ImageHeader, ImageFormat}
use ruuvi_air_mcuboot.Platform.Crypto.{Crypto, fih_success}
use ruuvi_air_mcuboot.Tlv.Walk.{tlv_at}
use ruuvi_air_mcuboot.Tlv.Areas.{unprot_off, area_end, first_off, past, behind, HasInfos}
use ruuvi_air_mcuboot.Validate.Defs.{digest_of}

-- The type is in the list.
abbrev pub Listed : List ℕ → ℕ → Type 0
Listed [] type = ⊥
Listed (t ∷ ts) type = (type ≡ t) ⊎ Listed ts type

-- No key of the list has a hash that starts with these bytes.
abbrev pub NoneNamed : Crypto → List ℕ → ℕ → List (List ℕ) → Type 0
NoneNamed c bytes n [] = Unit {0}
NoneNamed c bytes n (key ∷ keys) =
    (memcmp_eq (digest_of c key) bytes n ≡ false) × NoneNamed c bytes n keys

module _ (fmt : ImageFormat) (content : List ℕ) (hdr : ImageHeader) where
  -- The payload of the TLV that is met at `o`.
  abbrev pub payload_off : ℕ → ℕ
  payload_off o = past fmt content hdr o + fmt.tlv_size

  abbrev pub payload_len : ℕ → ℕ
  payload_len o = (tlv_at fmt content (past fmt content hdr o)).it_len

  abbrev pub payload : ℕ → List ℕ
  payload o = slice content (payload_off o) (payload_len o)

  abbrev pub type_at : ℕ → ℕ
  type_at o = (tlv_at fmt content (past fmt content hdr o)).it_type

  abbrev pub next_off : ℕ → ℕ
  next_off o = behind fmt content (past fmt content hdr o)

  module _ (c : Crypto) where
    -- A TLV is met inside the area, and may stand there: it is protected, or of a type that is
    -- allowed without protection.
    pub record Stands (o : ℕ) : Type 0 where
      pub before_end : o < area_end fmt content hdr
      pub whole : payload_off o ≤ length content
      pub may : (payload_off o < unprot_off hdr) ⊎ Listed c.unprot_tlvs (type_at o)

    -- The payload lies in the file.
    abbrev pub IsWhole : ℕ → Type 0
    IsWhole o = payload_off o + payload_len o ≤ length content

    -- From an offset one comes to `m` over TLVs that are no hash, no key and no signature.
    pub data Passes (m : ℕ) : ℕ → Type 0 where
      arrived : Passes m m
      over :
          {o n : ℕ}
          → Stands o
          → type_at o ≢ c.expected_hash_tlv
          → type_at o ≢ c.expected_key_tlv
          → type_at o ≢ c.expected_sig_tlv
          → n ≡ next_off o
          → Passes m n
          → Passes m o

    -- What header, image and protected TLVs hash to.
    abbrev pub digest : List ℕ
    digest =
        digest_of c (take (hdr.ih_hdr_size + hdr.ih_img_size + hdr.ih_protect_tlv_size) content)

    pub record WellSigned (fa_size : ℕ) : Type 0 where
      pub whole : hdr.ih_hdr_size + hdr.ih_img_size + hdr.ih_protect_tlv_size ≤ length content
      pub infos : HasInfos fmt content hdr
      pub fits : area_end fmt content hdr ≤ fa_size
      pub hash_at : ℕ
      pub before_hash : Passes hash_at (first_off fmt hdr)
      pub hash_stands : Stands hash_at
      pub hash_type : type_at hash_at ≡ c.expected_hash_tlv
      pub hash_whole : IsWhole hash_at
      pub hash_len : payload_len hash_at ≡ c.image_hash_size
      pub hash_eq : payload hash_at ≡ digest
      -- the hash TLV is followed by the key TLV, which names the key first among the bootloader's
      pub key_at : ℕ
      pub key_next : key_at ≡ next_off hash_at
      pub key_stands : Stands key_at
      pub key_type : type_at key_at ≡ c.expected_key_tlv
      pub key_whole : IsWhole key_at
      pub key_fits : payload_len key_at ≤ c.key_buf_size
      pub key_short : payload_len key_at % 256 ≤ c.image_hash_size
      pub others : List (List ℕ)
      pub key : List ℕ
      pub more : List (List ℕ)
      pub keys_eq : c.bootutil_keys ≡ others ++ (key ∷ more)
      pub first_named : NoneNamed c (payload key_at) (payload_len key_at % 256) others
      pub named : memcmp_eq (digest_of c key) (payload key_at) (payload_len key_at % 256) ≡ true
      -- it is followed by the signature, the last TLV, which the key accepts
      pub sig_at : ℕ
      pub sig_next : sig_at ≡ next_off key_at
      pub sig_stands : Stands sig_at
      pub sig_type : type_at sig_at ≡ c.expected_sig_tlv
      pub sig_whole : IsWhole sig_at
      pub sig_fits : payload_len sig_at ≤ c.sig_buf_size
      pub sig_len : c.expected_sig_len (payload_len sig_at) ≡ true
      pub accepted :
          c.bootutil_verify_sig digest (payload sig_at) (length others % 256) ≡ fih_success
      pub is_last : area_end fmt content hdr ≤ next_off sig_at
