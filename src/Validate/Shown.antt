-- ===== src/Validate/Shown.antt =====
-- What the loop over the TLVs keeps of what it has seen, and the search for a key.
use ruuvi_air_mcuboot.Prelude.{ℕ, suc, ◌+◌, ◌≤◌, ◌%◌, ◌≡◌, inl, inr, refl, ap}
use ruuvi_air_mcuboot.Prelude.{◌∙◌, true, some, List, [], ◌∷◌, ℤ, pos}
use ruuvi_air_mcuboot.Prelude.{negsuc, get_elem?, length, slice}
use ruuvi_air_mcuboot.Prelude.{memcmp_eq, take-eq_of_memcmp, arith, Bool-cases, ltb}
use ruuvi_air_mcuboot.Prelude.{if◌then◌else◌}
use ruuvi_air_mcuboot.Platform.Format.{ImageHeader, ImageFormat}
use ruuvi_air_mcuboot.Platform.Crypto.{Crypto, IsCrypto, fih_success}
use ruuvi_air_mcuboot.Tlv.{TlvIter}
use ruuvi_air_mcuboot.Validate.Defs.{Progress, digest_of, find_key_from, file_img_find_key}
use ruuvi_air_mcuboot.Validate.Evidence.{Entry, HashShown, SigShown, MaybeKey}

-- The search for a key finds one of the list, at its place, with the hash asked for.
pub find_key_from_lem :
    (c : Crypto) (keyhash : List ℕ) (len i k : ℕ) (keys : List (List ℕ))
    → find_key_from c keyhash len i keys ≡ pos k
    → (j : ℕ) × (key : List ℕ) × (k ≡ i + j)
      × (get_elem? keys j ≡ some key)
      × (memcmp_eq (digest_of c key) keyhash len ≡ true)
unfolding find_key_from
find_key_from_lem c keyhash len i k [] h = cc
find_key_from_lem c keyhash len i k (key ∷ keys) h =
    elim (Bool-cases (memcmp_eq (digest_of c key) keyhash len)) [
      | inl e ↦ (0, key, ground arith, refl, e)
      | inr e ↦
          let (j, found, p, q, r) =
            find_key_from_lem c keyhash len (suc i) k keys (rw e at (unfold_cons h)) in
          (suc j, found, omega arith, q, r)
    ]
  where
    unfold_cons :
        find_key_from c keyhash len i (key ∷ keys) ≡ pos k
        → (if memcmp_eq (digest_of c key) keyhash len
            then pos i
            else find_key_from c keyhash len (suc i) keys)
          ≡ pos k
    unfold_cons h = h

module _ (fmt : ImageFormat) (content : List ℕ) (hdr : ImageHeader) (c : Crypto)
    (crypto : IsCrypto c) (begun : TlvIter) (digest : List ℕ)
    (filled : length digest ≡ c.image_hash_size) where
  abbrev Hash : Type 0
  Hash = HashShown fmt content hdr c begun digest

  abbrev Sig : Type 0
  Sig = SigShown fmt content hdr c begun digest

  abbrev Key : ℤ → Type 0
  Key = MaybeKey fmt content hdr c begun digest

  abbrev Listed : ℕ → ℕ → ℕ → Type 0
  Listed = Entry fmt content hdr c begun digest

  -- What the loop has shown when its variables stand so.
  pub record Shown (p : Progress) : Type 0 where
    pub hash : p.image_hash_valid ≡ true → Hash
    pub key : Key p.key_id
    pub sig : p.valid_signature ≡ fih_success → Sig

  -- A step that keeps what is shown and leaves the iterator.
  abbrev pub Kept : Progress → Progress → Type 0
  Kept p p' = Shown p' × (p'.it ≡ p.it)

  pub find_key_lem :
      (off len : ℕ)
      → len ≤ c.key_buf_size
      → Listed off len c.expected_key_tlv
      → Key (file_img_find_key c (slice content off len) (len % 256))
  unfolding file_img_find_key
  find_key_lem off len fits entry = elim (Bool-cases (ltb c.image_hash_size (len % 256))) [
    | inl e ↦ rw e tt
    | inr e ↦ rw e (go (find_key_from c (slice content off len) (len % 256) 0 c.bootutil_keys) refl)
  ]
    where
      go :
          (r : ℤ)
          → find_key_from c (slice content off len) (len % 256) 0 c.bootutil_keys ≡ r
          → Key r
      go (negsuc n) e = tt
      go (pos k) e =
          let (j, key, p, q, r) = find_key_from_lem c _ _ 0 k _ e in
          record {
            key = key;
            listed = ap (λ n. get_elem? c.bootutil_keys n) {x = k} {y = j} (omega arith) ∙ q;
            off = off;
            len = len;
            entry = entry;
            fits = fits;
            hash_eq = take-eq_of_memcmp _ _ _ r;
          }
