-- ===== src/Validate/Accepts.antt =====
-- What `file_image_validate_tlv` does with each TLV of a well signed image, where no read fails.
use ruuvi_air_mcuboot.Prelude.{
  ℕ, suc, ◌+◌, ◌%◌, ◌≤◌, ◌<◌, ◌^◌, ◌≡◌, ◌≢◌, ◌⊎◌, inl, inr, refl, sym, ap, ◌∙◌, subst, true, false,
  ◌>>=◌, some, Bool, List, [], ◌∷◌, ◌++◌, length, slice, ℤ, pos,
}
use ruuvi_air_mcuboot.Prelude.{arith, minus_one, Runs, ltb, ◌==◌, eq_false_of_ne, memcmp_eq}
use ruuvi_air_mcuboot.Platform.Format.{ImageHeader, ImageFormat, IsFormat, IsHeader}
use ruuvi_air_mcuboot.Platform.Files.{FileApi, IsOpenFile, IsOpen, IsReliableFile}
use ruuvi_air_mcuboot.Platform.Crypto.{Crypto, FihRet, fih_success, IsDistinct}
use ruuvi_air_mcuboot.Tlv.{TlvIter, file_tlv_iter_is_prot}
use ruuvi_air_mcuboot.Tlv.Areas.{unprot_off}
use ruuvi_air_mcuboot.Tlv.Reliable.{iter_at, load_ok, next_found}
use ruuvi_air_mcuboot.Validate.Defs.{
  digest_of, Progress, is_allowed, is_rogue, is_key_id, key_u8, find_key_from, file_img_find_key,
  switch_tlv, file_image_validate_tlv_expected_hash, file_image_validate_tlv_expected_key,
  file_image_validate_tlv_expected_sig, validate_next, file_image_validate_tlv,
}
use ruuvi_air_mcuboot.Validate.WellSigned.{
  Listed, NoneNamed, payload_off, payload_len, payload, type_at, next_off, Stands, IsWhole,
}

Listed-is_allowed : (ts : List ℕ) (type : ℕ) → Listed ts type → is_allowed ts type ≡ true
unfolding is_allowed
Listed-is_allowed [] type h = absurd h
Listed-is_allowed (t ∷ ts) type (inl e) = ground arith
Listed-is_allowed (t ∷ ts) type (inr h) = ground (arith, Listed-is_allowed ts type h)

find_key_named :
    (c : Crypto) (bytes : List ℕ) (n i : ℕ) (others : List (List ℕ)) (key : List ℕ)
    (more : List (List ℕ))
    → NoneNamed c bytes n others
    → memcmp_eq (digest_of c key) bytes n ≡ true
    → find_key_from c bytes n i (others ++ (key ∷ more)) ≡ pos (i + length others)
unfolding find_key_from
find_key_named c bytes n i [] key more h named = rw named (ap pos (omega arith))
find_key_named c bytes n i (k ∷ others) key more (e, h) named =
    rw e (find_key_named c bytes n (suc i) others key more h named ∙ ap pos (omega arith))

find_key_eq :
    (c : Crypto) (bytes : List ℕ) (n : ℕ) (others : List (List ℕ)) (key : List ℕ)
    (more : List (List ℕ))
    → n ≤ c.image_hash_size
    → c.bootutil_keys ≡ others ++ (key ∷ more)
    → NoneNamed c bytes n others
    → memcmp_eq (digest_of c key) bytes n ≡ true
    → file_img_find_key c bytes n ≡ pos (length others)
unfolding file_img_find_key
find_key_eq c bytes n others key more short keys h named =
    let room : ltb c.image_hash_size n ≡ false = ground arith in
    rw room (
      subst (λ ks. find_key_from c bytes n 0 ks ≡ pos (length others)) (sym keys)
        (find_key_named c bytes n 0 others key more h named ∙ ap pos (omega arith)))

is_key_id_pos : (c : Crypto) (n : ℕ) → n < length c.bootutil_keys → is_key_id c (pos n) ≡ true
unfolding is_key_id
is_key_id_pos c n listed = ground arith

module _ (content : List ℕ) {W : Type 0} (api : FileApi W) (f : ℕ) (At : W → ℕ → Type 0)
    (file : IsOpenFile api f content At) (ok : IsReliableFile api) (fmt : ImageFormat)
    (lawful : IsFormat fmt) (hdr : ImageHeader) (header : IsHeader hdr) (c : Crypto)
    (distinct : IsDistinct c) (hash : List ℕ) where
  -- The iterator of the validation, at an offset.
  abbrev pub at_off : ℕ → TlvIter
  at_off = iter_at content api f At file ok fmt lawful hdr header

  abbrev pub at_state : ℕ → ℤ → Bool → FihRet → Progress
  at_state o k h s = record { it = at_off o; key_id = k; image_hash_valid = h; valid_signature = s }

  -- Success with this state.
  abbrev pub Goes : Progress → ℤ × Progress → W → Type 0
  Goes p a w = (a ≡ (pos 0, p)) × IsOpen api f content At w

  null_test : (f == 0) ≡ false
  null_test = ground (arith, file.not_null)

  is_prot_at : (n off : ℕ) → file_tlv_iter_is_prot (at_off n) off ≡ some (ltb off (unprot_off hdr))
  unfolding file_tlv_iter_is_prot
  is_prot_at n off = rw null_test refl

  rogue_free :
      (off type n : ℕ)
      → (ltb off (unprot_off hdr) ≡ true) ⊎ (is_allowed c.unprot_tlvs type ≡ true)
      → is_rogue c (at_off n) off type ≡ false
  unfolding is_rogue
  rogue_free off type n (inl prot) = rw (is_prot_at n off, is_rogue) (rw prot refl)
  rogue_free off type n (inr allowed) = rw (is_prot_at n off, is_rogue) (rw allowed (ground arith))

  may_stand :
      (off type : ℕ)
      → (off < unprot_off hdr) ⊎ Listed c.unprot_tlvs type
      → (ltb off (unprot_off hdr) ≡ true) ⊎ (is_allowed c.unprot_tlvs type ≡ true)
  may_stand off type (inl prot) = inl (ground arith)
  may_stand off type (inr listed) = inr (Listed-is_allowed c.unprot_tlvs type listed)

  -- One TLV: the switch decides.
  tlv-Goes :
      (o : ℕ) (k : ℤ) (h : Bool) (s : FihRet) (p : Progress) (w : W)
      → Stands fmt content hdr c o
      → IsOpen api f content At w
      → ((v : W)
          → IsOpen api f content At v
          → Runs (Goes p) (
              switch_tlv fmt api c f
                (type_at fmt content hdr o)
                (payload_off fmt content hdr o)
                (payload_len fmt content hdr o)
                hash
                (at_state (next_off fmt content hdr o) k h s)
                v))
      → Runs (Goes p) (file_image_validate_tlv fmt api c f hash (at_state o k h s) w)
  unfolding file_image_validate_tlv validate_next
  tlv-Goes o k h s p w stands at step =
      let (a, v, run, (e, at')) =
        next_found content api f At file ok fmt lawful hdr header o w stands.before_end stands.whole
          at in
      let honest =
        rogue_free (payload_off fmt content hdr o) (type_at fmt content hdr o)
          (next_off fmt content hdr o)
          (may_stand (payload_off fmt content hdr o) (type_at fmt content hdr o) stands.may) in
      rw (run, ◌>>=◌, e) (rw honest (step v at'))

  module _ (o : ℕ) (k : ℤ) (h : Bool) (s : FihRet) (w : W) (stands : Stands fmt content hdr c o)
      (at : IsOpen api f content At w) where
    -- A TLV of another type is passed over.
    pub other-Goes :
        type_at fmt content hdr o ≢ c.expected_hash_tlv
        → type_at fmt content hdr o ≢ c.expected_key_tlv
        → type_at fmt content hdr o ≢ c.expected_sig_tlv
        → Runs
            (Goes (at_state (next_off fmt content hdr o) k h s))
            (file_image_validate_tlv fmt api c f hash (at_state o k h s) w)
    unfolding switch_tlv
    other-Goes a b d =
        tlv-Goes o k h s (at_state (next_off fmt content hdr o) k h s) w stands at (λ v at'.
          rw (eq_false_of_ne _ _ a, eq_false_of_ne _ _ b, eq_false_of_ne _ _ d)
            (_, _, refl, (refl, at')))

    -- The hash TLV that holds the digest makes the hash valid.
    pub hash-Goes :
        type_at fmt content hdr o ≡ c.expected_hash_tlv
        → IsWhole fmt content hdr c o
        → payload_len fmt content hdr o ≡ c.image_hash_size
        → payload fmt content hdr o ≡ hash
        → Runs
            (Goes (at_state (next_off fmt content hdr o) k true s))
            (file_image_validate_tlv fmt api c f hash (at_state o k h s) w)
    unfolding switch_tlv file_image_validate_tlv_expected_hash
    hash-Goes is_hash whole len eq =
        tlv-Goes o k h s (at_state (next_off fmt content hdr o) k true s) w stands at (λ v at'.
          let (r, v', run, (e, at'')) =
            load_ok content api f At file ok (payload_off fmt content hdr o) c.image_hash_size v
              hash_small (subst (λ n. payload_off fmt content hdr o + n ≤ length content) len whole)
              at' in
          let same : (type_at fmt content hdr o == c.expected_hash_tlv) ≡ true = ground arith in
          let same_len : (c.image_hash_size == payload_len fmt content hdr o) ≡ true =
            ground arith in
          let bytes : slice content (payload_off fmt content hdr o) c.image_hash_size ≡ hash =
            subst (λ n. slice content (payload_off fmt content hdr o) n ≡ hash) len eq in
          rw (same, same_len, run, ◌>>=◌, e, bytes, distinct.memequal_refl hash c.image_hash_size)
            (_, _, refl, (refl, at'')))
      where
        hash_small : c.image_hash_size < 2 ^ 31
        hash_small = omega (arith, len, lawful.tlv_len)

    -- The key TLV names the first key whose hash starts as it does.
    pub key-Goes :
        (others : List (List ℕ)) (key : List ℕ) (more : List (List ℕ))
        → type_at fmt content hdr o ≡ c.expected_key_tlv
        → IsWhole fmt content hdr c o
        → payload_len fmt content hdr o ≤ c.key_buf_size
        → payload_len fmt content hdr o % 256 ≤ c.image_hash_size
        → c.bootutil_keys ≡ others ++ (key ∷ more)
        → NoneNamed c (payload fmt content hdr o) (payload_len fmt content hdr o % 256) others
        → memcmp_eq
            (digest_of c key)
            (payload fmt content hdr o)
            (payload_len fmt content hdr o % 256)
          ≡ true
        → Runs
            (Goes (at_state (next_off fmt content hdr o) (pos (length others)) h s))
            (file_image_validate_tlv fmt api c f hash (at_state o k h s) w)
    unfolding switch_tlv file_image_validate_tlv_expected_key
    key-Goes others key more is_key whole fits short keys first named =
        tlv-Goes o k h s (at_state (next_off fmt content hdr o) (pos (length others)) h s) w stands
          at
          (λ v at'.
            let (r, v', run, (e, at'')) =
              load_ok content api f At file ok (payload_off fmt content hdr o)
                (payload_len fmt content hdr o) v len_small whole at' in
            let no_hash : (type_at fmt content hdr o == c.expected_hash_tlv) ≡ false =
              ground (arith, distinct.key-ne-hash) in
            let same : (type_at fmt content hdr o == c.expected_key_tlv) ≡ true = ground arith in
            let room : ltb c.key_buf_size (payload_len fmt content hdr o) ≡ false = ground arith in
            rw (no_hash, same, room, run, ◌>>=◌, e)
              (rw
                (find_key_eq c (payload fmt content hdr o) (payload_len fmt content hdr o % 256)
                  others key more short keys first named)
                (_, _, refl, (refl, at''))))
      where
        len_small : payload_len fmt content hdr o < 2 ^ 31
        len_small = omega (arith, lawful.tlv_len)

  -- The signature that the key accepts is taken, and the key forgotten.
  pub sig-Goes :
      (o n : ℕ) (h : Bool) (s : FihRet) (w : W)
      → Stands fmt content hdr c o
      → IsOpen api f content At w
      → n < length c.bootutil_keys
      → type_at fmt content hdr o ≡ c.expected_sig_tlv
      → IsWhole fmt content hdr c o
      → payload_len fmt content hdr o ≤ c.sig_buf_size
      → c.expected_sig_len (payload_len fmt content hdr o) ≡ true
      → c.bootutil_verify_sig hash (payload fmt content hdr o) (n % 256) ≡ fih_success
      → Runs
          (Goes (at_state (next_off fmt content hdr o) minus_one h fih_success))
          (file_image_validate_tlv fmt api c f hash (at_state o (pos n) h s) w)
  unfolding switch_tlv file_image_validate_tlv_expected_sig key_u8
  sig-Goes o n h s w stands at listed is_sig whole fits sig_len verified =
      tlv-Goes o (pos n) h s (at_state (next_off fmt content hdr o) minus_one h fih_success) w
        stands at
        (λ v at'.
          let (r, v', run, (e, at'')) =
            load_ok content api f At file ok (payload_off fmt content hdr o)
              (payload_len fmt content hdr o) v len_small whole at' in
          let no_hash : (type_at fmt content hdr o == c.expected_hash_tlv) ≡ false =
            ground (arith, distinct.sig-ne-hash) in
          let no_key : (type_at fmt content hdr o == c.expected_key_tlv) ≡ false =
            ground (arith, distinct.sig-ne-key) in
          let same : (type_at fmt content hdr o == c.expected_sig_tlv) ≡ true = ground arith in
          let room : ltb c.sig_buf_size (payload_len fmt content hdr o) ≡ false = ground arith in
          rw (no_hash, no_key, same, is_key_id_pos c n listed, sig_len, room, run, ◌>>=◌, e)
            (rw verified (_, _, refl, (refl, at''))))
    where
      len_small : payload_len fmt content hdr o < 2 ^ 31
      len_small = omega (arith, lawful.tlv_len)
