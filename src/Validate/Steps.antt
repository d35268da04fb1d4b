-- ===== src/Validate/Steps.antt =====
-- The three kinds of TLV that `file_image_validate_tlv` looks into, and what each adds.
use ruuvi_air_mcuboot.Prelude.{ℕ, ◌≤◌, ◌<◌, ◌%◌, ◌^◌, ◌≡◌, inl, inr, refl, sym, ap, subst}
use ruuvi_air_mcuboot.Prelude.{◌∙◌, ◌>>=◌, Bool, true, false, not, ◌||◌, List, ℤ, pos}
use ruuvi_air_mcuboot.Prelude.{minus_one, is_zero, length, slice}
use ruuvi_air_mcuboot.Prelude.{take_all, length-slice, arith, Runs, pure, Bool-cases, ltb}
use ruuvi_air_mcuboot.Prelude.{◌==◌, if◌then◌else◌}
use ruuvi_air_mcuboot.Platform.Format.{ImageHeader, ImageFormat}
use ruuvi_air_mcuboot.Platform.Files.{FileApi, ReadResult, IsOpenFile, IsOpen}
use ruuvi_air_mcuboot.Platform.Crypto.{
  Crypto, IsCrypto, FihRet, fih_success, fih_failure, is_success,
}
use ruuvi_air_mcuboot.Tlv.{TlvIter}
use ruuvi_air_mcuboot.Tlv.Load.{Loaded, load_image_data_lem}
use ruuvi_air_mcuboot.Validate.Defs.{
  Progress, file_img_find_key, key_u8, file_image_validate_tlv_expected_hash,
  file_image_validate_tlv_expected_key, file_image_validate_tlv_expected_sig,
}
use ruuvi_air_mcuboot.Validate.Evidence.{Entry, HashShown, SigShown, MaybeKey}
use ruuvi_air_mcuboot.Validate.Shown.{Shown, Kept, find_key_lem}

module _ (fmt : ImageFormat) (content : List ℕ) (hdr : ImageHeader) (c : Crypto)
    (crypto : IsCrypto c) (begun : TlvIter) (digest : List ℕ)
    (filled : length digest ≡ c.image_hash_size) where
  abbrev Hash : Type 0
  Hash = HashShown fmt content hdr c begun digest

  abbrev Sig : Type 0
  Sig = SigShown fmt content hdr c begun digest

  abbrev Key : ℤ → Type 0
  Key = MaybeKey fmt content hdr c begun digest

  abbrev Listed : ℕ → ℕ → ℕ → Type 0
  Listed = Entry fmt content hdr c begun digest

  abbrev Facts : Progress → Type 0
  Facts = Shown fmt content hdr c crypto begun digest filled

  abbrev Holds : Progress → Progress → Type 0
  Holds = Kept fmt content hdr c crypto begun digest filled

  module _ {W : Type 0} (api : FileApi W) (f : ℕ) (At : W → ℕ → Type 0)
      (file : IsOpenFile api f content At) where
    -- The step returns, keeps what is shown, and leaves the file open.
    abbrev Keeps : Progress → Bool × Progress → W → Type 0
    Keeps p a w = Holds p a.1 × IsOpen api f content At w

    pub hash_step :
        (off len : ℕ) (p : Progress) (w : W)
        → Listed off len c.expected_hash_tlv
        → Facts p
        → IsOpen api f content At w
        → Runs (Keeps p) (file_image_validate_tlv_expected_hash fmt api c f off len digest p w)
    unfolding file_image_validate_tlv_expected_hash
    hash_step off len p w entry shown at = elim (Bool-cases (c.image_hash_size == len)) [
      | inr e ↦ rw e (_, _, refl, ((shown, refl), at))
      | inl e ↦
          let (r, w', run, (loaded, at')) =
            load_image_data_lem api f content At file off c.image_hash_size w
              (omega (arith, crypto.hash_size_small)) at in
          rw (e, run, ◌>>=◌)
            (after r w'
              (subst (λ n. Listed off n c.expected_hash_tlv) {x = len} {y = c.image_hash_size}
                (ground arith) entry)
              loaded at')
    ]
      where
        n : ℕ
        n = c.image_hash_size

        same_bytes :
            c.boot_fih_memequal digest (slice content off n) n ≡ fih_success
            → slice content off n ≡ digest
        same_bytes e =
            sym (take_all n (slice content off n) (omega (arith, length-slice content off n)))
            ∙ sym (crypto.memequal_sound digest (slice content off n) n e)
            ∙ take_all n digest (omega (arith, filled))

        compared :
            (w' : W)
            → Listed off c.image_hash_size c.expected_hash_tlv
            → (r : FihRet)
            → c.boot_fih_memequal digest (slice content off c.image_hash_size) c.image_hash_size ≡ r
            → IsOpen api f content At w'
            → Runs (Keeps p) (
                (if not (is_success r)
                    then pure (false, p)
                    else pure (true, record p { image_hash_valid = true }))
                  w')
        compared w' entry' fih_failure e at' = (_, _, refl, ((shown, refl), at'))
        compared w' entry' fih_success e at' = (
          _,
          _,
          refl,
          (
            (
              record {
                hash = λ _. record { off = off; entry = entry'; equal = same_bytes e };
                key = shown.key;
                sig = shown.sig;
              },
              refl,
            ),
            at',
          ),
        )

        after :
            (r : ReadResult) (w' : W)
            → Listed off c.image_hash_size c.expected_hash_tlv
            → Loaded content off c.image_hash_size r
            → IsOpen api f content At w'
            → Runs (Keeps p) (
                (if not (is_zero r.rc)
                    then pure (false, p)
                    else if not (is_success (c.boot_fih_memequal digest r.bytes c.image_hash_size))
                    then pure (false, p)
                    else pure (true, record p { image_hash_valid = true }))
                  w')
        after r w' entry' (inr z) at' = rw z (_, _, refl, ((shown, refl), at'))
        after r w' entry' (inl (z, _)) at' = rw z (compared w' entry' _ refl at')

    pub key_step :
        (off len : ℕ) (p : Progress) (w : W)
        → len < 2 ^ 16
        → Listed off len c.expected_key_tlv
        → Facts p
        → IsOpen api f content At w
        → Runs (Keeps p) (file_image_validate_tlv_expected_key fmt api c f off len p w)
    unfolding file_image_validate_tlv_expected_key
    key_step off len p w u16 entry shown at = elim (Bool-cases (ltb c.key_buf_size len)) [
      | inl e ↦ rw e (_, _, refl, ((shown, refl), at))
      | inr e ↦
          let (r, w', run, (loaded, at')) =
            load_image_data_lem api f content At file off len w (omega arith) at in
          rw (e, run, ◌>>=◌) (after r w' (ground arith) loaded at')
    ]
      where
        after :
            (r : ReadResult) (w' : W)
            → len ≤ c.key_buf_size
            → Loaded content off len r
            → IsOpen api f content At w'
            → Runs (Keeps p) (
                (if not (is_zero r.rc)
                    then pure (false, p)
                    else pure (true, record p { key_id = file_img_find_key c r.bytes (len % 256) }))
                  w')
        after r w' fits (inr z) at' = rw z (_, _, refl, ((shown, refl), at'))
        after r w' fits (inl (z, _)) at' = rw z (
          _,
          _,
          refl,
          (
            (
              record {
                hash = shown.hash;
                key = find_key_lem fmt content hdr c crypto begun digest filled off len fits entry;
                sig = shown.sig;
              },
              refl,
            ),
            at',
          ),
        )

    pub sig_step :
        (off len k : ℕ) (p : Progress) (w : W)
        → len < 2 ^ 16
        → p.key_id ≡ pos k
        → Listed off len c.expected_sig_tlv
        → Facts p
        → IsOpen api f content At w
        → Runs (Keeps p) (file_image_validate_tlv_expected_sig fmt api c f off len digest p w)
    unfolding file_image_validate_tlv_expected_sig key_u8
    sig_step off len k p w u16 is_key entry shown at =
        elim (Bool-cases (not (c.expected_sig_len len) || ltb c.sig_buf_size len)) [
          | inl e ↦ rw e (_, _, refl, ((shown, refl), at))
          | inr e ↦
              let (r, w', run, (loaded, at')) =
                load_image_data_lem api f content At file off len w (omega arith) at in
              rw (e, run, ◌>>=◌) (after r w' (ground arith) loaded at')
        ]
      where
        after :
            (r : ReadResult) (w' : W)
            → c.expected_sig_len len ≡ true
            → Loaded content off len r
            → IsOpen api f content At w'
            → Runs (Keeps p) (
                (if not (is_zero r.rc)
                    then pure (false, p)
                    else pure (
                      true,
                      record p {
                        valid_signature = c.bootutil_verify_sig digest r.bytes (key_u8 p.key_id);
                        key_id = minus_one;
                      },
                    ))
                  w')
        after r w' fits (inr z) at' = rw z (_, _, refl, ((shown, refl), at'))
        after r w' fits (inl (z, _)) at' = rw z (
          _,
          _,
          refl,
          (
            (
              record {
                hash = shown.hash;
                key = tt;
                sig = λ accepted. record {
                  key_id = k;
                  key = subst Key is_key shown.key;
                  off = off;
                  len = len;
                  entry = entry;
                  length_ok = fits;
                  accepted =
                      ap (λ i. c.bootutil_verify_sig digest (slice content off len) (key_u8 i))
                        (sym is_key)
                      ∙ accepted;
                };
              },
              refl,
            ),
            at',
          ),
        )
