-- ===== src/Validate/Sound.antt =====
-- `file_img_validate` as a whole, and what a valid image is.
use ruuvi_air_mcuboot.Prelude.{ℕ, suc, ◌-◌, ◌≤◌, ◌<◌, ◌^◌, ◌≡◌, inl, inr, refl, ap}
use ruuvi_air_mcuboot.Prelude.{◌∙◌, ◌>>=◌, false, some, none, Option, List, ℤ}
use ruuvi_air_mcuboot.Prelude.{is_zero, length, take}
use ruuvi_air_mcuboot.Prelude.{arith, Runs, Bool-cases, ltb}
use ruuvi_air_mcuboot.Platform.Format.{ImageHeader, ImageFormat, IsFormat, IsHeader}
use ruuvi_air_mcuboot.Platform.Files.{FileApi, IsOpenFile, IsOpen}
use ruuvi_air_mcuboot.Platform.Crypto.{Crypto, IsCrypto, FihRet, fih_success}
use ruuvi_air_mcuboot.Tlv.{TlvIter}
use ruuvi_air_mcuboot.Tlv.Walk.{here}
use ruuvi_air_mcuboot.Tlv.Begin.{Begun, MaybeBegun, file_tlv_iter_begin_lem}
use ruuvi_air_mcuboot.Validate.Defs.{
  Progress, initial, seeded, conclude, validate_from, file_img_validate,
}
use ruuvi_air_mcuboot.Validate.Hash.{signed_size, file_img_hash_lem}
use ruuvi_air_mcuboot.Validate.Evidence.{HashShown, SigShown}
use ruuvi_air_mcuboot.Validate.Shown.{Shown}
use ruuvi_air_mcuboot.Validate.Loop.{OnWalk, loop_step}

-- What an accepted image shows: the digest is that of the file's header, image and protected TLVs,
-- behind the seed, all of which the file holds; the TLVs lie in the flash area's size; a hash TLV
-- holds the digest, and a signature TLV a signature of it that a known key accepts.
pub record Valid (fmt : ImageFormat) (content : List ℕ) (hdr : ImageHeader) (c : Crypto)
    (f fa_size : ℕ) (seed : Option (List ℕ)) (seed_len : ℤ) : Type 0 where
  pub digest : List ℕ
  pub digest_eq :
      digest ≡ c.sha_finish (c.sha_update (seeded c seed seed_len) (take (signed_size hdr) content))
  pub whole : signed_size hdr ≤ length content
  pub begun : TlvIter
  pub is_begun : Begun fmt content hdr f fmt.tlv_any false begun
  pub fits : begun.tlv_end ≤ fa_size
  pub hash : HashShown fmt content hdr c begun digest
  pub sig : SigShown fmt content hdr c begun digest

module _ (fmt : ImageFormat) (lawful : IsFormat fmt) (content : List ℕ) (hdr : ImageHeader)
    (header : IsHeader hdr) (c : Crypto) (crypto : IsCrypto c) {W : Type 0} (api : FileApi W)
    (f : ℕ) (At : W → ℕ → Type 0) (file : IsOpenFile api f content At) where
  conclude_lem :
      (begun : TlvIter) (digest : List ℕ) (filled : length digest ≡ c.image_hash_size) (rc : ℤ)
      (p : Progress)
      → Shown fmt content hdr c crypto begun digest filled p
      → conclude rc p ≡ fih_success
      → HashShown fmt content hdr c begun digest × SigShown fmt content hdr c begun digest
  unfolding conclude
  conclude_lem begun digest filled rc p shown e =
      (shown.hash (ground arith), shown.sig (ground arith))

  module _ (fa_size tmp_buf_sz : ℕ) (room : 0 < tmp_buf_sz) (small : tmp_buf_sz < 2 ^ 31)
      (seed : Option (List ℕ)) (seed_len : ℤ) where
    abbrev Sound : FihRet → W → Type 0
    Sound r w =
        (r ≡ fih_success → Valid fmt content hdr c f fa_size seed seed_len)
        × IsOpen api f content At w

    from_begun :
        (digest : List ℕ) (o : Option TlvIter) (w : W)
        → digest
          ≡ c.sha_finish (c.sha_update (seeded c seed seed_len) (take (signed_size hdr) content))
        → signed_size hdr ≤ length content
        → MaybeBegun fmt content hdr f fmt.tlv_any false o
        → IsOpen api f content At w
        → Runs Sound (validate_from fmt api c f fa_size digest o w)
    unfolding validate_from
    from_begun digest none w eq whole b at = (_, _, refl, ((λ e. cc), at))
    from_begun digest (some it) w eq whole b at = elim (Bool-cases (ltb fa_size it.tlv_end)) [
      | inl e ↦ rw e (_, _, refl, ((λ e'. cc), at))
      | inr e ↦
          let (a, w', run, (shown, at')) =
            loop_step fmt lawful content hdr c crypto it digest filled api f At file
              (suc (it.tlv_end - it.tlv_off)) (initial it) w (omega arith) on_walk nothing at in
          rw (e, run, ◌>>=◌)
            (
              _,
              _,
              refl,
              ((λ accepted. valid e (conclude_lem it digest filled a.0 a.1 shown accepted)), at'),
            )
    ]
      where
        filled : length digest ≡ c.image_hash_size
        filled = ap (λ (l : List ℕ). length l) eq ∙ crypto.length-sha_finish _

        on_walk : OnWalk fmt lawful content hdr c crypto it digest filled api f At file it
        on_walk = record { in_use = b.is_iter; same = refl; walk = here }

        nothing : Shown fmt content hdr c crypto it digest filled (initial it)
        nothing = record { hash = λ e. cc; key = tt; sig = λ e. cc }

        valid :
            ltb fa_size it.tlv_end ≡ false
            → HashShown fmt content hdr c it digest × SigShown fmt content hdr c it digest
            → Valid fmt content hdr c f fa_size seed seed_len
        valid e (hash, sig) = record {
          digest = digest;
          digest_eq = eq;
          whole = whole;
          begun = it;
          is_begun = b;
          fits = ground arith;
          hash = hash;
          sig = sig;
        }

    -- On a file that is open on a content, let the sizes of the header, the image and the protected
    -- TLVs add up to less than 2^32. `file_img_validate` returns although every read may fail, and
    -- leaves the file open. Where it returns FIH_SUCCESS, the image is valid: the file holds header,
    -- image and protected TLVs whole; the TLVs end inside `fa_size`; some hash TLV of the image
    -- holds the digest of exactly these bytes, behind the seed; and some signature TLV of it holds
    -- what the signature check accepts for this digest under one of the bootloader's keys, which a
    -- key TLV of the image names by the first bytes of the key's hash (as many as the TLV has, its
    -- length taken modulo 256).
    pub file_img_validate_sound :
        (w : W)
        → signed_size hdr < 2 ^ 32
        → IsOpen api f content At w
        → Runs
            (λ r w'.
              (r ≡ fih_success → Valid fmt content hdr c f fa_size seed seed_len)
              × IsOpen api f content At w')
            (file_img_validate fmt api c f hdr fa_size tmp_buf_sz seed seed_len w)
    unfolding file_img_validate
    file_img_validate_sound w sum at =
        let (a, w', run, (hashed, at')) =
          file_img_hash_lem c crypto content api f At file tmp_buf_sz room small hdr seed seed_len w
            sum at in
        elim (Bool-cases (is_zero a.rc)) [
          | inr e ↦ rw (run, ◌>>=◌, e) (_, _, refl, ((λ e'. cc), at'))
          | inl e ↦
              let (eq, whole) = hashed e in
              let (o, w'', run', (begun, at'')) =
                file_tlv_iter_begin_lem fmt lawful content hdr header f fmt.tlv_any false api At
                  file w' at' in
              rw (run, ◌>>=◌, e, run', ◌>>=◌) (from_begun a.out o w'' eq whole begun at'')
        ]
