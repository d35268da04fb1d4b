-- ===== src/Validate/Complete.antt =====
-- A well signed image is accepted, where no read fails.
use ruuvi_air_mcuboot.Prelude.{
  ℕ, zero, suc, ◌+◌, ◌-◌, ◌≤◌, ◌<◌, ◌^◌, ◌≡◌, refl, sym, ap, ◌∙◌, subst, true, false, ◌>>=◌, Bool,
  some, none, List, ◌∷◌, length, ℤ, pos, minus_one, arith, Runs, ltb, length-append, take,
}
use ruuvi_air_mcuboot.Platform.Format.{ImageHeader, ImageFormat, IsFormat, IsHeader}
use ruuvi_air_mcuboot.Platform.Files.{FileApi, IsOpenFile, IsOpen, IsReliableFile}
use ruuvi_air_mcuboot.Platform.Crypto.{
  Crypto, FihRet, fih_success, fih_failure, IsCrypto, IsDistinct,
}
use ruuvi_air_mcuboot.Tlv.Walk.{past_info-ge}
use ruuvi_air_mcuboot.Tlv.Areas.{unprot_off, area_end, first_off}
use ruuvi_air_mcuboot.Tlv.Reliable.{next_no_more}
use ruuvi_air_mcuboot.Tlv.Starts.{begin_ok}
use ruuvi_air_mcuboot.Validate.Defs.{
  Progress, digest_of, seeded, hashed_size, conclude, validate_next, file_image_validate_tlv,
  validate_loop, validate_from, file_img_validate,
}
use ruuvi_air_mcuboot.Validate.HashOk.{file_img_hash_ok}
use ruuvi_air_mcuboot.Validate.WellSigned.{next_off, Passes, arrived, over, digest, WellSigned}
use ruuvi_air_mcuboot.Validate.Accepts.{
  at_off, at_state, Goes, other-Goes, hash-Goes, key-Goes, sig-Goes,
}

module _ (content : List ℕ) {W : Type 0} (api : FileApi W) (f : ℕ) (At : W → ℕ → Type 0)
    (file : IsOpenFile api f content At) (ok : IsReliableFile api) (fmt : ImageFormat)
    (lawful : IsFormat fmt) (hdr : ImageHeader) (header : IsHeader hdr) (c : Crypto)
    (distinct : IsDistinct c) where
  abbrev state : ℕ → ℤ → Bool → FihRet → Progress
  state =
      at_state content api f At file ok fmt lawful hdr header c distinct (digest fmt content hdr c)

  -- The loop has ended after the last TLV, with a valid hash and a valid signature.
  abbrev Verified : ℤ × Progress → W → Type 0
  Verified a w =
      (a.0 ≡ pos 1)
      × (a.1.image_hash_valid ≡ true)
      × (a.1.valid_signature ≡ fih_success)
      × IsOpen api f content At w

  abbrev Loops : ℕ → Progress → W → Type 0
  Loops fuel p w = Runs Verified (validate_loop fmt api c f fuel (digest fmt content hdr c) p w)

  next_off-gt : (o : ℕ) → o < next_off fmt content hdr o
  next_off-gt o =
      omega (arith, past_info-ge fmt content hdr (unprot_off hdr) o, lawful.tlv_size_pos)

  -- A round that goes on, with enough fuel.
  step_ok :
      (fuel o next : ℕ) (p p' : Progress) (w : W)
      → o < area_end fmt content hdr
      → o < next
      → area_end fmt content hdr - o < fuel
      → Runs
          (Goes content api f At file ok fmt lawful hdr header c distinct
            (digest fmt content hdr c)
            p')
          (file_image_validate_tlv fmt api c f (digest fmt content hdr c) p w)
      → ((fuel' : ℕ) (v : W)
          → area_end fmt content hdr - next < fuel'
          → IsOpen api f content At v
          → Loops fuel' p' v)
      → Loops fuel p w
  unfolding validate_loop
  step_ok zero o next p p' w inside forward enough goes rest = elim enough [ ]
  step_ok (suc fuel) o next p p' w inside forward enough (a, v, run, (e, at)) rest =
      rw (run, ◌>>=◌, e) (rest fuel v (omega arith) at)

  -- Over TLVs that are passed over.
  passed-Loops :
      {m o : ℕ} (fuel : ℕ) (k : ℤ) (h : Bool) (s : FihRet) (w : W)
      → Passes fmt content hdr c m o
      → area_end fmt content hdr - o < fuel
      → IsOpen api f content At w
      → ((fuel' : ℕ) (v : W)
          → area_end fmt content hdr - m < fuel'
          → IsOpen api f content At v
          → Loops fuel' (state m k h s) v)
      → Loops fuel (state o k h s) w
  passed-Loops fuel k h s w arrived enough at rest = rest fuel w enough at
  passed-Loops {o} fuel k h s w (over {n} stands a b d next p) enough at rest =
      step_ok fuel o (next_off fmt content hdr o) _ _ w stands.before_end (next_off-gt o) enough
        (other-Goes content api f At file ok fmt lawful hdr header c distinct
          (digest fmt content hdr c) o k h s w stands at a b d)
        (λ fuel' v enough' at'.
          subst (λ x. Loops fuel' (state x k h s) v) next
            (passed-Loops fuel' k h s v p
              (subst (λ x. area_end fmt content hdr - x < fuel') (sym next) enough') at' rest))

  -- Behind the last TLV.
  end_ok :
      (fuel o : ℕ) (k : ℤ) (w : W)
      → area_end fmt content hdr ≤ o
      → 0 < fuel
      → IsOpen api f content At w
      → Loops fuel (state o k true fih_success) w
  unfolding validate_loop file_image_validate_tlv validate_next
  end_ok zero o k w last enough at = elim enough [ ]
  end_ok (suc fuel) o k w last enough at =
      let (a, v, run, (e, at')) =
        next_no_more content api f At file ok fmt lawful hdr header o w last at in
      rw (run, ◌>>=◌, e) (_, _, refl, (refl, refl, refl, at'))

  module _ (fa_size : ℕ) (signed : WellSigned fmt content hdr c fa_size) where
    open signed use {
      hash_at, key_at, sig_at, hash_stands, key_stands, sig_stands, others, key, more,
    }

    key_listed : length others < length c.bootutil_keys
    key_listed =
        subst (λ (ks : List (List ℕ)). length others < length ks) (sym signed.keys_eq)
          (omega (arith, length-append others (key ∷ more)))

    from_sig :
        (fuel : ℕ) (w : W)
        → area_end fmt content hdr - sig_at < fuel
        → IsOpen api f content At w
        → Loops fuel (state sig_at (pos (length others)) true fih_failure) w
    from_sig fuel w enough at =
        step_ok fuel sig_at (next_off fmt content hdr sig_at) _ _ w sig_stands.before_end
          (next_off-gt sig_at) enough
          (sig-Goes content api f At file ok fmt lawful hdr header c distinct
            (digest fmt content hdr c) sig_at (length others) true fih_failure w sig_stands at
            key_listed signed.sig_type signed.sig_whole signed.sig_fits signed.sig_len
            signed.accepted)
          (λ fuel' v enough' at'.
            end_ok fuel' (next_off fmt content hdr sig_at) minus_one v signed.is_last (omega arith)
              at')

    from_key :
        (fuel : ℕ) (w : W)
        → area_end fmt content hdr - key_at < fuel
        → IsOpen api f content At w
        → Loops fuel (state key_at minus_one true fih_failure) w
    from_key fuel w enough at =
        step_ok fuel key_at (next_off fmt content hdr key_at) _ _ w key_stands.before_end
          (next_off-gt key_at) enough
          (key-Goes content api f At file ok fmt lawful hdr header c distinct
            (digest fmt content hdr c) key_at minus_one true fih_failure w key_stands at others key
            more signed.key_type signed.key_whole signed.key_fits signed.key_short signed.keys_eq
            signed.first_named signed.named)
          (λ fuel' v enough' at'.
            subst (λ x. Loops fuel' (state x (pos (length others)) true fih_failure) v)
              signed.sig_next
              (from_sig fuel' v
                (subst (λ x. area_end fmt content hdr - x < fuel') (sym signed.sig_next) enough')
                at'))

    from_hash :
        (fuel : ℕ) (w : W)
        → area_end fmt content hdr - hash_at < fuel
        → IsOpen api f content At w
        → Loops fuel (state hash_at minus_one false fih_failure) w
    from_hash fuel w enough at =
        step_ok fuel hash_at (next_off fmt content hdr hash_at) _ _ w hash_stands.before_end
          (next_off-gt hash_at) enough
          (hash-Goes content api f At file ok fmt lawful hdr header c distinct
            (digest fmt content hdr c) hash_at minus_one false fih_failure w hash_stands at
            signed.hash_type signed.hash_whole signed.hash_len signed.hash_eq)
          (λ fuel' v enough' at'.
            subst (λ x. Loops fuel' (state x minus_one true fih_failure) v) signed.key_next
              (from_key fuel' v
                (subst (λ x. area_end fmt content hdr - x < fuel') (sym signed.key_next) enough')
                at'))

    from_first :
        (w : W)
        → IsOpen api f content At w
        → Runs
            (λ r w'. (r ≡ fih_success) × IsOpen api f content At w')
            (validate_from fmt api c f fa_size
              (digest fmt content hdr c)
              (some (
                at_off content api f At file ok fmt lawful hdr header c distinct
                  (digest fmt content hdr c)
                  (first_off fmt hdr)))
              w)
    unfolding validate_from conclude
    from_first w at =
        let (a, v, run, (e, valid, accepted, at')) =
          passed-Loops (suc (area_end fmt content hdr - first_off fmt hdr)) minus_one false
            fih_failure w signed.before_hash (omega arith) at from_hash in
        let room : ltb fa_size (area_end fmt content hdr) ≡ false = ground (arith, signed.fits) in
        rw (room, run, ◌>>=◌, e, valid) (_, _, refl, (accepted, at'))

    module _ (crypto : IsCrypto c) (tmp_buf_sz : ℕ) (room : 0 < tmp_buf_sz)
        (small : tmp_buf_sz < 2 ^ 31) where
      size_eq : hashed_size hdr ≡ hdr.ih_hdr_size + hdr.ih_img_size + hdr.ih_protect_tlv_size
      unfolding hashed_size
      size_eq = omega (arith, signed.whole, file.short)

      digest_eq :
          (seed_len : ℤ) (out : List ℕ)
          → out
            ≡ c.sha_finish (c.sha_update (seeded c none seed_len) (take (hashed_size hdr) content))
          → out ≡ digest fmt content hdr c
      unfolding seeded digest_of
      digest_eq seed_len out e =
          e ∙ ap (λ n. c.sha_finish (c.sha_update c.sha_init (take n content))) size_eq

      -- Where no read fails, `file_img_validate` returns FIH_SUCCESS for every well signed image: one
      -- that the file holds whole, whose info headers are those that the image header claims, whose
      -- TLVs end inside `fa_size`, and list, behind TLVs of other types that may stand where they
      -- do, the digest of header, image and protected TLVs, the hash of one of the bootloader's keys
      -- or its start, which no key before it has, and a signature of the digest that this key
      -- accepts, last. The file stays open.
      pub file_img_validate_complete :
          (seed_len : ℤ) (w : W)
          → IsOpen api f content At w
          → Runs
              (λ r w'. (r ≡ fih_success) × IsOpen api f content At w')
              (file_img_validate fmt api c f hdr fa_size tmp_buf_sz none seed_len w)
      unfolding file_img_validate
      file_img_validate_complete seed_len w at =
          let (a, v, run, (z, hashed, at')) =
            file_img_hash_ok c crypto content api f At file ok tmp_buf_sz room small hdr none
              seed_len w (omega (arith, size_eq, signed.whole)) at in
          let (o, u, run', (begun, at'')) =
            begin_ok content api f At file ok fmt lawful hdr header signed.infos v at' in
          rw (run, ◌>>=◌, z, run', ◌>>=◌, begun)
            (subst
              (λ bytes.
                Runs (λ r w'. (r ≡ fih_success) × IsOpen api f content At w')
                  (validate_from fmt api c f fa_size bytes
                    (some (
                      at_off content api f At file ok fmt lawful hdr header c distinct
                        (digest fmt content hdr c) (first_off fmt hdr)))
                    u))
              (sym (digest_eq seed_len a.out hashed)) (from_first u at''))
