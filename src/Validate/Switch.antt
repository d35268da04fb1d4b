-- ===== src/Validate/Switch.antt =====
-- The `switch` of `file_image_validate_tlv` over the types of TLV.
use ruuvi_air_mcuboot.Prelude.{ℕ, ◌<◌, ◌^◌, ◌≡◌, inl, inr, refl, subst}
use ruuvi_air_mcuboot.Prelude.{◌>>=◌, Bool, true, List, ℤ, pos}
use ruuvi_air_mcuboot.Prelude.{negsuc, minus_one, length}
use ruuvi_air_mcuboot.Prelude.{Runs, M, pure, Bool-cases}
use ruuvi_air_mcuboot.Prelude.{◌==◌, ==_iff, if◌then◌else◌}
use ruuvi_air_mcuboot.Platform.Format.{ImageHeader, ImageFormat}
use ruuvi_air_mcuboot.Platform.Files.{FileApi, IsOpenFile, IsOpen}
use ruuvi_air_mcuboot.Platform.Crypto.{Crypto, IsCrypto}
use ruuvi_air_mcuboot.Tlv.{TlvIter}
use ruuvi_air_mcuboot.Validate.Defs.{
  Progress, is_key_id, file_image_validate_tlv_expected_hash, file_image_validate_tlv_expected_key,
  file_image_validate_tlv_expected_sig, switch_tlv,
}
use ruuvi_air_mcuboot.Validate.Evidence.{Entry}
use ruuvi_air_mcuboot.Validate.Shown.{Shown, Kept}
use ruuvi_air_mcuboot.Validate.Steps.{hash_step, key_step, sig_step}

module _ (fmt : ImageFormat) (content : List ℕ) (hdr : ImageHeader) (c : Crypto)
    (crypto : IsCrypto c) (begun : TlvIter) (digest : List ℕ)
    (filled : length digest ≡ c.image_hash_size) where
  abbrev Listed : ℕ → ℕ → ℕ → Type 0
  Listed = Entry fmt content hdr c begun digest

  abbrev Facts : Progress → Type 0
  Facts = Shown fmt content hdr c crypto begun digest filled

  abbrev Holds : Progress → Progress → Type 0
  Holds = Kept fmt content hdr c crypto begun digest filled

  module _ {W : Type 0} (api : FileApi W) (f : ℕ) (At : W → ℕ → Type 0)
      (file : IsOpenFile api f content At) where
    -- The step returns, keeps what is shown, and leaves the file open.
    abbrev Keeps : Progress → Bool × Progress → W → Type 0
    Keeps p a w = Holds p a.1 × IsOpen api f content At w

    is_key_id_lem : (i : ℤ) → is_key_id c i ≡ true → (k : ℕ) × (i ≡ pos k)
    unfolding is_key_id
    is_key_id_lem (pos k) e = (k, refl)
    is_key_id_lem (negsuc n) e = cc

    -- After one of the three functions.
    abbrev Coded : Progress → ℤ × Progress → W → Type 0
    Coded p a w = Holds p a.1 × IsOpen api f content At w

    code :
        (p : Progress) (m : M W (Bool × Progress)) (w : W)
        → Runs (Keeps p) (m w)
        → Runs
            (Coded p)
            ((m >>= λ a. let (done, p') = a in pure (if done then pos 0 else minus_one, p')) w)
    code p m w (a, w', run, kept) = rw (run, ◌>>=◌) (_, _, refl, kept)

    -- The `switch` on a listed TLV.
    pub switch_step :
        (off len type : ℕ) (p : Progress) (w : W)
        → len < 2 ^ 16
        → Listed off len type
        → Facts p
        → IsOpen api f content At w
        → Runs (Coded p) (switch_tlv fmt api c f type off len digest p w)
    unfolding switch_tlv
    switch_step off len type p w u16 entry shown at =
        elim (Bool-cases (type == c.expected_hash_tlv)) [
          | inl e ↦ rw e (
              code p (file_image_validate_tlv_expected_hash fmt api c f off len digest p) w (
                hash_step fmt content hdr c crypto begun digest filled api f At file off len p w
                  (at_type c.expected_hash_tlv e) shown at))
          | inr e ↦ elim (Bool-cases (type == c.expected_key_tlv)) [
            | inl e' ↦
                rw (e, e')
                  (code p (file_image_validate_tlv_expected_key fmt api c f off len p) w (
                    key_step fmt content hdr c crypto begun digest filled api f At file off len p w
                      u16 (at_type c.expected_key_tlv e') shown at))
            | inr e' ↦ elim (Bool-cases (type == c.expected_sig_tlv)) [
              | inr e'' ↦ rw (e, e', e'') (_, _, refl, ((shown, refl), at))
              | inl e'' ↦ elim (Bool-cases (is_key_id c p.key_id)) [
                | inr no_key ↦ rw (e, e', e'', no_key) (_, _, refl, ((dropped, refl), at))
                | inl has_key ↦
                    let (k, is_key) = is_key_id_lem p.key_id has_key in
                    rw (e, e', e'', has_key)
                      (code p (file_image_validate_tlv_expected_sig fmt api c f off len digest p) w
                        (sig_step fmt content hdr c crypto begun digest filled api f At file off len
                          k p w u16 is_key (at_type c.expected_sig_tlv e'') shown at))
              ]
            ]
          ]
        ]
      where
        at_type : (t : ℕ) → (type == t) ≡ true → Listed off len t
        at_type t e = subst (λ u. Listed off len u) ((==_iff type t).0 e) entry

        dropped : Facts (record p { key_id = minus_one })
        dropped = record { hash = shown.hash; key = tt; sig = shown.sig }
