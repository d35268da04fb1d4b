-- ===== src/FwUpdate/Order.antt =====
-- `boot_version_cmp` against the lexicographic order of versions, and what the downgrade check
-- makes of it.
use ruuvi_air_mcuboot.Prelude.{ℕ, ◌<◌, ◌≡◌, ◌⊎◌, ◌↔◌, inl, inr, Bool, true, false, arith}
use ruuvi_air_mcuboot.Prelude.{ℤ, pos, minus_one, is_neg, refl, ap}
use ruuvi_air_mcuboot.Prelude.{Option, none, some, ◌>>=◌}
use ruuvi_air_mcuboot.Platform.Format.{ImageFormat, ImageHeader, ImageVersion}
use ruuvi_air_mcuboot.Platform.Files.{FileApi}
use ruuvi_air_mcuboot.Platform.Flash.{FlashApi}
use ruuvi_air_mcuboot.Platform.Crypto.{Crypto}
use ruuvi_air_mcuboot.Platform.System.{SystemApi, Config}
use ruuvi_air_mcuboot.BtldrFs.{load_image_header}
use ruuvi_air_mcuboot.FwUpdate.Version.{boot_version_cmp}
use ruuvi_air_mcuboot.FwUpdate.Defs.{is_upgrade, is_less, version_of, check_downgrade_prevention}

-- A part decides, or the parts are equal and what follows decides.
abbrev Lex : ℕ → ℕ → Type 0 → Type 0
Lex a b rest = (a < b) ⊎ ((a ≡ b) × rest)

-- Lexicographically older: by major, minor and revision, and by the build number where it counts.
abbrev pub IsOlder : Bool → ImageVersion → ImageVersion → Type 0
IsOlder use_build_number v w = Lex v.iv_major w.iv_major (
    Lex v.iv_minor w.iv_minor (
      Lex v.iv_revision w.iv_revision
        ((use_build_number ≡ true) × (v.iv_build_num < w.iv_build_num))))

-- The answer of `boot_version_cmp`, from the order alone.
abbrev pub Compared : Bool → ImageVersion → ImageVersion → ℤ → Type 0
Compared b v w rc =
    ((rc ≡ minus_one) × IsOlder b v w)
    ⊎ ((rc ≡ pos 1) × IsOlder b w v)
    ⊎ ((rc ≡ pos 0)
        × (v.iv_major ≡ w.iv_major)
        × (v.iv_minor ≡ w.iv_minor)
        × (v.iv_revision ≡ w.iv_revision)
        × (b ≡ true → v.iv_build_num ≡ w.iv_build_num))

-- Over any two versions, `boot_version_cmp` answers -1 with the first older than the second in the
-- lexicographic order, or 1 with the second older than the first, or 0 with the two equal; the
-- build number counts where the flag is set, and nowhere else.
pub boot_version_cmp_lem : (b : Bool) (v w : ImageVersion) → Compared b v w (boot_version_cmp b v w)
unfolding boot_version_cmp
boot_version_cmp_lem b v w = ground arith

IsOlder-asym : (b : Bool) (v w : ImageVersion) → IsOlder b v w → IsOlder b w v → ⊥
IsOlder-asym b v w h h' = ground arith

-- `boot_version_cmp` is negative exactly where the first version is the older one.
is_neg_iff :
    (b : Bool) (v w : ImageVersion) → (is_neg (boot_version_cmp b v w) ≡ true) ↔ IsOlder b v w
is_neg_iff b v w = elim (boot_version_cmp_lem b v w) [
  | inl (e, older) ↦ ((λ z. older), (λ z. rw e refl))
  | inr (inl (e, newer)) ↦
      ((λ z. absurd (cc (ap is_neg e))), (λ z. absurd (IsOlder-asym b v w z newer)))
  | inr (inr (e, a, m, r, n)) ↦ ((λ z. absurd (cc (ap is_neg e))), (λ z. absurd (ground arith)))
]

boot_version_cmp_self : (b : Bool) (v : ImageVersion) → boot_version_cmp b v v ≡ pos 0
boot_version_cmp_self b v = elim (boot_version_cmp_lem b v v) [
  | inl (e, older) ↦ absurd (IsOlder-asym b v v older older)
  | inr (inl (e, newer)) ↦ absurd (IsOlder-asym b v v newer newer)
  | inr (inr (e, a, m, r, n)) ↦ e
]

is_upgrade_lem :
    (cfg : Config) (s0_s1_version : ImageVersion) (dst_fa_id : ℕ) (file_version : ImageVersion)
    → (is_upgrade cfg s0_s1_version dst_fa_id file_version ≡ false) ↔ (
        ((cfg.s0 ≡ dst_fa_id) ⊎ (cfg.s1 ≡ dst_fa_id))
        × IsOlder cfg.cmp_build_number file_version s0_s1_version)
unfolding is_upgrade is_less
is_upgrade_lem cfg s0_s1_version dst_fa_id file_version =
    rw (boot_version_cmp_self cfg.cmp_build_number file_version)
      (elim (boot_version_cmp_lem cfg.cmp_build_number file_version s0_s1_version) [
        | inl (e, older) ↦ rw e (ground arith)
        | inr (inl (e, newer)) ↦
            let asym : IsOlder cfg.cmp_build_number file_version s0_s1_version → ⊥ =
              λ z. IsOlder-asym _ _ _ z newer in
            rw e (ground arith)
        | inr (inr (e, a, m, r, n)) ↦ rw e (ground arith)
      ])

-- Whatever the loading of the slot's header has answered, `check_downgrade_prevention` returns, and
-- refuses the file exactly where that header could not be loaded, or the slot is one of MCUboot's
-- and the file's version is older than the one that MCUboot was built with. The version of the
-- header that was loaded decides nothing.
pub check_downgrade_prevention_lem :
    {W : Type 0} (fmt : ImageFormat) (c : Crypto) (cfg : Config) (s0_s1_version : ImageVersion)
    (files : FileApi W) (flash : FlashApi W) (sys : SystemApi W) (dst_fa_id : ℕ)
    (file_img_hdr : Option ImageHeader) (w : W) (loaded : Option ImageHeader) (w' : W)
    → load_image_header sys flash dst_fa_id w ≡ some (loaded, w')
    → (ok : Bool) × (check_downgrade_prevention fmt c cfg s0_s1_version files flash sys dst_fa_id
          file_img_hdr w
        ≡ some (ok, w'))
      × ((ok ≡ false) ↔ (
          (loaded ≡ none)
          ⊎ (((cfg.s0 ≡ dst_fa_id) ⊎ (cfg.s1 ≡ dst_fa_id))
              × IsOlder cfg.cmp_build_number (version_of file_img_hdr) s0_s1_version)))
unfolding check_downgrade_prevention
check_downgrade_prevention_lem fmt c cfg s0_s1_version files flash sys dst_fa_id file_img_hdr w none
      w' run =
    rw (run, ◌>>=◌) (false, refl, ((λ z. inl refl), (λ z. refl)))
check_downgrade_prevention_lem fmt c cfg s0_s1_version files flash sys dst_fa_id file_img_hdr w
      (some hdr) w' run =
    let known = is_upgrade_lem cfg s0_s1_version dst_fa_id (version_of file_img_hdr) in
    rw (run, ◌>>=◌)
      (_, refl, ((λ z. inr (known.0 z)), (λ z. elim z [ inl e ↦ cc e | inr old ↦ known.1 old ])))
