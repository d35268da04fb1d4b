-- ===== src/Hook/Mismatch.antt =====
-- Where the start-up halts: for which running images.
use ruuvi_air_mcuboot.Prelude.{
  List, true, arith, ℕ, ◌≡◌, ◌≢◌, ◌↔◌, ◌⊎◌, subst, sym, inl, inr, false, some,
}
use ruuvi_air_mcuboot.Platform.Format.{ImageHeader, ImageFormat, ImageVersion, IsFormat}
use ruuvi_air_mcuboot.Platform.Files.{FileApi}
use ruuvi_air_mcuboot.Platform.FileSystem.{IsFileSystem}
use ruuvi_air_mcuboot.Platform.Flash.{FlashApi, IsBounded}
use ruuvi_air_mcuboot.Platform.Crypto.{Crypto, IsCrypto}
use ruuvi_air_mcuboot.Platform.System.{SystemApi, Config}
use ruuvi_air_mcuboot.Platform.Board.{BoardApi, BoardConfig}
use ruuvi_air_mcuboot.Platform.Hook.{HookApi, HookConfig}
use ruuvi_air_mcuboot.BtldrFs.{load_image_header}
use ruuvi_air_mcuboot.HwRev.Defs.{HwRev}
use ruuvi_air_mcuboot.FwUpdate.{strcmp_eq}
use ruuvi_air_mcuboot.Hook.Defs.{Startup, is_rtt_placed, g_cfg_hw_rev, is_same_version}
use ruuvi_air_mcuboot.Hook.Run.{active_slot_of, on_startup}
use ruuvi_air_mcuboot.Hook.Halt.{Mismatched, halts-Mismatched}
use ruuvi_air_mcuboot.Hook.Shown.{
  Shown, running_slot, active_fa_id_lem, slots_info-Shown, Shown-slots_info,
}

-- Two versions differ in one of their four parts.
abbrev pub Differ : ImageVersion → ImageVersion → Type 0
Differ v w =
    (v.iv_major ≢ w.iv_major)
    ⊎ (v.iv_minor ≢ w.iv_minor)
    ⊎ (v.iv_revision ≢ w.iv_revision)
    ⊎ (v.iv_build_num ≢ w.iv_build_num)

is_same_version_iff : (v w : ImageVersion) → (is_same_version v w ≡ false) ↔ Differ v w
unfolding is_same_version
is_same_version_iff v w = ground arith

module _ {W : Type 0} (files : FileApi W) (flash : FlashApi W) (bounded : IsBounded flash)
    (sys : SystemApi W) (At : ℕ → List ℕ → W → ℕ → Type 0) (fs : IsFileSystem files sys At)
    (fmt : ImageFormat) (lawful : IsFormat fmt) (c : Crypto) (crypto : IsCrypto c) (cfg : Config)
    (s0_s1_version : ImageVersion) (hook : HookApi W) (hcfg : HookConfig) (board : BoardApi W)
    (pins : BoardConfig) where
  -- The version differs from the one built in, or the text of that one from the build's.
  abbrev pub HasOtherVersion : ImageVersion → Type 0
  HasOtherVersion ih_ver =
      Differ ih_ver s0_s1_version
      ⊎ (strcmp_eq (hcfg.snprintf_version s0_s1_version) hcfg.version_tweak_string ≡ false)

  -- The image in the slot that the bootloader runs from names another revision than the board's, or
  -- has a header with another version.
  abbrev pub IsMismatch : W → Type 0
  IsMismatch w =
      (hw : HwRev) × (v : W) × Shown fmt cfg sys flash hcfg w hw v
      × ((hw.hw_rev_num ≢ g_cfg_hw_rev hcfg.board_rev)
          ⊎ ((hdr : ImageHeader) × (u : W) × (load_image_header sys flash (running_slot hcfg cfg) v
                ≡ some (some hdr, u))
              × HasOtherVersion hdr.ih_ver))

  abbrev Before : W → Type 0
  Before w =
      Mismatched files flash bounded sys At fs fmt lawful c crypto cfg s0_s1_version hook hcfg board
        pins (active_slot_of hcfg) w

  to_IsMismatch : (w : W) → Before w → IsMismatch w
  to_IsMismatch w (hw, v, run, inl other) =
      (hw, v, slots_info-Shown fmt cfg sys flash hcfg w hw v run, inl other)
  to_IsMismatch w (hw, v, run, inr (hdr, u, loaded, other)) = (
    hw,
    v,
    slots_info-Shown fmt cfg sys flash hcfg w hw v run,
    inr (
      hdr,
      u,
      subst (λ n. load_image_header sys flash n v ≡ some (some hdr, u)) (active_fa_id_lem hcfg cfg)
          loaded,
      elim other [
        | inl e ↦ inl ((is_same_version_iff hdr.ih_ver s0_s1_version).0 e)
        | inr e ↦ inr e
      ],
    ),
  )

  of_IsMismatch : (w : W) → IsMismatch w → Before w
  of_IsMismatch w (hw, v, shown, inl other) =
      (hw, v, Shown-slots_info fmt cfg sys flash hcfg w hw v shown, inl other)
  of_IsMismatch w (hw, v, shown, inr (hdr, u, loaded, other)) = (
    hw,
    v,
    Shown-slots_info fmt cfg sys flash hcfg w hw v shown,
    inr (
      hdr,
      u,
      subst (λ n. load_image_header sys flash n v ≡ some (some hdr, u))
          (sym (active_fa_id_lem hcfg cfg)) loaded,
      elim other [
        | inl e ↦ inl ((is_same_version_iff hdr.ih_ver s0_s1_version).1 e)
        | inr e ↦ inr e
      ],
    ),
  )

  -- Over a file system that opens each file on some content or fails, and flash that is read inside
  -- its areas only, with the RTT buffer where it belongs, the start-up ends, whatever files and
  -- slots hold and whichever calls fail. It halts exactly where the image in the slot that the
  -- bootloader was built for, s1 for the variant image and else s0, is read to be of another
  -- revision than the board's, or has a header, read behind that, with a version that differs from
  -- the one built in, in its major, minor, revision or build number, or where the text of the
  -- version built in is not that of the build while such a header was loaded.
  pub on_startup_halt_iff :
      (fuel : ℕ) (w : W)
      → is_rtt_placed hook hcfg board pins ≡ true
      → (e : Startup) × (w' : W) × (on_startup hook hcfg board pins fmt c cfg s0_s1_version files
            flash sys fuel w
          ≡ some (e, w'))
        × ((e ≡ Startup.halted) ↔ IsMismatch w)
  on_startup_halt_iff fuel w placed =
      let (e, w', run, known) =
        halts-Mismatched files flash bounded sys At fs fmt lawful c crypto cfg s0_s1_version hook
          hcfg board pins fuel w placed in
      (e, w', run, ((λ h. to_IsMismatch w (known.0 h)), (λ m. known.1 (of_IsMismatch w m))))
