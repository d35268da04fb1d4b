-- ===== src/Hook/Halt.antt =====
-- The start-up ends, and where it halts.
use ruuvi_air_mcuboot.Prelude.{
  arith, ℕ, ◌≡◌, ◌≢◌, ◌↔◌, ◌⊎◌, subst, ap, ◌∙◌, List, inl, inr, refl, Bool, true, false, not,
  Option, none, some, ◌==◌, if◌then◌else◌, Bool-cases, ◌>>=◌, pure, M,
}
use ruuvi_air_mcuboot.Platform.Format.{ImageHeader, ImageFormat, ImageVersion, IsFormat}
use ruuvi_air_mcuboot.Platform.Files.{FileApi}
use ruuvi_air_mcuboot.Platform.FileSystem.{IsFileSystem}
use ruuvi_air_mcuboot.Platform.Flash.{FlashApi, IsBounded}
use ruuvi_air_mcuboot.Platform.Crypto.{Crypto, IsCrypto}
use ruuvi_air_mcuboot.Platform.System.{SystemApi, Config}
use ruuvi_air_mcuboot.Platform.Board.{BoardApi, BoardConfig}
use ruuvi_air_mcuboot.Platform.Hook.{HookApi, HookConfig}
use ruuvi_air_mcuboot.BtldrFs.{load_image_header}
use ruuvi_air_mcuboot.BtldrFs.Total.{load_image_header-Total}
use ruuvi_air_mcuboot.HwRev.Defs.{HwRev}
use ruuvi_air_mcuboot.FwUpdate.{Ending, strcmp_eq}
use ruuvi_air_mcuboot.FwUpdate.Restart.{mcuboot_fw_update_lem}
use ruuvi_air_mcuboot.Hook.Defs.{
  Startup, is_rtt_placed, on_startup_print_slots_info_and_get_hw_rev, mcuboot_assert,
  mcuboot_segger_rtt_check_data_location_and_size, g_cfg_hw_rev, is_same_version,
}
use ruuvi_air_mcuboot.Hook.Total.{save_shared_data-Total, slots_info-Total}
use ruuvi_air_mcuboot.Hook.Run.{
  active_slot_of, active_fa_id_of, after_update, startup_with_header, startup_placed, on_startup,
}

none_either :
    {W A : Type 0} (b : Bool) (m : M W (Option A)) (w : W)
    → m w ≡ some (none, w)
    → (if not b then pure none else m) w ≡ some (none, w)
none_either true m w e = e
none_either false m w e = refl

module _ {W : Type 0} (files : FileApi W) (flash : FlashApi W) (bounded : IsBounded flash)
    (sys : SystemApi W) (At : ℕ → List ℕ → W → ℕ → Type 0) (fs : IsFileSystem files sys At)
    (fmt : ImageFormat) (lawful : IsFormat fmt) (c : Crypto) (crypto : IsCrypto c) (cfg : Config)
    (s0_s1_version : ImageVersion) (hook : HookApi W) (hcfg : HookConfig) (board : BoardApi W)
    (pins : BoardConfig) where
  -- The run ends, and halts exactly where `P` holds.
  abbrev HaltsIff : Type 0 → Option (Startup × W) → Type 0
  HaltsIff P r = (e : Startup) × (w' : W) × (r ≡ some (e, w')) × ((e ≡ Startup.halted) ↔ P)

  after_update_lem :
      (slot : ℕ) (ending : Ending) (w : W)
      → (e : Startup) × (w' : W) × (after_update hook hcfg board pins fmt c cfg s0_s1_version files
            flash sys slot ending w
          ≡ some (e, w'))
        × (e ≢ Startup.halted)
  unfolding after_update
  after_update_lem slot Ending.rebooted w = (_, _, refl, (λ e. cc))
  after_update_lem slot Ending.returned w =
      let (a, v, run) =
        (save_shared_data-Total hook hcfg sys flash slot (active_fa_id_of cfg slot)).ended w in
      elim (Bool-cases hcfg.use_segger_rtt) [
        | inl u ↦ rw (run, ◌>>=◌, u) (_, _, refl, (λ e. cc))
        | inr u ↦ rw (run, ◌>>=◌, u) (_, _, refl, (λ e. cc))
      ]

  -- The version of the running image, or the text of the version, is another than was built in.
  abbrev pub IsOtherVersion : ImageVersion → Type 0
  IsOtherVersion ih_ver =
      (is_same_version ih_ver s0_s1_version ≡ false)
      ⊎ (strcmp_eq (hcfg.snprintf_version s0_s1_version) hcfg.version_tweak_string ≡ false)

  with_header_lem :
      (slot : ℕ) (hw : HwRev) (ih_ver : ImageVersion) (w : W)
      → HaltsIff (IsOtherVersion ih_ver) (
          startup_with_header hook hcfg board pins fmt c cfg s0_s1_version files flash sys slot hw
            ih_ver w)
  unfolding startup_with_header
  with_header_lem slot hw ih_ver w = elim (Bool-cases (is_same_version ih_ver s0_s1_version)) [
    | inr e ↦ rw e (_, _, refl, ((λ h. inl refl), (λ h. refl)))
    | inl e ↦
        elim (Bool-cases
          (strcmp_eq (hcfg.snprintf_version s0_s1_version) hcfg.version_tweak_string)) [
            | inr e' ↦ rw (e, e') (_, _, refl, ((λ h. inr refl), (λ h. refl)))
            | inl e' ↦
                let (ending, v, run, known) =
                  mcuboot_fw_update_lem files flash sys At fs fmt lawful c crypto cfg s0_s1_version
                    slot hw w in
                let (end, w', run', going) = after_update_lem slot ending v in
                rw (e, e', run, ◌>>=◌) (end, w', run', ((λ h. absurd (going h)), (λ h. other h)))
          ]
  ]
    where
      other : {P : Type 0} → (true ≡ false) ⊎ (true ≡ false) → P
      other (inl h) = cc h
      other (inr h) = cc h

  -- The running slot's image, as the start-up finds it, is for another board or of another version.
  abbrev pub Mismatched : ℕ → W → Type 0
  Mismatched slot w =
      (hw : HwRev) × (v : W) × (on_startup_print_slots_info_and_get_hw_rev fmt cfg sys flash slot w
        ≡ some (hw, v))
      × ((hw.hw_rev_num ≢ g_cfg_hw_rev hcfg.board_rev)
          ⊎ ((hdr : ImageHeader) × (u : W) × (load_image_header sys flash (active_fa_id_of cfg slot)
                  v
                ≡ some (some hdr, u))
              × IsOtherVersion hdr.ih_ver))

  module _ (slot : ℕ) (hw : HwRev) (v : W)
      (same_rev : hw.hw_rev_num ≡ g_cfg_hw_rev hcfg.board_rev) where
    abbrev OtherThere : Type 0
    OtherThere =
        (hdr : ImageHeader) × (u : W) × (load_image_header sys flash (active_fa_id_of cfg slot) v
          ≡ some (some hdr, u))
        × IsOtherVersion hdr.ih_ver

    after_header :
        (loaded : Option ImageHeader) (u : W)
        → load_image_header sys flash (active_fa_id_of cfg slot) v ≡ some (loaded, u)
        → HaltsIff OtherThere (
            (elim loaded as (λ _. M W Startup) [
              | none ↦ pure Startup.booting
              | some img_hdr ↦
                  startup_with_header hook hcfg board pins fmt c cfg s0_s1_version files flash sys
                    slot hw img_hdr.ih_ver
            ])
              u)
    after_header none u run = (_, _, refl, ((λ e. cc), (λ (hdr, u', run', o). cc (run, run'))))
    after_header (some hdr) u run =
        let (e, w', run', known) = with_header_lem slot hw hdr.ih_ver u in
        (
          e,
          w',
          run',
          (
            (λ h. (hdr, u, run, known.0 h)),
            (λ (hdr', u', run'', other).
                let same : hdr' ≡ hdr = cc (run, run'') in
                known.1 (subst (λ (i : ImageHeader). IsOtherVersion i.ih_ver) same other)),
          ),
        )

    -- The mismatch is in the version, where the revision is this board's.
    mismatch-OtherThere :
        (w : W) (hw' : HwRev) (v' : W)
        → on_startup_print_slots_info_and_get_hw_rev fmt cfg sys flash slot w ≡ some (hw, v)
        → on_startup_print_slots_info_and_get_hw_rev fmt cfg sys flash slot w ≡ some (hw', v')
        → (hw'.hw_rev_num ≢ g_cfg_hw_rev hcfg.board_rev)
          ⊎ ((hdr : ImageHeader) × (u : W) × (load_image_header sys flash
                  (active_fa_id_of cfg slot)
                  v'
                ≡ some (some hdr, u))
              × IsOtherVersion hdr.ih_ver)
        → OtherThere
    mismatch-OtherThere w hw' v' run run' (inl other) =
        let same : hw' ≡ hw = cc (run, run') in
        absurd (other (ap (λ (h : HwRev). h.hw_rev_num) same ∙ same_rev))
    mismatch-OtherThere w hw' v' run run' (inr (hdr, u, loaded, other)) = (
      hdr,
      u,
      subst (λ x. load_image_header sys flash (active_fa_id_of cfg slot) x ≡ some (some hdr, u))
          (cc (run, run')) loaded,
      other,
    )

  from_slots :
      (slot : ℕ) (w : W) (hw : HwRev) (v : W)
      → on_startup_print_slots_info_and_get_hw_rev fmt cfg sys flash slot w ≡ some (hw, v)
      → HaltsIff (Mismatched slot w) (
          (if not (hw.hw_rev_num == g_cfg_hw_rev hcfg.board_rev) then pure Startup.halted else do
            loaded ← load_image_header sys flash (active_fa_id_of cfg slot)
            elim loaded as (λ _. M W Startup) [
              | none ↦ pure Startup.booting
              | some img_hdr ↦
                  startup_with_header hook hcfg board pins fmt c cfg s0_s1_version files flash sys
                    slot hw img_hdr.ih_ver
            ])
            v)
  from_slots slot w hw v run = elim (Bool-cases (hw.hw_rev_num == g_cfg_hw_rev hcfg.board_rev)) [
    | inr e ↦ rw e (_, _, refl, ((λ h. (hw, v, run, inl (λ same. ground arith))), (λ h. refl)))
    | inl e ↦
        let (loaded, u, run') =
          (load_image_header-Total sys flash (active_fa_id_of cfg slot)).ended v in
        let same : hw.hw_rev_num ≡ g_cfg_hw_rev hcfg.board_rev = ground arith in
        let (end, w', ended, known) = after_header slot hw v same loaded u run' in
        rw (e, run', ◌>>=◌)
          (
            end,
            w',
            ended,
            (
              (λ h. (hw, v, run, inr (known.0 h))),
              (λ (hw', v', run'', m).
                  known.1 (mismatch-OtherThere slot hw v same w hw' v' run run'' m)),
            ),
          )
  ]

  placed_after :
      (P : Type 0) (slot : ℕ) (w : W) (hw : HwRev) (v : W)
      → on_startup_print_slots_info_and_get_hw_rev fmt cfg sys flash slot w ≡ some (hw, v)
      → HaltsIff P (
          (if not (hw.hw_rev_num == g_cfg_hw_rev hcfg.board_rev) then pure Startup.halted else do
            loaded ← load_image_header sys flash (active_fa_id_of cfg slot)
            elim loaded as (λ _. M W Startup) [
              | none ↦ pure Startup.booting
              | some img_hdr ↦
                  startup_with_header hook hcfg board pins fmt c cfg s0_s1_version files flash sys
                    slot hw img_hdr.ih_ver
            ])
            v)
      → HaltsIff P
          (startup_placed hook hcfg board pins fmt c cfg s0_s1_version files flash sys slot w)
  unfolding startup_placed
  placed_after P slot w hw v run h = rw (run, ◌>>=◌) h

  rtt_checked :
      (fuel : ℕ) (w : W)
      → is_rtt_placed hook hcfg board pins ≡ true
      → mcuboot_segger_rtt_check_data_location_and_size hook hcfg board pins fuel w ≡ some (none, w)
  unfolding mcuboot_segger_rtt_check_data_location_and_size mcuboot_assert
  rtt_checked fuel w placed = none_either hcfg.use_segger_rtt _ w (rw placed refl)

  -- The start-up ends, and where it halts, in the terms of the code.
  pub halts-Mismatched :
      (fuel : ℕ) (w : W)
      → is_rtt_placed hook hcfg board pins ≡ true
      → (e : Startup) × (w' : W) × (on_startup hook hcfg board pins fmt c cfg s0_s1_version files
            flash sys fuel w
          ≡ some (e, w'))
        × ((e ≡ Startup.halted) ↔ Mismatched (active_slot_of hcfg) w)
  unfolding on_startup
  halts-Mismatched fuel w placed =
      let (hw, v, run) =
        (slots_info-Total fmt lawful cfg sys flash bounded (active_slot_of hcfg)).ended w in
      rw (rtt_checked fuel w placed, ◌>>=◌)
        (placed_after (Mismatched (active_slot_of hcfg) w) (active_slot_of hcfg) w hw v run
          (from_slots (active_slot_of hcfg) w hw v run))
