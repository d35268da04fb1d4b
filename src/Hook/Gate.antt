-- ===== src/Hook/Gate.antt =====
-- What has been established when a start-up changes a slot: the checks of the running image, and
-- those of the update.
use ruuvi_air_mcuboot.Prelude.{ℕ, ◌≡◌, ◌⊎◌, inl, inr, refl, subst, true, false, not}
use ruuvi_air_mcuboot.Prelude.{none, some, ◌==◌, if◌then◌else◌, ◌>>=◌, arith}
use ruuvi_air_mcuboot.Prelude.{Keeps, Bool-cases, sym, ◌∙◌, >>=-eq-some, if-eq-some, Option-eq-some}
use ruuvi_air_mcuboot.Platform.Format.{ImageFormat, ImageHeader, ImageVersion}
use ruuvi_air_mcuboot.Platform.Files.{FileApi}
use ruuvi_air_mcuboot.Platform.Flash.{FlashApi}
use ruuvi_air_mcuboot.Platform.Crypto.{Crypto}
use ruuvi_air_mcuboot.Platform.System.{SystemApi, Config}
use ruuvi_air_mcuboot.Platform.Board.{BoardApi, BoardConfig}
use ruuvi_air_mcuboot.Platform.Hook.{HookApi, HookConfig}
use ruuvi_air_mcuboot.Platform.Frame.{
  IsFileFramed, IsFlashFramed, IsSystemFramed, IsMountFramed, IsHookFramed, frame_rules, hook_rules,
}
use ruuvi_air_mcuboot.BtldrFs.{btldr_fs_mount, btldr_fs_unmount, load_image_header}
use ruuvi_air_mcuboot.BtldrFs.Frame.{mount-Keeps, unmount-Keeps, load_image_header-Keeps}
use ruuvi_air_mcuboot.HwRev.Defs.{HwRev}
use ruuvi_air_mcuboot.FwUpdate.{Ending, strcmp_eq, check_updates_on_fs, mcuboot_fw_update}
use ruuvi_air_mcuboot.FwUpdate.Permit.{true_of_not}
use ruuvi_air_mcuboot.FwUpdate.Slots.{MayChange, updates-MayChange}
use ruuvi_air_mcuboot.Hook.Defs.{
  Startup, g_cfg_hw_rev, is_same_version, is_rtt_placed, on_startup_print_slots_info_and_get_hw_rev,
  mcuboot_assert, mcuboot_segger_rtt_check_data_location_and_size,
}
use ruuvi_air_mcuboot.Hook.Run.{
  active_slot_of, active_fa_id_of, after_update, startup_with_header, startup_placed, on_startup,
}
use ruuvi_air_mcuboot.Hook.Frame.{get_hw_rev-Keeps, save_shared_data-Keeps}

-- Two versions agree in all four parts.
abbrev pub SameVersion : ImageVersion → ImageVersion → Type 0
SameVersion v w =
    (v.iv_major ≡ w.iv_major)
    × (v.iv_minor ≡ w.iv_minor)
    × (v.iv_revision ≡ w.iv_revision)
    × (v.iv_build_num ≡ w.iv_build_num)

is_same_version-SameVersion :
    (v w : ImageVersion) → not (is_same_version v w) ≡ false → SameVersion v w
unfolding is_same_version
is_same_version-SameVersion v w e = ground arith

module _ {W : Type 0} {I : W → Type 0} (files : FileApi W) (file_law : IsFileFramed files I)
    (flash : FlashApi W) (flash_law : IsFlashFramed flash I) (sys : SystemApi W)
    (sys_law : IsSystemFramed sys I) (mount_law : IsMountFramed sys I) (fmt : ImageFormat)
    (c : Crypto) (cfg : Config) (s0_s1_version : ImageVersion) where
  -- What `check_updates_on_fs` may act on, by the running slot.
  abbrev pub Change : ℕ → HwRev → Type 0
  Change active_slot p_hw_rev =
      if active_slot == 0
      then MayChange files file_law flash flash_law sys sys_law fmt c cfg s0_s1_version
          cfg.mcuboot1_file_name cfg.s1 cfg.mcuboot0_file_name cfg.s0 p_hw_rev
      else MayChange files file_law flash flash_law sys sys_law fmt c cfg s0_s1_version
          cfg.mcuboot0_file_name cfg.s0 cfg.mcuboot1_file_name cfg.s1 p_hw_rev

  pub fw_update_lem :
      (active_slot : ℕ) (p_hw_rev : HwRev) (w : W) (a : Ending) (w' : W)
      → I w
      → mcuboot_fw_update fmt c cfg s0_s1_version files flash sys active_slot p_hw_rev w
        ≡ some (a, w')
      → (I w' × (a ≡ Ending.returned)) ⊎ Change active_slot p_hw_rev
  unfolding mcuboot_fw_update
  fw_update_lem active_slot p_hw_rev w a w' h e =
      let (mounted, u, p, q) = >>=-eq-some (btldr_fs_mount sys cfg flash) _ w a w' e in
      let hu = (mount-Keeps sys mount_law flash flash_law cfg).kept w mounted u h p in
      elim (if-eq-some (not mounted) _ _ u a w' q) [
        | inl (t, r) ↦ inl (subst I (cc r) hu, cc r)
        | inr (t, r) ↦
            let (found, v, p', k) =
              >>=-eq-some
                (check_updates_on_fs fmt c cfg s0_s1_version files flash sys active_slot p_hw_rev) _
                u a w' r in
            elim (updates-MayChange files file_law flash flash_law sys sys_law fmt c cfg
              s0_s1_version active_slot p_hw_rev u found v hu p') [
                | inr change ↦ inr change
                | inl (hv, no_update) ↦ elim (if-eq-some found _ _ v a w' k) [
                  | inl (s, x) ↦ cc (s, no_update)
                  | inr (s, x) ↦
                      let (z, y, p'', m) = >>=-eq-some (btldr_fs_unmount sys cfg) _ v a w' x in
                      inl (
                        subst I (cc m)
                            ((unmount-Keeps sys mount_law flash flash_law cfg).kept v z y hv p''),
                        cc m,
                      )
                ]
              ]
      ]

  module _ (hook : HookApi W) (hook_law : IsHookFramed hook I) (hcfg : HookConfig)
      (board : BoardApi W) (pins : BoardConfig) where
    -- The running image is of this board's revision and has the version built in, which is that of
    -- the build, and the update was permitted for the revision that the running image names.
    pub record HasPassed (active_slot : ℕ) (start : W) : Type 0 where
      pub hw_rev : HwRev
      pub looked : W
      pub loaded : W
      pub hdr : ImageHeader
      pub held : I start
      pub found :
          on_startup_print_slots_info_and_get_hw_rev fmt cfg sys flash active_slot start
          ≡ some (hw_rev, looked)
      pub same_board : (hw_rev.hw_rev_num == g_cfg_hw_rev hcfg.board_rev) ≡ true
      pub header :
          load_image_header sys flash (active_fa_id_of cfg active_slot) looked
          ≡ some (some hdr, loaded)
      pub same_version : SameVersion hdr.ih_ver s0_s1_version
      pub same_string :
          strcmp_eq (hcfg.snprintf_version s0_s1_version) hcfg.version_tweak_string ≡ true
      pub change : Change active_slot hw_rev

    -- What the code behind the update leaves alone, and that it ends in the boot.
    after_update_lem :
        (active_slot : ℕ) (a : Ending) (w : W) (s : Startup) (w' : W)
        → I w
        → after_update hook hcfg board pins fmt c cfg s0_s1_version files flash sys active_slot a w
          ≡ some (s, w')
        → I w'
    unfolding after_update
    after_update_lem active_slot Ending.rebooted w s w' h e = subst I (cc e) h
    after_update_lem active_slot Ending.returned w s w' h e =
        let k : Keeps I (
            after_update hook hcfg board pins fmt c cfg s0_s1_version files flash sys active_slot
              Ending.returned) =
          search (save_shared_data-Keeps, hook_rules, frame_rules) depth 20 in
        k.kept w s w' h e

    with_header_lem :
        (active_slot : ℕ) (hw_rev : HwRev) (v : ImageVersion) (w : W) (s : Startup) (w' : W)
        → I w
        → startup_with_header hook hcfg board pins fmt c cfg s0_s1_version files flash sys
            active_slot hw_rev v w
          ≡ some (s, w')
        → I w'
          ⊎ (SameVersion v s0_s1_version
              × (strcmp_eq (hcfg.snprintf_version s0_s1_version) hcfg.version_tweak_string ≡ true)
              × Change active_slot hw_rev)
    unfolding startup_with_header
    with_header_lem active_slot hw_rev v w s w' h e =
        elim (if-eq-some (not (is_same_version v s0_s1_version)) _ _ w s w' e) [
          | inl (t, r) ↦ inl (subst I (cc r) h)
          | inr (t, r) ↦
              elim (if-eq-some
                (not (strcmp_eq (hcfg.snprintf_version s0_s1_version) hcfg.version_tweak_string)) _
                _ w s w' r) [
                  | inl (t', r') ↦ inl (subst I (cc r') h)
                  | inr (t', r') ↦
                      let (a, x, p, q) =
                        >>=-eq-some
                          (mcuboot_fw_update fmt c cfg s0_s1_version files flash sys active_slot
                            hw_rev)
                          _ w s w' r' in
                      elim (fw_update_lem active_slot hw_rev w a x h p) [
                        | inl (h', z) ↦ inl (after_update_lem active_slot a x s w' h' q)
                        | inr change ↦ inr (
                          is_same_version-SameVersion v s0_s1_version t,
                          true_of_not _ t',
                          change,
                        )
                      ]
                ]
        ]

    placed_lem :
        (active_slot : ℕ) (w : W) (s : Startup) (w' : W)
        → I w
        → startup_placed hook hcfg board pins fmt c cfg s0_s1_version files flash sys active_slot w
          ≡ some (s, w')
        → I w' ⊎ HasPassed active_slot w
    unfolding startup_placed
    placed_lem active_slot w s w' h e =
        let (hw_rev, u, p, q) =
          >>=-eq-some (on_startup_print_slots_info_and_get_hw_rev fmt cfg sys flash active_slot) _ w
            s w' e in
        let hu =
          (get_hw_rev-Keeps sys sys_law flash flash_law fmt cfg active_slot).kept w hw_rev u h p in
        elim (if-eq-some (not (hw_rev.hw_rev_num == g_cfg_hw_rev hcfg.board_rev)) _ _ u s w' q) [
          | inl (t, r) ↦ inl (subst I (cc r) hu)
          | inr (t, r) ↦
              let (loaded, v, p', k) =
                >>=-eq-some (load_image_header sys flash (active_fa_id_of cfg active_slot)) _ u s w'
                  r in
              let hv =
                (load_image_header-Keeps sys sys_law flash flash_law _).kept u loaded v hu p' in
              elim (Option-eq-some loaded _ _ v s w' k) [
                | inl (n, m) ↦ inl (subst I (cc m) hv)
                | inr (hdr, n, m) ↦
                    elim (with_header_lem active_slot hw_rev hdr.ih_ver v s w' hv m) [
                      | inl h' ↦ inl h'
                      | inr (same, string, change) ↦ inr (record {
                        hw_rev = hw_rev;
                        looked = u;
                        loaded = v;
                        hdr = hdr;
                        held = h;
                        found = p;
                        same_board = true_of_not _ t;
                        header = cc (p', n);
                        same_version = same;
                        same_string = string;
                        change = change;
                      })
                    ]
              ]
        ]

    rtt_check_lem :
        (fuel : ℕ) (w : W)
        → is_rtt_placed hook hcfg board pins ≡ true
        → mcuboot_segger_rtt_check_data_location_and_size hook hcfg board pins fuel w
          ≡ some (none, w)
    unfolding mcuboot_segger_rtt_check_data_location_and_size mcuboot_assert is_rtt_placed
    rtt_check_lem fuel w placed = elim (Bool-cases hcfg.use_segger_rtt) [
      | inl e ↦ rw (e, placed) refl
      | inr e ↦ rw e refl
    ]

    -- What a start-up has passed before a slot is changed, in the terms of the code.
    pub on_startup-HasPassed :
        (fuel : ℕ) (w : W) (s : Startup) (w' : W)
        → is_rtt_placed hook hcfg board pins ≡ true
        → I w
        → on_startup hook hcfg board pins fmt c cfg s0_s1_version files flash sys fuel w
          ≡ some (s, w')
        → I w' ⊎ HasPassed (active_slot_of hcfg) w
    unfolding on_startup
    on_startup-HasPassed fuel w s w' placed h e =
        placed_lem (active_slot_of hcfg) w s w' h
          (sym (rw (rtt_check_lem fuel w placed, ◌>>=◌) refl) ∙ e)
