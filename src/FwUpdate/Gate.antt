-- ===== src/FwUpdate/Gate.antt =====
-- `check_file_and_update` writes nothing without a permit.
use ruuvi_air_mcuboot.Prelude.{sym}
use ruuvi_air_mcuboot.Prelude.{ℕ, ◌≤◌, ◌≡◌, Bool, false, not, Option, none, some}
use ruuvi_air_mcuboot.Prelude.{List, subst, ltb, arith}
use ruuvi_air_mcuboot.Prelude.{Keeps}
use ruuvi_air_mcuboot.Platform.Format.{ImageFormat, ImageHeader, ImageVersion}
use ruuvi_air_mcuboot.Platform.Files.{FileApi}
use ruuvi_air_mcuboot.Platform.Flash.{FlashApi}
use ruuvi_air_mcuboot.Platform.Crypto.{Crypto}
use ruuvi_air_mcuboot.Platform.System.{SystemApi, Config, FwInfo}
use ruuvi_air_mcuboot.Platform.Frame.{
  frame_rules, IsFileFramed, IsFlashFramed, IsSystemFramed, Keeps-fw_info_find,
}
use ruuvi_air_mcuboot.BtldrFs.{btldr_fs_unlink_file}
use ruuvi_air_mcuboot.BtldrFs.Frame.{
  get_flash_area_address_and_size-Keeps, load_image_header-Keeps, unlink_file-Keeps,
}
use ruuvi_air_mcuboot.HwRev.Defs.{HwRev}
use ruuvi_air_mcuboot.FwUpdate.Checks.{FileFacts, fw_info_find_in_file}
use ruuvi_air_mcuboot.FwUpdate.Frame.{check_file-Keeps, fw_info_find_in_file-Keeps}
use ruuvi_air_mcuboot.FwUpdate.Defs.{
  is_hw_rev_mismatch, remove_file, check_downgrade_prevention, prevent_downgrade,
  compare_and_install, update_with_info, check_file_and_update,
}
use ruuvi_air_mcuboot.FwUpdate.Gated.{
  Gated, Gated-pure, Gated-permitted, Gated-if, Gated-bind, Gated-Option,
}
use ruuvi_air_mcuboot.FwUpdate.Permit.{
  true_of_not, IsCheckedFor, IsNoDowngrade, Permit, check_file-IsValidated, downgrade-IsNoDowngrade,
}

module _ {W : Type 0} {I : W → Type 0} (files : FileApi W) (file_law : IsFileFramed files I)
    (flash : FlashApi W) (flash_law : IsFlashFramed flash I) (sys : SystemApi W)
    (sys_law : IsSystemFramed sys I) (fmt : ImageFormat) (c : Crypto) (cfg : Config)
    (s0_s1_version : ImageVersion) where
  check_downgrade-Keeps :
      (dst_fa_id : ℕ) (hdr : Option ImageHeader)
      → Keeps I (check_downgrade_prevention fmt c cfg s0_s1_version files flash sys dst_fa_id hdr)
  unfolding check_downgrade_prevention
  check_downgrade-Keeps dst_fa_id hdr = search (load_image_header-Keeps, frame_rules) depth 20

  -- The answer false, after the file is removed.
  remove_file-Gated :
      {P : Type 0} (name : List ℕ) (w : W)
      → I w
      → Gated I P (remove_file fmt c cfg s0_s1_version files flash sys name) w
  unfolding remove_file
  remove_file-Gated name w h =
      Gated-bind (btldr_fs_unlink_file sys cfg name) _ w (unlink_file-Keeps sys sys_law cfg name) h
        (λ a v p hv. Gated-pure v hv)

  module _ (name : List ℕ) (dst_fa_id addr size : ℕ) (p_hw_rev : HwRev) (flag : Bool)
      (facts : FileFacts) (u v : W)
      (validated : IsCheckedFor files file_law flash flash_law sys sys_law fmt c cfg s0_s1_version
        name dst_fa_id addr size flag facts u)
      (file_info : FwInfo)
      (in_file : fw_info_find_in_file fmt c cfg files sys name u ≡ some (some file_info, v)) where
    prevent-Gated :
        (dst_info : FwInfo)
        → (sys.fw_info_find addr v).0 ≡ some dst_info
        → is_hw_rev_mismatch p_hw_rev facts.hw_rev ≡ false
        → dst_info.version ≤ file_info.version
        → (w : W) → (sys.fw_info_find addr v).1 ≡ w
        → I w
        → Gated I
            (Permit files file_law flash flash_law sys sys_law fmt c cfg s0_s1_version name
              dst_fa_id p_hw_rev flag)
            (prevent_downgrade fmt c cfg s0_s1_version files flash sys name dst_fa_id facts.img_hdr)
            w
    unfolding prevent_downgrade
    prevent-Gated dst_info in_slot hw ver w here h =
        let permit : IsNoDowngrade files file_law flash flash_law sys sys_law fmt c cfg
              s0_s1_version dst_fa_id facts w
            → Permit files file_law flash flash_law sys sys_law fmt c cfg s0_s1_version name
                dst_fa_id p_hw_rev flag =
          λ no. record {
            addr = addr;
            size = size;
            facts = facts;
            validated = validated;
            file_info = file_info;
            dst_info = dst_info;
            looked = u;
            resumed = v;
            in_file = in_file;
            in_slot = in_slot;
            same_hw_rev = hw;
            not_older = ver;
            no_downgrade =
                subst
                  (IsNoDowngrade files file_law flash flash_law sys sys_law fmt c cfg s0_s1_version
                    dst_fa_id facts)
                  (sym here) no;
          } in
        Gated-if (not cfg.downgrade_prevention) _ _ w
          (λ t. Gated-permitted _ w (permit (λ on. cc (on, t))))
          (λ t. Gated-bind _ _ w (check_downgrade-Keeps dst_fa_id facts.img_hdr) h (λ ok x run hx.
            Gated-if (not ok) _ _ x (λ s. remove_file-Gated name x hx)
              (λ s. Gated-permitted _ x (
                permit (
                  downgrade-IsNoDowngrade files file_law flash flash_law sys sys_law fmt c cfg
                    s0_s1_version dst_fa_id facts w x
                    (subst
                      (λ z.
                        check_downgrade_prevention fmt c cfg s0_s1_version files flash sys dst_fa_id
                          facts.img_hdr w
                        ≡ some (z, x))
                      (true_of_not ok s) run))))))

    compare-Gated :
        (dst_info : FwInfo)
        → (sys.fw_info_find addr v).0 ≡ some dst_info
        → (w : W) → (sys.fw_info_find addr v).1 ≡ w
        → I w
        → Gated I
            (Permit files file_law flash flash_law sys sys_law fmt c cfg s0_s1_version name
              dst_fa_id p_hw_rev flag)
            (compare_and_install fmt c cfg s0_s1_version files flash sys name dst_fa_id p_hw_rev
              facts file_info dst_info)
            w
    unfolding compare_and_install
    compare-Gated dst_info in_slot w here h =
        Gated-if (is_hw_rev_mismatch p_hw_rev facts.hw_rev) _ _ w (λ t. remove_file-Gated name w h)
          (λ t.
            Gated-if (ltb file_info.version dst_info.version) _ _ w
              (λ s. remove_file-Gated name w h)
              (λ s. prevent-Gated dst_info in_slot t (ground arith) w here h))

  with_info-Gated :
      (name : List ℕ) (dst_fa_id addr size : ℕ) (p_hw_rev : HwRev) (flag : Bool) (facts : FileFacts)
      → (u v : W)
      → IsCheckedFor files file_law flash flash_law sys sys_law fmt c cfg s0_s1_version name
          dst_fa_id addr size flag facts u
      → (info : Option FwInfo) → fw_info_find_in_file fmt c cfg files sys name u ≡ some (info, v)
      → I v
      → Gated I
          (Permit files file_law flash flash_law sys sys_law fmt c cfg s0_s1_version name dst_fa_id
            p_hw_rev flag)
          (update_with_info fmt c cfg s0_s1_version files flash sys name dst_fa_id addr p_hw_rev
            facts info)
          v
  unfolding update_with_info
  with_info-Gated name dst_fa_id addr size p_hw_rev flag facts u v validated none run h =
      remove_file-Gated name v h
  with_info-Gated name dst_fa_id addr size p_hw_rev flag facts u v validated (some file_info) run
        h =
      Gated-bind _ _ v (Keeps-fw_info_find sys addr sys_law) h (λ dst w run' hw.
        Gated-Option dst _ _ w (remove_file-Gated name w hw) (λ dst_info s.
          compare-Gated name dst_fa_id addr size p_hw_rev flag facts u v validated file_info run
            dst_info (cc (run', s)) w (cc run') hw))

  -- `check_file_and_update`, where it ends, has written nothing and has kept every property of the
  -- world that opening, reading and removing files and reading flash keep, and answers false; or
  -- the file had a permit.
  pub check_file_and_update-Gated :
      (name : List ℕ) (dst_fa_id : ℕ) (p_hw_rev : HwRev) (flag : Bool) (w : W)
      → I w
      → Gated I
          (Permit files file_law flash flash_law sys sys_law fmt c cfg s0_s1_version name dst_fa_id
            p_hw_rev flag)
          (check_file_and_update fmt c cfg s0_s1_version files flash sys name dst_fa_id p_hw_rev
            flag)
          w
  unfolding check_file_and_update
  check_file_and_update-Gated name dst_fa_id p_hw_rev flag w h =
      Gated-bind _ _ w (get_flash_area_address_and_size-Keeps sys sys_law flash flash_law dst_fa_id)
        h
        (λ area x run hx. Gated-Option area _ _ x (Gated-pure x hx) (λ (addr, size) s.
          Gated-bind _ _ x
            (check_file-Keeps files file_law sys sys_law fmt c cfg name addr size flag) hx
            (λ a y run' hy.
              Gated-if (not a.ok) _ _ y (λ t. Gated-pure y hy)
                (λ t.
                  Gated-bind _ _ y
                    (fw_info_find_in_file-Keeps files file_law sys sys_law fmt c cfg name) hy
                    (λ info z run'' hz.
                      with_info-Gated name dst_fa_id addr size p_hw_rev flag a.facts y z
                        (
                          w,
                          x,
                          cc (run, s),
                          check_file-IsValidated files file_law flash flash_law sys sys_law fmt c
                              cfg s0_s1_version name addr size flag x a y hx run'
                              (true_of_not a.ok t),
                        )
                        info run'' hz)))))
