-- ===== src/FwUpdate/Pending.antt =====
-- What an update of MCUboot that is left to the immutable bootloader has shown.
use ruuvi_air_mcuboot.Prelude.{ℕ, ◌≡◌, inl, inr, Bool, true, false, not, some}
use ruuvi_air_mcuboot.Prelude.{List, >>=-eq-some, if-eq-some, Option-eq-some}
use ruuvi_air_mcuboot.Prelude.{Keeps, Keeps-bind, Keeps-if, Keeps-pure, Keeps-Option}
use ruuvi_air_mcuboot.Platform.Format.{ImageFormat, ImageVersion}
use ruuvi_air_mcuboot.Platform.Files.{FileApi}
use ruuvi_air_mcuboot.Platform.Flash.{FlashApi}
use ruuvi_air_mcuboot.Platform.Crypto.{Crypto}
use ruuvi_air_mcuboot.Platform.System.{SystemApi, Config, FwInfo}
use ruuvi_air_mcuboot.Platform.Frame.{IsFileFramed, IsFlashFramed, IsSystemFramed, frame_rules}
use ruuvi_air_mcuboot.BtldrFs.{
  btldr_fs_is_file_exist, btldr_fs_unlink_file, get_flash_area_address_and_size,
}
use ruuvi_air_mcuboot.BtldrFs.Frame.{
  get_flash_area_address_and_size-Keeps, is_file_exist-Keeps, unlink_file-Keeps,
}
use ruuvi_air_mcuboot.HwRev.Defs.{HwRev}
use ruuvi_air_mcuboot.FwUpdate.Checks.{
  Checked, validate_b0_signature, validate_file, fw_info_find_in_file,
}
use ruuvi_air_mcuboot.FwUpdate.Frame.{
  fw_info_find_in_file-Keeps, validate_b0_signature-Keeps, validate_file-Keeps,
}
use ruuvi_air_mcuboot.FwUpdate.Defs.{
  is_hw_rev_mismatch, remove_file, check_mcuboot_file, check_update_for_mcuboot,
}
use ruuvi_air_mcuboot.FwUpdate.Permit.{true_of_not}

module _ {W : Type 0} {I : W → Type 0} (files : FileApi W) (file_law : IsFileFramed files I)
    (flash : FlashApi W) (flash_law : IsFlashFramed flash I) (sys : SystemApi W)
    (sys_law : IsSystemFramed sys I) (fmt : ImageFormat) (c : Crypto) (cfg : Config)
    (s0_s1_version : ImageVersion) where
  -- What an update of a MCUboot slot, left to the immutable bootloader, has shown.
  pub record IsPending (name : List ℕ) (fa_id : ℕ) (p_hw_rev : HwRev) : Type 0 where
    pub addr : ℕ
    pub size : ℕ
    pub checked : Checked
    pub file_info : FwInfo
    pub start : W
    pub signed : W
    pub read : W
    pub done : W
    pub at_slot :
        (u : W) × (get_flash_area_address_and_size sys flash fa_id u
          ≡ some (some (addr, size), start))
    pub held : I start
    pub b0 : validate_b0_signature fmt c cfg files sys name addr size start ≡ some (true, signed)
    pub file : validate_file fmt c cfg files sys name addr size signed ≡ some (checked, read)
    pub in_file : fw_info_find_in_file fmt c cfg files sys name read ≡ some (some file_info, done)
    pub same_hw_rev : is_hw_rev_mismatch p_hw_rev checked.facts.hw_rev ≡ false

  remove_file-false :
      (name : List ℕ) (w : W) (b : Bool) (w' : W)
      → remove_file fmt c cfg s0_s1_version files flash sys name w ≡ some (b, w')
      → b ≡ false
  unfolding remove_file
  remove_file-false name w b w' e =
      let (r, v, p, q) = >>=-eq-some (btldr_fs_unlink_file sys cfg name) _ w b w' e in cc q

  remove_file-Keeps :
      (name : List ℕ) → Keeps I (remove_file fmt c cfg s0_s1_version files flash sys name)
  unfolding remove_file
  remove_file-Keeps name = search (unlink_file-Keeps, frame_rules) depth 20

  check_mcuboot_file-Keeps :
      (name : List ℕ) (addr size : ℕ) (p_hw_rev : HwRev)
      → Keeps I (check_mcuboot_file fmt c cfg s0_s1_version files flash sys name addr size p_hw_rev)
  unfolding check_mcuboot_file
  check_mcuboot_file-Keeps name addr size p_hw_rev =
      Keeps-bind _ _
        (validate_b0_signature-Keeps files file_law sys sys_law fmt c cfg name addr size)
        (λ valid. Keeps-if (not valid) _ _ (remove_file-Keeps name) (
          Keeps-bind _ _ (validate_file-Keeps files file_law sys sys_law fmt c cfg name addr size)
            (λ a.
              Keeps-bind _ _ (fw_info_find_in_file-Keeps files file_law sys sys_law fmt c cfg name)
                (λ info. Keeps-Option info _ _ (remove_file-Keeps name) (λ file_info.
                  Keeps-if (is_hw_rev_mismatch p_hw_rev a.facts.hw_rev) _ _ (remove_file-Keeps name)
                    (Keeps-pure true))))))

  pub check_update_for_mcuboot-Keeps :
      (name : List ℕ) (fa_id : ℕ) (p_hw_rev : HwRev)
      → Keeps I
          (check_update_for_mcuboot fmt c cfg s0_s1_version files flash sys name fa_id p_hw_rev)
  unfolding check_update_for_mcuboot
  check_update_for_mcuboot-Keeps name fa_id p_hw_rev =
      Keeps-bind _ _ (is_file_exist-Keeps sys sys_law cfg name) (λ exists.
        Keeps-if (not exists) _ _ (Keeps-pure false) (
          Keeps-bind _ _ (get_flash_area_address_and_size-Keeps sys sys_law flash flash_law fa_id)
            (λ area.
              Keeps-Option area _ _ (Keeps-pure false)
                (λ (addr, size). check_mcuboot_file-Keeps name addr size p_hw_rev))))

  check_mcuboot_file-IsPending :
      (name : List ℕ) (fa_id addr size : ℕ) (p_hw_rev : HwRev) (w w' : W)
      → (u : W) × (get_flash_area_address_and_size sys flash fa_id u ≡ some (some (addr, size), w))
      → I w
      → check_mcuboot_file fmt c cfg s0_s1_version files flash sys name addr size p_hw_rev w
        ≡ some (true, w')
      → IsPending name fa_id p_hw_rev
  unfolding check_mcuboot_file
  check_mcuboot_file-IsPending name fa_id addr size p_hw_rev w w' slot h e =
      let (valid, u, p, q) =
        >>=-eq-some (validate_b0_signature fmt c cfg files sys name addr size) _ w true w' e in
      elim (if-eq-some (not valid) _ _ u true w' q) [
        | inl (t, q') ↦ absurd (cc (remove_file-false name u true w' q'))
        | inr (t, q') ↦
            let (a, v, p', k) =
              >>=-eq-some (validate_file fmt c cfg files sys name addr size) _ u true w' q' in
            let (info, x, p'', k') =
              >>=-eq-some (fw_info_find_in_file fmt c cfg files sys name) _ v true w' k in
            elim (Option-eq-some info _ _ x true w' k') [
              | inl (n, r) ↦ absurd (cc (remove_file-false name x true w' r))
              | inr (file_info, n, r) ↦
                  elim (if-eq-some (is_hw_rev_mismatch p_hw_rev a.facts.hw_rev) _ _ x true w' r) [
                    | inl (m, r') ↦ absurd (cc (remove_file-false name x true w' r'))
                    | inr (m, r') ↦ record {
                      addr = addr;
                      size = size;
                      checked = a;
                      file_info = file_info;
                      start = w;
                      signed = u;
                      read = v;
                      done = x;
                      at_slot = slot;
                      held = h;
                      b0 = cc (p, true_of_not valid t);
                      file = p';
                      in_file = cc (p'', n);
                      same_hw_rev = m;
                    }
                  ]
            ]
      ]

  pub check_update_for_mcuboot-IsPending :
      (name : List ℕ) (fa_id : ℕ) (p_hw_rev : HwRev) (w w' : W)
      → I w
      → check_update_for_mcuboot fmt c cfg s0_s1_version files flash sys name fa_id p_hw_rev w
        ≡ some (true, w')
      → IsPending name fa_id p_hw_rev
  unfolding check_update_for_mcuboot
  check_update_for_mcuboot-IsPending name fa_id p_hw_rev w w' h e =
      let (exists, u, p, q) = >>=-eq-some (btldr_fs_is_file_exist sys cfg name) _ w true w' e in
      let hu = (is_file_exist-Keeps sys sys_law cfg name).kept w exists u h p in
      elim (if-eq-some (not exists) _ _ u true w' q) [
        | inl (t, q') ↦ absurd (cc q')
        | inr (t, q') ↦
            let (area, v, p', k) =
              >>=-eq-some (get_flash_area_address_and_size sys flash fa_id) _ u true w' q' in
            let hv =
              (get_flash_area_address_and_size-Keeps sys sys_law flash flash_law fa_id).kept u area
                v hu p' in
            elim (Option-eq-some area _ _ v true w' k) [
              | inl (n, r) ↦ absurd (cc r)
              | inr ((addr, size), n, r) ↦
                  check_mcuboot_file-IsPending name fa_id addr size p_hw_rev v w' (u, cc (p', n)) hv
                    r
            ]
      ]
