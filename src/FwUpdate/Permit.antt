-- ===== src/FwUpdate/Permit.antt =====
-- What has been established of a file before anything is written to the slot it updates, and how the
-- checks establish it.
use ruuvi_air_mcuboot.Prelude.{
  ℕ, ◌≤◌, ◌≡◌, ◌⊎◌, inl, inr, Bool, true, false, not, Option, none, some,
}
use ruuvi_air_mcuboot.Prelude.{List, M, ap, refl, pure, >>=-eq-some}
use ruuvi_air_mcuboot.Prelude.{if-eq-some}
use ruuvi_air_mcuboot.Platform.Format.{ImageFormat, ImageHeader, ImageVersion}
use ruuvi_air_mcuboot.Platform.Files.{FileApi}
use ruuvi_air_mcuboot.Platform.Flash.{FlashApi}
use ruuvi_air_mcuboot.Platform.Crypto.{Crypto}
use ruuvi_air_mcuboot.Platform.System.{SystemApi, Config, FwInfo}
use ruuvi_air_mcuboot.Platform.Frame.{IsFileFramed, IsFlashFramed, IsSystemFramed}
use ruuvi_air_mcuboot.BtldrFs.{
  btldr_fs_unlink_file, btldr_fs_is_file_exist, get_flash_area_address_and_size, load_image_header,
}
use ruuvi_air_mcuboot.BtldrFs.Frame.{is_file_exist-Keeps}
use ruuvi_air_mcuboot.HwRev.Defs.{HwRev}
use ruuvi_air_mcuboot.FwUpdate.Checks.{
  FileFacts, Checked, check_file, validate_b0_signature, validate_file, fw_info_find_in_file,
  remove_and_fail,
}
use ruuvi_air_mcuboot.FwUpdate.Defs.{
  is_hw_rev_mismatch, is_upgrade, version_of, check_downgrade_prevention,
}

pub true_of_not : (b : Bool) → not b ≡ false → b ≡ true
true_of_not true e = refl
true_of_not false e = cc

module _ {W : Type 0} {I : W → Type 0} (files : FileApi W) (file_law : IsFileFramed files I)
    (flash : FlashApi W) (flash_law : IsFlashFramed flash I) (sys : SystemApi W)
    (sys_law : IsSystemFramed sys I) (fmt : ImageFormat) (c : Crypto) (cfg : Config)
    (s0_s1_version : ImageVersion) where
  -- The checks of `check_file` that have passed, with what `validate_file` read from the file:
  -- the bootloader's signature, with whatever verdict of `validate_file`, or its acceptance.
  -- Nothing had been written then. The calls follow one another from `first` to `last`.
  abbrev pub IsValidated : List ℕ → ℕ → ℕ → Bool → FileFacts → W → W → Type 0
  IsValidated name addr size flag facts first last =
      ((flag ≡ true)
        × (there : Bool) × (u v : W) × (a : Checked) × I u
        × (btldr_fs_is_file_exist sys cfg name first ≡ some (there, u))
        × (validate_b0_signature fmt c cfg files sys name addr size u ≡ some (true, v))
        × (validate_file fmt c cfg files sys name addr size v ≡ some (a, last))
        × (a.facts ≡ facts))
      ⊎ ((flag ≡ false)
          × (there : Bool) × (u : W) × I u
          × (btldr_fs_is_file_exist sys cfg name first ≡ some (there, u))
          × (validate_file fmt c cfg files sys name addr size u
              ≡ some (record { ok = true; facts = facts }, last)))

  -- The same, with the address and the size of the slot.
  abbrev pub IsCheckedFor : List ℕ → ℕ → ℕ → ℕ → Bool → FileFacts → W → Type 0
  IsCheckedFor name dst_fa_id addr size flag facts last =
      (u v : W) × (get_flash_area_address_and_size sys flash dst_fa_id u
        ≡ some (some (addr, size), v))
      × IsValidated name addr size flag facts v last

  -- The verdict of the downgrade check has been true, where the build has it.
  abbrev pub IsNoDowngrade : ℕ → FileFacts → W → Type 0
  IsNoDowngrade dst_fa_id facts u =
      cfg.downgrade_prevention ≡ true
      → (dst_hdr : ImageHeader) × (v : W) × (load_image_header sys flash dst_fa_id u
          ≡ some (some dst_hdr, v))
        × (is_upgrade cfg s0_s1_version dst_fa_id (version_of facts.img_hdr) ≡ true)

  -- Everything that must hold before a slot is written: each call goes on from where the one before
  -- it has ended.
  pub record Permit (name : List ℕ) (dst_fa_id : ℕ) (p_hw_rev : HwRev) (flag : Bool) : Type 0 where
    pub addr : ℕ
    pub size : ℕ
    pub facts : FileFacts
    pub looked : W
    pub validated : IsCheckedFor name dst_fa_id addr size flag facts looked
    pub file_info : FwInfo
    pub dst_info : FwInfo
    pub resumed : W
    pub in_file :
        fw_info_find_in_file fmt c cfg files sys name looked ≡ some (some file_info, resumed)
    pub in_slot : (sys.fw_info_find addr resumed).0 ≡ some dst_info
    pub same_hw_rev : is_hw_rev_mismatch p_hw_rev facts.hw_rev ≡ false
    pub not_older : dst_info.version ≤ file_info.version
    pub no_downgrade : IsNoDowngrade dst_fa_id facts (sys.fw_info_find addr resumed).1

  -- After a failed check nothing is accepted.
  remove_and_fail-ok :
      (name : List ℕ) (facts : FileFacts) (w : W) (a : Checked) (w' : W)
      → remove_and_fail fmt c cfg files sys name facts w ≡ some (a, w')
      → a.ok ≡ false
  unfolding remove_and_fail
  remove_and_fail-ok name facts w a w' e =
      let (r, v, p, q) = >>=-eq-some (btldr_fs_unlink_file sys cfg name) _ w a w' e in cc q

  passed :
      (m : M W Checked) (u v : W) (b a : Checked) (w' : W)
      → m u ≡ some (b, v)
      → pure b v ≡ some (a, w')
      → a.ok ≡ true
      → m u ≡ some (record { ok = true; facts = a.facts }, w')
  passed m u v b a w' p k ok =
      let e : a ≡ record { ok = true; facts = a.facts } =
        ap (λ z. record { ok = z; facts = a.facts }) ok in
      cc (p, k, e)

  pub check_file-IsValidated :
      (name : List ℕ) (addr size : ℕ) (flag : Bool) (w : W) (a : Checked) (w' : W)
      → I w
      → check_file fmt c cfg files sys name addr size flag w ≡ some (a, w')
      → a.ok ≡ true
      → IsValidated name addr size flag a.facts w w'
  unfolding check_file
  check_file-IsValidated name addr size flag w a w' h e ok =
      let (exists, u, p, q) = >>=-eq-some (btldr_fs_is_file_exist sys cfg name) _ w a w' e in
      let hu = (is_file_exist-Keeps sys sys_law cfg name).kept w exists u h p in
      elim (if-eq-some (not exists) _ _ u a w' q) [
        | inl (t, q') ↦ cc (q', ok)
        | inr (t, q') ↦ elim (if-eq-some flag _ _ u a w' q') [
          | inl (s, k) ↦
              let (valid, v, p', k') =
                >>=-eq-some (validate_b0_signature fmt c cfg files sys name addr size) _ u a w' k in
              elim (if-eq-some (not valid) _ _ v a w' k') [
                | inl (t', k'') ↦ cc (remove_and_fail-ok name _ v a w' k'', ok)
                | inr (t', k'') ↦
                    let (b, x, p'', k''') =
                      >>=-eq-some (validate_file fmt c cfg files sys name addr size) _ v a w' k'' in
                    inl (
                      s,
                      exists,
                      u,
                      v,
                      b,
                      hu,
                      p,
                      cc (p', true_of_not valid t'),
                      cc (p'', k'''),
                      cc k''',
                    )
              ]
          | inr (s, k) ↦
              let (b, v, p', k') =
                >>=-eq-some (validate_file fmt c cfg files sys name addr size) _ u a w' k in
              elim (if-eq-some (not b.ok) _ _ v a w' k') [
                | inl (t', k'') ↦ cc (remove_and_fail-ok name _ v a w' k'', ok)
                | inr (t', k'') ↦ inr (
                  s,
                  exists,
                  u,
                  hu,
                  p,
                  passed (validate_file fmt c cfg files sys name addr size) u v b a w' p' k'' ok,
                )
              ]
        ]
      ]

  pub downgrade-IsNoDowngrade :
      (dst_fa_id : ℕ) (facts : FileFacts) (w v : W)
      → check_downgrade_prevention fmt c cfg s0_s1_version files flash sys dst_fa_id facts.img_hdr w
        ≡ some (true, v)
      → IsNoDowngrade dst_fa_id facts w
  unfolding check_downgrade_prevention
  downgrade-IsNoDowngrade dst_fa_id facts w v e on =
      let (loaded, x, p, q) = >>=-eq-some (load_image_header sys flash dst_fa_id) _ w true v e in
      go loaded x p q
    where
      go :
          (loaded : Option ImageHeader) (x : W)
          → load_image_header sys flash dst_fa_id w ≡ some (loaded, x)
          → pure
              (elim loaded [
                | none ↦ false
                | some dst_img_hdr ↦
                    is_upgrade cfg s0_s1_version dst_fa_id (version_of facts.img_hdr)
              ])
              x
            ≡ some (true, v)
          → (dst_hdr : ImageHeader) × (v : W) × (load_image_header sys flash dst_fa_id w
              ≡ some (some dst_hdr, v))
            × (is_upgrade cfg s0_s1_version dst_fa_id (version_of facts.img_hdr) ≡ true)
      go none x p q = cc q
      go (some hdr) x p q = (hdr, x, p, cc q)
