-- ===== src/FwUpdate/Slots.antt =====
-- Which slots an update may change: never the one that the running MCUboot stands in.
use ruuvi_air_mcuboot.Prelude.{ℕ, ◌≡◌, ◌⊎◌, inl, inr, Bool, true, false, some}
use ruuvi_air_mcuboot.Prelude.{List, ◌==◌, ◌>>=◌, if-eq-some, if◌then◌else◌}
use ruuvi_air_mcuboot.Prelude.{M, refl}
use ruuvi_air_mcuboot.Platform.Format.{ImageFormat, ImageVersion}
use ruuvi_air_mcuboot.Platform.Files.{FileApi}
use ruuvi_air_mcuboot.Platform.Flash.{FlashApi}
use ruuvi_air_mcuboot.Platform.Crypto.{Crypto}
use ruuvi_air_mcuboot.Platform.System.{SystemApi, Config}
use ruuvi_air_mcuboot.Platform.Frame.{IsFileFramed, IsFlashFramed, IsSystemFramed}
use ruuvi_air_mcuboot.HwRev.Defs.{HwRev}
use ruuvi_air_mcuboot.FwUpdate.Defs.{
  check_update_for_mcuboot, check_file_and_update, check_app_updates, check_updates_on_fs,
}
use ruuvi_air_mcuboot.FwUpdate.Gated.{
  Guarded, Guarded-pure, Guarded-Gated, Guarded-bind, Guarded-test,
}
use ruuvi_air_mcuboot.FwUpdate.Permit.{Permit}
use ruuvi_air_mcuboot.FwUpdate.Gate.{check_file_and_update-Gated}
use ruuvi_air_mcuboot.FwUpdate.Pending.{
  IsPending, check_update_for_mcuboot-Keeps, check_update_for_mcuboot-IsPending,
}

module _ {W : Type 0} {I : W → Type 0} (files : FileApi W) (file_law : IsFileFramed files I)
    (flash : FlashApi W) (flash_law : IsFlashFramed flash I) (sys : SystemApi W)
    (sys_law : IsSystemFramed sys I) (fmt : ImageFormat) (c : Crypto) (cfg : Config)
    (s0_s1_version : ImageVersion) where
  -- What `check_updates_on_fs` may act on: a file for the slot of MCUboot that is not running, a
  -- pending update of the running one, a file for the loader, or one for the application.
  pub data MayChange (other : List ℕ) (other_slot : ℕ) (running : List ℕ) (running_slot : ℕ)
      (p_hw_rev : HwRev) : Type 0 where
    for_mcuboot :
        Permit files file_law flash flash_law sys sys_law fmt c cfg s0_s1_version other other_slot
          p_hw_rev true
        → MayChange other other_slot running running_slot p_hw_rev
    pending :
        IsPending files file_law flash flash_law sys sys_law fmt c cfg s0_s1_version running
          running_slot p_hw_rev
        → MayChange other other_slot running running_slot p_hw_rev
    for_loader :
        Permit files file_law flash flash_law sys sys_law fmt c cfg s0_s1_version
          cfg.loader_file_name cfg.mcuboot_secondary p_hw_rev false
        → MayChange other other_slot running running_slot p_hw_rev
    for_app :
        Permit files file_law flash flash_law sys sys_law fmt c cfg s0_s1_version cfg.app_file_name
          cfg.mcuboot_primary p_hw_rev false
        → MayChange other other_slot running running_slot p_hw_rev

  app_updates-Guarded :
      (other : List ℕ) (other_slot : ℕ) (running : List ℕ) (running_slot : ℕ) (p_hw_rev : HwRev)
      (found : Bool)
      → found ≡ false
      → Guarded I
          (MayChange other other_slot running running_slot p_hw_rev)
          (λ b. b ≡ false)
          (check_app_updates fmt c cfg s0_s1_version files flash sys p_hw_rev found)
  unfolding check_app_updates
  app_updates-Guarded other other_slot running running_slot p_hw_rev found not_found =
      Guarded-bind _ _
        (Guarded-Gated _
          (check_file_and_update-Gated files file_law flash flash_law sys sys_law fmt c cfg
            s0_s1_version cfg.loader_file_name cfg.mcuboot_secondary p_hw_rev false)
          for_loader)
        (λ loader no_loader.
          Guarded-bind _ _
            (Guarded-Gated _
              (check_file_and_update-Gated files file_law flash flash_law sys sys_law fmt c cfg
                s0_s1_version cfg.app_file_name cfg.mcuboot_primary p_hw_rev false)
              for_app)
            (λ app no_app. Guarded-pure _ (rw (not_found, no_loader, no_app) refl)))

  -- The other slot's file first, then the pending update of the running slot.
  in_order-Guarded :
      (other : List ℕ) (other_slot : ℕ) (running : List ℕ) (running_slot : ℕ) (p_hw_rev : HwRev)
      (k : M W Bool)
      → Guarded I
          (MayChange other other_slot running running_slot p_hw_rev)
          (λ b. b ≡ false)
          (do
            found ←
                check_file_and_update fmt c cfg s0_s1_version files flash sys other other_slot
                  p_hw_rev true
            is_pending ←
                check_update_for_mcuboot fmt c cfg s0_s1_version files flash sys running
                  running_slot p_hw_rev
            if is_pending
                then k
                else check_app_updates fmt c cfg s0_s1_version files flash sys p_hw_rev found)
  in_order-Guarded other other_slot running running_slot p_hw_rev k =
      Guarded-bind _ _
        (Guarded-Gated _
          (check_file_and_update-Gated files file_law flash flash_law sys sys_law fmt c cfg
            s0_s1_version other other_slot p_hw_rev true)
          for_mcuboot)
        (λ found not_found.
          Guarded-test _ k _
            (check_update_for_mcuboot-Keeps files file_law flash flash_law sys sys_law fmt c cfg
              s0_s1_version running running_slot p_hw_rev)
            (λ w v h run. pending (
              check_update_for_mcuboot-IsPending files file_law flash flash_law sys sys_law fmt c
                cfg s0_s1_version running running_slot p_hw_rev w v h run))
            (app_updates-Guarded other other_slot running running_slot p_hw_rev found not_found))

  -- Where anything is changed, or a reboot asked for, one of the four had its permit.
  pub updates-MayChange :
      (active_slot : ℕ) (p_hw_rev : HwRev) (w : W) (b : Bool) (w' : W)
      → I w
      → check_updates_on_fs fmt c cfg s0_s1_version files flash sys active_slot p_hw_rev w
        ≡ some (b, w')
      → (I w' × (b ≡ false))
        ⊎ (if active_slot == 0
            then MayChange cfg.mcuboot1_file_name cfg.s1 cfg.mcuboot0_file_name cfg.s0 p_hw_rev
            else MayChange cfg.mcuboot0_file_name cfg.s0 cfg.mcuboot1_file_name cfg.s1 p_hw_rev)
  unfolding check_updates_on_fs
  updates-MayChange active_slot p_hw_rev w b w' h e =
      elim (if-eq-some (active_slot == 0) _ _ w b w' e) [
        | inl (t, q) ↦ rw t (
            (in_order-Guarded cfg.mcuboot1_file_name cfg.s1 cfg.mcuboot0_file_name cfg.s0 p_hw_rev
                _).guarded
              w b w' h q)
        | inr (t, q) ↦ rw t (
            (in_order-Guarded cfg.mcuboot0_file_name cfg.s0 cfg.mcuboot1_file_name cfg.s1 p_hw_rev
                _).guarded
              w b w' h q)
      ]
