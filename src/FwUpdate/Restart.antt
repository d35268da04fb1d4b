-- ===== src/FwUpdate/Restart.antt =====
-- How `mcuboot_fw_update` ends.
use ruuvi_air_mcuboot.Prelude.{ℕ, ◌≡◌, ◌↔◌, refl, Bool, true, false, List, some, ◌>>=◌}
use ruuvi_air_mcuboot.Platform.Format.{ImageFormat, ImageVersion, IsFormat}
use ruuvi_air_mcuboot.Platform.Files.{FileApi}
use ruuvi_air_mcuboot.Platform.FileSystem.{IsFileSystem}
use ruuvi_air_mcuboot.Platform.Flash.{FlashApi}
use ruuvi_air_mcuboot.Platform.Crypto.{Crypto, IsCrypto}
use ruuvi_air_mcuboot.Platform.System.{SystemApi, Config}
use ruuvi_air_mcuboot.BtldrFs.{btldr_fs_mount}
use ruuvi_air_mcuboot.BtldrFs.Total.{mount-Total, unmount-Total}
use ruuvi_air_mcuboot.HwRev.Defs.{HwRev}
use ruuvi_air_mcuboot.FwUpdate.Defs.{Ending, check_updates_on_fs, mcuboot_fw_update}
use ruuvi_air_mcuboot.FwUpdate.Total.{check_updates_on_fs-Total}

module _ {W : Type 0} (files : FileApi W) (flash : FlashApi W) (sys : SystemApi W)
    (At : ℕ → List ℕ → W → ℕ → Type 0) (fs : IsFileSystem files sys At) (fmt : ImageFormat)
    (lawful : IsFormat fmt) (c : Crypto) (crypto : IsCrypto c) (cfg : Config)
    (s0_s1_version : ImageVersion) where
  -- The file system has been mounted, and something to update has been found on it.
  abbrev pub HasFound : ℕ → HwRev → W → Type 0
  HasFound slot hw w =
      (v u : W) × (btldr_fs_mount sys cfg flash w ≡ some (true, v))
      × (check_updates_on_fs fmt c cfg s0_s1_version files flash sys slot hw v ≡ some (true, u))

  module _ (slot : ℕ) (hw : HwRev) (w : W) where
    -- From the mount on, and from the search on.
    searched :
        (v u : W) (found : Bool)
        → btldr_fs_mount sys cfg flash w ≡ some (true, v)
        → check_updates_on_fs fmt c cfg s0_s1_version files flash sys slot hw v ≡ some (found, u)
        → (e : Ending) × (w' : W) × (mcuboot_fw_update fmt c cfg s0_s1_version files flash sys slot
              hw w
            ≡ some (e, w'))
          × ((e ≡ Ending.rebooted) ↔ HasFound slot hw w)
    unfolding mcuboot_fw_update
    searched v u true mounted run =
        rw (mounted, ◌>>=◌, run, ◌>>=◌) (_, _, refl, ((λ e. (v, u, refl, run)), (λ h. refl)))
    searched v u false mounted run =
        let (a, w', unmounted) = (unmount-Total sys flash cfg).ended u in
        rw (mounted, ◌>>=◌, run, ◌>>=◌, unmounted, ◌>>=◌)
          (_, _, refl, ((λ e. cc), (λ (v', u', p, q). cc)))

    from_mount :
        (v : W) (mounted : Bool)
        → btldr_fs_mount sys cfg flash w ≡ some (mounted, v)
        → (e : Ending) × (w' : W) × (mcuboot_fw_update fmt c cfg s0_s1_version files flash sys slot
              hw w
            ≡ some (e, w'))
          × ((e ≡ Ending.rebooted) ↔ HasFound slot hw w)
    unfolding mcuboot_fw_update
    from_mount v true run =
        let (found, u, run') =
          (check_updates_on_fs-Total files flash sys At fs fmt lawful c crypto cfg s0_s1_version
              slot hw).ended
            v in
        searched v u found run run'
    from_mount v false run = rw (run, ◌>>=◌) (_, _, refl, ((λ e. cc), (λ (v', u', p, q). cc)))

    -- Over a file system that opens each file on some content or fails, `mcuboot_fw_update` ends,
    -- whatever the files hold and whichever calls fail: no file makes a loop of the update run on.
    -- It ends with a reboot exactly where the file system could be mounted and the search found
    -- something to update.
    pub mcuboot_fw_update_lem :
        (e : Ending) × (w' : W) × (mcuboot_fw_update fmt c cfg s0_s1_version files flash sys slot hw
            w
          ≡ some (e, w'))
        × ((e ≡ Ending.rebooted) ↔ HasFound slot hw w)
    mcuboot_fw_update_lem =
        let (mounted, v, run) = (mount-Total sys flash cfg).ended w in from_mount v mounted run
