-- ===== src/Platform/FileSystem.antt =====
-- What opening a file by its path does: `fs_open` of Zephyr, and the mutex around it.
use ruuvi_air_mcuboot.Prelude.{ℕ, ◌≡◌, ◌⊎◌, List, pos, IsError}
use ruuvi_air_mcuboot.Platform.Files.{FileApi, IsOpenFile}
use ruuvi_air_mcuboot.Platform.System.{SystemApi, OpenResult}

module _ {W : Type 0} (files : FileApi W) (sys : SystemApi W)
    (At : ℕ → List ℕ → W → ℕ → Type 0) where
  -- `At f content w p`: in the world `w` the file `f` is open on `content`, with its position at
  -- `p`. Opening fails, or gives a file at its start, whatever it holds.
  abbrev pub HasOpened : OpenResult × W → Type 0
  HasOpened (r, w) =
      IsError r.rc
      ⊎ ((r.rc ≡ pos 0)
          × (content : List ℕ) × IsOpenFile files r.filep content (At r.filep content)
          × At r.filep content w 0)

  pub record IsFileSystem : Type 0 where
    pub fs_open_lem : (path : List ℕ) (w : W) → HasOpened (sys.fs_open path w)
    pub k_mutex_unlock_lem :
        (f : ℕ) (content : List ℕ) (w : W) (p : ℕ)
        → At f content w p
        → At f content (sys.k_mutex_unlock w).1 p
