-- ===== src/Platform/Files.antt =====
-- Zephyr's `fs.h` for files that are open. A file is a number: the `struct fs_file_t` behind a
-- pointer, or its `filep`; 0 is NULL.
use ruuvi_air_mcuboot.Prelude.{ℕ, ◌+◌, ◌<◌, ◌^◌, ◌≡◌, ◌⊎◌, List, length, slice, ℤ, pos, IsError}

pub data Whence : Type 0 where
  seek_set seek_end : Whence

-- The result of `fs_read`: its return value, and the bytes that it put at the start of the buffer.
pub record ReadResult : Type 0 where
  pub rc : ℤ
  pub bytes : List ℕ

pub record FileApi (W : Type 0) : Type 0 where
  pub fs_seek : ℕ → ℕ → Whence → W → ℤ × W
  pub fs_tell : ℕ → W → ℤ × W
  pub fs_read : ℕ → ℕ → W → ReadResult × W

module _ {W : Type 0} (api : FileApi W) (f : ℕ) (content : List ℕ) where
  -- What `fs_seek` has done: failed and left the position, or moved it.
  abbrev pub Sought : (W → ℕ → Type 0) → ℕ → ℕ → ℤ × W → Type 0
  Sought At p off (rc, w) = (IsError rc × At w p) ⊎ ((rc ≡ pos 0) × At w off)

  -- What `fs_read` of `n` bytes at `p` has done: failed, or read what the file holds there.
  abbrev pub DidRead : (W → ℕ → Type 0) → ℕ → ℕ → ReadResult × W → Type 0
  DidRead At p n (r, w) =
      (IsError r.rc × At w p)
      ⊎ ((r.rc ≡ pos (length r.bytes)) × (r.bytes ≡ slice content p n) × At w (p + length r.bytes))

  -- The file `f` is open for reading on `content`. `At w p` says that it is so in the world `w`,
  -- with its position at `p`. Every call may fail; it then leaves the file as it was.
  -- A file is shorter than 2^31 bytes, the limit of LittleFS.
  pub record IsOpenFile (At : W → ℕ → Type 0) : Type 0 where
    pub not_null : 0 < f
    pub short : length content < 2 ^ 31
    pub seek_set_lem :
        (w : W) (p off : ℕ) → At w p → Sought At p off (api.fs_seek f off Whence.seek_set w)
    pub seek_end_lem :
        (w : W) (p : ℕ) → At w p → Sought At p (length content) (api.fs_seek f 0 Whence.seek_end w)
    pub tell_lem : (w : W) (p : ℕ) → At w p → api.fs_tell f w ≡ (pos p, w)
    pub read_lem : (w : W) (p n : ℕ) → At w p → DidRead At p n (api.fs_read f n w)

  -- It is open, at some position.
  abbrev pub IsOpen : (W → ℕ → Type 0) → W → Type 0
  IsOpen At w = (p : ℕ) × At w p

-- Files never fail to be sought or read.
pub record IsReliableFile {W : Type 0} (api : FileApi W) : Type 0 where
  pub seek_ok : (f off : ℕ) (whence : Whence) (w : W) → IsError (api.fs_seek f off whence w).0 → ⊥
  pub read_ok : (f n : ℕ) (w : W) → IsError (api.fs_read f n w).0.rc → ⊥
