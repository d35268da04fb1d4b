-- ===== src/Platform/Flash.antt =====
-- Zephyr's `flash_map.h` and MCUboot's flash areas.
use ruuvi_air_mcuboot.Prelude.{
  true, is_zero, ◌<◌, ◌^◌, ◌+◌, ℕ, ◌-◌, ◌≤◌, ◌≡◌, ◌⊎◌, List, ◌++◌, ℤ, pos, IsError,
}
use ruuvi_air_mcuboot.Prelude.{length, replicate, slice}

-- `struct flash_area`
pub record FlashArea : Type 0 where
  pub fa_id : ℕ
  pub fa_off : ℕ
  pub fa_size : ℕ

pub record FlashRead : Type 0 where
  pub rc : ℤ
  pub bytes : List ℕ

pub record FlashApi (W : Type 0) : Type 0 where
  -- none of the area is set where the call fails
  pub flash_area_open : ℕ → W → (ℤ × FlashArea) × W
  pub flash_area_close : FlashArea → W → Unit {0} × W
  pub flash_area_erase : FlashArea → ℕ → ℕ → W → ℤ × W
  pub flash_area_write : FlashArea → ℕ → List ℕ → W → ℤ × W
  pub flash_area_read : FlashArea → ℕ → ℕ → W → FlashRead × W

-- What an erased byte of flash reads.
abbrev pub erased_byte : ℕ
erased_byte = 255

abbrev pub erased : ℕ → List ℕ
erased n = replicate n erased_byte

-- `At w p mem`: a file that the code has open stands at the position `p`, and the flash area `id`,
-- described by `fa`, holds the bytes `mem`. Flash is erased as a whole to 0xFF, and bytes are
-- written behind those written before; a call that fails may leave any bytes, but one that only
-- opens or reads leaves all as it was.
module _ {W : Type 0} (flash : FlashApi W) (id : ℕ) (fa : FlashArea)
    (At : W → ℕ → List ℕ → Type 0) where
  abbrev pub Held : W → Type 0
  Held w = (p : ℕ) × (mem : List ℕ) × At w p mem

  abbrev pub Opened : ℕ → List ℕ → (ℤ × FlashArea) × W → Type 0
  Opened p mem (r, w) = (IsError r.0 × At w p mem) ⊎ ((r.0 ≡ pos 0) × (r.1 ≡ fa) × At w p mem)

  abbrev pub Erased : ℕ → ℤ × W → Type 0
  Erased p (rc, w) = (IsError rc × Held w) ⊎ ((rc ≡ pos 0) × At w p (erased fa.fa_size))

  abbrev pub Written : ℕ → List ℕ → ℕ → List ℕ → ℤ × W → Type 0
  Written p a n buf (rc, w) =
      (IsError rc × Held w)
      ⊎ ((rc ≡ pos 0) × (length buf ≤ n) × At w p (a ++ (buf ++ erased (n - length buf))))

  abbrev pub FlashDidRead : ℕ → List ℕ → ℕ → ℕ → FlashRead × W → Type 0
  FlashDidRead p mem off n (r, w) =
      (IsError r.rc × At w p mem) ⊎ ((r.rc ≡ pos 0) × (r.bytes ≡ slice mem off n) × At w p mem)

  pub record IsFlashArea : Type 0 where
    pub open_lem :
        (w : W) (p : ℕ) (mem : List ℕ) → At w p mem → Opened p mem (flash.flash_area_open id w)
    pub close_lem :
        (w : W) (p : ℕ) (mem : List ℕ) → At w p mem → At (flash.flash_area_close fa w).1 p mem
    pub erase_lem :
        (w : W) (p : ℕ) (mem : List ℕ)
        → At w p mem
        → Erased p (flash.flash_area_erase fa 0 fa.fa_size w)
    pub write_lem :
        (w : W) (p : ℕ) (a : List ℕ) (n : ℕ) (buf : List ℕ)
        → At w p (a ++ erased n)
        → Written p a n buf (flash.flash_area_write fa (length a) buf w)
    pub read_lem :
        (w : W) (p : ℕ) (mem : List ℕ) (off n : ℕ)
        → At w p mem
        → FlashDidRead p mem off n (flash.flash_area_read fa off n w)

-- Zephyr refuses a read that does not lie inside the flash area, and an area is smaller than 2^31
-- bytes.
pub record IsBounded {W : Type 0} (flash : FlashApi W) : Type 0 where
  pub open_small :
      (id : ℕ) (w : W)
      → is_zero (flash.flash_area_open id w).0.0 ≡ true
      → (flash.flash_area_open id w).0.1.fa_size < 2 ^ 31
  pub read_inside :
      (fa : FlashArea) (off n : ℕ) (w : W)
      → is_zero (flash.flash_area_read fa off n w).0.rc ≡ true
      → off + n ≤ fa.fa_size
