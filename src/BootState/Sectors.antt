-- ===== src/BootState/Sectors.antt =====
-- The sectors of a slot that stand one behind the other.
use ruuvi_air_mcuboot.Prelude.{ℕ, zero, suc, ◌+◌, ◌≤◌, ◌<◌, ◌^◌, ◌≡◌, refl, some}
use ruuvi_air_mcuboot.Prelude.{List, [], ◌∷◌, get_elem?, take, length, arith, sub32}
use ruuvi_air_mcuboot.BootState.Defs.{
  SectorApi, BootImg, BootLoaderState, boot_img, boot_img_sector_size, boot_img_sector_off,
}

module _ {Area Sector : Type 0} (api : SectorApi Area Sector) where
  -- The bytes that sectors have in all.
  abbrev pub total : List Sector → ℕ
  total [] = 0
  total (s ∷ ss) = api.sector_get_size s + total ss

  -- The first sector stands at `o` of the flash device, every other one behind the one before it.
  abbrev pub StandFrom : ℕ → List Sector → Type 0
  StandFrom o [] = Unit {0}
  StandFrom o (s ∷ ss) = (api.sector_get_off s ≡ o) × StandFrom (o + api.sector_get_size s) ss

  -- The sector `i` is there, behind the bytes of those before it.
  sector_at :
      (ss : List Sector) (o i : ℕ)
      → StandFrom o ss
      → i < length ss
      → (s : Sector) × (get_elem? ss i ≡ some s)
        × (api.sector_get_off s ≡ o + total (take i ss))
        × (total (take (suc i) ss) ≡ total (take i ss) + api.sector_get_size s)
  sector_at [] o i stand there = absurd (omega arith)
  sector_at (s ∷ ss) o zero stand there = (s, refl, omega (arith, stand.0), omega arith)
  sector_at (s ∷ ss) o (suc i) stand there =
      let (x, e, off, size) = sector_at ss (o + api.sector_get_size s) i stand.1 (omega arith) in
      (x, e, omega arith, omega arith)

  total-take : (ss : List Sector) (i : ℕ) → total (take i ss) ≤ total ss
  total-take ss zero = omega arith
  total-take [] (suc i) = omega arith
  total-take (s ∷ ss) (suc i) = omega (arith, total-take ss i)

  module _ (boot_image_number : ℕ) where
    -- In a slot whose sectors stand one behind the other, below 2^32 on the flash device, the offset
    -- of a sector counts the bytes of all sectors before it, and its size is what the next one adds.
    pub boot_img_sector_off_lem :
        (state : BootLoaderState Area Sector) (slot base i : ℕ) (img : BootImg Area Sector)
        → boot_img boot_image_number state slot ≡ some img
        → StandFrom base img.sectors
        → base + total img.sectors < 2 ^ 32
        → i < length img.sectors
        → (boot_img_sector_off boot_image_number api state slot i
            ≡ some (total (take i img.sectors)))
          × ((n : ℕ) × (boot_img_sector_size boot_image_number api state slot i ≡ some n)
              × (total (take (suc i) img.sectors) ≡ total (take i img.sectors) + n))
    unfolding boot_img_sector_off boot_img_sector_size
    boot_img_sector_off_lem state slot base i img is_img stand low there =
        let (s, e, off, size) = sector_at img.sectors base i stand there in
        let (t, e', off', size') = sector_at img.sectors base 0 stand (omega arith) in
        let less = total-take img.sectors i in
        let diff : sub32 (api.sector_get_off s) (api.sector_get_off t)
            ≡ total (take i img.sectors) =
          omega arith in
        (rw (is_img, e, e', diff) refl, (_, rw (is_img, e) refl, size))
