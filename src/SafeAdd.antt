-- ===== src/SafeAdd.antt =====
-- The overflow-checked additions and the TLV offset of src/file_tlv_priv.h.
use ruuvi_air_mcuboot.Prelude.{ℕ, ◌+◌, ◌-◌, ◌%◌, ◌^◌, ◌<◌, ◌≡◌, ◌↔◌, Option, none, some}
use ruuvi_air_mcuboot.Prelude.{arith, ltb, if◌then◌else◌, add32, sub32, u32_mod}
use ruuvi_air_mcuboot.Platform.Format.{ImageHeader}

abbrev uint32_max : ℕ
uint32_max = 2 ^ 32 - 1

abbrev uint16_max : ℕ
uint16_max = 2 ^ 16 - 1

-- `none` is `false`; a sum is what goes through `dest`.
unfoldable pub boot_u32_safe_add : ℕ → ℕ → Option ℕ
boot_u32_safe_add a b = if ltb (sub32 uint32_max b) a then none else some (add32 a b)

-- `a + b` is an `int` sum, assigned to `tmp`.
unfoldable pub boot_u16_safe_add : ℕ → ℕ → Option ℕ
boot_u16_safe_add a b =
    let tmp = (a + b) % u32_mod in if ltb uint16_max tmp then none else some (tmp % 2 ^ 16)

-- `BOOT_TLV_OFF`
unfoldable pub boot_tlv_off : ImageHeader → ℕ
boot_tlv_off hdr = add32 hdr.ih_hdr_size hdr.ih_img_size

-- Over any two `uint32_t` the addition succeeds exactly where the true sum fits in 32 bits, and
-- what it stores is then the true sum.
pub boot_u32_safe_add_iff :
    (a b s : ℕ)
    → a < 2 ^ 32
    → b < 2 ^ 32
    → (boot_u32_safe_add a b ≡ some s) ↔ ((a + b < 2 ^ 32) × (s ≡ a + b))
unfolding boot_u32_safe_add
boot_u32_safe_add_iff a b s ha hb = (λ h. ground arith, λ h. ground arith)

-- Over any two `uint16_t` the addition succeeds exactly where the true sum fits in 16 bits, and
-- what it stores is then the true sum.
pub boot_u16_safe_add_iff :
    (a b s : ℕ)
    → a < 2 ^ 16
    → b < 2 ^ 16
    → (boot_u16_safe_add a b ≡ some s) ↔ ((a + b < 2 ^ 16) × (s ≡ a + b))
unfolding boot_u16_safe_add
boot_u16_safe_add_iff a b s ha hb = (λ h. ground arith, λ h. ground arith)
