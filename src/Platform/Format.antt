-- ===== src/Platform/Format.antt =====
-- The image format of bootutil/image.h, as far as the code reads it.
use ruuvi_air_mcuboot.Prelude.{ℕ, ◌<◌, ◌^◌, ◌≡◌, ◌≢◌, false, List, replicate, ℤ, is_zero}

-- `struct image_version`
pub record ImageVersion : Type 0 where
  pub iv_major : ℕ
  pub iv_minor : ℕ
  pub iv_revision : ℕ
  pub iv_build_num : ℕ

-- `struct image_header`
pub record ImageHeader : Type 0 where
  pub ih_magic : ℕ
  pub ih_hdr_size : ℕ
  pub ih_protect_tlv_size : ℕ
  pub ih_img_size : ℕ
  pub ih_flags : ℕ
  pub ih_ver : ImageVersion

-- `struct image_tlv_info`
pub record TlvInfo : Type 0 where
  pub it_magic : ℕ
  pub it_tlv_tot : ℕ

-- `struct image_tlv`
pub record Tlv : Type 0 where
  pub it_type : ℕ
  pub it_len : ℕ

-- The sizes of the three structs, the reading of their bytes, and the constants.
pub record ImageFormat : Type 0 where
  pub header_size : ℕ
  pub tlv_info_size : ℕ
  pub tlv_size : ℕ
  pub parse_header : List ℕ → ImageHeader
  pub parse_tlv_info : List ℕ → TlvInfo
  pub parse_tlv : List ℕ → Tlv
  pub tlv_info_magic : ℕ
  pub tlv_prot_info_magic : ℕ
  pub tlv_any : ℕ

-- The widths of the fields that the C structs declare.
pub record IsHeader (hdr : ImageHeader) : Type 0 where
  pub hdr_size_u16 : hdr.ih_hdr_size < 2 ^ 16
  pub protect_u16 : hdr.ih_protect_tlv_size < 2 ^ 16
  pub img_size_u32 : hdr.ih_img_size < 2 ^ 32

pub record IsFormat (fmt : ImageFormat) : Type 0 where
  pub info_size_pos : 0 < fmt.tlv_info_size
  pub info_size_small : fmt.tlv_info_size < 2 ^ 8
  pub tlv_size_pos : 0 < fmt.tlv_size
  pub tlv_size_small : fmt.tlv_size < 2 ^ 8
  pub header : (bs : List ℕ) → IsHeader (fmt.parse_header bs)
  -- A struct of zeros has the magic 0.
  pub zeros_no_info :
      (fmt.parse_tlv_info (replicate fmt.tlv_info_size 0)).it_magic ≢ fmt.tlv_prot_info_magic
  pub magics_differ : fmt.tlv_prot_info_magic ≢ fmt.tlv_info_magic
  pub tlv_tot : (bs : List ℕ) → (fmt.parse_tlv_info bs).it_tlv_tot < 2 ^ 16
  pub tlv_len : (bs : List ℕ) → (fmt.parse_tlv bs).it_len < 2 ^ 16
  pub tlv_type : (bs : List ℕ) → (fmt.parse_tlv bs).it_type < 2 ^ 16

-- The type of the TLV of the security counter, and the codes that its reader returns.
pub record CounterFormat : Type 0 where
  pub image_tlv_sec_cnt : ℕ
  pub boot_ebadargs : ℤ
  pub boot_ebadimage : ℤ
  pub boot_eflash : ℤ

-- No code of an error is 0, and the type is not the one that stands for any.
pub record IsCounterFormat (fmt : ImageFormat) (c : CounterFormat) : Type 0 where
  pub sec_cnt-ne-any : fmt.tlv_any ≢ c.image_tlv_sec_cnt
  pub ebadargs_nonzero : is_zero c.boot_ebadargs ≡ false
  pub ebadimage_nonzero : is_zero c.boot_ebadimage ≡ false
  pub eflash_nonzero : is_zero c.boot_eflash ≡ false
