-- ===== src/Tlv/Areas.antt =====
-- Where the TLVs of an image stand, by its header and the bytes of the file.
use ruuvi_air_mcuboot.Prelude.{ℕ, ◌+◌, ◌≤◌, ◌<◌, ◌≡◌, List, length}
use ruuvi_air_mcuboot.Platform.Format.{ImageHeader, ImageFormat}
use ruuvi_air_mcuboot.SafeAdd.{boot_tlv_off}
use ruuvi_air_mcuboot.Tlv.Walk.{tlv_at, past_info}
use ruuvi_air_mcuboot.Tlv.Begin.{info_at}

-- Where the info of the TLVs that are not protected stands.
abbrev pub unprot_off : ImageHeader → ℕ
unprot_off hdr = boot_tlv_off hdr + hdr.ih_protect_tlv_size

-- The first TLV stands behind the first info.
abbrev pub first_off : ImageFormat → ImageHeader → ℕ
first_off fmt hdr = boot_tlv_off hdr + fmt.tlv_info_size

module _ (fmt : ImageFormat) (content : List ℕ) where
  abbrev pub area_end : ImageHeader → ℕ
  area_end hdr = unprot_off hdr + (info_at fmt content (unprot_off hdr)).it_tlv_tot

  -- The TLV that is met at an offset: there, or behind the info that stands there.
  abbrev pub past : ImageHeader → ℕ → ℕ
  past hdr o = past_info fmt content hdr (unprot_off hdr) o

  -- Behind the TLV at `t`.
  abbrev pub behind : ℕ → ℕ
  behind t = t + fmt.tlv_size + (tlv_at fmt content t).it_len

  -- The info headers stand in the file, and say what the image header says.
  pub record HasInfos (hdr : ImageHeader) : Type 0 where
    pub there : unprot_off hdr + fmt.tlv_info_size ≤ length content
    pub info_magic : (info_at fmt content (unprot_off hdr)).it_magic ≡ fmt.tlv_info_magic
    pub prot_info :
        0 < hdr.ih_protect_tlv_size
        → ((info_at fmt content (boot_tlv_off hdr)).it_magic ≡ fmt.tlv_prot_info_magic)
          × ((info_at fmt content (boot_tlv_off hdr)).it_tlv_tot ≡ hdr.ih_protect_tlv_size)
