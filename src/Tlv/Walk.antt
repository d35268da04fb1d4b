-- ===== src/Tlv/Walk.antt =====
-- The TLVs of an image as a relation on its bytes, independent of the iterator: which offsets are
-- reached from a first one, TLV by TLV.
use ruuvi_air_mcuboot.Prelude.{ℕ, ◌+◌, ◌≤◌, ◌≡◌, ◌&&◌, List, length, slice, ltb, ◌==◌, arith}
use ruuvi_air_mcuboot.Prelude.{if◌then◌else◌}
use ruuvi_air_mcuboot.Platform.Format.{ImageHeader, Tlv, ImageFormat}

module _ (fmt : ImageFormat) (content : List ℕ) where
  -- The TLV whose header stands at `o`.
  abbrev pub tlv_at : ℕ → Tlv
  tlv_at o = fmt.parse_tlv (slice content o fmt.tlv_size)

  -- Behind the protected TLVs stands another info, which is no TLV.
  abbrev pub past_info : ImageHeader → ℕ → ℕ → ℕ
  past_info hdr prot_end o =
      if ltb 0 hdr.ih_protect_tlv_size && o == prot_end then o + fmt.tlv_info_size else o

  -- `Walk hdr prot_end P a b`: from `a` one comes to `b` over whole TLVs whose types satisfy `P`.
  pub data Walk (hdr : ImageHeader) (prot_end : ℕ) (P : ℕ → Type 0) (a : ℕ) : ℕ → Type 0 where
    here : Walk hdr prot_end P a a
    over :
        {o t n : ℕ}
        → Walk hdr prot_end P a o
        → t ≡ past_info hdr prot_end o
        → t + fmt.tlv_size ≤ length content
        → P (tlv_at t).it_type
        → n ≡ t + fmt.tlv_size + (tlv_at t).it_len
        → Walk hdr prot_end P a n

pub past_info-ge :
    (fmt : ImageFormat) (content : List ℕ) (hdr : ImageHeader) (prot_end o : ℕ)
    → o ≤ past_info fmt content hdr prot_end o
past_info-ge fmt content hdr prot_end o = ground arith

module _ {fmt : ImageFormat} {content : List ℕ} {hdr : ImageHeader} {prot_end : ℕ} where
  pub Walk-trans :
      {P : ℕ → Type 0} {a b c : ℕ}
      → Walk fmt content hdr prot_end P a b
      → Walk fmt content hdr prot_end P b c
      → Walk fmt content hdr prot_end P a c
  Walk-trans v here = v
  Walk-trans v (over w e l p n) = over (Walk-trans v w) e l p n

  pub Walk-map :
      {P Q : ℕ → Type 0} {a b : ℕ}
      → ((t : ℕ) → P t → Q t)
      → Walk fmt content hdr prot_end P a b
      → Walk fmt content hdr prot_end Q a b
  Walk-map k here = here
  Walk-map k (over w e l p n) = over (Walk-map k w) e l (k _ p) n

  pub Walk-le : {P : ℕ → Type 0} {a b : ℕ} → Walk fmt content hdr prot_end P a b → a ≤ b
  Walk-le here = omega arith
  Walk-le (over {o} w e l p n) = omega (arith, Walk-le w, past_info-ge fmt content hdr prot_end o)
