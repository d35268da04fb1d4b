-- ===== src/Tlv/Begin.antt =====
-- `file_tlv_iter_begin`: what an iterator that it starts stands for.
use ruuvi_air_mcuboot.Prelude.{
  ℕ, ◌+◌, ◌-◌, ◌≤◌, ◌<◌, ◌^◌, ◌≡◌, inl, inr, Bool, true, false, refl, ◌>>=◌,
}
use ruuvi_air_mcuboot.Prelude.{Option, none, some, List, length, slice, arith, Runs, Bool-cases}
use ruuvi_air_mcuboot.Prelude.{◌==◌, add32}
use ruuvi_air_mcuboot.Platform.Format.{ImageHeader, TlvInfo, ImageFormat, IsFormat, IsHeader}
use ruuvi_air_mcuboot.Platform.Files.{FileApi, ReadResult, IsOpenFile, IsOpen}
use ruuvi_air_mcuboot.SafeAdd.{boot_tlv_off}
use ruuvi_air_mcuboot.Tlv.Defs.{TlvIter, start_iter, begin_at_info, begin_at_first}
use ruuvi_air_mcuboot.Tlv.Defs.{file_tlv_iter_begin}
use ruuvi_air_mcuboot.Tlv.Load.{piece, Loaded, load_image_data_lem}
use ruuvi_air_mcuboot.Tlv.Round.{IsIter}

abbrev pub info_at : ImageFormat → List ℕ → ℕ → TlvInfo
info_at fmt content o = fmt.parse_tlv_info (slice content o fmt.tlv_info_size)

module _ (fmt : ImageFormat) (content : List ℕ) (hdr : ImageHeader) where
  -- The iterator stands at the first TLV behind the first info, at `boot_tlv_off`, and knows where
  -- the protected area and the whole area end. A header that claims protected TLVs has the protected info first, of
  -- the size that it claims; the info of the other TLVs follows it.
  pub record Begun (f type : ℕ) (prot : Bool) (it : TlvIter) : Type 0 where
    pub is_iter : IsIter hdr f it
    pub is_type : it.type ≡ type
    pub is_prot : it.prot ≡ prot
    pub first : it.tlv_off ≡ boot_tlv_off hdr + fmt.tlv_info_size
    pub prot_end : it.prot_end ≡ boot_tlv_off hdr + hdr.ih_protect_tlv_size
    pub info_magic : (info_at fmt content it.prot_end).it_magic ≡ fmt.tlv_info_magic
    pub tlv_end : it.tlv_end ≡ it.prot_end + (info_at fmt content it.prot_end).it_tlv_tot
    pub prot_info :
        0 < hdr.ih_protect_tlv_size
        → ((info_at fmt content (boot_tlv_off hdr)).it_magic ≡ fmt.tlv_prot_info_magic)
          × ((info_at fmt content (boot_tlv_off hdr)).it_tlv_tot ≡ hdr.ih_protect_tlv_size)

  abbrev pub MaybeBegun : ℕ → ℕ → Bool → Option TlvIter → Type 0
  MaybeBegun f type prot none = Unit {0}
  MaybeBegun f type prot (some it) = Begun f type prot it

module _ (fmt : ImageFormat) (lawful : IsFormat fmt) (content : List ℕ) (hdr : ImageHeader)
    (header : IsHeader hdr) (f type : ℕ) (prot : Bool) where
  -- A header with protected TLVs stands before their info.
  abbrev ProtInfo : Type 0
  ProtInfo =
      0 < hdr.ih_protect_tlv_size
      → ((info_at fmt content (boot_tlv_off hdr)).it_magic ≡ fmt.tlv_prot_info_magic)
        × ((info_at fmt content (boot_tlv_off hdr)).it_tlv_tot ≡ hdr.ih_protect_tlv_size)

  start_iter-Begun :
      (q : ℕ)
      → boot_tlv_off hdr + fmt.tlv_info_size < 2 ^ 31 + 1
      → q ≡ boot_tlv_off hdr + hdr.ih_protect_tlv_size
      → ProtInfo
      → MaybeBegun fmt content hdr f type prot
          (start_iter fmt hdr f type prot (boot_tlv_off hdr) (info_at fmt content q))
  unfolding start_iter
  start_iter-Begun q low e p =
      elim (Bool-cases (fmt.tlv_info_magic == (info_at fmt content q).it_magic)) [
        | inr e' ↦ rw e' tt
        | inl e' ↦
            rw (e', wrap)
              (record {
                is_iter = record { has_hdr = refl; has_file = refl; no_wrap = omega arith };
                is_type = refl;
                is_prot = refl;
                first = omega arith;
                prot_end = e;
                info_magic = ground arith;
                tlv_end =
                    omega (
                      arith,
                      header.protect_u16,
                      lawful.tlv_tot (slice content q fmt.tlv_info_size),
                    );
                prot_info = p;
              })
      ]
    where
      wrap : add32 (boot_tlv_off hdr) hdr.ih_protect_tlv_size ≡ q
      wrap = omega (arith, header.protect_u16)

  module _ {W : Type 0} (api : FileApi W) (At : W → ℕ → Type 0)
      (file : IsOpenFile api f content At) where
    abbrev After : Option TlvIter → W → Type 0
    After o w = MaybeBegun fmt content hdr f type prot o × IsOpen api f content At w

    small : fmt.tlv_info_size < 2 ^ 31
    small = omega (arith, lawful.info_size_small)

    low : (q : ℕ) → fmt.tlv_info_size ≤ length content - q → q + fmt.tlv_info_size < 2 ^ 31 + 1
    low q h = omega (arith, file.short, lawful.info_size_pos)

    second_read :
        (q : ℕ) (r : ReadResult) (w : W)
        → q ≡ boot_tlv_off hdr + hdr.ih_protect_tlv_size
        → boot_tlv_off hdr + fmt.tlv_info_size < 2 ^ 31 + 1
        → ProtInfo
        → Loaded content q fmt.tlv_info_size r
        → IsOpen api f content At w
        → Runs After (begin_at_info fmt api hdr f type prot (boot_tlv_off hdr) r w)
    unfolding begin_at_info
    second_read q r w e l p (inr z) at = rw z (_, _, refl, (tt, at))
    second_read q r w e l p (inl (z, _)) at = rw z (_, _, refl, (start_iter-Begun q l e p, at))

    whole_read :
        fmt.tlv_info_size ≤ length content - boot_tlv_off hdr
        → (w : W) → IsOpen api f content At w
        → Runs After (
            begin_at_first fmt api hdr f type prot
              (boot_tlv_off hdr)
              (piece content (boot_tlv_off hdr) fmt.tlv_info_size)
              w)
    unfolding begin_at_first
    whole_read l w at = elim (Bool-cases (fmt.tlv_prot_info_magic == info.it_magic)) [
      | inr e ↦ elim (Bool-cases (hdr.ih_protect_tlv_size == 0)) [
        | inr e' ↦ rw (e, e') (_, _, refl, (tt, at))
        | inl e' ↦
            rw (e, e')
              (second_read (boot_tlv_off hdr) _ w (ground arith) (low _ l)
                (λ h. absurd (ground arith)) (inl (refl, l)) at)
      ]
      | inl e ↦ elim (Bool-cases (hdr.ih_protect_tlv_size == info.it_tlv_tot)) [
        | inr e' ↦ rw (e, e') (_, _, refl, (tt, at))
        | inl e' ↦
            let (r, w', run, (loaded, at')) =
              load_image_data_lem api f content At file (add32 (boot_tlv_off hdr) info.it_tlv_tot)
                fmt.tlv_info_size w small at in
            rw (e, e', run, ◌>>=◌)
              (second_read _ r w' (second_at e') (low _ l) (λ h. (ground arith, ground arith))
                loaded at')
      ]
    ]
      where
        info : TlvInfo
        info = info_at fmt content (boot_tlv_off hdr)

        second_at :
            (hdr.ih_protect_tlv_size == info.it_tlv_tot) ≡ true
            → add32 (boot_tlv_off hdr) info.it_tlv_tot ≡ boot_tlv_off hdr + hdr.ih_protect_tlv_size
        second_at e = ground (arith, header.protect_u16, low (boot_tlv_off hdr) l)

    first_read :
        (r : ReadResult) (w : W)
        → Loaded content (boot_tlv_off hdr) fmt.tlv_info_size r
        → IsOpen api f content At w
        → Runs After (begin_at_first fmt api hdr f type prot (boot_tlv_off hdr) r w)
    unfolding begin_at_first
    first_read r w (inr z) at = rw z (_, _, refl, (tt, at))
    first_read r w (inl (z, l)) at = rw z (whole_read l w at)

    -- On a file that is open on a content, `file_tlv_iter_begin` returns although every read may
    -- fail, and leaves the file open. An iterator that it starts stands behind an info header at
    -- `BOOT_TLV_OFF`, the sum of the image header's two sizes modulo 2^32; from this offset on none
    -- of its offsets wraps. The areas that it knows are those of the info headers that stand in the
    -- file, of which the last has the right magic and the protected one, at `BOOT_TLV_OFF`, its own
    -- magic and the size that the image header gives.
    pub file_tlv_iter_begin_lem :
        (w : W)
        → IsOpen api f content At w
        → Runs
            (λ o w'. MaybeBegun fmt content hdr f type prot o × IsOpen api f content At w')
            (file_tlv_iter_begin fmt api hdr f type prot w)
    unfolding file_tlv_iter_begin
    file_tlv_iter_begin_lem w at =
        let (r, w', run, (loaded, at')) =
          load_image_data_lem api f content At file (boot_tlv_off hdr) fmt.tlv_info_size w small
            at in
        rw (zero_test, run, ◌>>=◌) (first_read r w' loaded at')
      where
        zero_test : (f == 0) ≡ false
        zero_test = ground (arith, file.not_null)
