-- ===== src/Tlv/Starts.antt =====
-- The start of the iterator over every TLV of an image, where no read fails.
use ruuvi_air_mcuboot.Prelude.{
  ℕ, ◌<◌, ◌^◌, ◌≡◌, inl, inr, refl, subst, true, false, ◌>>=◌, some, Option,
}
use ruuvi_air_mcuboot.Prelude.{List, slice, arith, Runs, add32, ◌==◌, Bool-cases}
use ruuvi_air_mcuboot.Platform.Format.{ImageHeader, ImageFormat, IsFormat, IsHeader}
use ruuvi_air_mcuboot.Platform.Files.{FileApi, IsOpenFile, IsOpen, IsReliableFile}
use ruuvi_air_mcuboot.SafeAdd.{boot_tlv_off}
use ruuvi_air_mcuboot.Tlv.Defs.{
  TlvIter, start_iter, begin_at_info, begin_at_first, file_tlv_iter_begin,
}
use ruuvi_air_mcuboot.Tlv.Load.{piece}
use ruuvi_air_mcuboot.Tlv.Begin.{info_at}
use ruuvi_air_mcuboot.Tlv.Areas.{unprot_off, first_off, HasInfos}
use ruuvi_air_mcuboot.Tlv.Reliable.{iter_at, load_ok}

module _ (content : List ℕ) {W : Type 0} (api : FileApi W) (f : ℕ) (At : W → ℕ → Type 0)
    (file : IsOpenFile api f content At) (ok : IsReliableFile api) (fmt : ImageFormat)
    (lawful : IsFormat fmt) (hdr : ImageHeader) (header : IsHeader hdr)
    (infos : HasInfos fmt content hdr) where
  abbrev pub start : ℕ → TlvIter
  start = iter_at content api f At file ok fmt lawful hdr header

  null_test : (f == 0) ≡ false
  null_test = ground (arith, file.not_null)

  small : fmt.tlv_info_size < 2 ^ 31
  small = omega (arith, lawful.info_size_small)

  start_at :
      start_iter fmt hdr f fmt.tlv_any false
        (boot_tlv_off hdr)
        (info_at fmt content (unprot_off hdr))
      ≡ some (start (first_off fmt hdr))
  unfolding start_iter
  start_at = ground (
    arith,
    infos.info_magic,
    infos.there,
    file.short,
    lawful.info_size_pos,
    lawful.tlv_tot (slice content (unprot_off hdr) fmt.tlv_info_size),
  )

  abbrev Begins : Option TlvIter → W → Type 0
  Begins o w = (o ≡ some (start (first_off fmt hdr))) × IsOpen api f content At w

  first_only :
      (w : W)
      → hdr.ih_protect_tlv_size ≡ 0
      → IsOpen api f content At w
      → Runs Begins (
          begin_at_first fmt api hdr f fmt.tlv_any false
            (boot_tlv_off hdr)
            (piece content (boot_tlv_off hdr) fmt.tlv_info_size)
            w)
  unfolding begin_at_first begin_at_info
  first_only w none at =
      let same : (unprot_off hdr) ≡ boot_tlv_off hdr = omega arith in
      let magic : (info_at fmt content (boot_tlv_off hdr)).it_magic ≡ fmt.tlv_info_magic =
        subst (λ q. (info_at fmt content q).it_magic ≡ fmt.tlv_info_magic) same infos.info_magic in
      let other : (fmt.tlv_prot_info_magic == (info_at fmt content (boot_tlv_off hdr)).it_magic)
          ≡ false =
        ground (arith, lawful.magics_differ) in
      let zero_size : (hdr.ih_protect_tlv_size == 0) ≡ true = ground arith in
      rw (other, zero_size)
        (
          _,
          _,
          refl,
          (
            subst
                (λ q.
                  start_iter fmt hdr f fmt.tlv_any false (boot_tlv_off hdr) (info_at fmt content q)
                  ≡ some (start (first_off fmt hdr)))
                same start_at,
            at,
          ),
        )

  with_protected :
      (w : W)
      → 0 < hdr.ih_protect_tlv_size
      → IsOpen api f content At w
      → Runs Begins (
          begin_at_first fmt api hdr f fmt.tlv_any false
            (boot_tlv_off hdr)
            (piece content (boot_tlv_off hdr) fmt.tlv_info_size)
            w)
  unfolding begin_at_first begin_at_info
  with_protected w area at =
      let (magic, tot) = infos.prot_info area in
      let is_prot : (fmt.tlv_prot_info_magic == (info_at fmt content (boot_tlv_off hdr)).it_magic)
          ≡ true =
        ground arith in
      let same_size : (hdr.ih_protect_tlv_size
            == (info_at fmt content (boot_tlv_off hdr)).it_tlv_tot)
          ≡ true =
        ground arith in
      let second : add32 (boot_tlv_off hdr) (info_at fmt content (boot_tlv_off hdr)).it_tlv_tot
          ≡ (unprot_off hdr) =
        omega (arith, infos.there, file.short) in
      let (r, w', run, (e, at')) =
        load_ok content api f At file ok (unprot_off hdr) fmt.tlv_info_size w small infos.there
          at in
      rw (is_prot, same_size, second, run, ◌>>=◌, e) (_, _, refl, (start_at, at'))

  -- `file_tlv_iter_begin` starts at the first TLV.
  pub begin_ok :
      (w : W)
      → IsOpen api f content At w
      → Runs Begins (file_tlv_iter_begin fmt api hdr f fmt.tlv_any false w)
  unfolding file_tlv_iter_begin
  begin_ok w at =
      let (r, w', run, (e, at')) =
        load_ok content api f At file ok (boot_tlv_off hdr) fmt.tlv_info_size w small
          (omega (arith, infos.there)) at in
      rw (null_test, run, ◌>>=◌, e)
        (elim (Bool-cases (hdr.ih_protect_tlv_size == 0)) [
          | inl z ↦ first_only w' (ground arith) at'
          | inr z ↦ with_protected w' (ground arith) at'
        ])
