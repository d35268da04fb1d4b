-- ===== src/SecCnt/Counted.antt =====
-- What stands in the file when `file_img_get_security_cnt` reports success.
use mathlib.Core.Path.{subst₂}
use ruuvi_air_mcuboot.Prelude.{
  ℕ, ◌+◌, ◌-◌, ◌≤◌, ◌<◌, ◌≡◌, ◌≢◌, inl, inr, true, false, refl, sym, ap, ◌∙◌, ◌||◌, ◌>>=◌,
}
use ruuvi_air_mcuboot.Prelude.{Option, none, some, List, length, slice, arith, Runs, Bool-cases}
use ruuvi_air_mcuboot.Prelude.{◌==◌, if◌then◌else◌, pos, is_zero}
use ruuvi_air_mcuboot.Platform.Format.{
  ImageHeader, ImageFormat, IsFormat, IsHeader, CounterFormat, IsCounterFormat,
}
use ruuvi_air_mcuboot.Platform.Files.{FileApi, ReadResult, IsOpenFile, IsOpen}
use ruuvi_air_mcuboot.SafeAdd.{boot_tlv_off}
use ruuvi_air_mcuboot.Tlv.{TlvIter, Next, found, no_more, failed}
use ruuvi_air_mcuboot.Tlv.Load.{Loaded, load_image_data_lem}
use ruuvi_air_mcuboot.Tlv.Walk.{Walk, Walk-map, tlv_at}
use ruuvi_air_mcuboot.Tlv.Round.{Answered}
use ruuvi_air_mcuboot.Tlv.Iter.{file_tlv_iter_next_lem}
use ruuvi_air_mcuboot.Tlv.Begin.{MaybeBegun, Begun, info_at, file_tlv_iter_begin_lem}
use ruuvi_air_mcuboot.SecCnt.Defs.{
  security_cnt_size, counter_answered, counter_begun, security_cnt_of, file_img_get_security_cnt,
}

module _ (fmt : ImageFormat) (c : CounterFormat) (content : List ℕ) (hdr : ImageHeader) where
  abbrev pub prot_end_of : ℕ
  prot_end_of = boot_tlv_off hdr + hdr.ih_protect_tlv_size

  -- `bytes` are the payload of the first counter TLV that the walk from the first TLV meets. It
  -- starts at `at`, in the protected area, which has the info that the header claims.
  pub record Counted (bytes : List ℕ) : Type 0 where
    pub at : ℕ
    pub has_area : 0 < hdr.ih_protect_tlv_size
    pub prot_magic : (info_at fmt content (boot_tlv_off hdr)).it_magic ≡ fmt.tlv_prot_info_magic
    pub prot_tot : (info_at fmt content (boot_tlv_off hdr)).it_tlv_tot ≡ hdr.ih_protect_tlv_size
    pub walk :
        Walk fmt content hdr prot_end_of
          (λ t. t ≢ c.image_tlv_sec_cnt)
          (boot_tlv_off hdr + fmt.tlv_info_size)
          at
    pub protected : at < prot_end_of
    pub is_counter : (tlv_at fmt content at).it_type ≡ c.image_tlv_sec_cnt
    pub is_len : (tlv_at fmt content at).it_len ≡ security_cnt_size
    pub whole : at + fmt.tlv_size + security_cnt_size ≤ length content
    pub value : bytes ≡ slice content (at + fmt.tlv_size) security_cnt_size

module _ (fmt : ImageFormat) (lawful : IsFormat fmt) (c : CounterFormat)
    (codes : IsCounterFormat fmt c) (content : List ℕ) (hdr : ImageHeader) where
  -- The TLV that the iterator has found in the protected area is the counter.
  found-Counted :
      (f off len type : ℕ) (it it' : TlvIter)
      → 0 < hdr.ih_protect_tlv_size
      → Begun fmt content hdr f c.image_tlv_sec_cnt true it
      → Answered fmt content hdr it (found off len type) it'
      → len ≡ security_cnt_size
      → security_cnt_size ≤ length content - off
      → Counted fmt c content hdr (slice content off security_cnt_size)
  found-Counted f off len type it it' area b (o, walk, more, tlv, inl any, prot, e, m) l fits =
      absurd (codes.sec_cnt-ne-any (any ∙ b.is_type))
  found-Counted f off len type it it' area b (o, walk, more, tlv, inr same, prot, e, m) l fits =
      record {
        at = o;
        has_area = area;
        prot_magic = (b.prot_info area).0;
        prot_tot = (b.prot_info area).1;
        walk =
            subst₂ (λ p a. Walk fmt content hdr p (λ t. t ≢ c.image_tlv_sec_cnt) a o) b.prot_end
              b.first (Walk-map (λ t u x. u.1 (x ∙ sym b.is_type)) walk);
        protected = omega (arith, here_at, tlv.is_off, inside, b.prot_end);
        is_counter =
            ap (λ (i : ℕ). (tlv_at fmt content i).it_type) (sym here_at)
            ∙ sym tlv.is_type
            ∙ same
            ∙ b.is_type;
        is_len = ap (λ (i : ℕ). (tlv_at fmt content i).it_len) (sym here_at) ∙ sym tlv.is_len ∙ l;
        whole = omega (arith, here_at, tlv.is_off);
        value =
            ap (λ (i : ℕ). slice content i security_cnt_size)
              (tlv.is_off ∙ ap (λ (i : ℕ). i + fmt.tlv_size) here_at);
      }
    where
      inside : off < it.prot_end + fmt.tlv_size
      inside = prot b.is_prot

      here_at : tlv.start ≡ o
      here_at = ground (arith, tlv.start_eq, tlv.is_off, inside)

  -- What is known of the result.
  abbrev pub Known : ReadResult → Type 0
  Known r = (is_zero r.rc ≡ true) → Counted fmt c content hdr r.bytes

  module _ {W : Type 0} (api : FileApi W) (f : ℕ) (At : W → ℕ → Type 0)
      (file : IsOpenFile api f content At) where
    abbrev Good : ReadResult → W → Type 0
    Good r w = Known r × IsOpen api f content At w

    loaded-Known :
        (off : ℕ) (r : ReadResult)
        → (security_cnt_size ≤ length content - off
            → Counted fmt c content hdr (slice content off security_cnt_size))
        → Loaded content off security_cnt_size r
        → Known (record r { rc = if is_zero r.rc then pos 0 else c.boot_eflash })
    loaded-Known off r counted (inl (e, fits)) = λ z. rw e (counted fits)
    loaded-Known off r counted (inr e) = λ z. absurd (ground (arith, codes.eflash_nonzero))

    counter_answered_lem :
        (it it' : TlvIter) (n : Next) (w : W)
        → 0 < hdr.ih_protect_tlv_size
        → Begun fmt content hdr f c.image_tlv_sec_cnt true it
        → Answered fmt content hdr it n it'
        → IsOpen api f content At w
        → Runs Good (counter_answered fmt api c f n w)
    unfolding counter_answered
    counter_answered_lem it it' no_more w area b a at = (_, _, refl, ((λ z. cc), at))
    counter_answered_lem it it' failed w area b a at = (_, _, refl, ((λ z. cc), at))
    counter_answered_lem it it' (found off len type) w area b a at =
        elim (Bool-cases (len == security_cnt_size)) [
          | inr e ↦ rw e (_, _, refl, ((λ z. absurd (ground (arith, codes.ebadimage_nonzero))), at))
          | inl e ↦
              let l : len ≡ security_cnt_size = ground arith in
              let (r, w', run, (loaded, at')) =
                load_image_data_lem api f content At file off security_cnt_size w (omega arith)
                  at in
              rw (e, l, run, ◌>>=◌)
                (
                  _,
                  _,
                  refl,
                  (loaded-Known off r (found-Counted f off len type it it' area b a l) loaded, at'),
                )
        ]

    counter_begun_lem :
        (o : Option TlvIter) (w : W)
        → 0 < hdr.ih_protect_tlv_size
        → MaybeBegun fmt content hdr f c.image_tlv_sec_cnt true o
        → IsOpen api f content At w
        → Runs Good (counter_begun fmt api c f o w)
    unfolding counter_begun
    counter_begun_lem none w area b at = (_, _, refl, ((λ z. cc), at))
    counter_begun_lem (some it) w area b at =
        let (a, w', run, (answered, at')) =
          file_tlv_iter_next_lem fmt lawful content hdr file.short api f At file it w b.is_iter
            at in
        rw (run, ◌>>=◌) (counter_answered_lem it a.1 a.0 w' area b answered at')

    -- On a file that is open on a content, `file_img_get_security_cnt` returns although every read
    -- may fail, and leaves the file open. Where it reports success, the counter that it has written
    -- is the payload, four bytes long, of the first counter TLV that stands in the file, that TLV
    -- starts in the protected area, and the area has the info that the image header claims. A
    -- header without protected TLVs is refused as a bad image.
    pub file_img_get_security_cnt_lem :
        IsHeader hdr
        → (img_security_cnt : ℕ) (w : W) → 0 < img_security_cnt
        → IsOpen api f content At w
        → Runs
            (λ r w'.
              ((is_zero r.rc ≡ true) → Counted fmt c content hdr r.bytes)
              × ((hdr.ih_protect_tlv_size ≡ 0) → r.rc ≡ c.boot_ebadimage)
              × IsOpen api f content At w')
            (file_img_get_security_cnt fmt api c (some hdr) f img_security_cnt w)
    unfolding file_img_get_security_cnt security_cnt_of
    file_img_get_security_cnt_lem header img_security_cnt w written at =
        elim (Bool-cases (hdr.ih_protect_tlv_size == 0)) [
          | inl e ↦
              rw (pointers, e)
                (
                  _,
                  _,
                  refl,
                  ((λ z. absurd (ground (arith, codes.ebadimage_nonzero))), (λ z. refl), at),
                )
          | inr e ↦
              let (o, w', run, (begun, at')) =
                file_tlv_iter_begin_lem fmt lawful content hdr header f c.image_tlv_sec_cnt true api
                  At file w at in
              let area : 0 < hdr.ih_protect_tlv_size = ground arith in
              let (r, w'', run', (known, at'')) = counter_begun_lem o w' area begun at' in
              rw (pointers, e, run, ◌>>=◌)
                (r, w'', run', (known, (λ z. absurd (omega arith)), at''))
        ]
      where
        pointers : (f == 0 || img_security_cnt == 0) ≡ false
        pointers = ground (arith, file.not_null)
