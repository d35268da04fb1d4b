-- ===== src/Tlv/Round.antt =====
-- One round of `file_tlv_iter_next`, and the terms in which it and the whole call are described.
use ruuvi_air_mcuboot.Prelude.{ℕ, ◌+◌, ◌≤◌, ◌<◌, ◌^◌, ◌≡◌, ◌≢◌, ◌⊎◌, inl, inr}
use ruuvi_air_mcuboot.Prelude.{
  true, false, refl, ap, sym, subst, ◌∙◌, ◌>>=◌, some, Bool-cases, ◌&&◌, ◌||◌, add32, List, length,
  slice, arith, Runs,
}
use ruuvi_air_mcuboot.Prelude.{ltb, leb, ◌==◌, if◌then◌else◌, is_zero}
use ruuvi_air_mcuboot.Platform.Format.{ImageHeader, Tlv, ImageFormat, IsFormat}
use ruuvi_air_mcuboot.Platform.Files.{FileApi, ReadResult, IsOpenFile, IsOpen}
use ruuvi_air_mcuboot.Tlv.Defs.{
  TlvIter, Next, found, no_more, failed, Round, finished, again, skip_info, after_tlv, take_tlv,
  load_image_data, iter_round,
}
use ruuvi_air_mcuboot.Tlv.Load.{Loaded, load_image_data_lem}
use ruuvi_air_mcuboot.Tlv.Walk.{tlv_at, past_info, Walk, here, over}

-- An iterator in use on the file `f` with the header `hdr`; its offsets do not wrap.
pub record IsIter (hdr : ImageHeader) (f : ℕ) (it : TlvIter) : Type 0 where
  pub has_hdr : it.hdr ≡ some hdr
  pub has_file : it.p_file ≡ f
  pub no_wrap : it.tlv_off < 2 ^ 31 + 2 ^ 17

-- A round or a call leaves all but the offset, which grows.
pub record Moved (it it' : TlvIter) : Type 0 where
  pub same : it' ≡ record it { tlv_off = it'.tlv_off }
  pub forward : it.tlv_off < it'.tlv_off
  pub still_no_wrap : it'.tlv_off < 2 ^ 31 + 2 ^ 17

-- The iterator looks for the type `t`, or not.
abbrev pub Wanted : ImageFormat → TlvIter → ℕ → Type 0
Wanted fmt it t = (fmt.tlv_any ≡ it.type) ⊎ (t ≡ it.type)

abbrev pub Unwanted : ImageFormat → TlvIter → ℕ → Type 0
Unwanted fmt it t = (fmt.tlv_any ≢ it.type) × (t ≢ it.type)

module _ (fmt : ImageFormat) (content : List ℕ) (hdr : ImageHeader) where
  -- A TLV stands whole in the content at `o`, or behind the info that does.
  pub record IsTlv (prot_end o off len type : ℕ) : Type 0 where
    pub start : ℕ
    pub start_eq : start ≡ past_info fmt content hdr prot_end o
    pub whole : start + fmt.tlv_size ≤ length content
    pub is_off : off ≡ start + fmt.tlv_size
    pub is_len : len ≡ (tlv_at fmt content start).it_len
    pub is_type : type ≡ (tlv_at fmt content start).it_type

  -- What one round does from `it`.
  abbrev pub Rounded : TlvIter → Round → Type 0
  Rounded it (finished (found off len type) it') =
      (it.tlv_off < it.tlv_end)
      × IsTlv it.prot_end it.tlv_off off len type
      × Wanted fmt it type
      × ((it.prot ≡ true) → off < it.prot_end + fmt.tlv_size)
      × (it'.tlv_off ≡ off + len)
      × Moved it it'
  Rounded it (finished no_more it') =
      (it.tlv_end ≤ it.tlv_off)
      ⊎ ((it.prot ≡ true) × (it.prot_end ≤ past_info fmt content hdr it.prot_end it.tlv_off))
  Rounded it (finished failed it') = Unit
  Rounded it (again it') =
      (it.tlv_off < it.tlv_end)
      × Walk fmt content hdr it.prot_end (Unwanted fmt it) it.tlv_off it'.tlv_off
      × Moved it it'

  -- What a call of `file_tlv_iter_next` does from `it`. It answers with the first TLV of the wanted
  -- type, or that from here to the end of the area no TLV is of that type.
  abbrev pub Answered : TlvIter → Next → TlvIter → Type 0
  Answered it (found off len type) it' =
      (o : ℕ) × Walk fmt content hdr it.prot_end (Unwanted fmt it) it.tlv_off o
      × (o < it.tlv_end)
      × IsTlv it.prot_end o off len type
      × Wanted fmt it type
      × ((it.prot ≡ true) → off < it.prot_end + fmt.tlv_size)
      × (it'.tlv_off ≡ off + len)
      × Moved it it'
  Answered it no_more it' =
      (o : ℕ) × Walk fmt content hdr it.prot_end (Unwanted fmt it) it.tlv_off o
      × ((it.tlv_end ≤ o)
          ⊎ ((it.prot ≡ true) × (it.prot_end ≤ past_info fmt content hdr it.prot_end o)))
  Answered it failed it' = Unit {0}

pub Moved-trans : {a b c : TlvIter} → Moved a b → Moved b c → Moved a c
Moved-trans {c} v w = record {
  same = w.same ∙ ap (λ (i : TlvIter). record i { tlv_off = c.tlv_off }) v.same;
  forward = omega arith;
  still_no_wrap = w.still_no_wrap;
}

module _ (fmt : ImageFormat) (lawful : IsFormat fmt) (content : List ℕ) (hdr : ImageHeader)
    (short : length content < 2 ^ 31) where
  skip_info_lem :
      (f : ℕ) (it : TlvIter)
      → IsIter hdr f it
      → skip_info fmt hdr it
        ≡ record it { tlv_off = past_info fmt content hdr it.prot_end it.tlv_off }
  unfolding skip_info
  skip_info_lem f it v = ground (arith, lawful.info_size_small)

  module _ (it : TlvIter) (t : ℕ) (at : t ≡ past_info fmt content hdr it.prot_end it.tlv_off)
      (whole : t + fmt.tlv_size ≤ length content) (more : it.tlv_off < it.tlv_end) where
    after_tlv_lem :
        after_tlv fmt t (tlv_at fmt content t) ≡ t + fmt.tlv_size + (tlv_at fmt content t).it_len
    unfolding after_tlv
    after_tlv_lem = omega (arith, lawful.tlv_size_small, lawful.tlv_len)

    passed-Moved : Moved it (record it { tlv_off = after_tlv fmt t (tlv_at fmt content t) })
    passed-Moved = record {
      same = refl;
      forward = ground (arith, after_tlv_lem, lawful.tlv_size_pos);
      still_no_wrap = omega (arith, after_tlv_lem, lawful.tlv_len (slice content t fmt.tlv_size));
    }

    take_tlv-Rounded :
        Rounded fmt content hdr it (take_tlv fmt (record it { tlv_off = t }) (tlv_at fmt content t))
    unfolding take_tlv
    take_tlv-Rounded = elim (Bool-cases (it.prot && leb it.prot_end t)) [
      | inl e ↦ rw e (inr (ground arith))
      | inr e ↦ elim (Bool-cases (fmt.tlv_any == it.type || tlv.it_type == it.type)) [
        | inl e' ↦ rw (e, e') (more, tlv-IsTlv, wanted e', before_end e, off_lem, passed-Moved)
        | inr e' ↦ rw (e, e') (more, over here at whole (unwanted e') after_tlv_lem, passed-Moved)
      ]
    ]
      where
        tlv : Tlv
        tlv = tlv_at fmt content t

        off : ℕ
        off = add32 t fmt.tlv_size

        off_eq : off ≡ t + fmt.tlv_size
        off_eq = omega (arith, lawful.tlv_size_small)

        tlv-IsTlv : IsTlv fmt content hdr it.prot_end it.tlv_off off tlv.it_len tlv.it_type
        tlv-IsTlv = record {
          start = t;
          start_eq = at;
          whole = whole;
          is_off = off_eq;
          is_len = refl;
          is_type = refl;
        }

        wanted :
            (fmt.tlv_any == it.type || tlv.it_type == it.type) ≡ true → Wanted fmt it tlv.it_type
        wanted e = ground arith

        unwanted :
            (fmt.tlv_any == it.type || tlv.it_type == it.type) ≡ false → Unwanted fmt it tlv.it_type
        unwanted e = ground arith

        before_end :
            (it.prot && leb it.prot_end t) ≡ false
            → it.prot ≡ true
            → off < it.prot_end + fmt.tlv_size
        before_end e p = ground (arith, off_eq)

        off_lem : after_tlv fmt t tlv ≡ off + tlv.it_len
        off_lem = omega (arith, off_eq, after_tlv_lem)

  -- One round: it returns and leaves the file open, and does what `Rounded` says.
  pub iter_round_lem :
      {W : Type 0} (api : FileApi W) (f : ℕ) (At : W → ℕ → Type 0)
      → IsOpenFile api f content At
      → (it : TlvIter) (w : W) → IsIter hdr f it
      → IsOpen api f content At w
      → Runs
          (λ r w'. Rounded fmt content hdr it r × IsOpen api f content At w')
          (iter_round fmt api hdr it w)
  unfolding iter_round
  iter_round_lem {W} api f At file it w v at = elim (Bool-cases (ltb it.tlv_off it.tlv_end)) [
    | inr e ↦ rw e (_, _, refl, (inl (ground arith), at))
    | inl e ↦
        let (r, w', run, (loaded, open_after)) =
          load_image_data_lem api f content At file s.tlv_off fmt.tlv_size w small at in
        rw (e, ap (λ g. load_image_data api g s.tlv_off fmt.tlv_size w) same_file ∙ run, ◌>>=◌)
          (_, _, refl, (after_read r e loaded, open_after))
  ]
    where
      t : ℕ
      t = past_info fmt content hdr it.prot_end it.tlv_off

      s : TlvIter
      s = skip_info fmt hdr it

      small : fmt.tlv_size < 2 ^ 31
      small = omega (arith, lawful.tlv_size_small)

      same_file : s.p_file ≡ f
      same_file = ap (λ (i : TlvIter). i.p_file) (skip_info_lem f it v) ∙ v.has_file

      at_past :
          (r : ReadResult)
          → ltb it.tlv_off it.tlv_end ≡ true
          → Loaded content t fmt.tlv_size r
          → Rounded fmt content hdr it (
              if is_zero r.rc
              then take_tlv fmt (record it { tlv_off = t }) (fmt.parse_tlv r.bytes)
              else finished failed (record it { tlv_off = t }))
      at_past r e (inr z) = rw z tt
      at_past r e (inl (z, l)) =
          rw z (take_tlv-Rounded it t refl (omega (arith, lawful.tlv_size_pos)) (ground arith))

      after_read :
          (r : ReadResult)
          → ltb it.tlv_off it.tlv_end ≡ true
          → Loaded content s.tlv_off fmt.tlv_size r
          → Rounded fmt content hdr it
              (if is_zero r.rc then take_tlv fmt s (fmt.parse_tlv r.bytes) else finished failed s)
      after_read r e =
          subst
            (λ i.
              Loaded content i.tlv_off fmt.tlv_size r
              → Rounded fmt content hdr it (
                  if is_zero r.rc
                  then take_tlv fmt i (fmt.parse_tlv r.bytes)
                  else finished failed i))
            (sym (skip_info_lem f it v)) (at_past r e)
