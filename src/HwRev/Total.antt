-- ===== src/HwRev/Total.antt =====
-- The whole search for the hardware revision in a file.
use ruuvi_air_mcuboot.Prelude.{nil_of_length, length-slice, eq_false_of_ne, []}
use ruuvi_air_mcuboot.Prelude.{ℕ, suc, ◌+◌, ◌≤◌, ◌<◌, ◌^◌, ◌≡◌, inl, inr, refl}
use ruuvi_air_mcuboot.Prelude.{
  false, not, ◌>>=◌, some, none, Option, List, length, slice, overwrite,
}
use ruuvi_air_mcuboot.Prelude.{
  arith, Runs, M, pure, Bool-cases, ltb, ◌==◌, if◌then◌else◌, add32, to_u32,
}
use ruuvi_air_mcuboot.Prelude.{pos, is_neg, is_neg_of_error, is_zero_of_error, replicate}
use ruuvi_air_mcuboot.Platform.Format.{ImageHeader, TlvInfo, ImageFormat, IsFormat}
use ruuvi_air_mcuboot.Platform.Files.{FileApi, ReadResult, DidRead, IsOpenFile, IsOpen}
use ruuvi_air_mcuboot.Platform.System.{Config}
use ruuvi_air_mcuboot.HwRev.Defs.{
  HwRev, Handled, Span, hw_rev_name_size, cleared, span_of, find_tlvs_in_file, find_loop_in_file,
  find_with_header_in_file, fw_img_hw_rev_find_in_file,
}
use ruuvi_air_mcuboot.HwRev.Search.{IsNamed, cleared-IsNamed}
use ruuvi_air_mcuboot.HwRev.Loop.{Searched, find_loop_lem}

-- An area of TLVs whose offsets do not wrap.
abbrev IsLow : Span → Type 0
IsLow s = (s.start_off < 2 ^ 31 + 2 ^ 8) × (s.end_off < 2 ^ 31 + 2 ^ 17)

abbrev MaybeLow : Option Span → Type 0
MaybeLow none = Unit {0}
MaybeLow (some s) = IsLow s

module _ (fmt : ImageFormat) (lawful : IsFormat fmt) (cfg : Config) {W : Type 0} (files : FileApi W)
    (f : ℕ) (content : List ℕ) (At : W → ℕ → Type 0) (file : IsOpenFile files f content At) where
  abbrev Good : Handled → W → Type 0
  Good = Searched fmt lawful cfg files f content At file

  -- What has been read of the info, over zeros.
  abbrev info_of : List ℕ → TlvInfo
  info_of bytes = fmt.parse_tlv_info (overwrite (replicate fmt.tlv_info_size 0) bytes)

  span_of-MaybeLow :
      (start : ℕ) (bytes : List ℕ)
      → start < 2 ^ 31
      → MaybeLow (span_of fmt fmt.tlv_prot_info_magic start bytes)
  unfolding span_of
  span_of-MaybeLow start bytes low =
      elim (Bool-cases ((info_of bytes).it_magic == fmt.tlv_prot_info_magic)) [
        | inr e ↦ rw e tt
        | inl e ↦ rw e (
          omega (arith, lawful.info_size_small),
          omega (
            arith,
            lawful.info_size_small,
            lawful.tlv_tot (overwrite (replicate fmt.tlv_info_size 0) bytes),
          ),
        )
      ]

  -- Behind the end of the file nothing is read, and the zeros are no info.
  span_of-past :
      (start : ℕ)
      → length content ≤ start
      → MaybeLow (span_of fmt fmt.tlv_prot_info_magic start (slice content start fmt.tlv_info_size))
  unfolding span_of overwrite
  span_of-past start past =
      let nothing : slice content start fmt.tlv_info_size ≡ [] =
        nil_of_length _ (omega (arith, length-slice content start fmt.tlv_info_size)) in
      rw nothing (rw (eq_false_of_ne _ _ lawful.zeros_no_info) tt)

  span_of-slice :
      (start : ℕ)
      → MaybeLow (span_of fmt fmt.tlv_prot_info_magic start (slice content start fmt.tlv_info_size))
  span_of-slice start = elim (Bool-cases (ltb start (length content))) [
    | inl e ↦ span_of-MaybeLow start _ (ground (arith, file.short))
    | inr e ↦ span_of-past start (ground arith)
  ]

  span_read :
      (start : ℕ) (q : ReadResult × W)
      → DidRead files f content At start fmt.tlv_info_size q
      → Runs
          (λ o w. MaybeLow o × IsOpen files f content At w)
          ((if is_neg q.0.rc
              then pure none
              else pure (span_of fmt fmt.tlv_prot_info_magic start q.0.bytes))
            q.1)
  span_read start (r, w) (inl (e, at)) = rw (is_neg_of_error r.rc e) (_, _, refl, (tt, (_, at)))
  span_read start (r, w) (inr (e, b, at)) = rw (e, b) (_, _, refl, (span_of-slice start, (_, at)))

  find_tlvs_lem :
      (start : ℕ) (w : W)
      → IsOpen files f content At w
      → Runs
          (λ o w'. MaybeLow o × IsOpen files f content At w')
          (find_tlvs_in_file fmt cfg files f fmt.tlv_prot_info_magic start w)
  unfolding find_tlvs_in_file
  find_tlvs_lem start w (p, at) = elim (file.seek_set_lem w p start at) [
    | inl (e, at') ↦ rw (is_zero_of_error _ e) (_, _, refl, (tt, (_, at')))
    | inr (e, at') ↦ rw e (span_read start _ (file.read_lem _ start fmt.tlv_info_size at'))
  ]

  find_with_header_lem :
      (hdr : ImageHeader) (h : HwRev) (w : W)
      → IsNamed h
      → IsOpen files f content At w
      → Runs Good (find_with_header_in_file fmt cfg files f hdr h w)
  unfolding find_with_header_in_file
  find_with_header_lem hdr h w v at =
      let (o, w', run, (span_low, at')) =
        find_tlvs_lem (add32 hdr.ih_hdr_size hdr.ih_img_size) w at in
      rw (run, ◌>>=◌) (go o w' span_low at')
    where
      go :
          (o : Option Span) (w' : W)
          → MaybeLow o
          → IsOpen files f content At w'
          → Runs Good (
              (elim o as (λ _. M W Handled) [
                | none ↦ pure (record { ok = false; hw_rev = h })
                | some span ↦
                    find_loop_in_file fmt cfg files
                      (suc span.end_off)
                      f
                      span
                      span.start_off
                      (replicate fmt.tlv_size 0)
                      h
              ])
                w')
      go none w' l at' = (_, _, refl, (v, (λ z. cc), at'))
      go (some span) w' l at' =
          find_loop_lem fmt lawful cfg files f content At file (suc span.end_off) span
            span.start_off (replicate fmt.tlv_size 0) h w' l.1 (omega (arith, l.0)) (omega arith) v
            at'

  header_read :
      (h : HwRev) (q : ReadResult × W)
      → IsNamed h
      → DidRead files f content At 0 fmt.header_size q
      → Runs Good (
          (if is_neg q.0.rc
              then pure (record { ok = false; hw_rev = h })
              else if not (to_u32 q.0.rc == fmt.header_size)
              then pure (record { ok = false; hw_rev = h })
              else find_with_header_in_file fmt cfg files f (fmt.parse_header q.0.bytes) h)
            q.1)
  header_read h (r, w) v (inl (e, at)) =
      rw (is_neg_of_error r.rc e) (_, _, refl, (v, (λ z. cc), (_, at)))
  header_read h (r, w) v (inr (e, b, at)) =
      elim (Bool-cases (to_u32 (pos (length r.bytes)) == fmt.header_size)) [
        | inr e' ↦ rw (e, e') (_, _, refl, (v, (λ z. cc), (_, at)))
        | inl e' ↦
            rw (e, e', b)
              (find_with_header_lem (fmt.parse_header (slice content 0 fmt.header_size)) h w v
                (_, at))
      ]

  -- On a file that is open on a content, whatever it is, the search for the hardware revision
  -- returns although every call may fail, and leaves the file open. The
  -- name that it leaves fills its array of 16 bytes and has a NUL in it, and where it returns
  -- true, the number is not 0 and the name is not empty.
  pub fw_img_hw_rev_find_in_file_lem :
      (h : HwRev) (w : W)
      → length h.hw_rev_name ≡ hw_rev_name_size
      → IsOpen files f content At w
      → Runs
          (Searched fmt lawful cfg files f content At file)
          (fw_img_hw_rev_find_in_file fmt cfg files f h w)
  unfolding fw_img_hw_rev_find_in_file
  fw_img_hw_rev_find_in_file_lem h w fills (p, at) = elim (file.seek_set_lem w p 0 at) [
    | inl (e, at') ↦
        rw (is_zero_of_error _ e) (_, _, refl, (cleared-IsNamed h fills, (λ z. cc), (_, at')))
    | inr (e, at') ↦ rw e (
        header_read (cleared h) _ (cleared-IsNamed h fills) (file.read_lem _ 0 fmt.header_size at'))
  ]
