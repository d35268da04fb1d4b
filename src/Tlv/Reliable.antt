-- ===== src/Tlv/Reliable.antt =====
-- The iterator over every TLV of an image, where no read fails: what it answers at each offset.
use ruuvi_air_mcuboot.Prelude.{ℕ, ◌+◌, ◌≤◌, ◌<◌, ◌^◌, ◌≡◌, inl, inr, refl, true, false, ◌>>=◌, some}
use ruuvi_air_mcuboot.Prelude.{
  List, length, slice, length-slice, arith, Runs, ltb, ◌==◌, if◌then◌else◌, to_u32, pos, minus_one,
  IsError,
}
use ruuvi_air_mcuboot.Platform.Format.{ImageHeader, ImageFormat, IsFormat, IsHeader}
use ruuvi_air_mcuboot.Platform.Files.{
  FileApi, ReadResult, Whence, DidRead, IsOpenFile, IsOpen, IsReliableFile,
}
use ruuvi_air_mcuboot.Tlv.Defs.{
  TlvIter, Next, found, no_more, finished, skip_info, after_tlv, take_tlv, load_image_data,
  iter_round, iter_loop, iter_next_with, file_tlv_iter_next,
}
use ruuvi_air_mcuboot.Tlv.Load.{piece}
use ruuvi_air_mcuboot.Tlv.Walk.{tlv_at}
use ruuvi_air_mcuboot.Tlv.Areas.{unprot_off, area_end, past, behind}

module _ (content : List ℕ) {W : Type 0} (api : FileApi W) (f : ℕ) (At : W → ℕ → Type 0)
    (file : IsOpenFile api f content At) (ok : IsReliableFile api) where
  whole_piece :
      (start size : ℕ) (q : ReadResult × W)
      → size < 2 ^ 31
      → start + size ≤ length content
      → (IsError q.0.rc → ⊥)
      → DidRead api f content At start size q
      → ((if to_u32 q.0.rc == size
            then record q.0 { rc = pos 0 }
            else record q.0 { rc = minus_one })
          ≡ piece content start size)
        × IsOpen api f content At q.1
  whole_piece start size (r, w) small fits never (inl (e, at)) = absurd (never e)
  whole_piece start size (r, w) small fits never (inr (e, b, at)) =
      (ground (arith, length-slice content start size), (_, at))

  -- A piece that lies in the file is read in full.
  pub load_ok :
      (start size : ℕ) (w : W)
      → size < 2 ^ 31
      → start + size ≤ length content
      → IsOpen api f content At w
      → Runs
          (λ r w'. (r ≡ piece content start size) × IsOpen api f content At w')
          (load_image_data api f start size w)
  unfolding load_image_data
  load_ok start size w small fits (p, at) = elim (file.seek_set_lem w p start at) [
    | inl (e, at') ↦ absurd (ok.seek_ok f start Whence.seek_set w e)
    | inr (e, at') ↦ rw e (
      _,
      _,
      refl,
      whole_piece start size _ small fits (ok.read_ok f size _) (file.read_lem _ start size at'),
    )
  ]

  module _ (fmt : ImageFormat) (lawful : IsFormat fmt) (hdr : ImageHeader)
      (header : IsHeader hdr) where
    -- The iterator over all TLVs, at an offset.
    abbrev pub iter_at : ℕ → TlvIter
    iter_at o = record {
      hdr = some hdr;
      p_file = f;
      type = fmt.tlv_any;
      prot = false;
      prot_end = (unprot_off hdr);
      tlv_off = o;
      tlv_end = (area_end fmt content hdr);
    }

    null_test : (f == 0) ≡ false
    null_test = ground (arith, file.not_null)

    skip_info_at :
        (o : ℕ) → o < 2 ^ 31 → skip_info fmt hdr (iter_at o) ≡ iter_at (past fmt content hdr o)
    unfolding skip_info
    skip_info_at o low = ground (arith, lawful.info_size_small)

    take_tlv_at :
        (t : ℕ)
        → t < 2 ^ 31
        → take_tlv fmt (iter_at t) (tlv_at fmt content t)
          ≡ finished
              (found
                (t + fmt.tlv_size)
                (tlv_at fmt content t).it_len
                (tlv_at fmt content t).it_type)
              (iter_at (behind fmt content t))
    unfolding take_tlv after_tlv
    take_tlv_at t low =
        ground (arith, lawful.tlv_size_small, lawful.tlv_len (slice content t fmt.tlv_size))

    abbrev Gives : Next → ℕ → Next × TlvIter → W → Type 0
    Gives n o a w = (a ≡ (n, iter_at o)) × IsOpen api f content At w

    -- At an offset inside the area the iterator finds the TLV that stands there, or behind the info.
    pub next_found :
        (o : ℕ) (w : W)
        → o < (area_end fmt content hdr)
        → past fmt content hdr o + fmt.tlv_size ≤ length content
        → IsOpen api f content At w
        → Runs
            (Gives
              (found
                (past fmt content hdr o + fmt.tlv_size)
                (tlv_at fmt content (past fmt content hdr o)).it_len
                (tlv_at fmt content (past fmt content hdr o)).it_type)
              (behind fmt content (past fmt content hdr o)))
            (file_tlv_iter_next fmt api (iter_at o) w)
    unfolding file_tlv_iter_next iter_next_with iter_loop iter_round
    next_found o w more whole at =
        let (r, w', run, (e, at')) =
          load_ok (past fmt content hdr o) fmt.tlv_size w (omega (arith, lawful.tlv_size_small))
            whole at in
        let test : ltb o (area_end fmt content hdr) ≡ true = ground arith in
        rw (null_test, test, skip_info_at o low, run, ◌>>=◌, e)
          (rw (skip_info_at o low, take_tlv_at (past fmt content hdr o) past_low)
            (_, _, refl, (refl, at')))
      where
        past_low : past fmt content hdr o < 2 ^ 31
        past_low = omega (arith, file.short, lawful.tlv_size_pos)

        low : o < 2 ^ 31
        low = ground (arith, past_low)

    -- At the end of the area it answers that there is no TLV left.
    pub next_no_more :
        (o : ℕ) (w : W)
        → (area_end fmt content hdr) ≤ o
        → IsOpen api f content At w
        → Runs (Gives no_more o) (file_tlv_iter_next fmt api (iter_at o) w)
    unfolding file_tlv_iter_next iter_next_with iter_loop iter_round
    next_no_more o w over at =
        let test : ltb o (area_end fmt content hdr) ≡ false = ground arith in
        rw (null_test, test) (_, _, refl, (refl, at))
