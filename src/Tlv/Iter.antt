-- ===== src/Tlv/Iter.antt =====
-- `file_tlv_iter_next` against the walk over the TLVs.
use ruuvi_air_mcuboot.Prelude.{ℕ, zero, suc, ◌-◌, ◌<◌, ◌^◌, ◌≡◌}
use ruuvi_air_mcuboot.Prelude.{
  false, refl, ap, sym, subst, ◌∙◌, ◌>>=◌, pure, List, length, arith, Runs, M,
}
use ruuvi_air_mcuboot.Prelude.{◌==◌}
use ruuvi_air_mcuboot.Platform.Format.{ImageHeader, ImageFormat, IsFormat}
use ruuvi_air_mcuboot.Platform.Files.{FileApi, IsOpenFile, IsOpen}
use ruuvi_air_mcuboot.Tlv.Defs.{
  TlvIter, Next, found, no_more, failed, Round, finished, again, iter_loop, iter_next_with,
  file_tlv_iter_next,
}
use ruuvi_air_mcuboot.Tlv.Walk.{Walk, here, Walk-trans}
use ruuvi_air_mcuboot.Tlv.Round.{
  IsIter, Moved, Unwanted, Rounded, Answered, Moved-trans, iter_round_lem,
}

module _ (fmt : ImageFormat) (lawful : IsFormat fmt) (content : List ℕ) (hdr : ImageHeader)
    (short : length content < 2 ^ 31) where
  Answered-at :
      (it : TlvIter) (x : ℕ) (n : Next) (it' : TlvIter)
      → Walk fmt content hdr it.prot_end (Unwanted fmt it) it.tlv_off x
      → Moved it (record it { tlv_off = x })
      → Answered fmt content hdr (record it { tlv_off = x }) n it'
      → Answered fmt content hdr it n it'
  Answered-at it x (found off len type) it' walk m (o, walk', more, tlv, want, p, e, m') =
      (o, Walk-trans walk walk', more, tlv, want, p, e, Moved-trans m m')
  Answered-at it x no_more it' walk m (o, walk', stop) = (o, Walk-trans walk walk', stop)
  Answered-at it x failed it' walk m h = tt

  Answered-after :
      (it s : TlvIter) (n : Next) (it' : TlvIter)
      → Walk fmt content hdr it.prot_end (Unwanted fmt it) it.tlv_off s.tlv_off
      → Moved it s
      → Answered fmt content hdr s n it'
      → Answered fmt content hdr it n it'
  Answered-after it s n it' walk m h =
      Answered-at it s.tlv_off n it' walk (subst (λ i. Moved it i) m.same m)
        (subst (λ i. Answered fmt content hdr i n it') m.same h)

  Answered-now :
      (it : TlvIter) (n : Next) (it' : TlvIter)
      → Rounded fmt content hdr it (finished n it')
      → Answered fmt content hdr it n it'
  Answered-now it (found off len type) it' (more, tlv, want, p, e, m) =
      (it.tlv_off, here, more, tlv, want, p, e, m)
  Answered-now it no_more it' stop = (it.tlv_off, here, stop)
  Answered-now it failed it' h = tt

  pub Moved-IsIter : (f : ℕ) (it s : TlvIter) → IsIter hdr f it → Moved it s → IsIter hdr f s
  Moved-IsIter f it s v m = record {
    has_hdr = ap (λ (i : TlvIter). i.hdr) m.same ∙ v.has_hdr;
    has_file = ap (λ (i : TlvIter). i.p_file) m.same ∙ v.has_file;
    no_wrap = m.still_no_wrap;
  }

  module _ {W : Type 0} (api : FileApi W) (f : ℕ) (At : W → ℕ → Type 0)
      (file : IsOpenFile api f content At) where
    abbrev Good : TlvIter → Next × TlvIter → W → Type 0
    Good it a w' = Answered fmt content hdr it a.0 a.1 × IsOpen api f content At w'

    after_round :
        (fuel : ℕ) (it : TlvIter)
        → it.tlv_end - it.tlv_off < suc fuel
        → IsIter hdr f it
        → ((s : TlvIter) (w : W)
            → s.tlv_end - s.tlv_off < fuel
            → IsIter hdr f s
            → IsOpen api f content At w
            → Runs (Good s) (iter_loop fmt api fuel hdr s w))
        → (r : Round) (w' : W) → Rounded fmt content hdr it r
        → IsOpen api f content At w'
        → Runs (Good it) (
            (elim r as (λ _. M W (Next × TlvIter)) [
              | finished n it' ↦ pure (n, it')
              | again it' ↦ iter_loop fmt api fuel hdr it'
            ])
              w')
    after_round fuel it enough v rec (finished n it') w' rounded at =
        (_, _, refl, (Answered-now it n it' rounded, at))
    after_round fuel it enough v rec (again s) w' (more, walk, m) at =
        let same_end : s.tlv_end ≡ it.tlv_end = ap (λ (i : TlvIter). i.tlv_end) m.same in
        let (a, w'', run, (answered, at')) =
          rec s w' (omega (arith, m.forward)) (Moved-IsIter f it s v m) at in
        (a, w'', run, (Answered-after it s a.0 a.1 walk m answered, at'))

    iter_loop_lem :
        (fuel : ℕ) (it : TlvIter) (w : W)
        → it.tlv_end - it.tlv_off < fuel
        → IsIter hdr f it
        → IsOpen api f content At w
        → Runs (Good it) (iter_loop fmt api fuel hdr it w)
    unfolding iter_loop
    iter_loop_lem zero it w enough v at = elim enough [ ]
    iter_loop_lem (suc fuel) it w enough v at =
        let (r, w', run, (rounded, at')) =
          iter_round_lem fmt lawful content hdr short api f At file it w v at in
        rw (run, ◌>>=◌)
          (after_round fuel it enough v (λ s w'. iter_loop_lem fuel s w') r w' rounded at')

    -- On a file that is open on a content, with an iterator in use on it, `file_tlv_iter_next`
    -- returns although every read may fail. Where it answers 0, it has found the first TLV of the
    -- wanted type in the walk from the iterator's offset: the header of the TLV, not always its
    -- payload, lies inside the file, and the payload's offset and length and its type are those that
    -- the header gives; the header starts in the protected area, if the iterator is confined to it.
    -- The iterator stands behind the payload, and nothing else of it has changed. Where it answers 1, the walk reaches the end of the area over unwanted TLVs
    -- only. The file stays open.
    pub file_tlv_iter_next_lem :
        (it : TlvIter) (w : W)
        → IsIter hdr f it
        → IsOpen api f content At w
        → Runs
            (λ a w'. Answered fmt content hdr it a.0 a.1 × IsOpen api f content At w')
            (file_tlv_iter_next fmt api it w)
    unfolding file_tlv_iter_next iter_next_with
    file_tlv_iter_next_lem it w v at =
        subst (λ o. Runs (Good it) (iter_next_with fmt api o it w)) (sym v.has_hdr)
          (rw zero_test (iter_loop_lem _ it w (omega arith) v at))
      where
        zero_test : (it.p_file == 0) ≡ false
        zero_test = ground (arith, file.not_null, v.has_file)
