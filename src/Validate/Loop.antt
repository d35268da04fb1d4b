-- ===== src/Validate/Loop.antt =====
-- The loop of `file_img_validate` over the TLVs, along the walk.
use ruuvi_air_mcuboot.Prelude.{ℕ, zero, suc, ◌-◌, ◌<◌, ◌^◌, ◌≡◌, inl, inr, refl, sym, ap, subst}
use ruuvi_air_mcuboot.Prelude.{◌>>=◌, true, List, ℤ}
use ruuvi_air_mcuboot.Prelude.{is_zero, length}
use ruuvi_air_mcuboot.Prelude.{arith, Runs, Bool-cases}
use ruuvi_air_mcuboot.Platform.Format.{ImageHeader, ImageFormat, IsFormat}
use ruuvi_air_mcuboot.Platform.Files.{FileApi, IsOpenFile, IsOpen}
use ruuvi_air_mcuboot.Platform.Crypto.{Crypto, IsCrypto}
use ruuvi_air_mcuboot.Tlv.{TlvIter, Next, found, no_more, failed}
use ruuvi_air_mcuboot.Tlv.Walk.{Walk, over, Walk-trans, Walk-map, Walk-le}
use ruuvi_air_mcuboot.Tlv.Round.{IsIter, Answered}
use ruuvi_air_mcuboot.Tlv.Iter.{Moved-IsIter, file_tlv_iter_next_lem}
use ruuvi_air_mcuboot.Validate.Defs.{
  Progress, is_rogue, validate_next, file_image_validate_tlv, validate_loop,
}
use ruuvi_air_mcuboot.Validate.Evidence.{Any, Entry}
use ruuvi_air_mcuboot.Validate.Shown.{Shown}
use ruuvi_air_mcuboot.Validate.Switch.{switch_step}

module _ (fmt : ImageFormat) (lawful : IsFormat fmt) (content : List ℕ) (hdr : ImageHeader)
    (c : Crypto) (crypto : IsCrypto c) (begun : TlvIter) (digest : List ℕ)
    (filled : length digest ≡ c.image_hash_size) {W : Type 0} (api : FileApi W) (f : ℕ)
    (At : W → ℕ → Type 0) (file : IsOpenFile api f content At) where
  -- The iterator of the loop has come from `begun` over whole TLVs.
  pub record OnWalk (it : TlvIter) : Type 0 where
    pub in_use : IsIter hdr f it
    pub same : it ≡ record begun { tlv_off = it.tlv_off }
    pub walk : Walk fmt content hdr begun.prot_end Any begun.tlv_off it.tlv_off

  abbrev pub Facts : Progress → Type 0
  Facts = Shown fmt content hdr c crypto begun digest filled

  -- What the answer of the iterator adds.
  abbrev Next-shown : TlvIter → Next → TlvIter → Type 0
  Next-shown it (found off len type) it' =
      Entry fmt content hdr c begun digest off len type
      × OnWalk it'
      × (it.tlv_off < it'.tlv_off)
      × (it.tlv_off < begun.tlv_end)
      × (len < 2 ^ 16)
  Next-shown it no_more it' = Unit {0}
  Next-shown it failed it' = Unit {0}

  next_shown :
      (it : TlvIter) (n : Next) (it' : TlvIter)
      → OnWalk it
      → Answered fmt content hdr it n it'
      → Next-shown it n it'
  next_shown it no_more it' v h = tt
  next_shown it failed it' v h = tt
  next_shown it (found off len type) it' v h =
      let (o, walk', more, tlv, want, p, e, m) =
        subst (λ i. Answered fmt content hdr i (found off len type) it') v.same h in
      let to_o = Walk-trans v.walk (Walk-map (λ t _. tt) walk') in
      (
        record { at = o; walk = to_o; before_end = more; tlv = tlv },
        record {
          in_use =
              Moved-IsIter fmt lawful content hdr file.short f _ it'
                (subst (IsIter hdr f) v.same v.in_use) m;
          same = m.same;
          walk = over to_o tlv.start_eq tlv.whole tt (omega arith);
        },
        m.forward,
        omega (arith, Walk-le walk'),
        omega (arith, lawful.tlv_len),
      )

  -- Keeps the facts; with 0 the iterator has moved on along the walk.
  abbrev Stepped : Progress → ℤ × Progress → W → Type 0
  Stepped p a w =
      (Facts a.1
        × (is_zero a.0 ≡ true
            → OnWalk a.1.it × (p.it.tlv_off < a.1.it.tlv_off) × (p.it.tlv_off < begun.tlv_end)))
      × IsOpen api f content At w

  after_next :
      (p : Progress) (it : TlvIter) (n : Next) (w : W)
      → Next-shown it n p.it
      → Facts p
      → IsOpen api f content At w
      → Runs
          (λ a w'.
            (Facts a.1
              × (is_zero a.0 ≡ true
                  → OnWalk a.1.it × (it.tlv_off < a.1.it.tlv_off) × (it.tlv_off < begun.tlv_end)))
            × IsOpen api f content At w')
          (validate_next fmt api c f digest p n w)
  unfolding validate_next
  after_next p it no_more w h facts at = (_, _, refl, ((facts, λ z. cc), at))
  after_next p it failed w h facts at = (_, _, refl, ((facts, λ z. cc), at))
  after_next p it (found off len type) w (entry, on_walk, forward, inside, u16) facts at =
      elim (Bool-cases (is_rogue c p.it off type)) [
        | inl e ↦ rw e (_, _, refl, ((facts, λ z. cc), at))
        | inr e ↦
            let (a, w', run, ((facts', same), at')) =
              switch_step fmt content hdr c crypto begun digest filled api f At file off len type p
                w u16 entry facts at in
            rw e (
              a,
              w',
              run,
              (
                (
                  facts',
                  λ z.
                      subst
                        (λ i. OnWalk i × (it.tlv_off < i.tlv_off) × (it.tlv_off < begun.tlv_end))
                        (sym same) (on_walk, forward, inside),
                ),
                at',
              ),
            )
      ]

  tlv_step :
      (p : Progress) (w : W)
      → OnWalk p.it
      → Facts p
      → IsOpen api f content At w
      → Runs (Stepped p) (file_image_validate_tlv fmt api c f digest p w)
  unfolding file_image_validate_tlv
  tlv_step p w on_walk facts at =
      let (a, w', run, (answered, at')) =
        file_tlv_iter_next_lem fmt lawful content hdr file.short api f At file p.it w on_walk.in_use
          at in
      rw (run, ◌>>=◌)
        (after_next (record p { it = a.1 }) p.it a.0 w' (next_shown p.it a.0 a.1 on_walk answered)
          (record { hash = facts.hash; key = facts.key; sig = facts.sig }) at')

  pub loop_step :
      (fuel : ℕ) (p : Progress) (w : W)
      → p.it.tlv_end - p.it.tlv_off < fuel
      → OnWalk p.it
      → Facts p
      → IsOpen api f content At w
      → Runs
          (λ a w'. Facts a.1 × IsOpen api f content At w')
          (validate_loop fmt api c f fuel digest p w)
  unfolding validate_loop
  loop_step zero p w enough on_walk facts at = elim enough [ ]
  loop_step (suc fuel) p w enough on_walk facts at =
      let (a, w', run, ((facts', moved), at')) = tlv_step p w on_walk facts at in
      elim (Bool-cases (is_zero a.0)) [
        | inr e ↦ rw (run, ◌>>=◌, e) (a, w', refl, (facts', at'))
        | inl e ↦
            let (on_walk', forward, inside) = moved e in
            rw (run, ◌>>=◌, e)
              (loop_step fuel a.1 w' (shorter a.1 on_walk' forward inside) on_walk' facts' at')
      ]
    where
      shorter :
          (p' : Progress)
          → OnWalk p'.it
          → p.it.tlv_off < p'.it.tlv_off
          → p.it.tlv_off < begun.tlv_end
          → p'.it.tlv_end - p'.it.tlv_off < fuel
      shorter p' v forward inside =
          let same_end : p'.it.tlv_end ≡ begun.tlv_end = ap (λ (i : TlvIter). i.tlv_end) v.same in
          let same_end' : p.it.tlv_end ≡ begun.tlv_end =
            ap (λ (i : TlvIter). i.tlv_end) on_walk.same in
          omega arith
