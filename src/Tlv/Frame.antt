-- ===== src/Tlv/Frame.antt =====
-- What the walk over the TLVs keeps, while reading the file keeps it.
use ruuvi_air_mcuboot.Prelude.{ℕ, zero, suc, Bool, Option, none, some, M, pure, Keeps}
use ruuvi_air_mcuboot.Prelude.{Keeps-pure, Keeps-bind}
use ruuvi_air_mcuboot.Platform.Format.{ImageFormat, ImageHeader}
use ruuvi_air_mcuboot.Platform.Files.{FileApi, ReadResult}
use ruuvi_air_mcuboot.Platform.Frame.{IsFileFramed, frame_rules}
use ruuvi_air_mcuboot.Tlv.Defs.{
  TlvIter, Next, Round, finished, again, load_image_data, begin_at_info, begin_at_first,
  file_tlv_iter_begin, iter_round, iter_loop, iter_next_with, file_tlv_iter_next,
}

Keeps-Round :
    {W : Type 0} {I : W → Type 0} (r : Round) (k : TlvIter → M W (Next × TlvIter))
    → ((it : TlvIter) → Keeps I (k it))
    → Keeps I
        (elim r as (λ _. M W (Next × TlvIter)) [ finished n it ↦ pure (n, it) | again it ↦ k it ])
Keeps-Round (finished n it) k h = Keeps-pure (n, it)
Keeps-Round (again it) k h = h it

module _ {W : Type 0} {I : W → Type 0} (files : FileApi W) (law : IsFileFramed files I) where
  pub load_image_data-Keeps :
      (f : ℕ) (start : ℕ) (size : ℕ) → Keeps I (load_image_data files f start size)
  unfolding load_image_data
  load_image_data-Keeps f start size = search frame_rules depth 20

  module _ (fmt : ImageFormat) where
    begin_at_first-Keeps :
        (hdr : ImageHeader) (f type : ℕ) (prot : Bool) (offset : ℕ) (r : ReadResult)
        → Keeps I (begin_at_first fmt files hdr f type prot offset r)
    unfolding begin_at_first begin_at_info
    begin_at_first-Keeps hdr f type prot offset r =
        search (load_image_data-Keeps, frame_rules) depth 20

    pub file_tlv_iter_begin-Keeps :
        (hdr : ImageHeader) (f type : ℕ) (prot : Bool)
        → Keeps I (file_tlv_iter_begin fmt files hdr f type prot)
    unfolding file_tlv_iter_begin
    file_tlv_iter_begin-Keeps hdr f type prot =
        search (load_image_data-Keeps, begin_at_first-Keeps, frame_rules) depth 20

    iter_round-Keeps : (hdr : ImageHeader) (it : TlvIter) → Keeps I (iter_round fmt files hdr it)
    unfolding iter_round
    iter_round-Keeps hdr it = search (load_image_data-Keeps, frame_rules) depth 20

    iter_loop-Keeps :
        (fuel : ℕ) (hdr : ImageHeader) (it : TlvIter) → Keeps I (iter_loop fmt files fuel hdr it)
    unfolding iter_loop
    iter_loop-Keeps zero hdr it = search frame_rules
    iter_loop-Keeps (suc fuel) hdr it =
        Keeps-bind (iter_round fmt files hdr it) _ (iter_round-Keeps hdr it)
          (λ r. Keeps-Round r (iter_loop fmt files fuel hdr) (iter_loop-Keeps fuel hdr))

    iter_next_with-Keeps :
        (hdr : Option ImageHeader) (it : TlvIter) → Keeps I (iter_next_with fmt files hdr it)
    unfolding iter_next_with
    iter_next_with-Keeps none it = search frame_rules
    iter_next_with-Keeps (some hdr) it = search (iter_loop-Keeps, frame_rules) depth 20

    pub file_tlv_iter_next-Keeps : (it : TlvIter) → Keeps I (file_tlv_iter_next fmt files it)
    unfolding file_tlv_iter_next
    file_tlv_iter_next-Keeps it = iter_next_with-Keeps it.hdr it
