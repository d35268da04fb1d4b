-- ===== src/Tests/Counter.antt =====
-- The security counter of an image of five bytes with protected TLVs.
use ruuvi_air_mcuboot.Prelude.{
  ◌≡◌, refl, List, [], ◌∷◌, ℕ, some, none, Runs, pos, is_zero, true, arith,
}
use ruuvi_air_mcuboot.Platform.Format.{ImageHeader, CounterFormat, IsCounterFormat}
use ruuvi_air_mcuboot.Platform.Files.{IsOpen}
use ruuvi_air_mcuboot.SafeAdd.{boot_tlv_off}
use ruuvi_air_mcuboot.Tests.Memory.{memory, At, memory-IsOpenFile, layout, layout-IsFormat}
use ruuvi_air_mcuboot.Tests.Image.{image_header}
use ruuvi_air_mcuboot.Tlv.{
  load_image_data, file_tlv_iter_begin, begin_at_first, begin_at_info, start_iter,
  file_tlv_iter_next, iter_next_with, iter_loop, iter_round, skip_info, after_tlv, take_tlv,
}
use ruuvi_air_mcuboot.SecCnt.{
  file_img_get_security_cnt, security_cnt_of, counter_begun, counter_answered, refused,
}
use ruuvi_air_mcuboot.SecCnt.Counted.{Counted, file_img_get_security_cnt_lem}

abbrev counter_codes : CounterFormat
counter_codes = record {
  image_tlv_sec_cnt = 0x50;
  boot_ebadargs = pos 7;
  boot_ebadimage = pos 3;
  boot_eflash = pos 1;
}

counter_codes-IsCounterFormat : IsCounterFormat layout counter_codes
counter_codes-IsCounterFormat = record {
  sec_cnt-ne-any = λ h. absurd (omega arith);
  ebadargs_nonzero = refl;
  ebadimage_nonzero = refl;
  eflash_nonzero = refl;
}

-- Another TLV, of a byte, stands before the counter 7.
abbrev counted_image : List ℕ
counted_image =
    1 ∷ 2 ∷ 3 ∷ 4 ∷ 5 ∷ 0x08 ∷ 0x69 ∷ 17 ∷ 0 ∷ 0x40 ∷ 0 ∷ 1 ∷ 0 ∷ 9 ∷ 0x50 ∷ 0 ∷ 4 ∷ 0 ∷ 7 ∷ 0 ∷ 0
    ∷ 0 ∷ 0x07 ∷ 0x69 ∷ 4 ∷ 0 ∷ []

abbrev counted_header : ImageHeader
counted_header = record image_header { ih_protect_tlv_size = 17 }

reads_counter :
    file_img_get_security_cnt layout
      (memory counted_image)
      counter_codes
      (some counted_header)
      1
      1
      0
    ≡ some (record { rc = pos 0; bytes = 7 ∷ 0 ∷ 0 ∷ 0 ∷ [] }, 22)
unfolding file_img_get_security_cnt security_cnt_of counter_begun counter_answered load_image_data
    file_tlv_iter_begin begin_at_first begin_at_info start_iter boot_tlv_off file_tlv_iter_next
    iter_next_with iter_loop iter_round skip_info after_tlv take_tlv
reads_counter = refl

no_header :
    file_img_get_security_cnt layout (memory counted_image) counter_codes none 1 1 0
    ≡ some (refused (pos 7), 0)
unfolding file_img_get_security_cnt
no_header = refl

file_img_get_security_cnt_lem_example :
    Runs
      (λ r w.
        ((is_zero r.rc ≡ true) → Counted layout counter_codes counted_image counted_header r.bytes)
        × ((counted_header.ih_protect_tlv_size ≡ 0) → r.rc ≡ pos 3)
        × IsOpen (memory counted_image) 1 counted_image At w)
      (file_img_get_security_cnt layout
        (memory counted_image)
        counter_codes
        (some counted_header)
        1
        1
        0)
file_img_get_security_cnt_lem_example =
    file_img_get_security_cnt_lem layout layout-IsFormat counter_codes counter_codes-IsCounterFormat
      counted_image counted_header (memory counted_image) 1 At
      (memory-IsOpenFile counted_image (omega arith)) (omega arith) 1 0 (omega arith) (0, refl)
