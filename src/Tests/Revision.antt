-- ===== src/Tests/Revision.antt =====
-- An image with a hardware revision, and the search for it.
use ruuvi_air_mcuboot.Prelude.{
  ℕ, overwrite, ◌≡◌, refl, true, List, [], ◌∷◌, ◌++◌, replicate, Option, some, Runs, arith,
}
use ruuvi_air_mcuboot.Tests.Memory.{memory, At, memory-IsOpenFile, layout, layout-IsFormat}
use ruuvi_air_mcuboot.Tests.Update.{config}
use ruuvi_air_mcuboot.HwRev.Defs.{
  Handled, no_hw_rev, is_complete, cleared, with_num, with_name, span_of, u32_from_bytes_be,
  find_tlvs_in_file, handle_num_in_file, handle_name_in_file,
  fw_img_hw_rev_handle_tlv_hw_rev_in_file, find_loop_in_file, find_with_header_in_file,
  fw_img_hw_rev_find_in_file,
}
use ruuvi_air_mcuboot.HwRev.Loop.{Searched}
use ruuvi_air_mcuboot.HwRev.Total.{fw_img_hw_rev_find_in_file_lem}

-- A header of 32 bytes with the magic 7, no image, the protected info, the number 7 and the name "AB".
abbrev pub revised : List ℕ
revised =
    (7 ∷ replicate 7 0 ++ (32 ∷ 0 ∷ 18 ∷ 0 ∷ []))
    ++ (replicate 20 0
        ++ (0x08 ∷ 0x69 ∷ 18 ∷ 0 ∷ 160 ∷ 0 ∷ 4 ∷ 0 ∷ 0 ∷ 0 ∷ 0 ∷ 7 ∷ 161 ∷ 0 ∷ 2 ∷ 0 ∷ 65 ∷ 66
            ∷ []))

unfoldable search : Option (Handled × ℕ)
unfolding fw_img_hw_rev_find_in_file find_with_header_in_file find_tlvs_in_file span_of
    find_loop_in_file fw_img_hw_rev_handle_tlv_hw_rev_in_file handle_num_in_file handle_name_in_file
    with_num with_name u32_from_bytes_be is_complete cleared overwrite
search = fw_img_hw_rev_find_in_file layout config (memory revised) 1 no_hw_rev 0

finds :
    search
    ≡ some (
      record {
        ok = true;
        hw_rev = record { hw_rev_num = 7; hw_rev_name = 65 ∷ 66 ∷ replicate 14 0 };
      },
      50,
    )
unfolding search
finds = refl

fw_img_hw_rev_find_in_file_lem_example :
    Runs
      (Searched layout layout-IsFormat config
        (memory revised)
        1
        revised
        At
        (memory-IsOpenFile revised (omega arith)))
      (fw_img_hw_rev_find_in_file layout config (memory revised) 1 no_hw_rev 0)
fw_img_hw_rev_find_in_file_lem_example =
    fw_img_hw_rev_find_in_file_lem layout layout-IsFormat config (memory revised) 1 revised At
      (memory-IsOpenFile revised (omega arith)) no_hw_rev 0 refl (0, refl)
