-- ===== src/HwRev/FlashTotal.antt =====
-- The search for the hardware revision in a flash area ends: a read succeeds only inside the area,
-- so that no offset wraps.
use ruuvi_air_mcuboot.Prelude.{
  ℕ, zero, suc, ◌+◌, ◌-◌, ◌<◌, ◌^◌, inl, inr, refl, false, not, ◌>>=◌, ◌>>◌, lift,
}
use ruuvi_air_mcuboot.Prelude.{
  arith, M, pure, Bool-cases, ltb, if◌then◌else◌, add32, is_zero, Total, Total-pure, Total-lift,
  Total-if, Total-bind, Total-Option, total_rules,
}
use ruuvi_air_mcuboot.Platform.Format.{ImageFormat, IsFormat, Tlv}
use ruuvi_air_mcuboot.Platform.Flash.{FlashApi, FlashArea, IsBounded}
use ruuvi_air_mcuboot.Platform.System.{SystemApi, Config}
use ruuvi_air_mcuboot.HwRev.Defs.{
  HwRev, Handled, Span, is_complete, cleared, find_tlvs_in_flash_area, handle_num_in_flash_area,
  handle_name_in_flash_area, fw_img_hw_rev_handle_tlv_hw_rev_in_flash_area, find_loop_in_flash_area,
  fw_img_hw_rev_find_in_flash_area_internal, fw_img_hw_rev_find_in_flash_area,
}

module _ {W : Type 0} (fmt : ImageFormat) (lawful : IsFormat fmt) (cfg : Config) (sys : SystemApi W)
    (flash : FlashApi W) (bounded : IsBounded flash) where
  handle_tlv-Total :
      (tlv : Tlv) (fa : FlashArea) (data_off : ℕ) (h : HwRev)
      → Total (fw_img_hw_rev_handle_tlv_hw_rev_in_flash_area fmt cfg sys flash tlv fa data_off h)
  unfolding fw_img_hw_rev_handle_tlv_hw_rev_in_flash_area handle_num_in_flash_area
      handle_name_in_flash_area
  handle_tlv-Total tlv fa data_off h = search total_rules depth 20

  -- One TLV, with what follows it.
  after_tlv-Total :
      (tlv : Tlv) (fa : FlashArea) (data_off : ℕ) (h : HwRev) (rest : HwRev → M W Handled)
      → ((h' : HwRev) → Total (rest h'))
      → Total (do
        a ← fw_img_hw_rev_handle_tlv_hw_rev_in_flash_area fmt cfg sys flash tlv fa data_off h
        if not a.ok then pure a else if is_complete a.hw_rev then pure a else rest a.hw_rev)
  after_tlv-Total tlv fa data_off h rest rest-Total =
      search (handle_tlv-Total, rest-Total, total_rules) depth 20

  find_loop-Total :
      (fuel : ℕ) (fa : FlashArea) (span : Span) (data_off : ℕ) (h : HwRev)
      → fa.fa_size < 2 ^ 31
      → span.end_off - data_off < fuel
      → Total (find_loop_in_flash_area fmt cfg sys flash fuel fa span data_off h)
  unfolding find_loop_in_flash_area
  find_loop-Total zero fa span data_off h small enough = elim enough [ ]
  find_loop-Total (suc fuel) fa span data_off h small enough = record {
    ended = λ w. elim (Bool-cases (ltb span.end_off (add32 data_off fmt.tlv_size))) [
      | inl e ↦ rw e (_, _, refl)
      | inr e ↦
          elim (Bool-cases (is_zero (flash.flash_area_read fa data_off fmt.tlv_size w).0.rc)) [
            | inr z ↦ rw (e, z) (_, _, refl)
            | inl z ↦
                let tlv : Tlv =
                  fmt.parse_tlv (flash.flash_area_read fa data_off fmt.tlv_size w).0.bytes in
                let next : ℕ = add32 data_off (fmt.tlv_size + tlv.it_len) in
                let inside = bounded.read_inside fa data_off fmt.tlv_size w z in
                let shorter : span.end_off - next < fuel = ground (
                  arith,
                  lawful.tlv_len (flash.flash_area_read fa data_off fmt.tlv_size w).0.bytes,
                  lawful.tlv_size_small,
                  lawful.tlv_size_pos,
                ) in
                let rest = λ (h' : HwRev). find_loop-Total fuel fa span next h' small shorter in
                rw (e, z)
                  ((after_tlv-Total tlv fa data_off h _ rest).ended
                    (flash.flash_area_read fa data_off fmt.tlv_size w).1)
          ]
    ];
  }

  find_tlvs-Total :
      (fa : FlashArea) (magic start : ℕ)
      → Total (find_tlvs_in_flash_area fmt cfg sys flash fa magic start)
  unfolding find_tlvs_in_flash_area
  find_tlvs-Total fa magic start = search total_rules

  internal-Total :
      (fa : FlashArea) (h : HwRev)
      → fa.fa_size < 2 ^ 31
      → Total (fw_img_hw_rev_find_in_flash_area_internal fmt cfg sys flash fa h)
  unfolding fw_img_hw_rev_find_in_flash_area_internal
  internal-Total fa h small =
      Total-bind _ _ (Total-lift (sys.boot_image_load_header fa)) (λ (rc, hdr).
        Total-if (not (is_zero rc)) _ _ (Total-pure (record { ok = false; hw_rev = h })) (
          Total-bind _ _
            (find_tlvs-Total fa fmt.tlv_prot_info_magic (add32 hdr.ih_hdr_size hdr.ih_img_size))
            (λ found.
              Total-Option found _ _ (Total-pure (record { ok = false; hw_rev = h })) (λ span.
                find_loop-Total (suc span.end_off) fa span span.start_off h small (omega arith)))))

  closing-Total :
      (fa : FlashArea) (h : HwRev)
      → fa.fa_size < 2 ^ 31
      → Total (do
        a ← fw_img_hw_rev_find_in_flash_area_internal fmt cfg sys flash fa (cleared h)
        lift (flash.flash_area_close fa)
        pure a)
  closing-Total fa h small =
      let found = internal-Total fa (cleared h) small in search (found, total_rules)

  -- In a flash area of any content the search for the hardware revision ends, whatever calls fail.
  pub find_in_flash_area-Total :
      (fa_id : ℕ) (h : HwRev) → Total (fw_img_hw_rev_find_in_flash_area fmt cfg sys flash fa_id h)
  unfolding fw_img_hw_rev_find_in_flash_area
  find_in_flash_area-Total fa_id h = record {
    ended = λ w. elim (Bool-cases (is_zero (flash.flash_area_open fa_id w).0.0)) [
      | inr z ↦ rw z (_, _, refl)
      | inl z ↦ rw z (
          (closing-Total (flash.flash_area_open fa_id w).0.1 h (bounded.open_small fa_id w z)).ended
            (flash.flash_area_open fa_id w).1)
    ];
  }
