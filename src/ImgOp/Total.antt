-- ===== src/ImgOp/Total.antt =====
-- The copy ends, whatever the calls do: each round of its loop takes bytes off the rest.
use ruuvi_air_mcuboot.Prelude.{ℕ, zero, suc, ◌-◌, ◌<◌, inl, inr, List, Bool, Bool-cases, ltb}
use ruuvi_air_mcuboot.Prelude.{if◌then◌else◌, add32, arith, Total, Total-pure, total_rules}
use ruuvi_air_mcuboot.Prelude.{true, false, not, ◌==◌, is_neg, to_u32, M, pure, lift, ◌>>=◌}
use ruuvi_air_mcuboot.Platform.Files.{FileApi}
use ruuvi_air_mcuboot.Platform.Flash.{FlashApi, FlashArea}
use ruuvi_air_mcuboot.ImgOp.Defs.{
  padded, Callback, tmp_buf_size, img_loop, img_copy, img_sized, img_opened, img_process,
  cb_img_write, mcuboot_img_op_copy,
}

module _ {W : Type 0} (files : FileApi W) (flash : FlashApi W) (cb : Callback W)
    (cb-Total : (fa : FlashArea) (offset : ℕ) (buf : List ℕ) → Total (cb fa offset buf)) where
  -- One round, with what follows it.
  round-Total :
      (fa : FlashArea) (f len offset : ℕ) (rest : M W Bool)
      → Total rest
      → Total (do
        r ← lift (files.fs_read f len)
        if is_neg r.rc
            then pure false
            else if not (to_u32 r.rc == len)
            then pure false
            else do done ← cb fa offset (padded r.bytes len); if not done then pure false else rest)
  round-Total fa f len offset rest rest-Total = search (cb-Total, total_rules) depth 20

  img_loop-Total :
      (fa : FlashArea) (f fuel rem_len offset : ℕ)
      → rem_len < fuel
      → Total (img_loop files flash cb fa f fuel rem_len offset)
  unfolding img_loop
  img_loop-Total fa f zero rem_len offset enough = elim enough [ ]
  img_loop-Total fa f (suc fuel) rem_len offset enough = elim (Bool-cases (ltb 0 rem_len)) [
    | inr e ↦ rw e (Total-pure _)
    | inl e ↦
        let len : ℕ = if ltb tmp_buf_size rem_len then tmp_buf_size else rem_len in
        let rest = img_loop-Total fa f fuel (rem_len - len) (add32 offset len) (ground arith) in
        rw e (round-Total fa f len offset _ rest)
  ]

  img_copy-Total : (fa : FlashArea) (f size : ℕ) → Total (img_copy files flash cb fa f size)
  unfolding img_copy
  img_copy-Total fa f size =
      let loop = img_loop-Total fa f (suc size) size 0 (omega arith) in search (loop, total_rules)

  img_sized-Total :
      (flag : Bool) (fa : FlashArea) (f size : ℕ) → Total (img_sized files flash flag cb fa f size)
  unfolding img_sized
  img_sized-Total flag fa f size = search (img_copy-Total, total_rules) depth 20

  img_process-Total : (id f : ℕ) (flag : Bool) → Total (img_process files flash id f flag cb)
  unfolding img_process img_opened
  img_process-Total id f flag = search (img_sized-Total, total_rules) depth 20

pub mcuboot_img_op_copy-Total :
    {W : Type 0} (files : FileApi W) (flash : FlashApi W) (id f : ℕ)
    → Total (mcuboot_img_op_copy files flash id f)
unfolding mcuboot_img_op_copy cb_img_write
mcuboot_img_op_copy-Total files flash id f =
    img_process-Total files flash (cb_img_write flash) (λ fa offset buf. search total_rules) id f
      true
