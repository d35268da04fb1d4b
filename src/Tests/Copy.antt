-- ===== src/Tests/Copy.antt =====
-- A file of six bytes, copied into an erasable flash area of eight.
use ruuvi_air_mcuboot.Prelude.{ℕ, ◌+◌, ◌-◌, ◌≤◌, ◌≡◌, inr, refl, List, [], ◌∷◌, ◌++◌}
use ruuvi_air_mcuboot.Prelude.{
  take-append, drop-append, drop-replicate, length-append, length-replicate, replicate, Bool-cases,
  length, take, drop, inl, ℤ, slice, true, pos, arith, Runs, some, Option, Bool, minus_one, leb,
  if◌then◌else◌,
}
use ruuvi_air_mcuboot.Platform.Files.{FileApi, IsOpenFile}
use ruuvi_air_mcuboot.Platform.Flash.{FlashApi, FlashArea, erased, Held, Written, IsFlashArea}
use ruuvi_air_mcuboot.Tests.Memory.{memory_seek}
use ruuvi_air_mcuboot.ImgOp.{
  mcuboot_img_op_copy, mcuboot_img_op_cmp, img_process, img_opened, img_sized, img_copy, img_loop,
  cb_img_write, cb_img_cmp, padded, padding_of,
}
use ruuvi_air_mcuboot.ImgOp.Copy.{mcuboot_img_op_copy_lem}
use ruuvi_air_mcuboot.ImgOp.Loop.{copied}
use ruuvi_air_mcuboot.ImgOp.RepeatLoop.{IsReliable}
use ruuvi_air_mcuboot.ImgOp.RoundTrip.{mcuboot_img_op_cmp-copy}
use ruuvi_air_mcuboot.ImgOp.Compare.{Compared, mcuboot_img_op_cmp_lem}

-- The position of the file and the bytes of the flash area.
abbrev World : Type 0
World = ℕ × List ℕ

abbrev six : List ℕ
six = 1 ∷ 2 ∷ 3 ∷ 4 ∷ 5 ∷ 6 ∷ []

abbrev files : FileApi World
files = record {
  fs_seek = λ f off whence w. (pos 0, (memory_seek six off whence, w.1));
  fs_tell = λ f w. (pos w.0, w);
  fs_read = λ f n w. (
    record { rc = pos (length (slice six w.0 n)); bytes = slice six w.0 n },
    (w.0 + length (slice six w.0 n), w.1),
  );
}

abbrev area : FlashArea
area = record { fa_id = 3; fa_off = 0; fa_size = 8 }

-- A write that does not fit fails.
abbrev write : ℕ → List ℕ → World → ℤ × World
write off buf w =
    if leb (off + length buf) (length w.1)
    then (pos 0, (w.0, take off w.1 ++ (buf ++ drop (off + length buf) w.1)))
    else (minus_one, w)

abbrev flash : FlashApi World
flash = record {
  flash_area_open = λ id w. ((pos 0, area), w);
  flash_area_close = λ fa w. (tt, w);
  flash_area_erase = λ fa off n w. (pos 0, (w.0, erased fa.fa_size));
  flash_area_write = λ fa off buf w. write off buf w;
  flash_area_read = λ fa off n w. (record { rc = pos 0; bytes = slice w.1 off n }, w);
}

abbrev At : World → ℕ → List ℕ → Type 0
At w p mem = (w.0 ≡ p) × (w.1 ≡ mem)

files-IsOpenFile : (mem : List ℕ) → IsOpenFile files 1 six (λ w p. At w p mem)
files-IsOpenFile mem = record {
  not_null = omega arith;
  short = omega arith;
  seek_set_lem = λ w p off at. inr (refl, (refl, at.1));
  seek_end_lem = λ w p at. inr (refl, (refl, at.1));
  tell_lem = λ w p at. rw (at.0) refl;
  read_lem = λ w p n at. inr (refl, rw (at.0) refl, (rw (at.0) refl, at.1));
}

write-Written :
    (w : World) (p : ℕ) (a : List ℕ) (n : ℕ) (buf : List ℕ)
    → At w p (a ++ erased n)
    → Written flash 3 area At p a n buf (write (length a) buf w)
write-Written (q, mem) p a n buf (at, same) =
    elim (Bool-cases (leb (length a + length buf) (length mem))) [
      | inl e ↦ rw e (inr (refl, omega (arith, fits e), (at, put)))
      | inr e ↦ rw e (inl (omega arith, (_, _, (at, same))))
    ]
  where
    total : length mem ≡ length a + n
    total = rw same (omega (arith, length-append a (erased n), length-replicate {A = ℕ} n 255))

    fits : leb (length a + length buf) (length mem) ≡ true → length buf ≤ n
    fits e = ground (arith, total)

    put :
        take (length a) mem ++ (buf ++ drop (length a + length buf) mem)
        ≡ a ++ (buf ++ erased (n - length buf))
    put =
        rw
          (
            same,
            take-append a (erased n),
            drop-append a (erased n) (length buf),
            drop-replicate {A = ℕ} (length buf) n 255,
          )
          refl

flash-IsFlashArea : IsFlashArea flash 3 area At
flash-IsFlashArea = record {
  open_lem = λ w p mem at. inr (refl, refl, at);
  close_lem = λ w p mem at. at;
  erase_lem = λ w p mem at. inr (refl, (at.0, refl));
  write_lem = write-Written;
  read_lem = λ w p mem off n at. inr (refl, rw (at.1) refl, at);
}

abbrev start : World
start = (5, replicate 8 7)

-- The copy, and the comparison that follows it.
unfoldable copy : Option (Bool × World)
unfolding mcuboot_img_op_copy img_process img_opened img_sized img_copy img_loop cb_img_write padded
    padding_of
copy = mcuboot_img_op_copy files flash 3 1 start

copies : copy ≡ some (true, (6, six ++ erased 2))
unfolding copy
copies = refl

unfoldable compare : Option (Bool × World)
unfolding mcuboot_img_op_cmp img_process img_opened img_sized img_copy img_loop cb_img_cmp padded
    padding_of
compare = mcuboot_img_op_cmp files flash 3 1 (0, six ++ erased 2)

compares : compare ≡ some (true, (6, six ++ erased 2))
unfolding compare
compares = refl

mcuboot_img_op_copy_lem_example :
    Runs
      (λ done w. (done ≡ true → At w 6 (copied six 8 6)) × Held flash 3 area At w)
      (mcuboot_img_op_copy files flash 3 1 start)
mcuboot_img_op_copy_lem_example =
    mcuboot_img_op_copy_lem files flash 1 3 area six At files-IsOpenFile flash-IsFlashArea
      (omega arith) start 5 (replicate 8 7) (refl, refl)

mcuboot_img_op_cmp_lem_example :
    Runs
      (Compared files flash 1 3 area six
        (six ++ erased 2)
        At
        (files-IsOpenFile (six ++ erased 2))
        flash-IsFlashArea)
      (mcuboot_img_op_cmp files flash 3 1 (0, six ++ erased 2))
mcuboot_img_op_cmp_lem_example =
    mcuboot_img_op_cmp_lem files flash 1 3 area six (six ++ erased 2) At
      (files-IsOpenFile (six ++ erased 2)) flash-IsFlashArea (0, six ++ erased 2) 0 (refl, refl)

reliable : IsReliable files flash
reliable = record {
  seek_ok = λ f off whence w e. e;
  read_ok = λ f n w e. e;
  open_ok = λ id w e. e;
  area_ok = λ fa off n w e. e;
}

mcuboot_img_op_cmp-copy_example :
    (v : World) × (mcuboot_img_op_cmp files flash 3 1 (6, six ++ erased 2) ≡ some (true, v))
unfolding copy
mcuboot_img_op_cmp-copy_example =
    mcuboot_img_op_cmp-copy files flash reliable 1 3 area six At files-IsOpenFile flash-IsFlashArea
      (omega arith) (omega arith) start 5 (replicate 8 7) (6, six ++ erased 2) (refl, refl) copies
