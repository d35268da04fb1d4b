-- ===== src/Tests/Memory.antt =====
-- A file in memory, the documented layout of MCUboot's TLVs, and a toy hash: instances of what the
-- code takes from outside. The world is the position of the one open file, file 1.
use ruuvi_air_mcuboot.Prelude.{ℕ, ◌+◌, ◌*◌, ◌%◌, ◌^◌, ◌<◌, ◌≡◌, inr, refl, List, [], ◌∷◌, ◌++◌}
use ruuvi_air_mcuboot.Prelude.{append-nil, append_assoc, length, get_or, slice, take, memcmp_eq}
use ruuvi_air_mcuboot.Prelude.{take-eq_of_memcmp, leb, ◌==◌, if◌then◌else◌, pos, arith}
use ruuvi_air_mcuboot.Platform.Format.{ImageFormat, IsFormat}
use ruuvi_air_mcuboot.Platform.Files.{FileApi, Whence, IsOpenFile}
use ruuvi_air_mcuboot.Platform.Crypto.{Crypto, IsCrypto, FihRet, fih_success, fih_failure}

abbrev pub memory_seek : List ℕ → ℕ → Whence → ℕ
memory_seek content off Whence.seek_set = off
memory_seek content off Whence.seek_end = length content + off

abbrev pub memory : List ℕ → FileApi ℕ
memory content = record {
  fs_seek = λ f off whence w. (pos 0, memory_seek content off whence);
  fs_tell = λ f w. (pos w, w);
  fs_read = λ f n w. (
    record { rc = pos (length (slice content w n)); bytes = slice content w n },
    w + length (slice content w n),
  );
}

abbrev pub At : ℕ → ℕ → Type 0
At w p = w ≡ p

pub memory-IsOpenFile :
    (content : List ℕ) → length content < 2 ^ 31 → IsOpenFile (memory content) 1 content At
memory-IsOpenFile content short = record {
  not_null = omega arith;
  short = short;
  seek_set_lem = λ w p off at. inr (refl, refl);
  seek_end_lem = λ w p at. inr (refl, omega arith);
  tell_lem = λ w p at. ground arith;
  read_lem = λ w p n at. inr (refl, rw at, rw at);
}

-- A little-endian field of two bytes.
abbrev u16_at : List ℕ → ℕ → ℕ
u16_at bs i = (get_or bs i 0 + 256 * get_or bs (i + 1) 0) % 2 ^ 16

abbrev u32_at : List ℕ → ℕ → ℕ
u32_at bs i = (u16_at bs i + 2 ^ 16 * u16_at bs (i + 2)) % 2 ^ 32

abbrev pub layout : ImageFormat
layout = record {
  header_size = 32;
  tlv_info_size = 4;
  tlv_size = 4;
  parse_header = λ bs. record {
    ih_magic = u32_at bs 0;
    ih_hdr_size = u16_at bs 8;
    ih_protect_tlv_size = u16_at bs 10;
    ih_img_size = u32_at bs 12;
    ih_flags = u32_at bs 16;
    ih_ver = record {
      iv_major = get_or bs 20 0;
      iv_minor = get_or bs 21 0;
      iv_revision = u16_at bs 22;
      iv_build_num = u32_at bs 24;
    };
  };
  parse_tlv_info = λ bs. record { it_magic = u16_at bs 0; it_tlv_tot = u16_at bs 2 };
  parse_tlv = λ bs. record { it_type = u16_at bs 0; it_len = u16_at bs 2 };
  tlv_info_magic = 0x6907;
  tlv_prot_info_magic = 0x6908;
  tlv_any = 0xffff;
}

pub layout-IsFormat : IsFormat layout
layout-IsFormat = record {
  info_size_pos = omega arith;
  info_size_small = omega arith;
  tlv_size_pos = omega arith;
  tlv_size_small = omega arith;
  header = λ bs. omega arith;
  zeros_no_info = λ h. absurd (omega arith);
  magics_differ = λ h. absurd (omega arith);
  tlv_tot = λ bs. omega arith;
  tlv_len = λ bs. omega arith;
  tlv_type = λ bs. omega arith;
}

abbrev sum : List ℕ → ℕ
sum [] = 0
sum (x ∷ xs) = x + sum xs

-- The context is what has been hashed; the digest is its sum and its length.
abbrev toy_finish : List ℕ → List ℕ
toy_finish bs = sum bs % 256 ∷ length bs % 256 ∷ []

abbrev toy_equal : List ℕ → List ℕ → ℕ → FihRet
toy_equal xs ys n = if memcmp_eq xs ys n then fih_success else fih_failure

abbrev pub toy : Crypto
toy = record {
  ShaContext = List ℕ;
  sha_init = [];
  sha_update = λ ctx bs. ctx ++ bs;
  sha_finish = toy_finish;
  boot_fih_memequal = toy_equal;
  bootutil_verify_sig = λ hash sig key. if key == 1 then toy_equal hash sig 2 else fih_failure;
  bootutil_keys = (7 ∷ []) ∷ (9 ∷ []) ∷ [];
  image_hash_size = 2;
  expected_hash_tlv = 0x10;
  expected_key_tlv = 0x01;
  key_buf_size = 2;
  expected_sig_tlv = 0x22;
  sig_buf_size = 4;
  expected_sig_len = λ n. leb 1 n;
  unprot_tlvs = 0x01 ∷ 0x10 ∷ 0x22 ∷ [];
}

toy_equal_sound : (xs ys : List ℕ) (n : ℕ) → toy_equal xs ys n ≡ fih_success → take n xs ≡ take n ys
toy_equal_sound xs ys n h = take-eq_of_memcmp xs ys n (ground arith)

pub toy-IsCrypto : IsCrypto toy
toy-IsCrypto = record {
  sha_update-nil = λ ctx. append-nil ctx;
  sha_update-append = λ ctx xs ys. append_assoc ctx xs ys;
  hash_size_small = omega arith;
  length-sha_finish = λ ctx. refl;
  memequal_sound = toy_equal_sound;
}
