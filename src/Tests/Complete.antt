-- ===== src/Tests/Complete.antt =====
-- The update of `Updates` is well signed, and accepted.
use ruuvi_air_mcuboot.Prelude.{
  ℕ, ◌≡◌, inl, inr, refl, [], ◌∷◌, none, pos, slice, Runs, arith, memcmp_self,
}
use ruuvi_air_mcuboot.Platform.Format.{ImageHeader}
use ruuvi_air_mcuboot.Platform.Files.{IsOpen, IsReliableFile}
use ruuvi_air_mcuboot.Platform.Crypto.{fih_success, IsDistinct}
use ruuvi_air_mcuboot.Tests.Memory.{
  memory, At, memory-IsOpenFile, layout, layout-IsFormat, toy, toy-IsCrypto,
}
use ruuvi_air_mcuboot.Tests.Updates.{signed}
use ruuvi_air_mcuboot.SafeAdd.{boot_tlv_off}
use ruuvi_air_mcuboot.Validate.{digest_of, file_img_validate}
use ruuvi_air_mcuboot.Validate.WellSigned.{WellSigned, Stands, Passes, arrived, over}
use ruuvi_air_mcuboot.Validate.Complete.{file_img_validate_complete}

abbrev signed_header : ImageHeader
signed_header = layout.parse_header (slice signed 0 32)

signed_memory-IsReliableFile : IsReliableFile (memory signed)
signed_memory-IsReliableFile = record { seek_ok = λ f off whence w e. e; read_ok = λ f n w e. e }

toy-IsDistinct : IsDistinct toy
toy-IsDistinct = record {
  memequal_refl = λ xs n. rw (memcmp_self xs n) refl;
  key-ne-hash = λ h. absurd (omega arith);
  sig-ne-hash = λ h. absurd (omega arith);
  sig-ne-key = λ h. absurd (omega arith);
}

abbrev StandsAt : ℕ → Type 0
StandsAt o = Stands layout signed signed_header toy o

number_stands : StandsAt 44
unfolding boot_tlv_off
number_stands = record { before_end = omega arith; whole = omega arith; may = inl (omega arith) }

name_stands : StandsAt 52
unfolding boot_tlv_off
name_stands = record { before_end = omega arith; whole = omega arith; may = inl (omega arith) }

hash_stands : StandsAt 58
unfolding boot_tlv_off
hash_stands = record { before_end = omega arith; whole = omega arith; may = inr (inr (inl refl)) }

key_stands : StandsAt 68
unfolding boot_tlv_off
key_stands = record { before_end = omega arith; whole = omega arith; may = inr (inl refl) }

sig_stands : StandsAt 74
unfolding boot_tlv_off
sig_stands = record {
  before_end = omega arith;
  whole = omega arith;
  may = inr (inr (inr (inl refl)));
}

-- The hardware revision stands before the hash.
revision_passed : Passes layout signed signed_header toy 58 44
unfolding boot_tlv_off
revision_passed =
    over number_stands (λ h. absurd (omega arith)) (λ h. absurd (omega arith))
      (λ h. absurd (omega arith)) refl
      (over name_stands (λ h. absurd (omega arith)) (λ h. absurd (omega arith))
        (λ h. absurd (omega arith)) refl arrived)

signed-WellSigned : WellSigned layout signed signed_header toy 96
unfolding boot_tlv_off digest_of
signed-WellSigned = record {
  whole = omega arith;
  infos = record { there = omega arith; info_magic = refl; prot_info = λ h. (refl, refl) };
  fits = omega arith;
  hash_at = 58;
  before_hash = revision_passed;
  hash_stands = hash_stands;
  hash_type = refl;
  hash_whole = omega arith;
  hash_len = refl;
  hash_eq = refl;
  key_at = 68;
  key_next = refl;
  key_stands = key_stands;
  key_type = refl;
  key_whole = omega arith;
  key_fits = omega arith;
  key_short = omega arith;
  others = (7 ∷ []) ∷ [];
  key = 9 ∷ [];
  more = [];
  keys_eq = refl;
  first_named = (refl, tt);
  named = refl;
  sig_at = 74;
  sig_next = refl;
  sig_stands = sig_stands;
  sig_type = refl;
  sig_whole = omega arith;
  sig_fits = omega arith;
  sig_len = refl;
  accepted = refl;
  is_last = omega arith;
}

file_img_validate_complete_example :
    Runs
      (λ r w. (r ≡ fih_success) × IsOpen (memory signed) 1 signed At w)
      (file_img_validate layout (memory signed) toy 1 signed_header 96 16 none (pos 0) 0)
file_img_validate_complete_example =
    file_img_validate_complete signed (memory signed) 1 At (memory-IsOpenFile signed (omega arith))
      signed_memory-IsReliableFile layout layout-IsFormat signed_header
      (layout-IsFormat.header (slice signed 0 32)) toy toy-IsDistinct 96 signed-WellSigned
      toy-IsCrypto 16 (omega arith) (omega arith) (pos 0) 0 (0, refl)
