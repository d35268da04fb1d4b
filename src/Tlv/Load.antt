-- ===== src/Tlv/Load.antt =====
-- What `load_image_data` reads from a file that is open on known content, where every call of the
-- file system may fail.
use ruuvi_air_mcuboot.Prelude.{ℕ, ◌-◌, ◌≤◌, ◌<◌, ◌^◌, ◌≡◌, ◌⊎◌, inl, inr, false, refl, List, length}
use ruuvi_air_mcuboot.Prelude.{slice, length-slice, arith, ◌==◌, if◌then◌else◌, pos}
use ruuvi_air_mcuboot.Prelude.{is_zero, minus_one, to_u32, IsError}
use ruuvi_air_mcuboot.Prelude.{is_neg_of_error, is_zero_of_error, Runs}
use ruuvi_air_mcuboot.Platform.Files.{FileApi, ReadResult, DidRead}
use ruuvi_air_mcuboot.Platform.Files.{IsOpenFile, IsOpen}
use ruuvi_air_mcuboot.Tlv.Defs.{load_image_data}

-- The result of reading `size` bytes at `start` in full.
abbrev pub piece : List ℕ → ℕ → ℕ → ReadResult
piece content start size = record { rc = pos 0; bytes = slice content start size }

-- The whole piece of the content, or a failure.
abbrev pub Loaded : List ℕ → ℕ → ℕ → ReadResult → Type 0
Loaded content start size r =
    ((r ≡ piece content start size) × (size ≤ length content - start)) ⊎ (is_zero r.rc ≡ false)

checked-Loaded :
    (content : List ℕ) (start size : ℕ) (r : ReadResult)
    → length content < 2 ^ 31
    → size < 2 ^ 31
    → IsError r.rc ⊎ ((r.rc ≡ pos (length r.bytes)) × (r.bytes ≡ slice content start size))
    → Loaded content start size
        (if to_u32 r.rc == size then record r { rc = pos 0 } else record r { rc = minus_one })
checked-Loaded content start size r short small (inl e) = ground arith
checked-Loaded content start size r short small (inr (e, b)) =
    ground (arith, length-slice content start size)

module _ {W : Type 0} (api : FileApi W) (f : ℕ) (content : List ℕ) (At : W → ℕ → Type 0)
    (file : IsOpenFile api f content At) where
  -- Reading returns and leaves the file open, and what it calls a success is the piece asked for.
  pub load_image_data_lem :
      (start size : ℕ) (w : W)
      → size < 2 ^ 31
      → IsOpen api f content At w
      → Runs
          (λ r w'. Loaded content start size r × IsOpen api f content At w')
          (load_image_data api f start size w)
  unfolding load_image_data
  load_image_data_lem start size w small (p, at) = elim (file.seek_set_lem w p start at) [
    | inl (e, at') ↦ rw (is_neg_of_error _ e) (_, _, refl, (inr (is_zero_of_error _ e), (p, at')))
    | inr (e, at') ↦
        rw e (_, _, refl, did_read (api.fs_read f size _) (file.read_lem _ start size at'))
  ]
    where
      did_read :
          (q : ReadResult × W)
          → DidRead api f content At start size q
          → Loaded content start size (
              if to_u32 q.0.rc == size
              then record q.0 { rc = pos 0 }
              else record q.0 { rc = minus_one })
            × IsOpen api f content At q.1
      did_read (r, w') (inl (e, at')) =
          (checked-Loaded content start size r file.short small (inl e), (start, at'))
      did_read (r, w') (inr (e, b, at')) =
          (checked-Loaded content start size r file.short small (inr (e, b)), (_, at'))
