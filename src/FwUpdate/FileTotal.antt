-- ===== src/FwUpdate/FileTotal.antt =====
-- `validate_file` ends on every file that the file system opens.
use ruuvi_air_mcuboot.FwUpdate.Checks.{close_and}
use ruuvi_air_mcuboot.Prelude.{ℕ, ◌≡◌, ◌⊎◌, inl, inr, refl, false, Option, none, some, List}
use ruuvi_air_mcuboot.Prelude.{
  arith, Runs, M, pure, ◌>>=◌, ◌>>◌, ◌==◌, if◌then◌else◌, is_neg, is_neg_of_error, Total,
  Total-pure, Total-if, Total-bind,
}
use ruuvi_air_mcuboot.Platform.Format.{ImageFormat, IsFormat}
use ruuvi_air_mcuboot.Platform.Files.{FileApi, IsOpenFile, IsOpen}
use ruuvi_air_mcuboot.Platform.FileSystem.{IsFileSystem, HasOpened}
use ruuvi_air_mcuboot.Platform.Crypto.{Crypto, IsCrypto}
use ruuvi_air_mcuboot.Platform.System.{SystemApi, OpenResult, Config}
use ruuvi_air_mcuboot.BtldrFs.{
  btldr_fs_open_file, btldr_fs_close_file, btldr_fs_lock_and_get_abs_path, btldr_fs_unlock,
  abs_path,
}
use ruuvi_air_mcuboot.BtldrFs.Total.{is_file_exist-Total, close_file-Total}
use ruuvi_air_mcuboot.FwUpdate.Checks.{
  Checked, Loaded, no_facts, load_image_header_from_file, open_file_and_load_image_header,
  validate_open_file, validate_file,
}
use ruuvi_air_mcuboot.FwUpdate.Header.{MaybeLoaded, IsLoaded, load_image_header_from_file_lem}
use ruuvi_air_mcuboot.FwUpdate.Accept.{leave_lem, validate_open_file_lem}

module _ {W : Type 0} (files : FileApi W) (sys : SystemApi W) (At : ℕ → List ℕ → W → ℕ → Type 0)
    (fs : IsFileSystem files sys At) (fmt : ImageFormat) (lawful : IsFormat fmt) (c : Crypto)
    (crypto : IsCrypto c) (cfg : Config) where
  -- No file, or one that is open at its start.
  abbrev AtStart : ℕ → W → Type 0
  AtStart f w =
      (f ≡ 0) ⊎ ((content : List ℕ) × IsOpenFile files f content (At f content) × At f content w 0)

  unlocked-AtStart :
      (q : OpenResult × W)
      → HasOpened files sys At q
      → AtStart (if is_neg q.0.rc then 0 else q.0.filep) (sys.k_mutex_unlock q.1).1
  unlocked-AtStart (r, w) (inl e) = rw (is_neg_of_error r.rc e) (inl refl)
  unlocked-AtStart (r, w) (inr (e, content, file, at)) =
      rw e (inr (content, file, fs.k_mutex_unlock_lem r.filep content w 0 at))

  open_file_lem : (name : List ℕ) (w : W) → Runs AtStart (btldr_fs_open_file sys cfg name w)
  unfolding btldr_fs_open_file btldr_fs_lock_and_get_abs_path btldr_fs_unlock
  open_file_lem name w =
      (_, _, refl, unlocked-AtStart _ (fs.fs_open_lem (abs_path cfg name) (sys.k_mutex_lock w).1))

  -- No file, or one that is open, with the header that stands in it.
  abbrev OpenedWith : Option (ℕ × Loaded) → W → Type 0
  OpenedWith none w = Unit {0}
  OpenedWith (some (f, l)) w =
      (content : List ℕ) × (file : IsOpenFile files f content (At f content)) × IsLoaded fmt lawful
        c crypto cfg files sys f content (At f content) file l
      × IsOpen files f content (At f content) w

  header_loaded :
      (f : ℕ) (content : List ℕ) (file : IsOpenFile files f content (At f content))
      (o : Option Loaded) (w : W)
      → MaybeLoaded fmt lawful c crypto cfg files sys f content (At f content) file o
      → IsOpen files f content (At f content) w
      → Runs OpenedWith (
          (elim o as (λ _. M W (Option (ℕ × Loaded))) [
            | none ↦ do btldr_fs_close_file sys cfg f; pure none
            | some l ↦ pure (some (f, l))
          ])
            w)
  header_loaded f content file none w loaded at =
      let (a, w', run) = (close_file-Total sys cfg f).ended w in rw (run, ◌>>=◌) (_, _, refl, tt)
  header_loaded f content file (some l) w loaded at = (_, _, refl, (content, file, loaded, at))

  from_start :
      (f : ℕ) (w : W)
      → AtStart f w
      → Runs OpenedWith (
          (if f == 0 then pure none else do
            loaded ← load_image_header_from_file fmt c cfg files sys f
            elim loaded as (λ _. M W (Option (ℕ × Loaded))) [
              | none ↦ do btldr_fs_close_file sys cfg f; pure none
              | some l ↦ pure (some (f, l))
            ])
            w)
  from_start f w (inl e) = rw e (_, _, refl, tt)
  from_start f w (inr (content, file, at)) =
      let (o, w', run, (loaded, at')) =
        load_image_header_from_file_lem fmt lawful c crypto cfg files sys f content (At f content)
          file w at in
      rw (not_null, run, ◌>>=◌) (header_loaded f content file o w' loaded at')
    where
      not_null : (f == 0) ≡ false
      not_null = ground (arith, file.not_null)

  open_file_and_load_lem :
      (name : List ℕ) (w : W)
      → Runs OpenedWith (open_file_and_load_image_header fmt c cfg files sys name w)
  unfolding open_file_and_load_image_header
  open_file_and_load_lem name w =
      let (f, w', run, opened) = open_file_lem name w in rw (run, ◌>>=◌) (from_start f w' opened)

  abbrev Ended : Checked → W → Type 0
  Ended a w = Unit {0}

  validated :
      (addr size : ℕ) (o : Option (ℕ × Loaded)) (w : W)
      → OpenedWith o w
      → Runs Ended (
          (elim o as (λ _. M W Checked) [
            | none ↦ pure (record { ok = false; facts = no_facts })
            | some (f, l) ↦
                validate_open_file fmt c cfg files sys
                  (close_and fmt c cfg files sys f)
                  f
                  addr
                  size
                  l
          ])
            w)
  validated addr size none w opened = (_, _, refl, tt)
  validated addr size (some (f, l)) w (content, file, loaded, at) =
      let (a, w', run, known) =
        validate_open_file_lem fmt lawful c crypto cfg files sys f content (At f content) file addr
          size l loaded w at in
      rw
        (
          leave_lem fmt c cfg files sys (close_and fmt c cfg files sys f) f addr size l w,
          run,
          ◌>>=◌,
        )
        (_, _, refl, tt)

  loaded-Total :
      (name : List ℕ) (addr size : ℕ)
      → Total (do
        opened ← open_file_and_load_image_header fmt c cfg files sys name
        elim opened as (λ _. M W Checked) [
          | none ↦ pure (record { ok = false; facts = no_facts })
          | some (f, l) ↦
              validate_open_file fmt c cfg files sys (close_and fmt c cfg files sys f) f addr size l
        ])
  loaded-Total name addr size = record {
    ended = λ w.
        let (o, w', run, opened) = open_file_and_load_lem name w in
        let (a, w'', run', done) = validated addr size o w' opened in
        rw (run, ◌>>=◌) (a, w'', run');
  }

  pub validate_file-Total :
      (name : List ℕ) (addr size : ℕ) → Total (validate_file fmt c cfg files sys name addr size)
  unfolding validate_file
  validate_file-Total name addr size =
      Total-bind _ _ (is_file_exist-Total sys cfg name)
        (λ exists. Total-if _ _ _ (Total-pure _) (loaded-Total name addr size))
