-- ===== src/FwUpdate/Closing.antt =====
-- The checks of an update file close what they open.
use ruuvi_air_mcuboot.Prelude.{◌+◌, ◌∷◌, true, leb, is_zero, sub32, add32}
use ruuvi_air_mcuboot.Platform.Files.{Whence}
use ruuvi_air_mcuboot.Platform.Frame.{
  Keeps-fs_seek, Keeps-fs_read, Keeps-load_shared, Keeps-fw_info_find, Keeps-bl_validate_firmware,
}
use ruuvi_air_mcuboot.HwRev.Defs.{no_hw_rev}
use ruuvi_air_mcuboot.FwUpdate.Checks.{no_facts, Loaded, close_and, is_reset_inside, u32_le}
use ruuvi_air_mcuboot.FwUpdate.Frame.{validate_image-Keeps}
use ruuvi_air_mcuboot.Prelude.{
  ℕ, suc, ◌≡◌, inl, inr, refl, ap, ◌∙◌, Bool, false, not, Option, none, some,
}
use ruuvi_air_mcuboot.Prelude.{List, M, pure, lift, ◌>>=◌, if◌then◌else◌, ◌==◌, is_neg, ltb, to_u32}
use ruuvi_air_mcuboot.Prelude.{pos, minus_one, is_neg_of_error, arith, Keeps}
use ruuvi_air_mcuboot.Platform.Format.{ImageFormat}
use ruuvi_air_mcuboot.Platform.Files.{FileApi}
use ruuvi_air_mcuboot.Platform.Crypto.{Crypto}
use ruuvi_air_mcuboot.Platform.System.{SystemApi, Config, FwInfo}
use ruuvi_air_mcuboot.Platform.Frame.{IsFileFramed, IsSystemFramed}
use ruuvi_air_mcuboot.BtldrFs.{
  abs_path, btldr_fs_open_file, btldr_fs_close_file, btldr_fs_is_file_exist,
  btldr_fs_lock_and_get_abs_path, btldr_fs_unlock, btldr_fs_unlink_file,
}
use ruuvi_air_mcuboot.BtldrFs.Frame.{is_file_exist-Keeps, get_file_size-Keeps}
use ruuvi_air_mcuboot.FwUpdate.Checks.{
  FileFacts, Checked, validate_b0_read, validate_b0_signature, load_image_header_from_file,
  open_file_and_load_image_header, validate_image, validate_open_file, validate_file,
  remove_and_fail, check_file, fw_info_check_in_file, find_fw_info_at, fw_info_find_in_file,
}
use ruuvi_air_mcuboot.FwUpdate.Frame.{load_header-Keeps, remove_and_fail-Keeps, find_info_at-Keeps}
use ruuvi_air_mcuboot.FwUpdate.Files.{
  IsTracked, Opens, Opens-pure, Opens-Keeps, Opens-bind, Opens-if, Opens-Option, Opens-start,
}

-- The system without its opening and closing of files.
abbrev pub quiet : {W : Type 0} → SystemApi W → SystemApi W
quiet sys = record sys {
  fs_open = λ path w. (record { rc = minus_one; filep = 0 }, w);
  fs_close = λ f w. (pos 0, w);
}

suc_nonzero : (g : ℕ) → (suc g == 0) ≡ false
suc_nonzero g = ground arith

module _ {W : Type 0} (opens : W → List ℕ) (files : FileApi W)
    (file_law : (n : List ℕ) → IsFileFramed files (λ w. opens w ≡ n)) (sys : SystemApi W)
    (track : IsTracked sys opens)
    (law : (n : List ℕ) → IsSystemFramed (quiet sys) (λ w. opens w ≡ n)) (fmt : ImageFormat)
    (c : Crypto) (cfg : Config) where
  open_file-Opens :
      (n : List ℕ) (name : List ℕ)
      → Opens opens n (btldr_fs_open_file sys cfg name) (λ f. if f == 0 then n else f ∷ n)
  unfolding btldr_fs_open_file btldr_fs_lock_and_get_abs_path btldr_fs_unlock
  open_file-Opens n name = record {
    opened = λ w f w' e run.
        let path = abs_path cfg name in
        let locked = (sys.k_mutex_lock w).1 in
        let r = sys.fs_open path locked in
        let before : opens locked ≡ n = (law n).k_mutex_lock_lem w e in
        let after : opens (sys.k_mutex_unlock r.1).1 ≡ opens r.1 =
          (law (opens r.1)).k_mutex_unlock_lem r.1 refl in
        let unlocked = (sys.k_mutex_unlock r.1).1 in
        let run' : pure (if is_neg r.0.rc then 0 else r.0.filep) unlocked ≡ some (f, w') = run in
        let result : f ≡ (if is_neg r.0.rc then 0 else r.0.filep) = cc run' in
        let world : opens w' ≡ opens unlocked = ap opens {x = w'} {y = unlocked} (cc run') in
        elim (track.fs_open_lem path locked) [
          | inl (err, same) ↦
              let none_open : f ≡ 0 = result ∙ rw (is_neg_of_error r.0.rc err) refl in
              rw none_open (world ∙ after ∙ same ∙ before)
          | inr (rc, (g, filep), more) ↦
              let open_now : f ≡ suc g = result ∙ rw (rc, filep) refl in
              let added : opens r.1 ≡ suc g ∷ n =
                more ∙ ap (λ h. h ∷ opens locked) filep ∙ ap (λ xs. suc g ∷ xs) before in
              rw (open_now, suc_nonzero g) (world ∙ after ∙ added)
        ];
  }

  close-Opens : (n : List ℕ) (f : ℕ) → Opens opens (f ∷ n) (lift (sys.fs_close f)) (λ _. n)
  close-Opens n f = record {
    opened = λ w x w' e run.
        let run' : lift (sys.fs_close f) w ≡ some (x, w') = run in
        let world : opens w' ≡ opens (sys.fs_close f w).1 =
          ap opens {x = w'} {y = (sys.fs_close f w).1} (cc run') in
        world ∙ track.fs_close_lem f n w e;
  }

  -- Behind an opening of a file: it failed, or one file more is open.
  open_then-Opens :
      {A : Type 0} (n : List ℕ) (name : List ℕ) (z : M W A) (k : ℕ → M W A) (b : A → List ℕ)
      → Opens opens n z b
      → ((f : ℕ) → Opens opens (f ∷ n) (k f) b)
      → Opens opens n (btldr_fs_open_file sys cfg name >>= λ f. if f == 0 then z else k f) b
  open_then-Opens n name z k b hz hk =
      Opens-bind n _ (λ f. if f == 0 then n else f ∷ n) _ b (open_file-Opens n name)
        (λ f.
          Opens-if _ (f == 0) z (k f) b (λ t. Opens-start _ n z b (rw t refl) hz)
            (λ t. Opens-start _ (f ∷ n) (k f) b (rw t refl) (hk f)))

  -- Closing, and then only an answer.
  close_then-Opens :
      {A : Type 0} (n : List ℕ) (f : ℕ) (x : A)
      → Opens opens (f ∷ n) (do rc ← lift (sys.fs_close f); pure x) (λ _. n)
  close_then-Opens n f x =
      Opens-bind (f ∷ n) _ (λ _. n) _ (λ _. n) (close-Opens n f) (λ rc. Opens-pure n x _ refl)

  b0_read-Opens :
      (n : List ℕ) (f file_size addr : ℕ)
      → Opens opens (f ∷ n) (validate_b0_read fmt c cfg files sys f file_size addr) (λ _. n)
  unfolding validate_b0_read
  b0_read-Opens n f file_size addr =
      let stop = close_then-Opens n f false in
      let quiet_law = law (f ∷ n) in
      Opens-bind _ _ (λ _. f ∷ n) _ _
        (Opens-Keeps _ _ (Keeps-fs_read files f file_size (file_law (f ∷ n))))
        (λ r.
          Opens-bind _ _ (λ _. f ∷ n) _ _
            (Opens-Keeps _ _ (Keeps-load_shared (quiet sys) r.bytes quiet_law))
            (λ u.
              Opens-if _ (is_neg r.rc) _ _ _ (λ t. stop)
                (λ t.
                  Opens-if _ (not (to_u32 r.rc == file_size)) _ _ _ (λ s. stop)
                    (λ s.
                      Opens-bind _ _ (λ _. f ∷ n) _ _
                        (Opens-Keeps _ _ (Keeps-fw_info_find (quiet sys) cfg.shared_addr quiet_law))
                        (λ info.
                          Opens-Option _ info _ _ _ (λ e. stop)
                            (λ i e.
                              Opens-if _ (leb cfg.shared_size (sub32 i.address addr)) _ _ _
                                (λ v. stop)
                                (λ v.
                                  Opens-bind _ _ (λ _. f ∷ n) _ _
                                    (Opens-Keeps _ _ (
                                      Keeps-bl_validate_firmware (quiet sys) i.address
                                        (add32 cfg.shared_addr (sub32 i.address addr)) quiet_law))
                                    (λ ok.
                                      Opens-if _ (not ok) _ _ _ (λ x. stop)
                                        (λ x. close_then-Opens n f true)))))))))

  b0-Opens :
      (n : List ℕ) (name : List ℕ) (addr size : ℕ)
      → Opens opens n (validate_b0_signature fmt c cfg files sys name addr size) (λ _. n)
  unfolding validate_b0_signature
  b0-Opens n name addr size =
      Opens-if n (not (size == cfg.shared_size)) _ _ _ (λ t. Opens-pure n false _ refl)
        (λ t.
          open_then-Opens n name _ _ (λ _. n) (Opens-pure n false _ refl)
            (λ f.
              Opens-bind (f ∷ n) _ (λ _. f ∷ n) _ _
                (Opens-Keeps (f ∷ n) _ (get_file_size-Keeps files (file_law (f ∷ n)) f))
                (λ file_size.
                  Opens-if (f ∷ n) (ltb cfg.shared_size (to_u32 file_size)) _ _ _
                    (λ s. close_then-Opens n f false)
                    (λ s. b0_read-Opens n f (to_u32 file_size) addr))))

  -- The file is open where it is returned.
  load-Opens :
      (n : List ℕ) (name : List ℕ)
      → Opens opens n
          (open_file_and_load_image_header fmt c cfg files sys name)
          (λ o. elim o [ none ↦ n | some (f, l) ↦ f ∷ n ])
  unfolding open_file_and_load_image_header load_image_header_from_file btldr_fs_close_file
  load-Opens n name = open_then-Opens n name _ _ _ (Opens-pure n none _ refl) (λ f.
      Opens-bind (f ∷ n) _ (λ _. f ∷ n) _ _
        (Opens-Keeps (f ∷ n) _
          (load_header-Keeps files (file_law (f ∷ n)) (quiet sys) (law (f ∷ n)) fmt c cfg f))
        (λ loaded.
          Opens-Option (f ∷ n) loaded _ _ _
            (λ e.
              Opens-bind (f ∷ n) (btldr_fs_close_file sys cfg f) (λ _. n) _ _
                (close_then-Opens n f tt) (λ u. Opens-pure n none _ refl))
            (λ l e. Opens-pure (f ∷ n) (some (f, l)) _ refl)))

  exist-Keeps :
      (n : List ℕ) (name : List ℕ) → Keeps (λ w. opens w ≡ n) (btldr_fs_is_file_exist sys cfg name)
  unfolding btldr_fs_is_file_exist btldr_fs_lock_and_get_abs_path btldr_fs_unlock
  exist-Keeps n name = is_file_exist-Keeps (quiet sys) (law n) cfg name

  validate_image-Opens :
      (n : List ℕ) (f size : ℕ) (l : Loaded)
      → Opens opens (f ∷ n) (validate_image fmt c cfg files sys f size l.hdr) (λ _. f ∷ n)
  unfolding validate_image
  validate_image-Opens n f size l = Opens-Keeps (f ∷ n) _ (
      validate_image-Keeps files (file_law (f ∷ n)) (quiet sys) (law (f ∷ n)) fmt c cfg f size
        l.hdr)

  -- The answer of a check that fails behind the first.
  abbrev refused : Loaded → Checked
  refused l = record { ok = false; facts = record { img_hdr = some l.hdr; hw_rev = no_hw_rev } }

  -- Each return closes the file.
  open_checks-Opens :
      (n : List ℕ) (f addr size : ℕ) (l : Loaded)
      → Opens opens
          (f ∷ n)
          (validate_open_file fmt c cfg files sys (close_and fmt c cfg files sys f) f addr size l)
          (λ _. n)
  unfolding validate_open_file
  open_checks-Opens n f addr size l =
      Opens-if _ (leb size l.img_size) _ _ _
        (λ t. close_then-Opens n f (record { ok = false; facts = no_facts }))
        (λ t.
          Opens-bind _ _ (λ _. f ∷ n) _ _
            (Opens-Keeps _ _
              (Keeps-fs_seek files f (l.hdr.ih_hdr_size + 4) Whence.seek_set (file_law (f ∷ n))))
            (λ rc.
              Opens-if _ (not (is_zero rc)) _ _ _ (λ s. close_then-Opens n f (refused l))
                (λ s.
                  Opens-bind _ _ (λ _. f ∷ n) _ _
                    (Opens-Keeps _ _ (Keeps-fs_read files f 4 (file_law (f ∷ n))))
                    (λ r.
                      Opens-if _ (is_neg r.rc) _ _ _ (λ u. close_then-Opens n f (refused l))
                        (λ u.
                          Opens-if _ (not (to_u32 r.rc == 4)) _ _ _
                            (λ v. close_then-Opens n f (refused l))
                            (λ v.
                              Opens-if _ (not (is_reset_inside addr size (u32_le r.bytes))) _ _ _
                                (λ x. close_then-Opens n f (refused l))
                                (λ x.
                                  Opens-bind _ _ (λ _. f ∷ n) _ _ (validate_image-Opens n f size l)
                                    (λ a.
                                      Opens-if _ (not a.ok) _ _ _ (λ y. close_then-Opens n f a)
                                        (λ y. close_then-Opens n f a)))))))))

  validate_file-Opens :
      (n : List ℕ) (name : List ℕ) (addr size : ℕ)
      → Opens opens n (validate_file fmt c cfg files sys name addr size) (λ _. n)
  unfolding validate_file
  validate_file-Opens n name addr size =
      Opens-bind n _ (λ _. n) _ _ (Opens-Keeps n _ (exist-Keeps n name))
        (λ exists.
          Opens-if n (not exists) _ _ _ (λ t. Opens-pure n _ _ refl)
            (λ t. Opens-bind n _ _ _ _ (load-Opens n name) (λ opened.
              Opens-Option _ opened _ _ _
                (λ e. Opens-start _ n _ _ (rw e refl) (Opens-pure n _ _ refl))
                (λ (f, l) e.
                  Opens-start _ (f ∷ n) _ _ (rw e refl) (open_checks-Opens n f addr size l)))))

  fw_info-Opens :
      (n : List ℕ) (name : List ℕ)
      → Opens opens n (fw_info_find_in_file fmt c cfg files sys name) (λ _. n)
  unfolding fw_info_find_in_file find_fw_info_at fw_info_check_in_file
  fw_info-Opens n name = open_then-Opens n name _ _ _ (Opens-pure n none _ refl) (λ f.
      Opens-bind (f ∷ n) _ (λ _. f ∷ n) _ _
        (Opens-Keeps (f ∷ n) _ (
          find_info_at-Keeps files (file_law (f ∷ n)) (quiet sys) (law (f ∷ n)) fmt c cfg f
            cfg.fw_info_allowed_offsets))
        (λ info. close_then-Opens n f info))

  fail-Keeps :
      (n : List ℕ) (name : List ℕ) (facts : FileFacts)
      → Keeps (λ w. opens w ≡ n) (remove_and_fail fmt c cfg files sys name facts)
  unfolding remove_and_fail btldr_fs_unlink_file btldr_fs_lock_and_get_abs_path btldr_fs_unlock
  fail-Keeps n name facts =
      remove_and_fail-Keeps files (file_law n) (quiet sys) (law n) fmt c cfg name facts

  check_file-Opens :
      (n : List ℕ) (name : List ℕ) (addr size : ℕ) (flag : Bool)
      → Opens opens n (check_file fmt c cfg files sys name addr size flag) (λ _. n)
  unfolding check_file
  check_file-Opens n name addr size flag =
      Opens-bind n _ (λ _. n) _ _ (Opens-Keeps n _ (exist-Keeps n name))
        (λ exists.
          Opens-if n (not exists) _ _ _ (λ t. Opens-pure n _ _ refl)
            (λ t.
              Opens-if n flag _ _ _
                (λ s.
                  Opens-bind n _ (λ _. n) _ _ (b0-Opens n name addr size)
                    (λ valid.
                      Opens-if n (not valid) _ _ _ (λ v. Opens-Keeps n _ (fail-Keeps n name _))
                        (λ v.
                          Opens-bind n _ (λ _. n) _ _ (validate_file-Opens n name addr size)
                            (λ a. Opens-pure n _ _ refl))))
                (λ s.
                  Opens-bind n _ (λ _. n) _ _ (validate_file-Opens n name addr size)
                    (λ a.
                      Opens-if n (not a.ok) _ _ _ (λ v. Opens-Keeps n _ (fail-Keeps n name _))
                        (λ v. Opens-pure n a _ refl)))))

  -- Let an opening that succeeds add a file, with a `filep` that is not NULL, to the open ones,
  -- a closing of the one opened last take it away, and let the other calls that the checks make
  -- neither open nor close. Where `check_file` ends, and then `fw_info_find_in_file`, with whatever
  -- answers and whichever calls have failed, each leaves open exactly the files that were open at
  -- the start: every return has closed the file that was opened, and no other one.
  pub check_file-closes :
      (name : List ℕ) (addr size : ℕ) (flag : Bool) (w u v : W) (a : Checked) (info : Option FwInfo)
      → check_file fmt c cfg files sys name addr size flag w ≡ some (a, u)
      → fw_info_find_in_file fmt c cfg files sys name u ≡ some (info, v)
      → (opens u ≡ opens w) × (opens v ≡ opens w)
  check_file-closes name addr size flag w u v a info checked found =
      let same = (check_file-Opens (opens w) name addr size flag).opened w a u refl checked in
      (same, (fw_info-Opens (opens w) name).opened u info v same found)
