-- ===== src/Validate/Hash.antt =====
-- `file_img_hash`, block by block, against the digest of the bytes at once.
use ruuvi_air_mcuboot.Prelude.{subst}
use ruuvi_air_mcuboot.Prelude.{ℕ, zero, suc, ◌+◌, ◌-◌, ◌≤◌, ◌<◌, ◌^◌, ◌≡◌, inl, inr, refl, sym, ap}
use ruuvi_air_mcuboot.Prelude.{◌∙◌, ◌>>=◌, true, false, List, [], length, take, slice, slice-slice}
use ruuvi_air_mcuboot.Prelude.{Option, ℤ, arith, Runs, Bool-cases, ltb, is_zero, add32, not, pure}
use ruuvi_air_mcuboot.Prelude.{if◌then◌else◌}
use ruuvi_air_mcuboot.Platform.Format.{ImageHeader}
use ruuvi_air_mcuboot.Platform.Files.{FileApi, ReadResult, IsOpenFile, IsOpen}
use ruuvi_air_mcuboot.Platform.Crypto.{Crypto, IsCrypto}
use ruuvi_air_mcuboot.Tlv.Load.{Loaded, load_image_data_lem}
use ruuvi_air_mcuboot.Validate.Defs.{Answer, hashed_size, seeded, hash_loop, file_img_hash}

hashed_size_u32 : (hdr : ImageHeader) → hashed_size hdr < 2 ^ 32
unfolding hashed_size
hashed_size_u32 hdr = omega arith

-- The sum of the sizes of the header, the image and the protected TLVs.
abbrev pub signed_size : ImageHeader → ℕ
signed_size hdr = hdr.ih_hdr_size + hdr.ih_img_size + hdr.ih_protect_tlv_size

hashed_size-signed_size :
    (hdr : ImageHeader) → signed_size hdr < 2 ^ 32 → hashed_size hdr ≡ signed_size hdr
unfolding hashed_size
hashed_size-signed_size hdr sum = omega arith

module _ (c : Crypto) (crypto : IsCrypto c) (content : List ℕ) where
  open c use {ShaContext, sha_update, sha_finish}

  -- A success of the loop from `off` on has hashed the bytes up to `size`, which the file holds.
  abbrev HashedFrom : ℕ → ℕ → ShaContext → Answer ShaContext → Type 0
  HashedFrom size off ctx a =
      is_zero a.rc ≡ true
      → (a.out ≡ sha_update ctx (slice content off (size - off)))
        × (size - off ≤ length content - off)

  HashedFrom-next :
      (size off blk : ℕ) (ctx : ShaContext) (a : Answer ShaContext)
      → off + blk ≤ size
      → 0 < blk
      → blk ≤ length content - off
      → HashedFrom size (off + blk) (sha_update ctx (slice content off blk)) a
      → HashedFrom size off ctx a
  HashedFrom-next size off blk ctx a le nonempty there h z =
      let (e, l) = h z in
      (
        e
            ∙ crypto.sha_update-append ctx _ _
            ∙ ap (λ x. sha_update ctx x)
                (slice-slice content off blk (size - (off + blk))
                  ∙ ap (λ n. slice content off n) (omega arith)),
        omega arith,
      )

  module _ {W : Type 0} (api : FileApi W) (f : ℕ) (At : W → ℕ → Type 0)
      (file : IsOpenFile api f content At) (tmp_buf_sz : ℕ) (room : 0 < tmp_buf_sz)
      (small : tmp_buf_sz < 2 ^ 31) where
    abbrev Hashes : ℕ → ℕ → ShaContext → Answer ShaContext → W → Type 0
    Hashes size off ctx a w = HashedFrom size off ctx a × IsOpen api f content At w

    after_block :
        (fuel size off blk : ℕ) (ctx : ShaContext)
        → size < 2 ^ 32
        → off + blk ≤ size
        → 0 < blk
        → ((o : ℕ) (ctx' : ShaContext) (w : W)
            → off < o
            → o ≤ size
            → IsOpen api f content At w
            → Runs (Hashes size o ctx') (hash_loop api c f fuel tmp_buf_sz size o ctx' w))
        → (r : ReadResult) (w : W) → Loaded content off blk r
        → IsOpen api f content At w
        → Runs (Hashes size off ctx) (
            (if not (is_zero r.rc)
                then pure (record { rc = r.rc; out = ctx })
                else hash_loop api c f fuel tmp_buf_sz size
                    (add32 off blk)
                    (sha_update ctx r.bytes))
              w)
    after_block fuel size off blk ctx u32 le nonempty rec r w (inr z) at =
        rw z (_, _, refl, ((λ z'. absurd (cc)), at))
    after_block fuel size off blk ctx u32 le nonempty rec r w (inl (e, there)) at =
        rw (e, wrap)
          (let (a, w', run, (h, at')) =
              rec (off + blk) (sha_update ctx (slice content off blk)) w (omega arith) le at in
            (a, w', run, (HashedFrom-next size off blk ctx a le nonempty there h, at')))
      where
        wrap : add32 off blk ≡ off + blk
        wrap = omega arith

    hash_loop_lem :
        (fuel size off : ℕ) (ctx : ShaContext) (w : W)
        → size < 2 ^ 32
        → size - off < fuel
        → off ≤ size
        → IsOpen api f content At w
        → Runs (Hashes size off ctx) (hash_loop api c f fuel tmp_buf_sz size off ctx w)
    unfolding hash_loop
    hash_loop_lem zero size off ctx w u32 enough le at = elim enough [ ]
    hash_loop_lem (suc fuel) size off ctx w u32 enough le at = elim (Bool-cases (ltb off size)) [
      | inr e ↦ rw e (_, _, refl, ((λ z. (at_end e, omega (arith, done e))), at))
      | inl e ↦
          let (r, w', run, (loaded, at')) =
            load_image_data_lem api f content At file off blk w blk_small at in
          rw (e, run, ◌>>=◌)
            (after_block fuel size off blk ctx u32 (blk_le e) (blk_pos e)
              (λ o ctx' w'' lt le'. hash_loop_lem fuel size o ctx' w'' u32 (omega arith) le') r w'
              loaded at')
    ]
      where
        blk : ℕ
        blk = if ltb tmp_buf_sz (size - off) then tmp_buf_sz else size - off

        blk_small : blk < 2 ^ 31
        blk_small = ground arith

        blk_le : ltb off size ≡ true → off + blk ≤ size
        blk_le e = ground arith

        blk_pos : ltb off size ≡ true → 0 < blk
        blk_pos e = ground arith

        done : ltb off size ≡ false → size - off ≡ 0
        done e = ground arith

        at_end : ltb off size ≡ false → ctx ≡ sha_update ctx (slice content off (size - off))
        at_end e = rw (done e) (sym (crypto.sha_update-nil ctx))

    -- The same for the size as the code computes it, which wraps.
    pub hash_of_size_lem :
        (hdr : ImageHeader) (seed : Option (List ℕ)) (seed_len : ℤ) (w : W)
        → IsOpen api f content At w
        → Runs
            (λ a w'.
              ((is_zero a.rc ≡ true)
                → (a.out
                    ≡ sha_finish
                        (sha_update (seeded c seed seed_len) (take (hashed_size hdr) content)))
                  × (hashed_size hdr ≤ length content))
              × IsOpen api f content At w')
            (file_img_hash api c f hdr tmp_buf_sz seed seed_len w)
    unfolding file_img_hash
    hash_of_size_lem hdr seed seed_len w at =
        let (a, w', run, (h, at')) =
          hash_loop_lem (suc (hashed_size hdr)) (hashed_size hdr) 0 (seeded c seed seed_len) w u32
            (omega arith) (omega arith) at in
        rw (run, ◌>>=◌) (_, _, refl, (finish a h, at'))
      where
        size : ℕ
        size = hashed_size hdr

        u32 : hashed_size hdr < 2 ^ 32
        u32 = hashed_size_u32 hdr

        whole : take (size - 0) content ≡ take size content
        whole = ap (λ n. take n content) (omega arith)

        finish :
            (a : Answer ShaContext)
            → HashedFrom size 0 (seeded c seed seed_len) a
            → is_zero a.rc ≡ true
            → ((if is_zero a.rc then sha_finish a.out else [])
                ≡ sha_finish (sha_update (seeded c seed seed_len) (take size content)))
              × (size ≤ length content)
        finish a h z = let (e, l) = h z in (rw (z, e, whole), omega arith)

    -- On a file that is open on a content, and with a buffer that is not empty, let the sizes of
    -- the header, the image and the protected TLVs add up to less than 2^32. `file_img_hash` returns
    -- although every read may fail, and leaves the file open. Where it answers 0, the file holds the
    -- header, the image and the protected TLVs whole, and the result is the digest of exactly these
    -- bytes, behind the seed.
    pub file_img_hash_lem :
        (hdr : ImageHeader) (seed : Option (List ℕ)) (seed_len : ℤ) (w : W)
        → signed_size hdr < 2 ^ 32
        → IsOpen api f content At w
        → Runs
            (λ a w'.
              ((is_zero a.rc ≡ true)
                → (a.out
                    ≡ sha_finish
                        (sha_update (seeded c seed seed_len) (take (signed_size hdr) content)))
                  × (signed_size hdr ≤ length content))
              × IsOpen api f content At w')
            (file_img_hash api c f hdr tmp_buf_sz seed seed_len w)
    file_img_hash_lem hdr seed seed_len w sum at =
        subst
          (λ n.
            Runs
              (λ a w'.
                ((is_zero a.rc ≡ true)
                  → (a.out ≡ sha_finish (sha_update (seeded c seed seed_len) (take n content)))
                    × (n ≤ length content))
                × IsOpen api f content At w')
              (file_img_hash api c f hdr tmp_buf_sz seed seed_len w))
          (hashed_size-signed_size hdr sum) (hash_of_size_lem hdr seed seed_len w at)
