-- ===== src/Validate/HashOk.antt =====
-- `file_img_hash` where no read fails: it succeeds for every image that the file holds whole.
use ruuvi_air_mcuboot.Prelude.{
  ℕ, zero, suc, ◌+◌, ◌-◌, ◌≤◌, ◌<◌, ◌^◌, ◌≡◌, inl, inr, refl, ◌>>=◌, true, List, length, take,
  slice, not, pure, Option, ℤ, arith,
}
use ruuvi_air_mcuboot.Prelude.{Runs, Runs_at, Bool-cases, ltb, is_zero, add32, if◌then◌else◌}
use ruuvi_air_mcuboot.Platform.Format.{ImageHeader}
use ruuvi_air_mcuboot.Platform.Files.{FileApi, ReadResult, IsOpenFile, IsOpen, IsReliableFile}
use ruuvi_air_mcuboot.Platform.Crypto.{Crypto, IsCrypto}
use ruuvi_air_mcuboot.Tlv.Load.{piece}
use ruuvi_air_mcuboot.Tlv.Reliable.{load_ok}
use ruuvi_air_mcuboot.Validate.Defs.{Answer, hashed_size, seeded, hash_loop, file_img_hash}
use ruuvi_air_mcuboot.Validate.Hash.{hash_of_size_lem}

module _ (c : Crypto) (crypto : IsCrypto c) (content : List ℕ) {W : Type 0} (api : FileApi W)
    (f : ℕ) (At : W → ℕ → Type 0) (file : IsOpenFile api f content At) (ok : IsReliableFile api)
    (tmp_buf_sz : ℕ) (room : 0 < tmp_buf_sz) (small : tmp_buf_sz < 2 ^ 31) where
  open c use {ShaContext, sha_update, sha_finish}

  abbrev Succeeds : {A : Type 0} → Answer A → W → Type 0
  Succeeds a w = (is_zero a.rc ≡ true) × IsOpen api f content At w

  block_ok :
      (fuel size off blk : ℕ) (ctx : ShaContext) (r : ReadResult) (w : W)
      → r ≡ piece content off blk
      → add32 off blk ≡ off + blk
      → Runs Succeeds (
          hash_loop api c f fuel tmp_buf_sz size
            (off + blk)
            (sha_update ctx (slice content off blk))
            w)
      → Runs Succeeds (
          (if not (is_zero r.rc)
              then pure (record { rc = r.rc; out = ctx })
              else hash_loop api c f fuel tmp_buf_sz size (add32 off blk) (sha_update ctx r.bytes))
            w)
  block_ok fuel size off blk ctx r w e next rest = rw (e, next) rest

  hash_loop_ok :
      (fuel size off : ℕ) (ctx : ShaContext) (w : W)
      → size ≤ length content
      → size - off < fuel
      → off ≤ size
      → IsOpen api f content At w
      → Runs Succeeds (hash_loop api c f fuel tmp_buf_sz size off ctx w)
  unfolding hash_loop
  hash_loop_ok zero size off ctx w whole enough le at = elim enough [ ]
  hash_loop_ok (suc fuel) size off ctx w whole enough le at = elim (Bool-cases (ltb off size)) [
    | inr e ↦ rw e (_, _, refl, (refl, at))
    | inl e ↦
        let blk : ℕ = if ltb tmp_buf_sz (size - off) then tmp_buf_sz else size - off in
        let inside : off + blk ≤ size = ground arith in
        let forward : 0 < blk = ground arith in
        let short : blk < 2 ^ 31 = ground arith in
        let next : add32 off blk ≡ off + blk = omega (arith, file.short) in
        let (r, w', run, (loaded, at')) =
          load_ok content api f At file ok off blk w short (omega arith) at in
        rw (e, run, ◌>>=◌)
          (block_ok fuel size off blk ctx r w' loaded next (
            hash_loop_ok fuel size (off + blk) (sha_update ctx (slice content off blk)) w' whole
              (omega arith) inside at'))
  ]

  hash_ok :
      (hdr : ImageHeader) (seed : Option (List ℕ)) (seed_len : ℤ) (w : W)
      → hashed_size hdr ≤ length content
      → IsOpen api f content At w
      → Runs Succeeds (file_img_hash api c f hdr tmp_buf_sz seed seed_len w)
  unfolding file_img_hash
  hash_ok hdr seed seed_len w whole at =
      let (a, w', run, (z, at')) =
        hash_loop_ok (suc (hashed_size hdr)) (hashed_size hdr) 0 (seeded c seed seed_len) w whole
          (omega arith) (omega arith) at in
      rw (run, ◌>>=◌) (_, _, refl, (z, at'))

  -- It succeeds with the digest.
  pub file_img_hash_ok :
      (hdr : ImageHeader) (seed : Option (List ℕ)) (seed_len : ℤ) (w : W)
      → hashed_size hdr ≤ length content
      → IsOpen api f content At w
      → Runs
          (λ a w'.
            (is_zero a.rc ≡ true)
            × (a.out
                ≡ sha_finish (sha_update (seeded c seed seed_len) (take (hashed_size hdr) content)))
            × IsOpen api f content At w')
          (file_img_hash api c f hdr tmp_buf_sz seed seed_len w)
  file_img_hash_ok hdr seed seed_len w whole at =
      let (a, w', run, (known, at')) =
        hash_of_size_lem c crypto content api f At file tmp_buf_sz room small hdr seed seed_len w
          at in
      let (z, at'') = Runs_at Succeeds _ a w' (hash_ok hdr seed seed_len w whole at) run in
      (a, w', run, (z, (known z).0, at'))
