-- ===== src/HwRev/Loop.antt =====
-- The loop over the TLVs of the search in a file.
use ruuvi_air_mcuboot.Prelude.{ℕ, zero, suc, ◌+◌, ◌-◌, ◌≤◌, ◌<◌, ◌^◌, ◌≡◌, inl, inr, refl}
use ruuvi_air_mcuboot.Prelude.{true, false, not, ◌>>=◌, List, overwrite}
use ruuvi_air_mcuboot.Prelude.{arith, Runs, pure, Bool-cases, ltb, if◌then◌else◌, add32}
use ruuvi_air_mcuboot.Prelude.{is_neg, is_neg_of_error, is_zero_of_error}
use ruuvi_air_mcuboot.Platform.Format.{ImageFormat, IsFormat}
use ruuvi_air_mcuboot.Platform.Files.{FileApi, ReadResult, DidRead, IsOpenFile, IsOpen}
use ruuvi_air_mcuboot.Platform.System.{Config}
use ruuvi_air_mcuboot.HwRev.Defs.{
  HwRev, Handled, Span, is_complete, fw_img_hw_rev_handle_tlv_hw_rev_in_file, find_loop_in_file,
}
use ruuvi_air_mcuboot.HwRev.Search.{IsNamed, handle_tlv_lem}

module _ (fmt : ImageFormat) (lawful : IsFormat fmt) (cfg : Config) {W : Type 0} (files : FileApi W)
    (f : ℕ) (content : List ℕ) (At : W → ℕ → Type 0) (file : IsOpenFile files f content At) where
  -- What a search leaves.
  abbrev pub Searched : Handled → W → Type 0
  Searched a w =
      IsNamed a.hw_rev × (a.ok ≡ true → is_complete a.hw_rev ≡ true) × IsOpen files f content At w

  -- From the TLV read at `data_off` on.
  after_tlv :
      (fuel : ℕ) (span : Span) (data_off : ℕ) (tlv : List ℕ) (h : HwRev) (w : W)
      → add32 data_off fmt.tlv_size ≤ span.end_off
      → span.end_off < 2 ^ 31 + 2 ^ 17
      → data_off < 2 ^ 31 + 2 ^ 18
      → span.end_off - data_off < suc fuel
      → ((next : ℕ) (h' : HwRev) (w' : W)
          → next < 2 ^ 31 + 2 ^ 18
          → span.end_off - next < fuel
          → IsNamed h'
          → IsOpen files f content At w'
          → Runs Searched (find_loop_in_file fmt cfg files fuel f span next tlv h' w'))
      → IsNamed h
      → IsOpen files f content At w
      → Runs Searched (
          (do
            a ← fw_img_hw_rev_handle_tlv_hw_rev_in_file fmt cfg files (fmt.parse_tlv tlv) f h
            if not a.ok
                then pure a
                else if is_complete a.hw_rev
                then pure a
                else find_loop_in_file fmt cfg files fuel f span
                    (add32 data_off (fmt.tlv_size + (fmt.parse_tlv tlv).it_len))
                    tlv
                    a.hw_rev)
            w)
  after_tlv fuel span data_off tlv h w more end_low low enough rec v at =
      let (a, w', run, (v', at')) =
        handle_tlv_lem fmt lawful cfg files f content At file (fmt.parse_tlv tlv) h w v at in
      elim (Bool-cases a.ok) [
        | inr e ↦ rw (run, ◌>>=◌, e) (_, _, refl, (v', (λ z. cc), at'))
        | inl e ↦ elim (Bool-cases (is_complete a.hw_rev)) [
          | inl e' ↦ rw (run, ◌>>=◌, e, e') (_, _, refl, (v', (λ z. e'), at'))
          | inr e' ↦ rw (run, ◌>>=◌, e, e') (rec _ a.hw_rev w' next_low next_enough v' at')
        ]
      ]
    where
      next_low : add32 data_off (fmt.tlv_size + (fmt.parse_tlv tlv).it_len) < 2 ^ 31 + 2 ^ 18
      next_low = omega (arith, lawful.tlv_len tlv, lawful.tlv_size_small)

      next_enough : span.end_off - add32 data_off (fmt.tlv_size + (fmt.parse_tlv tlv).it_len) < fuel
      next_enough = omega (arith, lawful.tlv_len tlv, lawful.tlv_size_small, lawful.tlv_size_pos)

  loop_read :
      (fuel : ℕ) (span : Span) (data_off : ℕ) (tlv : List ℕ) (h : HwRev) (q : ReadResult × W)
      → add32 data_off fmt.tlv_size ≤ span.end_off
      → span.end_off < 2 ^ 31 + 2 ^ 17
      → data_off < 2 ^ 31 + 2 ^ 18
      → span.end_off - data_off < suc fuel
      → ((next : ℕ) (tlv' : List ℕ) (h' : HwRev) (w' : W)
          → next < 2 ^ 31 + 2 ^ 18
          → span.end_off - next < fuel
          → IsNamed h'
          → IsOpen files f content At w'
          → Runs Searched (find_loop_in_file fmt cfg files fuel f span next tlv' h' w'))
      → IsNamed h
      → DidRead files f content At data_off fmt.tlv_size q
      → Runs Searched (
          (if is_neg q.0.rc then pure (record { ok = false; hw_rev = h }) else do
            a ←
                fw_img_hw_rev_handle_tlv_hw_rev_in_file fmt cfg files
                  (fmt.parse_tlv (overwrite tlv q.0.bytes))
                  f
                  h
            if not a.ok
                then pure a
                else if is_complete a.hw_rev
                then pure a
                else find_loop_in_file fmt cfg files fuel f span
                    (add32 data_off
                      (fmt.tlv_size + (fmt.parse_tlv (overwrite tlv q.0.bytes)).it_len))
                    (overwrite tlv q.0.bytes)
                    a.hw_rev)
            q.1)
  loop_read fuel span data_off tlv h (r, w) more end_low low enough rec v (inl (e, at)) =
      rw (is_neg_of_error r.rc e) (_, _, refl, (v, (λ z. cc), (_, at)))
  loop_read fuel span data_off tlv h (r, w) more end_low low enough rec v (inr (e, b, at)) = rw e (
      after_tlv fuel span data_off (overwrite tlv r.bytes) h w more end_low low enough
        (λ next h' w' l n v' at'. rec next (overwrite tlv r.bytes) h' w' l n v' at') v (_, at))

  -- With offsets that do not wrap the loop returns, whatever it reads.
  pub find_loop_lem :
      (fuel : ℕ) (span : Span) (data_off : ℕ) (tlv : List ℕ) (h : HwRev) (w : W)
      → span.end_off < 2 ^ 31 + 2 ^ 17
      → data_off < 2 ^ 31 + 2 ^ 18
      → span.end_off - data_off < fuel
      → IsNamed h
      → IsOpen files f content At w
      → Runs Searched (find_loop_in_file fmt cfg files fuel f span data_off tlv h w)
  unfolding find_loop_in_file
  find_loop_lem zero span data_off tlv h w end_low low enough v at = elim enough [ ]
  find_loop_lem (suc fuel) span data_off tlv h w end_low low enough v (p, at) =
      elim (Bool-cases (ltb span.end_off (add32 data_off fmt.tlv_size))) [
        | inl e ↦ rw e (_, _, refl, (v, (λ z. cc), (_, at)))
        | inr e ↦ elim (file.seek_set_lem w p data_off at) [
          | inl (z, at') ↦ rw (e, is_zero_of_error _ z) (_, _, refl, (v, (λ z. cc), (_, at')))
          | inr (z, at') ↦
              rw (e, z)
                (loop_read fuel span data_off tlv h _ (ground arith) end_low low enough
                  (λ next tlv' h' w' l n. find_loop_lem fuel span next tlv' h' w' end_low l n) v
                  (file.read_lem _ data_off fmt.tlv_size at'))
        ]
      ]
