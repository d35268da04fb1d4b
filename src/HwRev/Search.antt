-- ===== src/HwRev/Search.antt =====
-- One TLV of the search for the hardware revision in a file, and the state of the name.
use ruuvi_air_mcuboot.Prelude.{ℕ, zero, suc, ◌≤◌, ◌<◌, ◌≡◌, inl, inr, refl, ap, ◌∙◌}
use ruuvi_air_mcuboot.Prelude.{true, false, ◌>>=◌, some, List, [], ◌∷◌, length}
use ruuvi_air_mcuboot.Prelude.{
  get_or, get_elem?, set, drop, ◌++◌, overwrite, length-set, length-slice, length-append,
  length-drop,
}
use ruuvi_air_mcuboot.Prelude.{arith, Runs, pure, Bool-cases, leb, ◌==◌, if◌then◌else◌}
use ruuvi_air_mcuboot.Prelude.{is_neg, is_neg_of_error}
use ruuvi_air_mcuboot.Platform.Format.{Tlv, ImageFormat, IsFormat}
use ruuvi_air_mcuboot.Platform.Files.{FileApi, ReadResult, DidRead, IsOpenFile, IsOpen}
use ruuvi_air_mcuboot.Platform.System.{Config}
use ruuvi_air_mcuboot.HwRev.Defs.{
  HwRev, Handled, hw_rev_name_size, cleared, with_num, with_name, handle_num_in_file,
  handle_name_in_file, fw_img_hw_rev_handle_tlv_hw_rev_in_file,
}

-- The name fills its array and has a NUL in it.
pub record IsNamed (h : HwRev) : Type 0 where
  pub fills : length h.hw_rev_name ≡ hw_rev_name_size
  pub stop : ℕ
  pub inside : stop < hw_rev_name_size
  pub is_stop : get_elem? h.hw_rev_name stop ≡ some 0

get_elem?-set : (xs : List ℕ) (i v : ℕ) → i < length xs → get_elem? (set xs i v) i ≡ some v
get_elem?-set [] i v h = absurd (omega arith)
get_elem?-set (x ∷ xs) zero v h = refl
get_elem?-set (x ∷ xs) (suc i) v h = get_elem?-set xs i v (omega arith)

pub cleared-IsNamed : (h : HwRev) → length h.hw_rev_name ≡ hw_rev_name_size → IsNamed (cleared h)
unfolding cleared
cleared-IsNamed h e = record {
  fills = length-set h.hw_rev_name 0 0 ∙ e;
  stop = 0;
  inside = omega arith;
  is_stop = get_elem?-set h.hw_rev_name 0 0 (omega arith);
}

with_name-IsNamed :
    (h : HwRev) (bytes : List ℕ) (len : ℕ)
    → length h.hw_rev_name ≡ hw_rev_name_size
    → length bytes ≤ len
    → len < hw_rev_name_size
    → IsNamed (with_name h bytes len)
unfolding with_name overwrite
with_name-IsNamed h bytes len e short room = record {
  fills = length-set buf len 0 ∙ filled;
  stop = len;
  inside = room;
  is_stop = get_elem?-set buf len 0 (omega (arith, filled));
}
  where
    buf : List ℕ
    buf = bytes ++ drop (length bytes) h.hw_rev_name

    filled : length buf ≡ hw_rev_name_size
    filled = omega (
      arith,
      length-append bytes (drop (length bytes) h.hw_rev_name),
      length-drop (length bytes) h.hw_rev_name,
    )

module _ (fmt : ImageFormat) (lawful : IsFormat fmt) (cfg : Config) {W : Type 0} (files : FileApi W)
    (f : ℕ) (content : List ℕ) (At : W → ℕ → Type 0) (file : IsOpenFile files f content At) where
  abbrev Keeps : Handled → W → Type 0
  Keeps a w = IsNamed a.hw_rev × IsOpen files f content At w

  with_num-IsNamed : (h : HwRev) (bytes : List ℕ) → IsNamed h → IsNamed (with_num h bytes)
  unfolding with_num
  with_num-IsNamed h bytes v = record {
    fills = v.fills;
    stop = v.stop;
    inside = v.inside;
    is_stop = v.is_stop;
  }

  num_read :
      (h : HwRev) (p : ℕ) (q : ReadResult × W)
      → IsNamed h
      → DidRead files f content At p 4 q
      → Runs Keeps (
          (if is_neg q.0.rc
              then pure (record { ok = false; hw_rev = h })
              else pure (record { ok = true; hw_rev = with_num h q.0.bytes }))
            q.1)
  num_read h p (r, w) v (inl (e, at)) = rw (is_neg_of_error r.rc e) (_, _, refl, (v, (_, at)))
  num_read h p (r, w) v (inr (e, b, at)) =
      rw e (_, _, refl, (with_num-IsNamed h r.bytes v, (_, at)))

  handle_num_lem :
      (tlv : Tlv) (h : HwRev) (w : W)
      → IsNamed h
      → IsOpen files f content At w
      → Runs Keeps (handle_num_in_file fmt cfg files tlv f h w)
  unfolding handle_num_in_file
  handle_num_lem tlv h w v (p, at) = elim (Bool-cases (tlv.it_type == cfg.hw_rev_id_tlv)) [
    | inr e ↦ rw e (_, _, refl, (v, (p, at)))
    | inl e ↦ elim (Bool-cases (tlv.it_len == 4)) [
      | inr e' ↦ rw (e, e') (_, _, refl, (v, (p, at)))
      | inl e' ↦ elim (Bool-cases (h.hw_rev_num == 0)) [
        | inr e'' ↦ rw (e, e', e'') (_, _, refl, (v, (p, at)))
        | inl e'' ↦ rw (e, e', e'') (num_read h p _ v (file.read_lem w p 4 at))
      ]
    ]
  ]

  name_read :
      (h : HwRev) (p len : ℕ) (q : ReadResult × W)
      → IsNamed h
      → len < hw_rev_name_size
      → DidRead files f content At p len q
      → Runs Keeps (
          (if is_neg q.0.rc
              then pure (record { ok = false; hw_rev = h })
              else pure (record { ok = true; hw_rev = with_name h q.0.bytes len }))
            q.1)
  name_read h p len (r, w) v room (inl (e, at)) =
      rw (is_neg_of_error r.rc e) (_, _, refl, (v, (_, at)))
  name_read h p len (r, w) v room (inr (e, b, at)) =
      rw e (_, _, refl, (with_name-IsNamed h r.bytes len v.fills short room, (_, at)))
    where
      short : length r.bytes ≤ len
      short = omega (arith, length-slice content p len, ap (λ (l : List ℕ). length l) b)

  handle_name_lem :
      (tlv : Tlv) (h : HwRev) (w : W)
      → IsNamed h
      → IsOpen files f content At w
      → Runs Keeps (handle_name_in_file fmt cfg files tlv f h w)
  unfolding handle_name_in_file
  handle_name_lem tlv h w v (p, at) = elim (Bool-cases (tlv.it_type == cfg.hw_rev_name_tlv)) [
    | inr e ↦ rw e (_, _, refl, (v, (p, at)))
    | inl e ↦ elim (Bool-cases (leb hw_rev_name_size tlv.it_len)) [
      | inl e' ↦ rw (e, e') (_, _, refl, (v, (p, at)))
      | inr e' ↦ elim (Bool-cases (get_or h.hw_rev_name 0 0 == 0)) [
        | inr e'' ↦ rw (e, e', e'') (_, _, refl, (v, (p, at)))
        | inl e'' ↦
            rw (e, e', e'')
              (name_read h p tlv.it_len _ v (ground arith) (file.read_lem w p tlv.it_len at))
      ]
    ]
  ]

  pub handle_tlv_lem :
      (tlv : Tlv) (h : HwRev) (w : W)
      → IsNamed h
      → IsOpen files f content At w
      → Runs Keeps (fw_img_hw_rev_handle_tlv_hw_rev_in_file fmt cfg files tlv f h w)
  unfolding fw_img_hw_rev_handle_tlv_hw_rev_in_file
  handle_tlv_lem tlv h w v at =
      let (a, w', run, (v', at')) = handle_num_lem tlv h w v at in
      elim (Bool-cases a.ok) [
        | inr e ↦ rw (run, ◌>>=◌, e) (_, _, refl, (v', at'))
        | inl e ↦ rw (run, ◌>>=◌, e) (handle_name_lem tlv a.hw_rev w' v' at')
      ]
