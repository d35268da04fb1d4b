-- ===== src/Log/Shown.antt =====
-- What the log shows on RTT.
use ruuvi_air_mcuboot.Prelude.{ℕ, zero, suc, ◌≤◌, ◌<◌, ◌≡◌, ◌⊎◌, inl, inr, refl, sym, ap, ◌∙◌}
use ruuvi_air_mcuboot.Prelude.{
  true, false, List, [], ◌∷◌, ◌++◌, append_assoc, take, drop, set, length,
}
use ruuvi_air_mcuboot.Prelude.{
  length-append, length-take, take-append, take-append_le, take-take, take_all, ltb, leb,
  if◌then◌else◌, Bool-cases, some, ℤ, pos, negsuc, IsError, arith, subst,
}
use ruuvi_air_mcuboot.Platform.Hook.{HookApi}
use ruuvi_air_mcuboot.Platform.Log.{LogApi, IsFormatted}
use ruuvi_air_mcuboot.Log.Defs.{
  trunc_msg, mark_truncated, mcuboot_segger_rtt_write, write_some, write_formatted,
  vprintk_to_segger_rtt,
}

-- All of the text, or the start of it and the mark.
abbrev pub shown : List ℕ → List ℕ
shown text = if leb 192 (length text) then take 186 text ++ trunc_msg else text

take-set : (n i : ℕ) (xs : List ℕ) (v : ℕ) → n ≤ i → take n (set xs i v) ≡ take n xs
take-set zero i xs v h = refl
take-set (suc n) i [] v h = refl
take-set (suc n) zero (x ∷ xs) v h = absurd (omega arith)
take-set (suc n) (suc i) (x ∷ xs) v h = ap (λ l. x ∷ l) (take-set n i xs v (omega arith))

-- The marked buffer, up to its NUL.
mark_truncated_lem :
    (text rest : List ℕ)
    → 192 ≤ length text
    → take 191 (mark_truncated (take 191 text ++ rest)) ≡ take 186 text ++ trunc_msg
unfolding mark_truncated
mark_truncated_lem text rest h =
    let buf = take 191 text ++ rest in
    let len : length (take 191 text) ≡ 191 = omega (arith, length-take 191 text) in
    let front : take 186 buf ≡ take 186 text =
      take-append_le 186 (take 191 text) rest (omega (arith, len))
      ∙ sym (take-take 186 191 text (omega arith)) in
    let whole : length (take 186 text ++ trunc_msg) ≡ 191 =
      omega (arith, length-append (take 186 text) trunc_msg, length-take 186 text) in
    let tail = drop 191 buf in
    take-set 191 191 (take 186 buf ++ (trunc_msg ++ tail)) 0 (omega arith)
    ∙ ap (λ l. take 191 (l ++ (trunc_msg ++ tail))) front
    ∙ ap (λ l. take 191 l) (sym (append_assoc (take 186 text) trunc_msg tail))
    ∙ subst (λ k. take k ((take 186 text ++ trunc_msg) ++ tail) ≡ take 186 text ++ trunc_msg) whole
        (take-append (take 186 text ++ trunc_msg) tail)

at_most : (n : ℕ) → leb 192 n ≡ false → n ≤ 191
at_most n e = ground arith

module _ {W Call : Type 0} (log : LogApi W Call) (hook : HookApi W) (text : Call → List ℕ)
    (law : IsFormatted log text) where
  -- What `write_formatted` does with the length and the buffer of this text.
  abbrev Wrote : ℤ → List ℕ → List ℕ → W → Type 0
  Wrote rc buf out w =
      (IsError rc × (write_formatted log hook rc buf w ≡ some (tt, w)))
      ⊎ ((out ≡ []) × (write_formatted log hook rc buf w ≡ some (tt, w)))
      ⊎ ((0 < length (shown out))
          × (length (shown out) ≤ 191)
          × (write_formatted log hook rc buf w ≡ some (hook.segger_rtt_write 0 (shown out) w)))

  some-Wrote :
      (out rest : List ℕ) (w : W)
      → 0 < length out
      → Wrote (pos (length out)) (take 191 out ++ (0 ∷ rest)) out w
  unfolding write_formatted write_some mcuboot_segger_rtt_write
  some-Wrote out rest w lt =
      let some_bytes : ltb 0 (length out) ≡ true = ground arith in
      elim (Bool-cases (leb 192 (length out))) [
        | inl e ↦
            let size = length-append (take 186 out) trunc_msg in
            rw (e, mark_truncated_lem out (0 ∷ rest) (ground arith))
              (inr (inr (omega (arith, size), ground (arith, size, length-take 186 out), refl)))
        | inr e ↦
            let small = at_most (length out) e in
            let whole = take_all 191 out small in
            rw (e, some_bytes, whole, take-append out (0 ∷ rest)) (inr (inr (lt, small, refl)))
      ]

  text-Wrote :
      (out rest : List ℕ) (w : W) → Wrote (pos (length out)) (take 191 out ++ (0 ∷ rest)) out w
  unfolding write_formatted write_some
  text-Wrote [] rest w = inr (inl (refl, refl))
  text-Wrote (x ∷ xs) rest w = some-Wrote (x ∷ xs) rest w (omega arith)

  any-Wrote :
      (rc : ℤ) (buf out : List ℕ) (w : W)
      → IsError rc
        ⊎ ((rc ≡ pos (length out)) × (rest : List ℕ) × (buf ≡ take 191 out ++ (0 ∷ rest)))
      → Wrote rc buf out w
  unfolding write_formatted
  any-Wrote (pos n) buf out w (inl err) = absurd err
  any-Wrote (negsuc n) buf out w (inl err) = inl (err, refl)
  any-Wrote rc buf out w (inr (e, rest, b)) = rw (e, b) (text-Wrote out rest w)

  -- Where `vsnprintf` fails nothing goes to RTT. Elsewhere an output of at most 191 bytes goes
  -- there whole, an empty one with no write, and a longer one as its first 186 bytes and
  -- "...\r\n"; never more than 191 bytes, and never a NUL that the output does not have.
  pub vprintk_to_segger_rtt_lem :
      (call : Call) (w : W)
      → (IsError (log.vsnprintf 192 call).0
          × (vprintk_to_segger_rtt log hook call w ≡ some (tt, w)))
        ⊎ ((text call ≡ []) × (vprintk_to_segger_rtt log hook call w ≡ some (tt, w)))
        ⊎ ((0 < length (shown (text call)))
            × (length (shown (text call)) ≤ 191)
            × (vprintk_to_segger_rtt log hook call w
                ≡ some (hook.segger_rtt_write 0 (shown (text call)) w)))
  unfolding vprintk_to_segger_rtt
  vprintk_to_segger_rtt_lem call w =
      any-Wrote (log.vsnprintf 192 call).0 (log.vsnprintf 192 call).1 (text call) w
        (law.vsnprintf_lem 192 call)
