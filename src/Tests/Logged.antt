-- ===== src/Tests/Logged.antt =====
-- Output of 200 bytes to a buffer of 192.
use ruuvi_air_mcuboot.Prelude.{ℕ, ◌-◌, ◌≤◌, ◌<◌, ◌≡◌, ◌⊎◌, inr, refl, List, [], ◌∷◌, ◌++◌, take}
use ruuvi_air_mcuboot.Prelude.{length, replicate, some, pos, IsError}
use ruuvi_air_mcuboot.Platform.Hook.{HookApi}
use ruuvi_air_mcuboot.Platform.Log.{LogApi, IsFormatted}
use ruuvi_air_mcuboot.Log.{vprintk_to_segger_rtt}
use ruuvi_air_mcuboot.Log.Shown.{shown, vprintk_to_segger_rtt_lem}

-- A call is its output, and the world what was written to RTT.
abbrev log : LogApi (List ℕ) (List ℕ)
log = record {
  vsnprintf = λ size call. (pos (length call), take (size - 1) call ++ (0 ∷ []));
  real_vprintk = λ call w. (tt, w);
}

abbrev rtt : HookApi (List ℕ)
rtt = record {
  boot_save_boot_status = λ module_id hdr fa w. (pos 0, w);
  boot_save_shared_data = λ hdr fa slot a b w. (pos 0, w);
  k_msleep = λ ms w. (tt, w);
  arch_irq_lock = λ w. (tt, w);
  segger_rtt_write = λ i bytes w. (tt, w ++ bytes);
}

log-IsFormatted : IsFormatted log (λ call. call)
log-IsFormatted = record { vsnprintf_lem = λ size call. inr (refl, [], refl) }

abbrev long : List ℕ
long = replicate 200 65

vprintk_to_segger_rtt_lem_example :
    (IsError (log.vsnprintf 192 long).0 × (vprintk_to_segger_rtt log rtt long [] ≡ some (tt, [])))
    ⊎ ((long ≡ []) × (vprintk_to_segger_rtt log rtt long [] ≡ some (tt, [])))
    ⊎ ((0 < length (shown long))
        × (length (shown long) ≤ 191)
        × (vprintk_to_segger_rtt log rtt long [] ≡ some (rtt.segger_rtt_write 0 (shown long) [])))
vprintk_to_segger_rtt_lem_example =
    vprintk_to_segger_rtt_lem log rtt (λ call. call) log-IsFormatted long []
