-- ===== src/Log/Defs.antt =====
-- The functions of src/mcuboot_wrap_printk.c.
use ruuvi_air_mcuboot.Prelude.{ℕ, ◌+◌, ◌-◌, Bool, List, [], ◌∷◌, ◌++◌, take, drop, set, length}
use ruuvi_air_mcuboot.Prelude.{ltb, leb, if◌then◌else◌, ℤ, pos, negsuc}
use ruuvi_air_mcuboot.Prelude.{M, pure, lift, ◌>>◌}
use ruuvi_air_mcuboot.Platform.Hook.{HookApi}
use ruuvi_air_mcuboot.Platform.Log.{LogApi}

-- `SEGGER_RTT_WRAP_LOG_BUFFER_SIZE`
abbrev pub log_buffer_size : ℕ
log_buffer_size = 192

-- "...\r\n"
abbrev pub trunc_msg : List ℕ
trunc_msg = 46 ∷ 46 ∷ 46 ∷ 13 ∷ 10 ∷ []

-- The buffer with the mark before its last byte, which is set to NUL.
unfoldable pub mark_truncated : List ℕ → List ℕ
mark_truncated buf =
    let at = log_buffer_size - 6 in
    set (take at buf ++ (trunc_msg ++ drop (at + length trunc_msg) buf)) (log_buffer_size - 1) 0

module _ {W Call : Type 0} (log : LogApi W Call) (hook : HookApi W) where
  unfoldable pub mcuboot_segger_rtt_write : List ℕ → M W (Unit {0})
  mcuboot_segger_rtt_write bytes = lift (hook.segger_rtt_write 0 bytes)

  -- The last `if`: `len` bytes of the buffer.
  unfoldable pub write_some : ℕ → List ℕ → M W (Unit {0})
  write_some len buf = if ltb 0 len then mcuboot_segger_rtt_write (take len buf) else pure tt

  -- From the length that `vsnprintf` returned on.
  unfoldable pub write_formatted : ℤ → List ℕ → M W (Unit {0})
  write_formatted (negsuc n) buf = pure tt
  write_formatted (pos n) buf =
      if leb log_buffer_size n
      then write_some (log_buffer_size - 1) (mark_truncated buf)
      else write_some n buf

  unfoldable pub vprintk_to_segger_rtt : Call → M W (Unit {0})
  vprintk_to_segger_rtt call =
      let (length, log_buffer) = log.vsnprintf log_buffer_size call in
      write_formatted length log_buffer

  -- `has_both`: the log goes to RTT as well as to the UART.
  unfoldable pub wrap_vprintk : Bool → Call → M W (Unit {0})
  wrap_vprintk has_both call = do
    (if has_both then vprintk_to_segger_rtt call else pure tt)
    lift (log.real_vprintk call)
