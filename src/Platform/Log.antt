-- ===== src/Platform/Log.antt =====
-- Formatted output: `vsnprintf` of the C library, and Zephyr's `vprintk`.
use ruuvi_air_mcuboot.Prelude.{ℕ, ◌-◌, ◌≡◌, ◌⊎◌, List, ◌∷◌, ◌++◌, length, take, ℤ, pos, IsError}

-- A `Call` is a format with its arguments.
pub record LogApi (W Call : Type 0) : Type 0 where
  -- the return value for a buffer of this size, and what the buffer holds then
  pub vsnprintf : ℕ → Call → ℤ × List ℕ
  pub real_vprintk : Call → W → Unit {0} × W

-- `text call` is the whole output. `vsnprintf` fails, or returns the length of all of it, and
-- leaves what fits in the buffer, with a NUL behind it.
pub record IsFormatted {W Call : Type 0} (log : LogApi W Call) (text : Call → List ℕ) : Type 0 where
  pub vsnprintf_lem :
      (size : ℕ) (call : Call)
      → IsError (log.vsnprintf size call).0
        ⊎ (((log.vsnprintf size call).0 ≡ pos (length (text call)))
            × (rest : List ℕ) × ((log.vsnprintf size call).1
                ≡ take (size - 1) (text call) ++ (0 ∷ rest)))
