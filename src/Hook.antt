-- ===== src/Hook.antt =====
-- The hooks that MCUboot calls: src/mcuboot_hook.c, and the check of the RTT buffer.
mod Defs
mod Run
pub mod Frame
pub mod Gate
pub mod Total
pub mod Shown
pub mod Mismatch
pub mod Cleared
pub mod Halt
unfoldable pub use Defs.*
unfoldable pub use Run.*
