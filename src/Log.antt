-- ===== src/Log.antt =====
-- Log output to UART and RTT: src/mcuboot_wrap_printk.c, and the write of src/mcuboot_segger_rtt.c.
mod Defs
pub mod Shown
unfoldable pub use Defs.*
