-- ===== src/LedErr.antt =====
-- The indication of a fatal error until the button restarts the device: src/mcuboot_led_err.c, with
-- the handlers of src/mcuboot_err_handler.c that call it.
mod Defs
pub mod Watch
pub mod Blinks
pub mod Reboot
unfoldable pub use Defs.*
