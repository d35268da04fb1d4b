-- ===== src/Board.antt =====
-- The drivers of the board: src/mcuboot_led.c, src/mcuboot_button.c, src/mcuboot_gpio_input.c,
-- src/mcuboot_supercap.c, src/mcuboot_ext_flash_power.c and src/mcuboot_early_init.c.
mod Defs
pub mod Still
pub mod Supercap
unfoldable pub use Defs.*
