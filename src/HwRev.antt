-- ===== src/HwRev.antt =====
-- The hardware revision that an image names: src/fw_img_hw_rev.c.
pub mod Defs
pub mod Search
pub mod Loop
pub mod Total
pub mod FlashTotal
pub mod Frame
