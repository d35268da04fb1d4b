-- ===== src/ImgOp.antt =====
-- Copying a file to a flash area and comparing the two: src/mcuboot_img_op.c.
mod Defs
pub mod Loop
pub mod Copy
pub mod CompareLoop
pub mod Compare
pub mod RepeatLoop
pub mod RoundTrip
pub mod Total
unfoldable pub use Defs.*
