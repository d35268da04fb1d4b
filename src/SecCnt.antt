-- ===== src/SecCnt.antt =====
-- `file_img_get_security_cnt` of src/file_img_validate.c: the security counter of an image.
mod Defs
pub mod Counted
unfoldable pub use Defs.*
