-- ===== src/Tlv.antt =====
-- The iterator over the TLVs of an image in a file: src/file_tlv.c, and the reading of a piece of
-- the file, `load_image_data` of src/file_tlv_priv.h.
mod Defs
pub mod Load
pub mod Walk
pub mod Round
pub mod Iter
pub mod Begin
pub mod Frame
pub mod Areas
pub mod Reliable
pub mod Starts
unfoldable pub use Defs.*
