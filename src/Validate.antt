-- ===== src/Validate.antt =====
-- The validation of an image in a file: src/file_img_validate.c, configured for a signature of
-- one type over a hash, with the keys' hashes in the image (EXPECTED_SIG_TLV and
-- EXPECTED_HASH_TLV defined; no pure signatures, hardware keys, built-in keys, KMU, rogue TLVs or
-- rollback counter).
mod Defs
pub mod Hash
pub mod Evidence
pub mod Shown
pub mod Steps
pub mod Switch
pub mod Loop
pub mod Sound
pub mod Frame
pub mod HashOk
pub mod WellSigned
pub mod Accepts
pub mod Complete
unfoldable pub use Defs.*
