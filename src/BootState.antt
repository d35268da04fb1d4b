-- ===== src/BootState.antt =====
-- MCUboot's boot state and its accessors: `boot_loader_state_t` of src/file_tlv_priv.h.
mod Defs
pub mod Sectors
unfoldable pub use Defs.*
