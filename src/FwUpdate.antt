-- ===== src/FwUpdate.antt =====
-- The firmware update from the file system: src/mcuboot_fw_update.c.
mod Defs
mod Checks
pub mod Version
pub mod Order
pub mod Header
pub mod Accept
pub mod Frame
pub mod Files
pub mod Closing
pub mod Gated
pub mod Permit
pub mod Gate
pub mod Pending
pub mod Slots
pub mod Untouched
pub mod Target
pub mod FileTotal
pub mod ChecksTotal
pub mod StepsTotal
pub mod Total
pub mod Restart
unfoldable pub use Defs.*
unfoldable pub use Checks.*
