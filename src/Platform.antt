-- ===== src/Platform.antt =====
-- What the bootloader takes from outside the repository: MCUboot's image format and bootutil,
-- Zephyr's file system, flash map and reboot, the firmware information and validation of NCS.
-- Each is a record of operations that the modules take as a parameter; what the proofs rely on
-- is a record of laws beside it.
pub mod Format
pub mod System
pub mod Files
pub mod Crypto
pub mod Flash
pub mod Board
pub mod Hook
pub mod Log
pub mod Frame
pub mod FileSystem
