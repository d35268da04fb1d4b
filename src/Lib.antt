-- ===== src/Lib.antt =====
-- Verification of the bootloader of Ruuvi Air: the part of the repository that finds update files,
-- validates them and copies them to flash, before MCUboot starts the application.
--
-- The program. `mcuboot_fw_update` (src/mcuboot_fw_update.c) mounts the file system
-- (src/btldr_fs.c) and goes over the update files: it checks each one (the signature of the
-- immutable bootloader or that of MCUboot, the firmware information, the hardware revision, the
-- versions), copies it to its flash area (src/mcuboot_img_op.c) and removes it. MCUboot's
-- signature is checked by `file_img_validate` (src/file_img_validate.c), a port of bootutil to
-- files, which goes over the image's TLVs with the iterator of src/file_tlv.c. MCUboot's status hook
-- (src/mcuboot_hook.c) starts the update, after it has checked the running image; before it, the
-- board has been set up (src/mcuboot_early_init.c). A fatal error ends in a blinking red LED until
-- the button is pressed (src/mcuboot_led_err.c).
--
-- The files.
--   Prelude    buffers as lists, C's tests, return codes, the monad of the world
--   Platform   what is called from outside, as records of operations and of laws: the image format
--              and bootutil (Format, Crypto), Zephyr's files and flash areas (Files, Flash), paths,
--              mutex, firmware information and reboot (System), pins (Board), what the hook calls
--              (Hook), formatted output (Log); Frame has the laws that a call keeps an invariant,
--              FileSystem those of opening a file by its path
--   SafeAdd    src/file_tlv_priv.h: `boot_u32_safe_add`, `boot_u16_safe_add`, `BOOT_TLV_OFF`
--   BootState  of the same header, the boot state and its accessors, which other code calls
--   Tlv        src/file_tlv.c and `load_image_data` of src/file_tlv_priv.h
--   Validate   src/file_img_validate.c
--   SecCnt     `file_img_get_security_cnt` of the same file, which other code calls
--   ImgOp      src/mcuboot_img_op.c
--   BtldrFs    src/btldr_fs.c, and the flash area helpers of src/mcuboot_fa_utils.c
--   HwRev      src/fw_img_hw_rev.c
--   FwUpdate   src/mcuboot_fw_update.c
--   Hook       src/mcuboot_hook.c, and the check of the RTT buffer in src/mcuboot_segger_rtt.c
--   LedErr     src/mcuboot_led_err.c and src/mcuboot_err_handler.c
--   Board      the drivers: src/mcuboot_led.c and mcuboot_led.h, mcuboot_button.c,
--              mcuboot_gpio_input.c, mcuboot_supercap.c, mcuboot_ext_flash_power.c and
--              mcuboot_early_init.c beside it
--   Log        src/mcuboot_wrap_printk.c, and the write of src/mcuboot_segger_rtt.c
--   Tests      concrete platforms, runs of the code, and the theorems at concrete inputs
--
-- The model. A function of the source is a definition of the same name, which passes the world from
-- call to call; its helpers are pieces of the same function, named so that proofs can go through
-- them one at a time. A pointer that a function writes through is a part of its result. A call of
-- code outside the repository may fail wherever it returns a code; the laws say what it leaves
-- then. An unsigned number is a natural number below its bound, and its arithmetic is modulo
-- 2^32; a signed one is an integer of which the code asks the sign and the unsigned value. Log
-- messages are left out, and the delay before the reboot in src/mcuboot_fw_update.c.
--
-- Fuel. The loops run on fuel, and running out of it is `none`. The iterator has one more than the
-- distance to the end of its area, and each round moves forward; the hash one more than the size, and
-- each block has a byte; the loop over TLVs one more than the area; the copy one more than the
-- size of the file. The searches for the hardware revision have one more than the end of the area:
-- a mark that moves the search forward has been read, so it stands before the end of the file or of
-- the flash area, and the offset does not wrap. The error indication blinks forever: its fuel is a
-- number of rounds. `Total` in Prelude/Totals says that a run ends, with one rule for each way to
-- build a run; the `Total` modules apply it to the code.
--
-- The invariants. A property of the world that some calls keep is kept by every run made of them
-- (`Keeps` in Prelude/Frames, one rule for each way to build a run; the `Frame` modules apply it to
-- the code). What an update may change is told by the properties of one slot, which only erasing,
-- writing and invalidating in that slot can break (`IsSlotFramed` in Platform/Frame).
--
-- Not modelled: the build variants of src/file_img_validate.c other than a signature of one type
-- over a hash with the keys' hashes in the image; asserts in src/mcuboot_hook.c, which does not
-- compile with them; the moment at which the supercapacitor's interrupt runs; in src/file_tlv_priv.h
-- `boot_status_t`, which nothing uses, and the fields of the boot state that no accessor reads; the
-- names of slots, `get_image_slot_name` in src/mcuboot_fa_utils.c, which go into log messages, and the
-- text of log messages.
pub mod Prelude
pub mod Platform
pub mod BootState
pub mod SafeAdd
pub mod Tlv
pub mod SecCnt
pub mod Validate
pub mod ImgOp
pub mod Board
pub mod LedErr
pub mod BtldrFs
pub mod Hook
pub mod Log
pub mod HwRev
pub mod FwUpdate
pub mod Tests
