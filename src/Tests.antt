-- ===== src/Tests.antt =====
-- Concrete platforms, runs of the code on them, and the theorems at concrete inputs.
mod Counter
mod Memory
mod Image
mod Copy
mod Tlv
mod Update
mod Revision
mod Accept
mod Indication
mod Updates
mod Startups
mod Logged
mod Closed
mod Ended
mod Complete
mod Sectors
