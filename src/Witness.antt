-- ===== src/Witness.antt =====
-- The theorems at concrete inputs: a kernel, a bus with two disks, and requests to them.
pub mod Data
mod Packets
mod Replies
mod Disks
mod Bus
mod Histories
mod Service
mod Server
mod Tool
mod Loading
mod Queries
mod Installer
