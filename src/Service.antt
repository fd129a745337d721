-- ===== src/Service.antt =====
-- The disk service (umode/disksrv, umode/vmdkplug): its storages, plugins, disks and its server.
pub mod Table
pub mod Storage
pub mod File
pub mod Vmdk
pub mod Processor
pub mod Plugins
pub mod Resources
pub mod Server
pub mod Loop
pub mod Control
pub mod Interface
pub mod Manager
pub mod Log
