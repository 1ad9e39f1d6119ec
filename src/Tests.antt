-- ===== src/Tests.antt =====
-- Concrete inputs for the other modules, and the tests that run them.
pub mod Bootloader
pub mod Commands
pub mod Controller
pub mod Daemon
pub mod Devices
pub mod Disk
pub mod Hardware
pub mod Irqs
pub mod Monitors
pub mod Parser
pub mod Ppd
pub mod Profiles
pub mod Storage
pub mod Units
pub mod Scheduler
pub mod Utils
