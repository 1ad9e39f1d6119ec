-- ===== src/Plugins.antt =====
-- Plugins: the part of the daemon that changes the system. tuned/plugins/base.py, hotplug.py and
-- instance/instance.py.
pub mod Instance
pub mod Driver
pub mod Commands
pub mod Verify
pub mod Devices
pub mod Bootloader
pub mod Disk
pub mod Scheduler
pub mod Tuning
pub mod Hotplug
