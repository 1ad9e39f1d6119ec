-- ===== src/Hardware.antt =====
-- tuned/hardware/: which devices a rule matches, and who is told of a device's events.
pub mod Matcher
pub mod Inventory
