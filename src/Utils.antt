-- ===== src/Utils.antt =====
-- tuned/utils/: helpers that the daemon and its plugins share.
pub mod Cpulist
pub mod Files
pub mod Masks
