-- ===== src/Controller.antt =====
-- tuned/daemon/controller.py: the calls that the daemon exports.
pub mod Instances
pub mod Power
