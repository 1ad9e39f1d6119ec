-- ===== src/Daemon.antt =====
-- tuned/daemon/daemon.py: which profile the daemon tunes with, and the code of its thread.
pub mod Loop
pub mod Switch
