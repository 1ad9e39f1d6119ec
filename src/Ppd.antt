-- ===== src/Ppd.antt =====
-- tuned/ppd/: the daemon that offers the interface of power-profiles-daemon on top of TuneD.
pub mod Config
pub mod Controller
pub mod Platform
