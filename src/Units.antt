-- ===== src/Units.antt =====
-- tuned/units/: the manager that makes plugin instances of the units of a profile.
pub mod Manager
