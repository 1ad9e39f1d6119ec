-- ===== src/Profiles.antt =====
-- Profiles: what tuned/profiles/ makes of configuration files.
pub mod Unit
pub mod Loader
pub mod Merger
pub mod Parser
