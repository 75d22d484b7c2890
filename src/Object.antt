-- ===== src/Object.antt =====
-- include/object and src/object: what the feeds report, and when a report replaces an older one.
pub mod Position
pub mod Base
pub mod Aircraft
pub mod GpsPosition
pub mod Atmosphere
pub mod Wind
pub mod Update
