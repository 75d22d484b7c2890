-- ===== src/Data.antt =====
-- include/data and src/data: the containers of what the feeds report.
pub mod Processor
pub mod AircraftData
pub mod GpsData
pub mod AtmosphereData
pub mod WindData
