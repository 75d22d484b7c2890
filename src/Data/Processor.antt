-- ===== src/Data/Processor.antt =====
-- include/data/processor and src/data/processor: from an object to its NMEA sentences.
pub mod Sentence
pub mod AircraftProcessor
pub mod Body
pub mod Wellformed
pub mod GpsProcessor
