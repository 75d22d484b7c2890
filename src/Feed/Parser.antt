-- ===== src/Feed/Parser.antt =====
-- include/feed/parser and src/feed/parser: from a sentence to an object.
pub mod Nmea
pub mod Regex
pub mod WindParser
pub mod AtmosphereParser
pub mod GpsParser
pub mod SbsParser
pub mod AprsParser
pub mod Reports
pub mod Ids
pub mod Lines
