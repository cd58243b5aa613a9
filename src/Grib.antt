-- ===== src/Grib.antt =====
-- The GRIB edition 1 reader, API/grib1: the sections of a message and the walk over a file.
pub mod TimeFrame
pub mod TimeRange
pub mod Bytes
pub mod AddTime
pub mod TimeForecast
pub mod Level
pub mod Product
pub mod PdsTimes
pub mod Grid
pub mod GridSection
pub mod Message
pub mod Values
