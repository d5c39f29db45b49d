-- ===== src/Core.antt =====
-- src/core: the pure parts that every other library of the program stands on.
pub mod Vector
pub mod Path
pub mod Env
pub mod Location
pub mod Json
pub mod Device
pub mod Scan
