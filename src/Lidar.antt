-- ===== src/Lidar.antt =====
-- include/lidar/ and src/: scans, their encoding, the log of a recording and the queries on it.
pub mod Scan
pub mod Codec
pub mod Geometry
pub mod Framing
pub mod Replies
pub mod Log
pub mod Query
pub mod Feed
pub mod Sick
pub mod Samples
mod Runs
