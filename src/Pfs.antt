-- ===== src/Pfs.antt =====
-- core/pfs.cpp and include/ps2hdd/pfs.hpp: the file system of a PFS partition.
pub mod Types
pub mod Probe
pub mod ZoneSize
pub mod Metadata
pub mod Addressing
pub mod Zone
pub mod ZoneRead
pub mod ZoneTotal
pub mod File
pub mod Contents
pub mod Runs
pub mod Merges
pub mod Walk
pub mod Accepts
pub mod FileRead
pub mod Directory
pub mod Entries
pub mod Ends
pub mod Components
pub mod Children
pub mod ChildPaths
pub mod RunsTotal
pub mod MergesTotal
pub mod WalkTotal
pub mod ReadTotal
