-- ===== src/Apa.antt =====
-- core/apa.cpp and include/ps2hdd/apa.hpp: the partition table.
pub mod Header
pub mod Scan
pub mod Issues
pub mod Table
pub mod Sound
pub mod Complete
pub mod Checksum
pub mod Sizes
