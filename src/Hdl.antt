-- ===== src/Hdl.antt =====
-- core/hdl.cpp and include/ps2hdd/hdl.hpp: the games that HDLoader installs in partitions of their own.
pub mod Game
pub mod Strings
pub mod StoredGame
pub mod GameErrors
pub mod Catalog
pub mod Enrichment
pub mod Slots
pub mod Workers
pub mod CatalogRead
pub mod CatalogOrder
