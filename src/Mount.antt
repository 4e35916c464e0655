-- ===== src/Mount.antt =====
-- host/mount_view.cpp and include/ps2hdd/mount_view.hpp: the tree of names that the mounted drive shows.
pub mod Aliases
pub mod View
pub mod Unique
pub mod Fresh
pub mod Paths
pub mod Ids
pub mod Exact
pub mod Walk
pub mod Shown
pub mod Listed
pub mod RoundTrip
