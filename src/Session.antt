-- ===== src/Session.antt =====
-- host/drive_session.cpp and include/ps2hdd/drive_session.hpp: one opened source with the metadata
-- that its operations keep between calls.
pub mod Paths
pub mod Store
pub mod State
pub mod Browse
pub mod Files
pub mod Kept
pub mod Keys
pub mod Components
pub mod Fresh
pub mod Coherent
pub mod Children
pub mod Exact
pub mod ExactFiles
pub mod Reached
pub mod Steps
pub mod Bounded
pub mod Sizes
