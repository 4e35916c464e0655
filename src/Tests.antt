-- ===== src/Tests.antt =====
-- Runs of the models on concrete disks, and the theorems at them.
pub mod Disk
pub mod Drive
pub mod DriveNames
mod Apa
mod Volume
mod Pfs
mod Policy
mod Sort
pub mod Hdl
mod Enrichment
mod Catalog
mod Directory
mod ReadCache
mod ReadAhead
mod Names
pub mod Session
mod Mount
mod Management
