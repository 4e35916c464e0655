-- ===== src/Lib.antt =====
-- PS2 DriveForge: the read-only core that lets a PC read the hard disk of a PlayStation 2.
--
-- A disk image or a physical disk is a block device. On it stands an APA partition table, a linked
-- list of 1 KiB headers; a partition is a volume of a main extent and up to 64 sub-partitions; a
-- volume of type PFS holds a file system of zones, inodes and directories. Each layer reads through
-- the one below it and nothing is ever written. A session keeps the answers of the readers in four
-- caches, and the mounted drive shows its partitions and directories under names that Windows takes.
--
--   Device     include/ps2hdd/block_device.hpp: a device is its size and the outcome of each exact
--              read. Host devices (src/core/file_block_device.cpp, src/platform/windows) stand behind
--              this record and are not modelled. `Mirrors` says that reads give the bytes of an
--              image, `IsReliable` that no read inside the device fails.
--   Apa        src/core/apa.cpp, include/ps2hdd/apa.hpp: Apa/Header for one header (read_header,
--              checksum), Apa/Scan for Reader::scan: scan_step is one pass of its loop. Apa/Table
--              states what a partition table is, apart from the loop.
--   Volume     src/core/apa_volume.cpp: make_volume is the constructor, read_sectors the read.
--   Pfs        src/core/pfs.cpp, include/ps2hdd/pfs.hpp: Pfs/Types for the on-disk structures,
--              Pfs/Probe for probe, Pfs/Metadata for read_inode and read_segment_descriptor, Pfs/Zone
--              for read_zone_bytes, Pfs/File for read, Pfs/Directory for list_directory and resolve.
--              Pfs/Contents says what the bytes of a file are, with no run merged.
--   Hdl        src/core/hdl.cpp, include/ps2hdd/hdl.hpp: Hdl/Game for read_game_info, Hdl/Catalog for
--              read_catalog. std::sort, the stop token and the progress callback are parameters.
--              Hdl/Enrichment for src/host/hdl_enrichment.cpp: the policy, and the workers as steps.
--   Catalog    src/core/partition_catalog.cpp: catalog_kind and build_partition_catalog.
--   ReadCache  include/ps2hdd/read_cache_block_device.hpp: read_cached is its read. ReadCache/Steps has
--              the sections under its locks as steps, in any order.
--   ReadAhead  include/ps2hdd/read_ahead_block_device.hpp: read_ahead is its read.
--   Names      src/host/pfs_export.cpp: sanitize_host_filename, and the loop over the suffixes that its
--              export_node and src/host/mount_view.cpp share.
--   Session    src/host/drive_session.cpp, include/ps2hdd/drive_session.hpp: Session/Paths for the
--              keys, Session/Store for bounded_store, Session/State for the state, scan and probe_for,
--              Session/Browse for browse, Session/Files for stat and read_file. Session/Fresh says what
--              they answer with no cache, Session/Coherent what the caches may hold, Session/Steps has
--              the operations as steps, Session/Reached the calls between two scans. `begin` names
--              the entry that map.begin() is at.
--   Mount      src/host/mount_view.cpp, include/ps2hdd/mount_view.hpp: Mount/Aliases for the names that
--              the drive shows, Mount/View for lookup, list_directory and read_file. Mount/Fresh says
--              what they answer with no session.
--   Management src/host/management_model.cpp: make_model is the constructor of the table of a disk, and
--              apply_hdl_result gives a game its result.
--   Policy     src/mount/dokany_open_policy.hpp, include/ps2hdd/darkness_policy.hpp.
--   Base       lists, results and tests over the native numbers, little-endian loads, word sums.
--   Tests      runs on concrete disks.
--
-- A method that fails leaves a message in last_error_ and returns nothing: here the result is a value
-- or the message. Unsigned machine integers are natural numbers; where an operation of the source can
-- wrap, its reduction modulo 2 ^ 32 or 2 ^ 64 is written out. Vectors and buffers are lists of bytes.
--
-- Fuel: scan_loop counts the passes that max_headers allows, as the source does. zone_loop,
-- parse_entries and resolve_loop run on the number of bytes left, and each round takes at least one;
-- `stuck` stands for fuel that has run out. scale_loop has 32 rounds for a 32-bit shift. split_loop
-- runs on the length of the path, unique_loop on the number of names that are taken, and decimal on
-- the ten digits of 32 bits.
--
-- Not modelled: in the session, the timers, the locks around the caches (each operation is one step,
-- one after the other), stats() and export_to_host; the counters around a device in
-- include/ps2hdd/instrumented_block_device.hpp; the progress calls of the workers of
-- src/host/hdl_enrichment.cpp; the tree that src/host/pfs_export.cpp writes; the host devices and the
-- discovery of disks, which call the operating system; the Dokany callbacks and the frontends.
pub mod Base
pub mod Device
pub mod Apa
pub mod Volume
pub mod Pfs
pub mod Hdl
pub mod Catalog
pub mod ReadCache
pub mod ReadAhead
pub mod Policy
pub mod Names
pub mod Session
pub mod Mount
pub mod Management
pub mod Tests
