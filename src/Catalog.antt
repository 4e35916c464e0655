-- ===== src/Catalog.antt =====
-- core/partition_catalog.cpp and include/ps2hdd/partition_catalog.hpp: the list of partitions that a
-- disk manager shows, made from a scan with no further input or output.
pub mod Counts
use ps2_driveforge.Base.{
  ℕ, ◌+◌, ◌%◌, ◌^◌, Bool, true, false, not, ◌&&◌, List, [], ◌∷◌, ◌++◌, ◌==◌, if◌then◌else◌,
}
use ps2_driveforge.Apa.Header.{
  Partition, is_sub, size_bytes, type_free, type_hdl, type_mbr, type_pfs,
}
use ps2_driveforge.Apa.Scan.{ScanResult}

pub data PartitionCatalogKind : Type 0 where
  mbr pfs hdl free_space other : PartitionCatalogKind

unfoldable pub catalog_kind : ℕ → PartitionCatalogKind
catalog_kind type =
    if type == type_mbr
    then mbr
    else if type == type_pfs
    then pfs
    else if type == type_hdl
    then hdl
    else if type == type_free
    then free_space
    else other

pub record PartitionCatalogEntry : Type 0 where
  pub id : List ℕ
  pub kind : PartitionCatalogKind
  pub raw_type : ℕ
  pub flags : ℕ
  pub start_lba : ℕ
  pub main_lba : ℕ
  pub number : ℕ
  pub sub_count : ℕ
  pub size_bytes : ℕ
  pub is_sub : Bool

pub record PartitionCatalog : Type 0 where
  pub entries : List PartitionCatalogEntry
  pub main_partitions : ℕ
  pub sub_partitions : ℕ
  pub hdl_partitions : ℕ
  pub pfs_partitions : ℕ
  pub hdl_bytes : ℕ
  pub pfs_bytes : ℕ
  pub free_bytes : ℕ

abbrev pub empty_catalog : PartitionCatalog
empty_catalog = record {
  entries = [];
  main_partitions = 0;
  sub_partitions = 0;
  hdl_partitions = 0;
  pfs_partitions = 0;
  hdl_bytes = 0;
  pfs_bytes = 0;
  free_bytes = 0;
}

unfoldable pub make_entry : Partition → PartitionCatalogEntry
make_entry partition = record {
  id = partition.id;
  kind = catalog_kind partition.type;
  raw_type = partition.type;
  flags = partition.flags;
  start_lba = partition.start_lba;
  main_lba = partition.main_lba;
  number = partition.number;
  sub_count = partition.sub_count;
  size_bytes = size_bytes partition;
  is_sub = is_sub partition;
}

abbrev pub push_entry : PartitionCatalog → Partition → PartitionCatalog
push_entry c partition = record c { entries = c.entries ++ make_entry partition ∷ [] }

-- the switch on the type of a main partition; the sums are uint64_t
unfoldable pub count_type : PartitionCatalog → Partition → PartitionCatalog
count_type c partition =
    if partition.type == type_hdl
    then record c {
      hdl_partitions = c.hdl_partitions + 1;
      hdl_bytes = (c.hdl_bytes + size_bytes partition) % 2 ^ 64;
    }
    else if partition.type == type_pfs
    then record c {
      pfs_partitions = c.pfs_partitions + 1;
      pfs_bytes = (c.pfs_bytes + size_bytes partition) % 2 ^ 64;
    }
    else if partition.type == type_free
    then record c { free_bytes = (c.free_bytes + size_bytes partition) % 2 ^ 64 }
    else c

-- one round of the loop
unfoldable pub add_to_catalog : Bool → PartitionCatalog → Partition → PartitionCatalog
add_to_catalog include_sub_partitions c partition =
    if is_sub partition
    then (let counted = record c { sub_partitions = c.sub_partitions + 1 } in
        if include_sub_partitions then push_entry counted partition else counted)
    else count_type (push_entry (record c { main_partitions = c.main_partitions + 1 }) partition)
        partition

unfoldable pub build_loop : Bool → List Partition → PartitionCatalog → PartitionCatalog
build_loop include_sub_partitions [] c = c
build_loop include_sub_partitions (p ∷ ps) c =
    build_loop include_sub_partitions ps (add_to_catalog include_sub_partitions c p)

unfoldable pub build_partition_catalog : ScanResult → Bool → PartitionCatalog
build_partition_catalog scan include_sub_partitions =
    build_loop include_sub_partitions scan.partitions empty_catalog
