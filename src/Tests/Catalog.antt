-- ===== src/Tests/Catalog.antt =====
-- The catalog of a scan of three partitions.
use ps2_driveforge.Base.{ℕ, ◌≡◌, refl, false, [], ◌∷◌}
use ps2_driveforge.Base.Bytes.{load_u16}
use ps2_driveforge.Apa.Header.{Partition, decode_header, is_sub, size_bytes}
use ps2_driveforge.Apa.Scan.{ScanResult, make_partition, no_result}
use ps2_driveforge.Catalog.{
  catalog_kind, make_entry, count_type, add_to_catalog, build_loop, build_partition_catalog,
}
use ps2_driveforge.Catalog.Counts.{Counted, build_partition_catalog-Counted}

abbrev of_type : ℕ → ℕ → Partition
of_type type sectors = record (make_partition (decode_header [])) {
  type = type;
  total_sectors = sectors;
}

abbrev three : ScanResult
three = record no_result {
  partitions = of_type 0x100 10 ∷ record (of_type 0x100 5) { flags = 1 } ∷ of_type 0 7 ∷ [];
}

pfs_counted : (build_partition_catalog three false).pfs_bytes ≡ 5120
unfolding build_partition_catalog build_loop add_to_catalog count_type make_entry catalog_kind
    is_sub size_bytes make_partition decode_header load_u16
pfs_counted = refl

build_partition_catalog-Counted_example :
    Counted false three.partitions (build_partition_catalog three false)
build_partition_catalog-Counted_example = build_partition_catalog-Counted three false
