-- ===== src/Catalog/Counts.antt =====
-- What a catalog lists and counts, against the partitions of the scan.
use ps2_driveforge.Base.{
  ℕ, ◌+◌, ◌%◌, ◌^◌, ◌<◌, ◌≡◌, ◌∙◌, sym, Bool, not, ◌&&◌, ◌||◌, List, [], ◌∷◌, ◌++◌, map, length,
  arith, ◌==◌, if◌then◌else◌, append-nil, append_assoc,
}
use ps2_driveforge.Apa.Header.{Partition, is_sub, size_bytes, type_free, type_hdl, type_pfs}
use ps2_driveforge.Apa.Scan.{ScanResult}
use ps2_driveforge.Catalog.{
  PartitionCatalog, empty_catalog, make_entry, count_type, add_to_catalog, build_loop,
  build_partition_catalog,
}

-- the partitions that pass a test, in order
abbrev pub keep : (Partition → Bool) → List Partition → List Partition
keep f [] = []
keep f (p ∷ ps) = let rest = keep f ps in if f p then p ∷ rest else rest

-- their sizes in bytes, added up
abbrev pub bytes_of : List Partition → ℕ
bytes_of [] = 0
bytes_of (p ∷ ps) = size_bytes p + bytes_of ps

abbrev pub is_main : Partition → Bool
is_main p = not (is_sub p)

abbrev pub is_main_of : ℕ → Partition → Bool
is_main_of type p = not (is_sub p) && p.type == type

abbrev pub is_listed : Bool → Partition → Bool
is_listed include_sub_partitions p = include_sub_partitions || not (is_sub p)

-- `t` is the catalog `s` and the partitions `ps`
record Adds (include_sub_partitions : Bool) (ps : List Partition) (s t : PartitionCatalog)
    : Type 0 where
  entries : t.entries ≡ s.entries ++ map make_entry (keep (is_listed include_sub_partitions) ps)
  mains : t.main_partitions ≡ s.main_partitions + length (keep is_main ps)
  subs : t.sub_partitions ≡ s.sub_partitions + length (keep is_sub ps)
  hdls : t.hdl_partitions ≡ s.hdl_partitions + length (keep (is_main_of type_hdl) ps)
  pfss : t.pfs_partitions ≡ s.pfs_partitions + length (keep (is_main_of type_pfs) ps)
  hdl_bytes : t.hdl_bytes ≡ (s.hdl_bytes + bytes_of (keep (is_main_of type_hdl) ps)) % 2 ^ 64
  pfs_bytes : t.pfs_bytes ≡ (s.pfs_bytes + bytes_of (keep (is_main_of type_pfs) ps)) % 2 ^ 64
  free_bytes : t.free_bytes ≡ (s.free_bytes + bytes_of (keep (is_main_of type_free) ps)) % 2 ^ 64

added_entries :
    (include_subs : Bool) (p : Partition) (s : PartitionCatalog) (ps : List Partition)
    → (add_to_catalog include_subs s p).entries ++ map make_entry ps
      ≡ s.entries ++ map make_entry (if is_listed include_subs p then p ∷ ps else ps)
unfolding add_to_catalog count_type
added_entries include_subs p s ps =
    ground (arith, append_assoc s.entries (make_entry p ∷ []) (map make_entry ps))

add_one :
    (include_subs : Bool) (p : Partition) (ps : List Partition) (s t : PartitionCatalog)
    → Adds include_subs ps (add_to_catalog include_subs s p) t
    → Adds include_subs (p ∷ ps) s t
unfolding add_to_catalog count_type
add_one include_subs p ps s t r = record {
  entries = r.entries ∙ added_entries include_subs p s (keep (is_listed include_subs) ps);
  mains = ground (arith, r.mains);
  subs = ground (arith, r.subs);
  hdls = ground (arith, r.hdls);
  pfss = ground (arith, r.pfss);
  hdl_bytes = ground (arith, r.hdl_bytes);
  pfs_bytes = ground (arith, r.pfs_bytes);
  free_bytes = ground (arith, r.free_bytes);
}

add_to_catalog_small :
    (include_subs : Bool) (q : Partition) (s : PartitionCatalog)
    → s.hdl_bytes < 2 ^ 64
    → s.pfs_bytes < 2 ^ 64
    → s.free_bytes < 2 ^ 64
    → ((add_to_catalog include_subs s q).hdl_bytes < 2 ^ 64)
      × ((add_to_catalog include_subs s q).pfs_bytes < 2 ^ 64)
      × ((add_to_catalog include_subs s q).free_bytes < 2 ^ 64)
unfolding add_to_catalog count_type
add_to_catalog_small include_subs q s h p f = (ground arith, ground arith, ground arith)

build_loop-Adds :
    (include_subs : Bool) (ps : List Partition) (s : PartitionCatalog)
    → s.hdl_bytes < 2 ^ 64
    → s.pfs_bytes < 2 ^ 64
    → s.free_bytes < 2 ^ 64
    → Adds include_subs ps s (build_loop include_subs ps s)
unfolding build_loop
build_loop-Adds include_subs [] s h p f = record {
  entries = sym (append-nil _);
  mains = omega arith;
  subs = omega arith;
  hdls = omega arith;
  pfss = omega arith;
  hdl_bytes = omega arith;
  pfs_bytes = omega arith;
  free_bytes = omega arith;
}
build_loop-Adds include_subs (q ∷ ps) s h p f =
    let (h', p', f') = add_to_catalog_small include_subs q s h p f in
    add_one include_subs q ps s _
      (build_loop-Adds include_subs ps (add_to_catalog include_subs s q) h' p' f')

-- the catalog of the partitions of a scan
pub record Counted (include_sub_partitions : Bool) (ps : List Partition) (c : PartitionCatalog)
    : Type 0 where
  pub entries : c.entries ≡ map make_entry (keep (is_listed include_sub_partitions) ps)
  pub all : c.main_partitions + c.sub_partitions ≡ length ps
  pub mains : c.main_partitions ≡ length (keep is_main ps)
  pub hdls : c.hdl_partitions ≡ length (keep (is_main_of type_hdl) ps)
  pub pfss : c.pfs_partitions ≡ length (keep (is_main_of type_pfs) ps)
  pub hdl_bytes : c.hdl_bytes ≡ bytes_of (keep (is_main_of type_hdl) ps) % 2 ^ 64
  pub pfs_bytes : c.pfs_bytes ≡ bytes_of (keep (is_main_of type_pfs) ps) % 2 ^ 64
  pub free_bytes : c.free_bytes ≡ bytes_of (keep (is_main_of type_free) ps) % 2 ^ 64

split_count : (ps : List Partition) → length (keep is_main ps) + length (keep is_sub ps) ≡ length ps
split_count [] = omega arith
split_count (p ∷ ps) = ground (arith, split_count ps)

-- The catalog of a scan lists its partitions in order, all of them or the main ones alone, and its
-- counters and byte sums, modulo 2 ^ 64, are those of the main partitions of each type, whatever is
-- listed.
pub build_partition_catalog-Counted :
    (scan : ScanResult) (include_sub_partitions : Bool)
    → Counted include_sub_partitions scan.partitions
        (build_partition_catalog scan include_sub_partitions)
unfolding build_partition_catalog
build_partition_catalog-Counted scan include_sub_partitions =
    let a =
      build_loop-Adds include_sub_partitions scan.partitions empty_catalog (omega arith)
        (omega arith) (omega arith) in
    let both = split_count scan.partitions in
    record {
      entries = a.entries;
      all = omega (arith, a.mains, a.subs);
      mains = omega (arith, a.mains);
      hdls = omega (arith, a.hdls);
      pfss = omega (arith, a.pfss);
      hdl_bytes = omega (arith, a.hdl_bytes);
      pfs_bytes = omega (arith, a.pfs_bytes);
      free_bytes = omega (arith, a.free_bytes);
    }
