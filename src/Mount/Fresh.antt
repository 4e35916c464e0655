-- ===== src/Mount/Fresh.antt =====
-- What the mounted drive shows, as a function of the scan and of what a directory of a partition holds,
-- with no session between them.
use ps2_driveforge.Base.{
  ℕ, List, [], ◌∷◌, map, true, not, Option, none, some, ok, err, if◌then◌else◌,
}
use ps2_driveforge.Base.Bytes.{codes}
use ps2_driveforge.Apa.Scan.{ScanResult}
use ps2_driveforge.Session.State.{BrowseResult}
use ps2_driveforge.Mount.Aliases.{
  MountNodeKind, root, namespace_directory, pfs_directory, pfs_file, AliasEntry, equal_windows_name,
  make_partition_aliases, find_alias,
}
use ps2_driveforge.Mount.View.{
  split_path, join_pfs_path, dot_component, no_path, no_partition, path_not_directory,
  MountLookupResult, MountListResult, no_lookup, lookup_failed, any_forbidden, is_empty,
  choose_entry, reached, in_partition, list_failed, listed_names, mount_entry, list_browsed,
  error_of,
}

module _ (ask : List ℕ → List ℕ → BrowseResult) (scan : ScanResult) where
  unfoldable pub walk_fresh : MountLookupResult → List ℕ → List (List ℕ) → MountLookupResult
  walk_fresh result backing_path [] = record result { ok = true; pfs_path = backing_path }
  walk_fresh result backing_path (name ∷ names) =
      elim (choose_entry (ask result.partition backing_path) name (is_empty names)) [
        | err e ↦ lookup_failed result e
        | ok entry ↦
            walk_fresh (reached result entry (is_empty names))
              (join_pfs_path backing_path entry.shown.backing) names
      ]

  unfoldable pub partition_fresh : Option AliasEntry → List (List ℕ) → MountLookupResult
  partition_fresh none names = lookup_failed no_lookup no_partition
  partition_fresh (some alias) names = walk_fresh (in_partition alias) [] names

  unfoldable pub namespace_fresh : List (List ℕ) → MountLookupResult
  namespace_fresh [] = record no_lookup { ok = true; kind = namespace_directory }
  namespace_fresh (partition ∷ names) =
      partition_fresh (find_alias (make_partition_aliases scan) partition) names

  unfoldable pub parts_fresh : List (List ℕ) → MountLookupResult
  parts_fresh [] = record no_lookup { ok = true }
  parts_fresh (first ∷ rest) =
      if any_forbidden (first ∷ rest)
      then lookup_failed no_lookup dot_component
      else if not (equal_windows_name first (codes "Partitions"))
      then lookup_failed no_lookup no_path
      else namespace_fresh rest

  unfoldable pub lookup_fresh : List ℕ → MountLookupResult
  lookup_fresh path = parts_fresh (split_path path)

  unfoldable pub node_list_fresh : MountLookupResult → MountNodeKind → MountListResult
  node_list_fresh node root =
      listed_names (record { name = codes "Partitions"; kind = namespace_directory; size = 0 } ∷ [])
  node_list_fresh node namespace_directory =
      listed_names (map mount_entry (make_partition_aliases scan))
  node_list_fresh node pfs_directory = list_browsed (ask node.partition node.pfs_path)
  node_list_fresh node pfs_file = list_failed path_not_directory

  unfoldable pub list_fresh : List ℕ → MountListResult
  list_fresh path =
      let node = lookup_fresh path in
      if not node.ok then error_of node.error else node_list_fresh node node.kind
