-- ===== src/Mount/Exact.antt =====
-- src/host/mount_view.cpp: the mounted drive against its functions of the scan and of the disk, in
-- sessions with right caches.
use ps2_driveforge.Base.{
  ℕ, ◌≡◌, refl, ap, sym, ◌∙◌, subst, List, [], ◌∷◌, Bool, not, Option, none, some, map, not,
  Result-cases, Bool-cases, inl, inr, if◌then◌else◌,
}
use ps2_driveforge.Base.Bytes.{codes}
use ps2_driveforge.Device.{Device}
use ps2_driveforge.Apa.Scan.{ScanResult}
use ps2_driveforge.Session.Keys.{NoUnit}
use ps2_driveforge.Session.State.{Session, BrowseResult}
use ps2_driveforge.Session.Browse.{browse}
use ps2_driveforge.Session.Fresh.{browse_fresh}
use ps2_driveforge.Session.Coherent.{IsCoherent}
use ps2_driveforge.Session.Children.{HasNames}
use ps2_driveforge.Session.Exact.{browse-exact}
use ps2_driveforge.Mount.Aliases.{
  MountNodeKind, root, namespace_directory, pfs_directory, pfs_file, AliasEntry, equal_windows_name,
  make_partition_aliases, find_alias,
}
use ps2_driveforge.Mount.View.{
  split_path, join_pfs_path, MountLookupResult, MountListResult, any_forbidden, is_empty,
  choose_entry, reached, in_partition, walk_names, lookup_partition, lookup_namespace, lookup_parts,
  lookup, list_browsed, list_pfs, list_node, list_directory, error_of, listed_names, mount_entry,
}
use ps2_driveforge.Mount.Fresh.{
  walk_fresh, partition_fresh, namespace_fresh, parts_fresh, lookup_fresh, node_list_fresh,
  list_fresh,
}
use ps2_driveforge.Mount.Ids.{HasIds, partition-NoUnit, lookup-NoUnit}

-- the end of `list_directory`, behind the look-up
abbrev answered_list : (List (List ℕ) → ℕ) → Session → MountLookupResult → MountListResult × Session
answered_list begin s node =
    if not node.ok then (error_of node.error, s) else list_node begin s node node.kind

abbrev pub answered_fresh :
    (List ℕ → List ℕ → BrowseResult) → ScanResult → MountLookupResult → MountListResult
answered_fresh ask scan node =
    if not node.ok then error_of node.error else node_list_fresh ask scan node node.kind

module _ (device : Device) (scan : ScanResult) (begin : List (List ℕ) → ℕ)
    (names : HasNames device scan) where
  walk-exact :
      (s : Session) (result : MountLookupResult) (path : List ℕ) (parts : List (List ℕ))
      → NoUnit result.partition
      → IsCoherent device scan s
      → ((walk_names begin s result path parts).0
          ≡ walk_fresh (browse_fresh device scan) scan result path parts)
        × IsCoherent device scan (walk_names begin s result path parts).1
  unfolding walk_names walk_fresh
  walk-exact s result path [] no_unit c = (refl, c)
  walk-exact s result path (name ∷ parts) no_unit c =
      let (same, kept) = browse-exact device scan begin s result.partition path names no_unit c in
      let last = is_empty parts in
      let asked = ap (λ b. choose_entry b name last) same in
      elim (Result-cases
        (choose_entry (browse_fresh device scan result.partition path) name last)) [
          | inr (e, bad) ↦ rw (asked ∙ bad, walk_names, bad, walk_fresh) (refl, kept)
          | inl (entry, found) ↦
              rw (asked ∙ found, walk_names, found, walk_fresh)
                (walk-exact (browse begin s result.partition path).1 (reached result entry last)
                  (join_pfs_path path entry.shown.backing) parts no_unit kept)
        ]

  -- an answer of the mounted drive, with what it says of the caches
  abbrev IsLookup : MountLookupResult → MountLookupResult × Session → Type 0
  IsLookup fresh (result, s) = (result ≡ fresh) × IsCoherent device scan s

  partition-exact :
      (s : Session) (found : Option AliasEntry) (parts : List (List ℕ))
      → ((a : AliasEntry) → found ≡ some a → NoUnit a.shown.backing)
      → IsCoherent device scan s
      → IsLookup
          (partition_fresh (browse_fresh device scan) scan found parts)
          (lookup_partition begin s found parts)
  unfolding lookup_partition partition_fresh
  partition-exact s none parts no_unit c = (refl, c)
  partition-exact s (some a) parts no_unit c =
      walk-exact s (in_partition a) [] parts (no_unit a refl) c

  module _ (ids : HasIds scan) where
    namespace-exact :
        (s : Session) (parts : List (List ℕ))
        → IsCoherent device scan s
        → IsLookup
            (namespace_fresh (browse_fresh device scan) scan parts)
            (lookup_namespace begin s parts)
    unfolding lookup_namespace namespace_fresh
    namespace-exact s [] c = (refl, c)
    namespace-exact s (partition ∷ parts) c =
        let aliases = ap (λ sc. find_alias (make_partition_aliases sc) partition) c.same_scan in
        subst
          (λ found.
            IsLookup (namespace_fresh (browse_fresh device scan) scan (partition ∷ parts))
              (lookup_partition begin s found parts))
          (sym aliases)
          (partition-exact s (find_alias (make_partition_aliases scan) partition) parts
            (λ a found. partition-NoUnit scan partition a ids found) c)

    parts-exact :
        (s : Session) (parts : List (List ℕ))
        → IsCoherent device scan s
        → IsLookup (parts_fresh (browse_fresh device scan) scan parts) (lookup_parts begin s parts)
    unfolding lookup_parts parts_fresh
    parts-exact s [] c = (refl, c)
    parts-exact s (first ∷ rest) c = elim (Bool-cases (any_forbidden (first ∷ rest))) [
      | inl dots ↦ rw (dots, lookup_parts, parts_fresh) (refl, c)
      | inr plain ↦ elim (Bool-cases (equal_windows_name first (codes "Partitions"))) [
        | inl here ↦ rw (plain, here, lookup_parts, parts_fresh) (namespace-exact s rest c)
        | inr other ↦ rw (plain, other, lookup_parts, parts_fresh) (refl, c)
      ]
    ]

    pub lookup-exact :
        (s : Session) (path : List ℕ)
        → IsCoherent device scan s
        → IsLookup (lookup_fresh (browse_fresh device scan) scan path) (lookup begin s path)
    unfolding lookup lookup_fresh
    lookup-exact s path c = parts-exact s (split_path path) c

    abbrev IsListing : MountListResult → MountListResult × Session → Type 0
    IsListing fresh (result, s) = (result ≡ fresh) × IsCoherent device scan s

    node_list-exact :
        (s : Session) (node : MountLookupResult) (kind : MountNodeKind)
        → NoUnit node.partition
        → IsCoherent device scan s
        → IsListing
            (node_list_fresh (browse_fresh device scan) scan node kind)
            (list_node begin s node kind)
    unfolding list_node list_pfs node_list_fresh
    node_list-exact s node root no_unit c = (refl, c)
    node_list-exact s node namespace_directory no_unit c =
        (ap (λ sc. listed_names (map mount_entry (make_partition_aliases sc))) c.same_scan, c)
    node_list-exact s node pfs_directory no_unit c =
        let (same, kept) =
          browse-exact device scan begin s node.partition node.pfs_path names no_unit c in
        (ap list_browsed same, kept)
    node_list-exact s node pfs_file no_unit c = (refl, c)

    answered_list-exact :
        (s : Session) (node : MountLookupResult)
        → NoUnit node.partition
        → IsCoherent device scan s
        → IsListing
            (answered_fresh (browse_fresh device scan) scan node)
            (answered_list begin s node)
    answered_list-exact s node no_unit c =
        let P = λ (good : Bool).
          IsListing
            (if not good
              then error_of node.error
              else node_list_fresh (browse_fresh device scan) scan node node.kind)
            (if not good then (error_of node.error, s) else list_node begin s node node.kind) in
        elim (Bool-cases node.ok) [
          | inl good ↦ subst P (sym good) (node_list-exact s node node.kind no_unit c)
          | inr bad ↦ subst P (sym bad) (refl, c)
        ]

    pub list_directory_lem :
        (s : Session) (path : List ℕ)
        → IsCoherent device scan s
        → IsListing (list_fresh (browse_fresh device scan) scan path) (list_directory begin s path)
    unfolding list_directory list_fresh
    list_directory_lem s path c =
        let (same, kept) = lookup-exact s path c in
        let s' = (lookup begin s path).1 in
        subst
          (λ node.
            IsListing
              (answered_fresh (browse_fresh device scan) scan
                (lookup_fresh (browse_fresh device scan) scan path))
              (answered_list begin s' node))
          (sym same)
          (answered_list-exact s' _ (lookup-NoUnit (browse_fresh device scan) scan path ids) kept)
