-- ===== src/Mount/Aliases.antt =====
-- The names that the mounted drive shows for partitions and for the entries of a directory:
-- `make_entry_aliases`, `make_partition_aliases` and `find_alias` of host/mount_view.cpp. Each loop is
-- split into the choice of what is shown and the choice of its name.
use ps2_driveforge.Base.{
  ℕ, List, [], ◌∷◌, Bool, not, ◌&&◌, ◌||◌, Option, none, some, ◌==◌, if◌then◌else◌,
}
use ps2_driveforge.Base.Bytes.{bytes_eq}
use ps2_driveforge.Apa.Header.{Partition, is_sub, type_pfs}
use ps2_driveforge.Apa.Scan.{ScanResult}
use ps2_driveforge.Names.{uppercase_ascii, sanitize_host_filename, unique_name}
use ps2_driveforge.Session.State.{SessionEntry, is_directory, is_regular}

pub data MountNodeKind : Type 0 where
  root namespace_directory pfs_directory pfs_file : MountNodeKind

-- what is shown, before it has a name
pub record Shown : Type 0 where
  pub backing : List ℕ
  pub kind : MountNodeKind
  pub size : ℕ

pub record AliasEntry : Type 0 where
  pub visible : List ℕ
  pub shown : Shown

unfoldable pub equal_windows_name : List ℕ → List ℕ → Bool
equal_windows_name left right = bytes_eq (uppercase_ascii left) (uppercase_ascii right)

unfoldable pub name_aliases : List (List ℕ) → List Shown → List AliasEntry
name_aliases used [] = []
name_aliases used (shown ∷ rest) =
    let visible = unique_name used (sanitize_host_filename shown.backing) in
    record { visible = visible; shown = shown } ∷ name_aliases (uppercase_ascii visible ∷ used) rest

unfoldable pub shown_entries : List SessionEntry → List Shown
shown_entries [] = []
shown_entries (e ∷ es) =
    let rest = shown_entries es in
    if not e.inode_readable || (not (is_directory e) && not (is_regular e))
    then rest
    else record {
      backing = e.name;
      kind = if is_directory e then pfs_directory else pfs_file;
      size = e.size;
    }
      ∷ rest

unfoldable pub make_entry_aliases : List SessionEntry → List AliasEntry
make_entry_aliases entries = name_aliases [] (shown_entries entries)

unfoldable pub shown_partitions : List Partition → List Shown
shown_partitions [] = []
shown_partitions (p ∷ ps) =
    let rest = shown_partitions ps in
    if is_sub p || not (p.type == type_pfs)
    then rest
    else record { backing = p.id; kind = pfs_directory; size = 0 } ∷ rest

unfoldable pub make_partition_aliases : ScanResult → List AliasEntry
make_partition_aliases scan = name_aliases [] (shown_partitions scan.partitions)

unfoldable pub find_alias : List AliasEntry → List ℕ → Option AliasEntry
find_alias [] visible = none
find_alias (a ∷ rest) visible =
    if equal_windows_name a.visible visible then some a else find_alias rest visible
