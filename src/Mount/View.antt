-- ===== src/Mount/View.antt =====
-- The operations of ReadOnlyMountView in host/mount_view.cpp, over the session that they use.
use ps2_driveforge.Base.{
  ℕ, zero, suc, List, [], ◌∷◌, ◌++◌, map, length, Bool, true, false, not, ◌&&◌, ◌||◌, Option, none,
  some, Result, ok, err, ◌>>=◌, ◌>>◌, fail_if, from_option, if◌then◌else◌,
}
use ps2_driveforge.Base.Bytes.{bytes_eq, codes}
use ps2_driveforge.Pfs.Directory.{split_component, skip_separators}
use ps2_driveforge.Session.State.{Session, SessionError, BrowseResult}
use ps2_driveforge.Session.Browse.{browse}
use ps2_driveforge.Session.Files
use ps2_driveforge.Mount.Aliases.{
  MountNodeKind, root, namespace_directory, pfs_directory, pfs_file, AliasEntry, equal_windows_name,
  make_entry_aliases, make_partition_aliases, find_alias,
}

-- `split_path`: the loop takes at least one byte a round
unfoldable pub split_loop : ℕ → List ℕ → List (List ℕ)
split_loop zero path = []
split_loop (suc fuel) path = elim (skip_separators path) [
  | [] ↦ []
  | c ∷ cs ↦ (split_component (c ∷ cs)).0 ∷ split_loop fuel (split_component (c ∷ cs)).1
]

unfoldable pub split_path : List ℕ → List (List ℕ)
split_path path = split_loop (length path) path

unfoldable pub join_pfs_path : List ℕ → List ℕ → List ℕ
join_pfs_path parent child =
    if bytes_eq parent [] || bytes_eq parent (codes "/") then child else parent ++ b'/' ∷ child

-- one constructor for each text of `error`; those of the session are its own
pub data MountError : Type 0 where
  dot_component no_path no_partition no_pfs_path through_file : MountError
  path_not_directory path_not_file : MountError
  session_error : Option SessionError → MountError

pub record MountEntry : Type 0 where
  pub name : List ℕ
  pub kind : MountNodeKind
  pub size : ℕ

pub record MountLookupResult : Type 0 where
  pub ok : Bool
  pub error : Option MountError
  pub kind : MountNodeKind
  pub partition : List ℕ
  pub pfs_path : List ℕ
  pub size : ℕ

pub record MountListResult : Type 0 where
  pub ok : Bool
  pub error : Option MountError
  pub entries : List MountEntry

pub record MountReadResult : Type 0 where
  pub ok : Bool
  pub error : Option MountError
  pub bytes_read : ℕ
  pub bytes : List ℕ

-- `MountLookupResult::is_directory`
unfoldable pub is_directory_kind : MountNodeKind → Bool
is_directory_kind pfs_file = false
is_directory_kind root = true
is_directory_kind namespace_directory = true
is_directory_kind pfs_directory = true

abbrev pub is_pfs_directory : MountNodeKind → Bool
is_pfs_directory pfs_directory = true
is_pfs_directory root = false
is_pfs_directory namespace_directory = false
is_pfs_directory pfs_file = false

abbrev pub no_lookup : MountLookupResult
no_lookup = record {
  ok = false;
  error = none;
  kind = root;
  partition = [];
  pfs_path = [];
  size = 0;
}

abbrev pub lookup_failed : MountLookupResult → MountError → MountLookupResult
lookup_failed result e = record result { error = some e }

abbrev pub is_forbidden_component : List ℕ → Bool
is_forbidden_component component = bytes_eq component (codes ".") || bytes_eq component (codes "..")

unfoldable pub any_forbidden : List (List ℕ) → Bool
any_forbidden [] = false
any_forbidden (part ∷ parts) = is_forbidden_component part || any_forbidden parts

abbrev pub is_empty : List (List ℕ) → Bool
is_empty [] = true
is_empty (part ∷ parts) = false

-- the entry that a name stands for in a directory, which has to be one unless the name is the last
unfoldable pub choose_entry : BrowseResult → List ℕ → Bool → Result MountError AliasEntry
choose_entry browsed name last = do
  fail_if (not browsed.ok) (session_error browsed.error)
  entry ← from_option no_pfs_path (find_alias (make_entry_aliases browsed.entries) name)
  fail_if (not last && not (is_pfs_directory entry.shown.kind)) through_file
  ok entry

-- what the last name says of the node
abbrev pub reached : MountLookupResult → AliasEntry → Bool → MountLookupResult
reached result entry last = record result {
  kind = if last then entry.shown.kind else result.kind;
  size = if last then entry.shown.size else result.size;
}

-- the loop over the names behind the partition
unfoldable pub walk_names :
    (List (List ℕ) → ℕ)
    → Session
    → MountLookupResult
    → List ℕ
    → List (List ℕ)
    → MountLookupResult × Session
walk_names begin s result backing_path [] =
    (record result { ok = true; pfs_path = backing_path }, s)
walk_names begin s result backing_path (name ∷ names) =
    let (browsed, s') = browse begin s result.partition backing_path in
    elim (choose_entry browsed name (is_empty names)) [
      | err e ↦ (lookup_failed result e, s')
      | ok entry ↦
          walk_names begin s' (reached result entry (is_empty names))
            (join_pfs_path backing_path entry.shown.backing) names
    ]

abbrev pub in_partition : AliasEntry → MountLookupResult
in_partition alias = record no_lookup { partition = alias.shown.backing; kind = pfs_directory }

unfoldable pub lookup_partition :
    (List (List ℕ) → ℕ) → Session → Option AliasEntry → List (List ℕ) → MountLookupResult × Session
lookup_partition begin s none names = (lookup_failed no_lookup no_partition, s)
lookup_partition begin s (some alias) names = walk_names begin s (in_partition alias) [] names

unfoldable pub lookup_namespace :
    (List (List ℕ) → ℕ) → Session → List (List ℕ) → MountLookupResult × Session
lookup_namespace begin s [] = (record no_lookup { ok = true; kind = namespace_directory }, s)
lookup_namespace begin s (partition ∷ names) =
    lookup_partition begin s (find_alias (make_partition_aliases s.scan) partition) names

unfoldable pub lookup_parts :
    (List (List ℕ) → ℕ) → Session → List (List ℕ) → MountLookupResult × Session
lookup_parts begin s [] = (record no_lookup { ok = true }, s)
lookup_parts begin s (first ∷ rest) =
    if any_forbidden (first ∷ rest)
    then (lookup_failed no_lookup dot_component, s)
    else if not (equal_windows_name first (codes "Partitions"))
    then (lookup_failed no_lookup no_path, s)
    else lookup_namespace begin s rest

unfoldable pub lookup : (List (List ℕ) → ℕ) → Session → List ℕ → MountLookupResult × Session
lookup begin s path = lookup_parts begin s (split_path path)

abbrev pub list_failed : MountError → MountListResult
list_failed e = record { ok = false; error = some e; entries = [] }

abbrev pub listed_names : List MountEntry → MountListResult
listed_names entries = record { ok = true; error = none; entries = entries }

abbrev pub mount_entry : AliasEntry → MountEntry
mount_entry alias = record {
  name = alias.visible;
  kind = alias.shown.kind;
  size = alias.shown.size;
}

unfoldable pub list_browsed : BrowseResult → MountListResult
list_browsed browsed =
    if not browsed.ok
    then list_failed (session_error browsed.error)
    else listed_names (map mount_entry (make_entry_aliases browsed.entries))

unfoldable pub list_pfs :
    (List (List ℕ) → ℕ) → Session → MountLookupResult → MountListResult × Session
list_pfs begin s node =
    let (browsed, s') = browse begin s node.partition node.pfs_path in (list_browsed browsed, s')

-- the entries of the namespace have the size 0, which is also what their aliases hold
unfoldable pub list_node :
    (List (List ℕ) → ℕ) → Session → MountLookupResult → MountNodeKind → MountListResult × Session
list_node begin s node root = (
  listed_names (record { name = codes "Partitions"; kind = namespace_directory; size = 0 } ∷ []),
  s,
)
list_node begin s node namespace_directory =
    (listed_names (map mount_entry (make_partition_aliases s.scan)), s)
list_node begin s node pfs_directory = list_pfs begin s node
list_node begin s node pfs_file = (list_failed path_not_directory, s)

abbrev pub error_of : Option MountError → MountListResult
error_of e = record { ok = false; error = e; entries = [] }

unfoldable pub list_directory : (List (List ℕ) → ℕ) → Session → List ℕ → MountListResult × Session
list_directory begin s path =
    let (node, s') = lookup begin s path in
    if not node.ok then (error_of node.error, s') else list_node begin s' node node.kind

unfoldable pub read_lookup :
    (List (List ℕ) → ℕ)
    → Session
    → MountLookupResult
    → MountNodeKind
    → ℕ
    → ℕ
    → MountReadResult × Session
read_lookup begin s node pfs_file offset size =
    let (read, s') = Files.read_file begin s node.partition node.pfs_path offset size in
    (
      record {
        ok = read.ok;
        error = elim read.error [ none ↦ none | some e ↦ some (session_error (some e)) ];
        bytes_read = read.bytes_read;
        bytes = read.bytes;
      },
      s',
    )
read_lookup begin s node root offset size =
    (record { ok = false; error = some path_not_file; bytes_read = 0; bytes = [] }, s)
read_lookup begin s node namespace_directory offset size =
    (record { ok = false; error = some path_not_file; bytes_read = 0; bytes = [] }, s)
read_lookup begin s node pfs_directory offset size =
    (record { ok = false; error = some path_not_file; bytes_read = 0; bytes = [] }, s)

unfoldable pub read_file :
    (List (List ℕ) → ℕ) → Session → List ℕ → ℕ → ℕ → MountReadResult × Session
read_file begin s path offset size =
    let (node, s') = lookup begin s path in
    if not node.ok
    then (record { ok = false; error = node.error; bytes_read = 0; bytes = [] }, s')
    else read_lookup begin s' node node.kind offset size
