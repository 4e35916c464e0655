-- ===== src/Session/Browse.antt =====
-- `DriveSession::browse` of host/drive_session.cpp: a directory, from the cache or from the disk.
use ps2_driveforge.Base.{
  ℕ, List, [], ◌∷◌, map, true, false, not, Option, none, some, ◌==◌, Result, ok, err, ◌>>=◌, ◌>>◌,
  fail_if,
}
use ps2_driveforge.Pfs.Types.{DirectoryEntry, Node, mode_mask, mode_directory}
use ps2_driveforge.Pfs.Metadata.{Fault, Reader, read_inode}
use ps2_driveforge.Pfs.Directory.{list_directory, resolve}
use ps2_driveforge.Session.Paths.{normalize_cache_path, make_cache_key, child_path}
use ps2_driveforge.Session.Store.{bump, find, bounded_store, store_all}
use ps2_driveforge.Session.State.{
  Session, SessionEntry, SessionError, path_not_directory, BrowseResult, StatResult,
  max_browse_cache_entries, max_stat_cache_entries, max_node_cache_entries, open_reader, lift,
  stat_from_node,
}
use Prim.Native.Nat.{bit_and}

unfoldable pub failed_browse : SessionError → BrowseResult
failed_browse e = record { ok = false; error = some e; entries = [] }

-- an entry, and its inode where that can be read
pub record Child : Type 0 where
  pub entry : SessionEntry
  pub node : Option Node

abbrev pub child_of : DirectoryEntry → Result Fault Node → Child
child_of e (err fault) = record {
  entry = record {
    name = e.name;
    inode = e.inode;
    mode = e.mode;
    size = 0;
    inode_readable = false;
  };
  node = none;
}
child_of e (ok child) = record {
  entry = record {
    name = e.name;
    inode = e.inode;
    mode = bit_and child.inode.mode mode_mask;
    size = child.inode.size;
    inode_readable = true;
  };
  node = some child;
}

unfoldable pub make_child : Reader → DirectoryEntry → Child
make_child r e = child_of e (read_inode r e.inode)

-- the directory that a path names, and its entries
unfoldable pub list_path : Reader → List ℕ → Result SessionError (Node × List DirectoryEntry)
list_path r path = do
  node ← lift (resolve r path)
  fail_if (not (bit_and node.inode.mode mode_mask == mode_directory)) path_not_directory
  entries ← lift (list_directory r node false)
  ok (node, entries)

abbrev pub listed : List Child → BrowseResult
listed children = record {
  ok = true;
  error = none;
  entries = map (λ (c : Child). c.entry) children;
}

-- the nodes to keep, with the names under which they are kept
abbrev pub keep_child : List ℕ → Child → List (List ℕ × Node) → List (List ℕ × Node)
keep_child path c rest = elim c.node [
  | none ↦ rest
  | some node ↦ (child_path path c.entry.name, node) ∷ rest
]

unfoldable pub child_nodes : List ℕ → List Child → List (List ℕ × Node)
child_nodes path [] = []
child_nodes path (c ∷ cs) = keep_child path c (child_nodes path cs)

abbrev pub with_keys : List ℕ → List (List ℕ × Node) → List (List ℕ × Node)
with_keys partition [] = []
with_keys partition ((path, node) ∷ rest) =
    (make_cache_key partition path, node) ∷ with_keys partition rest

abbrev pub with_stats : List ℕ → List (List ℕ × Node) → List (List ℕ × StatResult)
with_stats partition [] = []
with_stats partition ((path, node) ∷ rest) =
    (make_cache_key partition path, stat_from_node path node) ∷ with_stats partition rest

-- the section under the lock that keeps what was read
unfoldable pub keep_listing :
    (List (List ℕ) → ℕ) → Session → List ℕ → List ℕ → List (List ℕ × Node) → BrowseResult → Session
keep_listing begin s partition key nodes result =
    let (kept_nodes, evicted) =
      store_all begin s.node_cache (with_keys partition nodes) max_node_cache_entries
        s.cache.evictions in
    let (kept_stats, evicted') =
      store_all begin s.stat_cache (with_stats partition nodes) max_stat_cache_entries evicted in
    let (kept_browse, evicted'') =
      bounded_store begin s.browse_cache key result max_browse_cache_entries evicted' in
    record s {
      node_cache = kept_nodes;
      stat_cache = kept_stats;
      browse_cache = kept_browse;
      cache = record s.cache { evictions = evicted'' };
    }

unfoldable pub browse_reader :
    (List (List ℕ) → ℕ) → Session → Reader → List ℕ → List ℕ → List ℕ → BrowseResult × Session
browse_reader begin s r partition path key = elim (list_path r path) [
  | err e ↦ (failed_browse e, s)
  | ok (node, entries) ↦
      let children = map (make_child r) entries in
      let result = listed children in
      let nodes = (path, node) ∷ child_nodes path children in
      (result, keep_listing begin s partition key nodes result)
]

unfoldable pub browse_opened_with :
    (List (List ℕ) → ℕ)
    → Result SessionError Reader
    → Session
    → List ℕ
    → List ℕ
    → List ℕ
    → BrowseResult × Session
browse_opened_with begin (err e) s partition path key = (failed_browse e, s)
browse_opened_with begin (ok r) s partition path key = browse_reader begin s r partition path key

unfoldable pub browse_miss :
    (List (List ℕ) → ℕ) → Session → List ℕ → List ℕ → List ℕ → BrowseResult × Session
browse_miss begin s partition path key =
    let (opened, s') = open_reader begin s partition in
    browse_opened_with begin opened s' partition path key

abbrev pub count_browse : Session → Session
count_browse s = record s {
  operations = record s.operations { browse_operations = bump s.operations.browse_operations };
}

abbrev pub count_browse_hit : Session → Session
count_browse_hit s = record s { cache = record s.cache { browse_hits = bump s.cache.browse_hits } }

abbrev pub count_browse_miss : Session → Session
count_browse_miss s = record s {
  cache = record s.cache { browse_misses = bump s.cache.browse_misses };
}

unfoldable pub browse : (List (List ℕ) → ℕ) → Session → List ℕ → List ℕ → BrowseResult × Session
browse begin s partition path =
    let normalized_path = normalize_cache_path path in
    let key = make_cache_key partition normalized_path in
    elim (find key s.browse_cache) [
      | some result ↦ (result, count_browse_hit (count_browse s))
      | none ↦ browse_miss begin (count_browse_miss (count_browse s)) partition normalized_path key
    ]
