-- ===== src/Session/Files.antt =====
-- `stat` and `read_file` of host/drive_session.cpp.
use ps2_driveforge.Base.{
  ℕ, ◌-◌, List, [], true, false, not, ◌||◌, none, some, leb, ◌==◌, min, Result, ok, err,
  if◌then◌else◌,
}
use ps2_driveforge.Pfs.Types.{Node, mode_mask, mode_regular, no_block}
use ps2_driveforge.Pfs.Metadata.{Reader}
use ps2_driveforge.Pfs.Directory.{resolve}
use ps2_driveforge.Pfs.File
use ps2_driveforge.Session.Paths.{normalize_cache_path, make_cache_key}
use ps2_driveforge.Session.Store.{bump, find, bounded_store}
use ps2_driveforge.Session.State.{
  Session, SessionError, reader_error, path_not_regular, StatResult, ReadResult,
  max_stat_cache_entries, max_node_cache_entries, open_reader, stat_from_node,
}
use Prim.Native.Nat.{bit_and}

unfoldable pub failed_stat : SessionError → StatResult
failed_stat e = record {
  ok = false;
  error = some e;
  entry = record { name = []; inode = no_block; mode = 0; size = 0; inode_readable = false };
}

unfoldable pub failed_read : SessionError → ReadResult
failed_read e = record { ok = false; error = some e; bytes_read = 0; bytes = [] }

unfoldable pub keep_stat : (List (List ℕ) → ℕ) → Session → List ℕ → StatResult → Session
keep_stat begin s key result =
    let (stored, evicted) =
      bounded_store begin s.stat_cache key result max_stat_cache_entries s.cache.evictions in
    record s { stat_cache = stored; cache = record s.cache { evictions = evicted } }

unfoldable pub keep_node : (List (List ℕ) → ℕ) → Session → List ℕ → Node → Session
keep_node begin s key node =
    let (stored, evicted) =
      bounded_store begin s.node_cache key node max_node_cache_entries s.cache.evictions in
    record s { node_cache = stored; cache = record s.cache { evictions = evicted } }

abbrev pub count_node_hit : Session → Session
count_node_hit s = record s { cache = record s.cache { node_hits = bump s.cache.node_hits } }

abbrev pub count_node_miss : Session → Session
count_node_miss s = record s { cache = record s.cache { node_misses = bump s.cache.node_misses } }

abbrev pub count_stat : Session → Session
count_stat s = record s {
  operations = record s.operations { stat_operations = bump s.operations.stat_operations };
}

abbrev pub count_stat_hit : Session → Session
count_stat_hit s = record s { cache = record s.cache { stat_hits = bump s.cache.stat_hits } }

abbrev pub count_stat_miss : Session → Session
count_stat_miss s = record s { cache = record s.cache { stat_misses = bump s.cache.stat_misses } }

abbrev pub count_read : Session → Session
count_read s = record s {
  operations = record s.operations { read_operations = bump s.operations.read_operations };
}

-- the node of a path that is in no cache, kept with its stat
unfoldable pub resolve_and_keep :
    (List (List ℕ) → ℕ) → Session → Reader → List ℕ → List ℕ → Result SessionError Node × Session
resolve_and_keep begin s r path key = elim (resolve r path) [
  | err e ↦ (err (reader_error e), s)
  | ok node ↦ (ok node, keep_stat begin (keep_node begin s key node) key (stat_from_node path node))
]

abbrev pub stat_result : List ℕ → Result SessionError Node → StatResult
stat_result path (err e) = failed_stat e
stat_result path (ok node) = stat_from_node path node

unfoldable pub stat_opened :
    (List (List ℕ) → ℕ)
    → Result SessionError Reader
    → Session
    → List ℕ
    → List ℕ
    → StatResult × Session
stat_opened begin (err e) s path key = (failed_stat e, s)
stat_opened begin (ok r) s path key =
    let (found, s') = resolve_and_keep begin s r path key in (stat_result path found, s')

unfoldable pub stat_miss :
    (List (List ℕ) → ℕ) → Session → List ℕ → List ℕ → List ℕ → StatResult × Session
stat_miss begin s partition path key =
    let (opened, s') = open_reader begin s partition in stat_opened begin opened s' path key

-- `stat` past the cache of stats: from the cache of nodes, or from the disk
unfoldable pub stat_node :
    (List (List ℕ) → ℕ) → Session → List ℕ → List ℕ → List ℕ → StatResult × Session
stat_node begin s partition path key = elim (find key s.node_cache) [
  | some node ↦
      let result = stat_from_node path node in
      (result, keep_stat begin (count_node_hit s) key result)
  | none ↦ stat_miss begin (count_node_miss s) partition path key
]

unfoldable pub stat : (List (List ℕ) → ℕ) → Session → List ℕ → List ℕ → StatResult × Session
stat begin s partition path =
    let normalized_path = normalize_cache_path path in
    let key = make_cache_key partition normalized_path in
    elim (find key s.stat_cache) [
      | some result ↦ (result, count_stat_hit (count_stat s))
      | none ↦ stat_node begin (count_stat_miss (count_stat s)) partition normalized_path key
    ]

-- `read_file` once the node is known
unfoldable pub read_node : Reader → Node → ℕ → ℕ → ReadResult
read_node r node offset size =
    if not (bit_and node.inode.mode mode_mask == mode_regular)
    then failed_read path_not_regular
    else if leb node.inode.size offset || size == 0
    then record { ok = true; error = none; bytes_read = 0; bytes = [] }
    else (let take = min size (node.inode.size - offset) in
        elim (File.read r node offset take) [
          | err e ↦ failed_read (reader_error e)
          | ok bytes ↦ record { ok = true; error = none; bytes_read = take; bytes = bytes }
        ])

unfoldable pub find_node :
    (List (List ℕ) → ℕ) → Session → Reader → List ℕ → List ℕ → Result SessionError Node × Session
find_node begin s r path key = elim (find key s.node_cache) [
  | some node ↦ (ok node, count_node_hit s)
  | none ↦ resolve_and_keep begin (count_node_miss s) r path key
]

abbrev pub read_result : Reader → ℕ → ℕ → Result SessionError Node → ReadResult
read_result r offset size (err e) = failed_read e
read_result r offset size (ok node) = read_node r node offset size

unfoldable pub read_opened :
    (List (List ℕ) → ℕ)
    → Result SessionError Reader
    → Session
    → List ℕ
    → List ℕ
    → ℕ
    → ℕ
    → ReadResult × Session
read_opened begin (err e) s path key offset size = (failed_read e, s)
read_opened begin (ok r) s path key offset size =
    let (found, s') = find_node begin s r path key in (read_result r offset size found, s')

-- `size` is the size of the caller's buffer
unfoldable pub read_file :
    (List (List ℕ) → ℕ) → Session → List ℕ → List ℕ → ℕ → ℕ → ReadResult × Session
read_file begin s partition path offset size =
    let normalized_path = normalize_cache_path path in
    let key = make_cache_key partition normalized_path in
    let (opened, s') = open_reader begin (count_read s) partition in
    read_opened begin opened s' normalized_path key offset size
