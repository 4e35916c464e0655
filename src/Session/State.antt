-- ===== src/Session/State.antt =====
-- The state of a DriveSession and its results. The session reads through the device that its caches of
-- sectors show, which answers as the source does; the elapsed times are left out.
use ps2_driveforge.Base.{
  ℕ, List, [], ◌∷◌, Bool, true, Option, none, some, ◌==◌, not, ◌&&◌, if◌then◌else◌, Result, ok, err,
}
use ps2_driveforge.Base.Bytes.{bytes_eq}
use ps2_driveforge.Device.{Device}
use ps2_driveforge.Apa.Header.{Partition, is_sub, type_pfs}
use ps2_driveforge.Apa.Scan.{ScanResult, scan, scan_ok}
use ps2_driveforge.Volume.{ApaVolume, make_volume}
use ps2_driveforge.Pfs.Types.{BlockInfo, Node, mode_mask, mode_directory, mode_regular}
use ps2_driveforge.Pfs.Probe.{ProbeError, ProbeResult, probe}
use ps2_driveforge.Pfs.Metadata.{Fault, Reader}
use ps2_driveforge.Session.Store.{bump, find, bounded_store}
use Prim.Native.Nat.{bit_and}

pub record SessionEntry : Type 0 where
  pub name : List ℕ
  pub inode : BlockInfo
  pub mode : ℕ
  pub size : ℕ
  pub inode_readable : Bool

abbrev pub is_directory : SessionEntry → Bool
is_directory e = bit_and e.mode mode_mask == mode_directory

abbrev pub is_regular : SessionEntry → Bool
is_regular e = bit_and e.mode mode_mask == mode_regular

-- the texts of `error`; those of a reader are its faults
pub data SessionError : Type 0 where
  partition_not_found partition_not_pfs : List ℕ → SessionError
  probe_failed path_not_directory path_not_regular : SessionError
  not_valid : ProbeError → SessionError
  reader_error : Fault → SessionError

pub record BrowseResult : Type 0 where
  pub ok : Bool
  pub error : Option SessionError
  pub entries : List SessionEntry

pub record StatResult : Type 0 where
  pub ok : Bool
  pub error : Option SessionError
  pub entry : SessionEntry

-- `bytes` are the first `bytes_read` bytes of the caller's buffer
pub record ReadResult : Type 0 where
  pub ok : Bool
  pub error : Option SessionError
  pub bytes_read : ℕ
  pub bytes : List ℕ

pub record SessionCacheStats : Type 0 where
  pub probe_hits : ℕ
  pub probe_misses : ℕ
  pub browse_hits : ℕ
  pub browse_misses : ℕ
  pub stat_hits : ℕ
  pub stat_misses : ℕ
  pub node_hits : ℕ
  pub node_misses : ℕ
  pub evictions : ℕ

abbrev pub no_cache_stats : SessionCacheStats
no_cache_stats = record {
  probe_hits = 0;
  probe_misses = 0;
  browse_hits = 0;
  browse_misses = 0;
  stat_hits = 0;
  stat_misses = 0;
  node_hits = 0;
  node_misses = 0;
  evictions = 0;
}

pub record Operations : Type 0 where
  pub apa_scans : ℕ
  pub browse_operations : ℕ
  pub stat_operations : ℕ
  pub read_operations : ℕ
  pub export_operations : ℕ

abbrev pub no_operations : Operations
no_operations = record {
  apa_scans = 0;
  browse_operations = 0;
  stat_operations = 0;
  read_operations = 0;
  export_operations = 0;
}

pub data ScanError : Type 0 where
  no_mbr fatal_errors : ScanError

pub record Session : Type 0 where
  pub device : Device
  pub scan : ScanResult
  pub last_error : Option ScanError
  pub probe_cache : List (List ℕ × ProbeResult)
  pub browse_cache : List (List ℕ × BrowseResult)
  pub stat_cache : List (List ℕ × StatResult)
  pub node_cache : List (List ℕ × Node)
  pub cache : SessionCacheStats
  pub operations : Operations

abbrev pub max_probe_cache_entries : ℕ
max_probe_cache_entries = 256

abbrev pub max_browse_cache_entries : ℕ
max_browse_cache_entries = 1024

abbrev pub max_stat_cache_entries : ℕ
max_stat_cache_entries = 8192

abbrev pub max_node_cache_entries : ℕ
max_node_cache_entries = 8192

unfoldable pub clear_caches : Session → Session
clear_caches s = record s { probe_cache = []; browse_cache = []; stat_cache = []; node_cache = [] }

unfoldable pub reset_stats : Session → Session
reset_stats s = record s { cache = no_cache_stats; operations = no_operations }

-- what `scan` makes of the scan: whether it is usable, or why not
unfoldable pub judge_scan : ScanResult → Option ScanError
judge_scan result =
    if not result.mbr_valid
    then some no_mbr
    else if not (scan_ok result)
    then some fatal_errors
    else none

unfoldable pub scan_session : ℕ → Session → Session
scan_session max_headers s =
    let result = scan s.device max_headers in
    record (clear_caches s) {
      scan = result;
      last_error = judge_scan result;
      operations = record s.operations { apa_scans = bump s.operations.apa_scans };
    }

-- `std::find_if` by the identity of a main partition
unfoldable pub find_partition : List Partition → List ℕ → Option Partition
find_partition [] id = none
find_partition (p ∷ ps) id =
    let rest = find_partition ps id in if not (is_sub p) && bytes_eq p.id id then some p else rest

unfoldable pub select_partition : ScanResult → List ℕ → Result SessionError Partition
select_partition scan id = elim (find_partition scan.partitions id) [
  | none ↦ err (partition_not_found id)
  | some p ↦ if not (p.type == type_pfs) then err (partition_not_pfs id) else ok p
]

unfoldable pub probe_for :
    (List (List ℕ) → ℕ) → Session → List ℕ → ApaVolume → ProbeResult × Session
probe_for begin s id volume = elim (find id s.probe_cache) [
  | some result ↦
      (result, record s { cache = record s.cache { probe_hits = bump s.cache.probe_hits } })
  | none ↦
      let result = probe volume in
      let (stored, evicted) =
        bounded_store begin s.probe_cache id result max_probe_cache_entries s.cache.evictions in
      (
        result,
        record s {
          probe_cache = stored;
          cache = record s.cache { probe_misses = bump s.cache.probe_misses; evictions = evicted };
        },
      )
]

-- `reader.last_error()` of a reader whose probe failed, or "PFS probe failed"
unfoldable pub invalid_error : ProbeResult → SessionError
invalid_error result = elim result.errors [ [] ↦ probe_failed | e ∷ es ↦ not_valid e ]

-- the reader of a probe, unless it is invalid
unfoldable pub check_reader : ApaVolume → ProbeResult → Result SessionError Reader
check_reader volume result =
    if not result.valid
    then err (invalid_error result)
    else ok (record { volume = volume; probe_result = result })

-- the volume, the probe and the reader that an operation works with
unfoldable pub open_selected :
    (List (List ℕ) → ℕ)
    → Session
    → List ℕ
    → Device
    → Result SessionError Partition
    → Result SessionError Reader × Session
open_selected begin s id device (err e) = (err e, s)
open_selected begin s id device (ok partition) =
    let volume = make_volume device partition in
    let (result, s') = probe_for begin s id volume in (check_reader volume result, s')

unfoldable pub open_reader :
    (List (List ℕ) → ℕ) → Session → List ℕ → Result SessionError Reader × Session
open_reader begin s id = open_selected begin s id s.device (select_partition s.scan id)

abbrev pub lift {ℓ} : {A : Type ℓ} → Result Fault A → Result SessionError A
lift (ok a) = ok a
lift (err e) = err (reader_error e)

-- `stat_from_node`
unfoldable pub stat_from_node : List ℕ → Node → StatResult
stat_from_node path node = record {
  ok = true;
  error = none;
  entry = record {
    name = path;
    inode = node.location;
    mode = bit_and node.inode.mode mode_mask;
    size = node.inode.size;
    inode_readable = true;
  };
}
