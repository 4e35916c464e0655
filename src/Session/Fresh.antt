-- ===== src/Session/Fresh.antt =====
-- What the operations of host/drive_session.cpp answer with no cache between the calls and the disk.
use ps2_driveforge.Base.{
  ℕ, ◌≡◌, ap, List, map, false, not, ◌==◌, Result, ok, err, ◌>>=◌, ◌>>◌, fail_if,
}
use ps2_driveforge.Device.{Device}
use ps2_driveforge.Apa.Scan.{ScanResult}
use ps2_driveforge.Volume.{make_volume}
use ps2_driveforge.Pfs.Types.{mode_mask, mode_directory, Node, DirectoryEntry}
use ps2_driveforge.Pfs.Probe.{probe}
use ps2_driveforge.Pfs.Metadata.{Fault, Reader}
use ps2_driveforge.Pfs.Directory.{resolve, list_directory}
use ps2_driveforge.Session.Paths.{normalize_cache_path}
use ps2_driveforge.Session.Components.{resolve-normalize}
use ps2_driveforge.Session.State.{
  SessionError, path_not_directory, BrowseResult, StatResult, ReadResult, select_partition,
  check_reader, lift,
}
use ps2_driveforge.Session.Browse.{failed_browse, make_child, list_path, listed}
use ps2_driveforge.Session.Files.{failed_read, stat_result, read_result}
use Prim.Native.Nat.{bit_and}

abbrev pub browse_listing : Reader → Result SessionError (Node × List DirectoryEntry) → BrowseResult
browse_listing r (err e) = failed_browse e
browse_listing r (ok (node, entries)) = listed (map (make_child r) entries)

abbrev pub browse_opened : List ℕ → Result SessionError Reader → BrowseResult
browse_opened path (err e) = failed_browse e
browse_opened path (ok r) = browse_listing r (list_path r path)

abbrev pub read_opened_fresh : List ℕ → ℕ → ℕ → Result SessionError Reader → ReadResult
read_opened_fresh path offset size (err e) = failed_read e
read_opened_fresh path offset size (ok r) = read_result r offset size (lift (resolve r path))

module _ (device : Device) (scan : ScanResult) where
  unfoldable pub open_fresh : List ℕ → Result SessionError Reader
  open_fresh id = do
    partition ← select_partition scan id
    let volume = make_volume device partition
    check_reader volume (probe volume)

  unfoldable pub browse_fresh : List ℕ → List ℕ → BrowseResult
  browse_fresh id path = browse_opened path (open_fresh id)

  unfoldable pub node_fresh : List ℕ → List ℕ → Result SessionError Node
  node_fresh id path = do r ← open_fresh id; lift (resolve r path)

  unfoldable pub stat_fresh : List ℕ → List ℕ → StatResult
  stat_fresh id path = stat_result (normalize_cache_path path) (node_fresh id path)

  unfoldable pub read_fresh : List ℕ → List ℕ → ℕ → ℕ → ReadResult
  read_fresh id path offset size = read_opened_fresh path offset size (open_fresh id)

pub list_path-normalize :
    (r : Reader) (path : List ℕ) → list_path r (normalize_cache_path path) ≡ list_path r path
unfolding list_path
list_path-normalize r path =
    ap
      (λ (found : Result Fault Node). lift found >>= λ (node : Node).
        fail_if (not (bit_and node.inode.mode mode_mask == mode_directory)) path_not_directory
        >> (lift (list_directory r node false) >>= λ (entries : List DirectoryEntry).
            ok (node, entries)))
      (resolve-normalize r path)
