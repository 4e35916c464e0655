-- ===== src/Hdl/Catalog.antt =====
-- `read_catalog` of core/hdl.cpp: the games of a scan, read in the order of their place on the disk.
-- std::sort leaves open how partitions of the same start come out, so the sort is an argument. The
-- stop token is asked before each game: `stop n` is its answer after `n` games. The calls of the
-- progress callback are collected in `reports`.
use ps2_driveforge.Base.{
  ℕ, ◌+◌, List, [], ◌∷◌, ◌++◌, length, Bool, true, false, not, ◌&&◌, ◌==◌, if◌then◌else◌,
}
use ps2_driveforge.Device.{Device}
use ps2_driveforge.Apa.Header.{Partition, is_sub, type_hdl}
use ps2_driveforge.Apa.Scan.{ScanResult}
use ps2_driveforge.Hdl.Game.{GameResult, read_game_info}

pub record CatalogResult : Type 0 where
  pub entries : List GameResult
  pub total_candidates : ℕ
  pub readable : ℕ
  pub unreadable : ℕ
  pub cancelled : Bool

-- one call of the progress callback
pub record Progress : Type 0 where
  pub completed : ℕ
  pub total : ℕ
  pub game : GameResult

pub record CatalogRun : Type 0 where
  pub catalog : CatalogResult
  pub reports : List Progress

unfoldable pub candidates : List Partition → List Partition
candidates [] = []
candidates (p ∷ ps) =
    let rest = candidates ps in if not (is_sub p) && p.type == type_hdl then p ∷ rest else rest

-- one game: the counters, the entry, and the callback where there is one
unfoldable pub add_game : Bool → CatalogRun → GameResult → CatalogRun
add_game has_callback s game =
    let entries = s.catalog.entries ++ game ∷ [] in
    record {
      catalog = record s.catalog {
        entries = entries;
        readable = if game.ok then s.catalog.readable + 1 else s.catalog.readable;
        unreadable = if game.ok then s.catalog.unreadable else s.catalog.unreadable + 1;
      };
      reports =
          if has_callback
          then s.reports
            ++ record {
              completed = length entries;
              total = s.catalog.total_candidates;
              game = game;
            }
              ∷ []
          else s.reports;
    }

unfoldable pub cancel : CatalogRun → CatalogRun
cancel s = record s { catalog = record s.catalog { cancelled = true } }

unfoldable pub catalog_loop : Device → Bool → (ℕ → Bool) → List Partition → CatalogRun → CatalogRun
catalog_loop device has_callback stop [] s = s
catalog_loop device has_callback stop (p ∷ ps) s = elim (stop (length s.catalog.entries)) [
  | true ↦ cancel s
  | false ↦
      catalog_loop device has_callback stop ps (add_game has_callback s (read_game_info device p))
]

abbrev pub empty_run : ℕ → CatalogRun
empty_run total = record {
  catalog = record {
    entries = [];
    total_candidates = total;
    readable = 0;
    unreadable = 0;
    cancelled = false;
  };
  reports = [];
}

unfoldable pub read_catalog :
    (List Partition → List Partition) → Device → ScanResult → Bool → (ℕ → Bool) → CatalogRun
read_catalog sort device scan has_callback stop =
    let partitions = sort (candidates scan.partitions) in
    catalog_loop device has_callback stop partitions (empty_run (length partitions))
