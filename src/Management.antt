-- ===== src/Management.antt =====
-- The table of a hard disk for the frontends: host/management_model.cpp and
-- include/ps2hdd/management_model.hpp. The messages of a failed game are its `GameError`.
pub mod Rows
pub mod Counts
pub mod Starts
pub mod Settled
use ps2_driveforge.Base.{
  ℕ, zero, suc, ◌+◌, ◌-◌, List, [], ◌∷◌, ◌++◌, length, Bool, true, false, not, ◌&&◌, ◌==◌, Option,
  none, some, if◌then◌else◌,
}
use ps2_driveforge.Hdl.Game.{GameError, GameInfo, GameResult}
use ps2_driveforge.Catalog.{PartitionCatalogKind, PartitionCatalogEntry, PartitionCatalog}

pub data EnrichmentState : Type 0 where
  not_applicable pending ready error : EnrichmentState

pub record ManagementRow : Type 0 where
  pub partition : PartitionCatalogEntry
  pub hdl_state : EnrichmentState
  pub hdl_game : Option GameInfo
  pub enrichment_error : Option GameError

pub record ManagementProgress : Type 0 where
  pub total_hdl : ℕ
  pub pending_hdl : ℕ
  pub ready_hdl : ℕ
  pub failed_hdl : ℕ

-- the map from the start of a partition to the index of its row is an association list
pub record ManagementModel : Type 0 where
  pub rows : List ManagementRow
  pub hdl_rows_by_lba : List (ℕ × ℕ)
  pub progress : ManagementProgress

abbrev pub empty_model : ManagementModel
empty_model = record {
  rows = [];
  hdl_rows_by_lba = [];
  progress = record { total_hdl = 0; pending_hdl = 0; ready_hdl = 0; failed_hdl = 0 };
}

-- `std::unordered_map::find`
unfoldable pub find_row : ℕ → List (ℕ × ℕ) → Option ℕ
find_row lba [] = none
find_row lba ((l, i) ∷ rest) = if l == lba then some i else find_row lba rest

-- `std::unordered_map::emplace`, which keeps the entry that is there
unfoldable pub emplace : ℕ → ℕ → List (ℕ × ℕ) → List (ℕ × ℕ)
emplace lba index rows = elim (find_row lba rows) [ none ↦ (lba, index) ∷ rows | some i ↦ rows ]

abbrev pub is_hdl_kind : PartitionCatalogKind → Bool
is_hdl_kind PartitionCatalogKind.hdl = true
is_hdl_kind PartitionCatalogKind.pfs = false
is_hdl_kind PartitionCatalogKind.mbr = false
is_hdl_kind PartitionCatalogKind.free_space = false
is_hdl_kind PartitionCatalogKind.other = false

abbrev pub make_row : PartitionCatalogEntry → EnrichmentState → ManagementRow
make_row partition state = record {
  partition = partition;
  hdl_state = state;
  hdl_game = none;
  enrichment_error = none;
}

-- one round of the loop of the constructor
unfoldable pub add_row : ManagementModel → PartitionCatalogEntry → ManagementModel
add_row m partition =
    if not partition.is_sub && is_hdl_kind partition.kind
    then record {
      rows = m.rows ++ make_row partition pending ∷ [];
      hdl_rows_by_lba = emplace partition.start_lba (length m.rows) m.hdl_rows_by_lba;
      progress = record m.progress {
        total_hdl = m.progress.total_hdl + 1;
        pending_hdl = m.progress.pending_hdl + 1;
      };
    }
    else record m { rows = m.rows ++ make_row partition not_applicable ∷ [] }

unfoldable pub add_rows : ManagementModel → List PartitionCatalogEntry → ManagementModel
add_rows m [] = m
add_rows m (partition ∷ rest) = add_rows (add_row m partition) rest

-- the constructor
unfoldable pub make_model : PartitionCatalog → ManagementModel
make_model catalog = add_rows empty_model catalog.entries

-- the state of a row; the source reads no row past the end
unfoldable pub state_at : ℕ → List ManagementRow → EnrichmentState
state_at i [] = not_applicable
state_at zero (row ∷ rows) = row.hdl_state
state_at (suc i) (row ∷ rows) = state_at i rows

unfoldable pub update_at :
    ℕ → (ManagementRow → ManagementRow) → List ManagementRow → List ManagementRow
update_at i f [] = []
update_at zero f (row ∷ rows) = f row ∷ rows
update_at (suc i) f (row ∷ rows) = row ∷ update_at i f rows

-- the decrements, none below 0
unfoldable pub uncount : EnrichmentState → ManagementProgress → ManagementProgress
uncount not_applicable p = p
uncount pending p =
    if not (p.pending_hdl == 0) then record p { pending_hdl = p.pending_hdl - 1 } else p
uncount ready p = if not (p.ready_hdl == 0) then record p { ready_hdl = p.ready_hdl - 1 } else p
uncount error p = if not (p.failed_hdl == 0) then record p { failed_hdl = p.failed_hdl - 1 } else p

unfoldable pub count_result : GameResult → ManagementProgress → ManagementProgress
count_result result p =
    if result.ok
    then record p { ready_hdl = p.ready_hdl + 1 }
    else record p { failed_hdl = p.failed_hdl + 1 }

unfoldable pub settle : GameResult → ManagementRow → ManagementRow
settle result row =
    if result.ok
    then record row { hdl_state = ready; hdl_game = some result.game; enrichment_error = none }
    else record row { hdl_state = error; hdl_game = none; enrichment_error = result.error }

unfoldable pub update_row : ManagementModel → GameResult → ℕ → ManagementModel
update_row m result index = record m {
  rows = update_at index (settle result) m.rows;
  progress = count_result result (uncount (state_at index m.rows) m.progress);
}

-- the index of the row that the result is for, where there is one, and the model after it
unfoldable pub apply_hdl_result : ManagementModel → GameResult → Option ℕ × ManagementModel
apply_hdl_result m result = elim (find_row result.game.start_lba m.hdl_rows_by_lba) [
  | none ↦ (none, m)
  | some index ↦ (some index, update_row m result index)
]

-- one result after the other
unfoldable pub apply_results : ManagementModel → List GameResult → ManagementModel
apply_results m [] = m
apply_results m (result ∷ rest) = apply_results (apply_hdl_result m result).1 rest
