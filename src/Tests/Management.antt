-- ===== src/Tests/Management.antt =====
-- A table of two games and a file system.
use ps2_driveforge.Base.{
  ℕ, ◌≡◌, ◌≢◌, refl, true, false, none, some, Bool, List, [], ◌∷◌, All, arith, if◌then◌else◌,
}
use ps2_driveforge.Base.Bytes.{codes}
use ps2_driveforge.Hdl.Game.{GameResult, dvd, bad_game_magic}
use ps2_driveforge.Catalog.{
  PartitionCatalogKind, PartitionCatalogEntry, PartitionCatalog, empty_catalog,
}
use ps2_driveforge.Management.{
  ManagementRow, pending, find_row, emplace, add_row, add_rows, make_model, state_at, update_at,
  uncount, count_result, settle, update_row, apply_hdl_result, apply_results,
}
use ps2_driveforge.Management.Counts.{IsConsistent, apply_results-IsConsistent}
use ps2_driveforge.Management.Starts.{hdl_starts, IsDistinct, has_result}
use ps2_driveforge.Management.Settled.{apply_results-settled}

program : Unit {0}
unfolding find_row emplace add_row add_rows make_model state_at update_at uncount count_result
    settle update_row apply_hdl_result apply_results hdl_starts
program = tt

abbrev entry : PartitionCatalogKind → ℕ → PartitionCatalogEntry
entry kind start_lba = record {
  id = codes "PP.GAME";
  kind = kind;
  raw_type = 0x1337;
  flags = 0;
  start_lba = start_lba;
  main_lba = 0;
  number = 0;
  sub_count = 0;
  size_bytes = 4194304;
  is_sub = false;
}

abbrev catalog : PartitionCatalog
catalog = record empty_catalog {
  entries =
      entry PartitionCatalogKind.hdl 8192
      ∷ entry PartitionCatalogKind.pfs 16384
      ∷ entry PartitionCatalogKind.hdl 32768
      ∷ [];
}

abbrev result : Bool → ℕ → GameResult
result good start_lba = record {
  ok = good;
  error = if good then none else some bad_game_magic;
  game = record {
    partition_id = codes "PP.GAME";
    title = codes "Game";
    startup = codes "SLUS";
    start_lba = start_lba;
    compat_flags = 0;
    dma = 0;
    layer_break = 0;
    media = dvd;
    declared_parts = 1;
    raw_size_bytes = 4194304;
    allocated_size_bytes = 4194304;
    allocation_table_consistent = true;
  };
}

-- the second game is read again, and a game of another disk comes between
abbrev results : List GameResult
results = result false 32768 ∷ result true 5 ∷ result true 8192 ∷ result true 32768 ∷ []

both_ready : (apply_results (make_model catalog) results).progress.ready_hdl ≡ 2
unfolding program
both_ready = refl

first_failed : (apply_hdl_result (make_model catalog) (result false 32768)).0 ≡ some 2
unfolding program
first_failed = refl

apply_results-IsConsistent_example : IsConsistent (apply_results (make_model catalog) results)
apply_results-IsConsistent_example = apply_results-IsConsistent catalog results

starts-IsDistinct : IsDistinct (hdl_starts catalog.entries)
unfolding program
starts-IsDistinct = ((λ e. absurd (omega (arith, e)), tt), (tt, tt))

starts_answered : All (λ (lba : ℕ). has_result results lba ≡ true) (hdl_starts catalog.entries)
unfolding program
starts_answered = (refl, (refl, tt))

apply_results-settled_example :
    All
      (λ (row : ManagementRow). row.hdl_state ≢ pending)
      (apply_results (make_model catalog) results).rows
    × ((apply_results (make_model catalog) results).progress.pending_hdl ≡ 0)
apply_results-settled_example =
    apply_results-settled catalog results starts-IsDistinct starts_answered
