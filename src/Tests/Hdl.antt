-- ===== src/Tests/Hdl.antt =====
-- A disk with one installed game, and the catalog of its scan.
use ps2_driveforge.Base.{ℕ, ◌≡◌, refl, true, false, List, [], ◌∷◌, ◌++◌, none, length, arith}
use ps2_driveforge.Base.Bytes.{codes, load_u16, load_u32, load_u16_le, load_u32_le, word_total}
use ps2_driveforge.Base.Spans.{span}
use ps2_driveforge.Device.{Device}
use ps2_driveforge.Apa.Header.{
  Partition, decode_header, decode_subs, is_sub, until_nul, partition_id, size_bytes, range_fits,
}
use ps2_driveforge.Apa.Scan.{ScanResult, make_partition, total_with_subs, used_subs, no_result}
use ps2_driveforge.Hdl.Game.{
  read_c_string, media_of, sum_units, start_game, finish_game, parse_game, locate_metadata,
  read_metadata_of, read_game_info,
}
use ps2_driveforge.Hdl.StoredGame.{
  HasRoom, IsGame, described, read_game_info-IsGame, read_game_info-described,
}
use ps2_driveforge.Hdl.GameErrors.{Reports, read_game_info-Reports}
use ps2_driveforge.Hdl.Catalog.{candidates, add_game, cancel, catalog_loop, empty_run, read_catalog}
use ps2_driveforge.Hdl.CatalogRead.{Reads, read_catalog-Reads}
use ps2_driveforge.Hdl.CatalogOrder.{IsCatalog, read_catalog-IsCatalog}
use ps2_driveforge.Tests.Disk.{disk, le, zeros}
use ps2_driveforge.Tests.Sort.{insert, insertion_sort, insertion_sort-Sorts}

unfoldable pub program : Unit {0}
unfolding disk le span load_u16 load_u32 load_u16_le load_u32_le word_total decode_header
    decode_subs is_sub until_nul partition_id size_bytes range_fits make_partition total_with_subs
    used_subs read_c_string media_of sum_units start_game finish_game parse_game locate_metadata
    read_metadata_of read_game_info candidates add_game cancel catalog_loop read_catalog insert
    insertion_sort
program = tt

abbrev metadata : List ℕ
metadata =
    le 4 0xDEADFEED
    ++ zeros 4
    ++ codes "Game"
    ++ zeros 157
    ++ 1 ∷ []
    ++ le 2 4
    ++ codes "SLUS"
    ++ zeros 60
    ++ le 4 0x14
    ++ 1 ∷ []
    ++ zeros 12
    ++ le 4 1000
    ++ zeros 1279

abbrev pub drive : Device
drive = disk 0x101000 metadata

abbrev game_partition : Partition
game_partition = record (make_partition (decode_header [])) {
  type = 0x1337;
  length_sectors = 2059;
  total_sectors = 2059;
}

game_reads : (read_game_info drive game_partition).ok ≡ true
unfolding program
game_reads = refl

raw_size : (read_game_info drive game_partition).game.raw_size_bytes ≡ 256000
unfolding program
raw_size = refl

game_room : HasRoom drive game_partition
unfolding program
game_room = record {
  main = refl;
  typed = refl;
  in_extent = omega arith;
  addressable = omega arith;
  in_device = omega arith;
}

metadata-IsGame : IsGame drive game_partition metadata (codes "Game") (codes "SLUS")
unfolding program
metadata-IsGame = record {
  room = game_room;
  stored = refl;
  marked = refl;
  titled = record { short = omega arith; contents = refl; nonzero = ground arith; ended = refl };
  started = record { short = omega arith; contents = refl; nonzero = ground arith; ended = refl };
  some_parts = omega arith;
  few_parts = omega arith;
}

read_game_info-IsGame_example :
    (bytes : List ℕ) × (title : List ℕ) × (startup : List ℕ) × IsGame drive game_partition bytes
      title startup
read_game_info-IsGame_example = read_game_info-IsGame drive game_partition game_reads

read_game_info-described_example : read_game_info drive game_partition ≡ record {
  ok = true;
  error = none;
  game = described game_partition metadata (codes "Game") (codes "SLUS");
}
read_game_info-described_example =
    read_game_info-described drive game_partition metadata (codes "Game") (codes "SLUS")
      metadata-IsGame

read_game_info-Reports_example :
    Reports
      (record game_partition { type = 0x100 })
      (read_game_info drive (record game_partition { type = 0x100 }))
read_game_info-Reports_example =
    read_game_info-Reports drive (record game_partition { type = 0x100 })

-- two games, the second of which lies outside the disk and is listed first
abbrev pub two_games : ScanResult
two_games = record no_result {
  partitions = record game_partition { start_lba = 5000 } ∷ game_partition ∷ [];
}

one_readable : (read_catalog insertion_sort drive two_games true (λ n. false)).catalog.readable ≡ 1
unfolding program
one_readable = refl

read_catalog-Reads_example :
    Reads drive true
      (λ n. false)
      (insertion_sort (candidates two_games.partitions))
      (empty_run (length (insertion_sort (candidates two_games.partitions))))
      (read_catalog insertion_sort drive two_games true (λ n. false))
read_catalog-Reads_example = read_catalog-Reads insertion_sort drive two_games true (λ n. false)

read_catalog-IsCatalog_example :
    IsCatalog drive two_games
      (read_catalog insertion_sort drive two_games true (λ n. false)).catalog
read_catalog-IsCatalog_example =
    read_catalog-IsCatalog insertion_sort drive two_games true (λ n. false) insertion_sort-Sorts
      (λ n. refl)
