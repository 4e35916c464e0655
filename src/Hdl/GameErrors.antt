-- ===== src/Hdl/GameErrors.antt =====
-- What `read_game_info` of core/hdl.cpp reports on each of its branches.
use ps2_driveforge.Base.{
  ℕ, ◌≡◌, ◌≢◌, refl, ap, ◌∙◌, ◌⊎◌, inl, inr, List, true, false, some, none, arith, err,
  Result-cases,
}
use ps2_driveforge.Device.{Device}
use ps2_driveforge.Apa.Header.{Partition}
use ps2_driveforge.Hdl.Game.{
  GameError, raw_size_overflow, GameResult, start_game, finish_game, parse_game, locate_metadata,
  read_metadata_of, read_game_info, failed,
}
use ps2_driveforge.Hdl.StoredGame.{raw_units-small}

-- what a result says of a partition, whether the game was read or not
pub record Reports (partition : Partition) (r : GameResult) : Type 0 where
  pub outcome : ((r.ok ≡ true) × (r.error ≡ none)) ⊎ ((r.ok ≡ false) × (r.error ≢ none))
  pub no_overflow : r.error ≢ some raw_size_overflow
  pub lba : r.game.start_lba ≡ partition.start_lba
  pub id : r.game.partition_id ≡ partition.id

failed-Reports :
    (partition : Partition) (e : GameError)
    → e ≢ raw_size_overflow
    → Reports partition (failed (start_game partition) e)
unfolding start_game
failed-Reports partition e h = record {
  outcome = inr (refl, λ k. cc);
  no_overflow = λ k. h (cc k);
  lba = refl;
  id = refl;
}

parse_game-Reports :
    (partition : Partition) (bytes : List ℕ) → Reports partition (parse_game partition bytes)
unfolding parse_game finish_game start_game
parse_game-Reports partition bytes =
    let small = raw_units-small bytes in
    record {
      outcome = ground arith;
      no_overflow = ground arith;
      lba = ground arith;
      id = ground arith;
    }

read_metadata_of-ne :
    (device : Device) (partition : Partition)
    → read_metadata_of device partition ≢ err raw_size_overflow
unfolding read_metadata_of locate_metadata
read_metadata_of-ne device partition h = ground arith

-- A game is read, or an error is reported, never both; the identity of the partition is filled in
-- on every branch; and the overflow of the raw size is never reported.
pub read_game_info-Reports :
    (device : Device) (partition : Partition) → Reports partition (read_game_info device partition)
unfolding read_game_info
read_game_info-Reports device partition = elim (Result-cases (read_metadata_of device partition)) [
  | inr (e, bad) ↦
      rw (bad, read_game_info)
        (failed-Reports partition e λ q. read_metadata_of-ne device partition (bad ∙ ap err q))
  | inl (bytes, found) ↦ rw (found, read_game_info) (parse_game-Reports partition bytes)
]
