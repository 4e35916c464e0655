-- ===== src/Hdl/Game.antt =====
-- `read_game_info` of core/hdl.cpp: one bounded read of the metadata of a game, and its checks. A
-- failed check returns the fields filled so far.
use ps2_driveforge.Base.{
  ℕ, zero, suc, ◌+◌, ◌-◌, ◌*◌, ◌/◌, ◌%◌, ◌^◌, List, [], ◌∷◌, Bool, true, false, not, ◌||◌, Option,
  some, none, String, ltb, leb, ◌==◌, if◌then◌else◌, min, Result, ok, err, ◌>>=◌, ◌>>◌, fail_if,
  from_option,
}
use ps2_driveforge.Base.Bytes.{byte_at, load_u16_le, load_u32_le}
use ps2_driveforge.Device.{Device}
use ps2_driveforge.Apa.Header.{Partition, is_sub, size_bytes, range_fits, sector_size, type_hdl}

abbrev pub metadata_offset : ℕ
metadata_offset = 0x101000

abbrev pub metadata_bytes : ℕ
metadata_bytes = 1536

abbrev pub game_magic : ℕ
game_magic = 0xDEADFEED

abbrev pub title_offset : ℕ
title_offset = 0x0008

abbrev pub title_storage : ℕ
title_storage = 65

abbrev pub compat_offset : ℕ
compat_offset = 0x00A9

abbrev pub dma_offset : ℕ
dma_offset = 0x00AA

abbrev pub startup_offset : ℕ
startup_offset = 0x00AC

abbrev pub startup_storage : ℕ
startup_storage = 13

abbrev pub layer_break_offset : ℕ
layer_break_offset = 0x00E8

abbrev pub media_offset : ℕ
media_offset = 0x00EC

abbrev pub part_count_offset : ℕ
part_count_offset = 0x00F0

abbrev pub alloc_table_offset : ℕ
alloc_table_offset = 0x00F5

abbrev pub alloc_entry_bytes : ℕ
alloc_entry_bytes = 12

abbrev pub max_allocation_entries : ℕ
max_allocation_entries = 65

pub data MediaType : Type 0 where
  unknown_media cd dvd : MediaType

unfoldable pub media_type_name : MediaType → String
media_type_name cd = "CD"
media_type_name dvd = "DVD"
media_type_name unknown_media = "unknown"

-- one constructor for each text of `GameResult::error`
pub data GameError : Type 0 where
  not_hdl_main outside_main_extent offset_overflow outside_device unreadable_metadata : GameError
  bad_game_magic unterminated_title unterminated_startup bad_part_count raw_size_overflow :
      GameError

unfoldable pub game_error_text : GameError → String
game_error_text not_hdl_main = "APA partition is not an HDL main partition"
game_error_text outside_main_extent = "HDL metadata header does not fit inside the main APA extent"
game_error_text offset_overflow = "HDL metadata offset overflows host address space"
game_error_text outside_device = "HDL metadata header extends outside the backing device"
game_error_text unreadable_metadata = "Could not read HDL metadata header"
game_error_text bad_game_magic = "HDL metadata magic 0xDEADFEED is missing"
game_error_text unterminated_title = "HDL title is not NUL-terminated within the format limit"
game_error_text unterminated_startup =
    "HDL startup ID is not NUL-terminated within the format limit"
game_error_text bad_part_count = "HDL allocation-table part count is outside 1..65"
game_error_text raw_size_overflow = "HDL raw-size calculation overflows"

pub record GameInfo : Type 0 where
  pub partition_id : List ℕ
  pub title : List ℕ
  pub startup : List ℕ
  pub start_lba : ℕ
  pub compat_flags : ℕ
  pub dma : ℕ
  pub layer_break : ℕ
  pub media : MediaType
  pub declared_parts : ℕ
  pub raw_size_bytes : ℕ
  pub allocated_size_bytes : ℕ
  pub allocation_table_consistent : Bool

-- `error` is empty where nothing was reported
pub record GameResult : Type 0 where
  pub ok : Bool
  pub error : Option GameError
  pub game : GameInfo

-- the string at offset `i` and whether it ended, `n` bytes of storage being left
unfoldable pub read_c_string : List ℕ → ℕ → ℕ → List ℕ × Bool
read_c_string p zero i = ([], false)
read_c_string p (suc n) i =
    let rest = read_c_string p n (i + 1) in
    if byte_at p i == 0 then ([], true) else (byte_at p i ∷ rest.0, rest.1)

abbrev pub title_of : List ℕ → List ℕ × Bool
title_of bytes = read_c_string bytes title_storage title_offset

abbrev pub startup_of : List ℕ → List ℕ × Bool
startup_of bytes = read_c_string bytes startup_storage startup_offset

abbrev pub declared_of : List ℕ → ℕ
declared_of bytes = byte_at bytes part_count_offset

unfoldable pub media_of : ℕ → MediaType
media_of media = if media == 0x14 then dvd else if media == 0x12 then cd else unknown_media

-- the loop over the entries `i`, `i + 1`, ... of the allocation table, `n` of them
unfoldable pub sum_units : List ℕ → ℕ → ℕ → ℕ → ℕ
sum_units bytes zero i raw_units = raw_units
sum_units bytes (suc n) i raw_units =
    sum_units bytes n (i + 1)
      ((raw_units + load_u32_le bytes (alloc_table_offset + i * alloc_entry_bytes + 8)) % 2 ^ 64)

abbrev pub raw_units_of : List ℕ → ℕ
raw_units_of bytes = sum_units bytes (declared_of bytes) 0 0

unfoldable pub start_game : Partition → GameInfo
start_game partition = record {
  partition_id = partition.id;
  title = [];
  startup = [];
  start_lba = partition.start_lba;
  compat_flags = 0;
  dma = 0;
  layer_break = 0;
  media = unknown_media;
  declared_parts = 0;
  raw_size_bytes = 0;
  allocated_size_bytes = size_bytes partition;
  allocation_table_consistent = false;
}

abbrev pub failed : GameInfo → GameError → GameResult
failed game error = record { ok = false; error = some error; game = game }

-- the fields between the startup ID and the allocation table
abbrev pub with_fields : GameInfo → List ℕ → GameInfo
with_fields game bytes = record game {
  compat_flags = byte_at bytes compat_offset;
  dma = load_u16_le bytes dma_offset;
  layer_break = load_u32_le bytes layer_break_offset;
  media = media_of (load_u32_le bytes media_offset);
  declared_parts = declared_of bytes;
}

-- the sum of the allocation table, and the count that the partition suggests
unfoldable pub finish_game : Partition → GameInfo → List ℕ → GameResult
finish_game partition game bytes =
    if leb (raw_units_of bytes) ((2 ^ 64 - 1) / 256)
    then record {
      ok = true;
      error = none;
      game = record game {
        raw_size_bytes = (raw_units_of bytes * 256) % 2 ^ 64;
        allocation_table_consistent =
            declared_of bytes == min ((partition.sub_count + 1) % 2 ^ 32) max_allocation_entries;
      };
    }
    else failed game raw_size_overflow

unfoldable pub parse_game : Partition → List ℕ → GameResult
parse_game partition bytes =
    let game = start_game partition in
    let titled = record game { title = (title_of bytes).0 } in
    let started = record titled { startup = (startup_of bytes).0 } in
    let filled = with_fields started bytes in
    if not (load_u32_le bytes 0 == game_magic)
    then failed game bad_game_magic
    else if not (title_of bytes).1
    then failed titled unterminated_title
    else if not (startup_of bytes).1
    then failed started unterminated_startup
    else if declared_of bytes == 0 || ltb max_allocation_entries (declared_of bytes)
    then failed filled bad_part_count
    else finish_game partition filled bytes

-- where the metadata stands, once it is known to fit
unfoldable pub locate_metadata : Device → Partition → Result GameError ℕ
locate_metadata device partition = do
  fail_if (is_sub partition || not (partition.type == type_hdl)) not_hdl_main
  fail_if (not (range_fits metadata_offset metadata_bytes (partition.length_sectors * sector_size)))
      outside_main_extent
  let partition_offset = partition.start_lba * sector_size
  fail_if (ltb (2 ^ 64 - 1 - metadata_offset) partition_offset) offset_overflow
  fail_if (not (range_fits (partition_offset + metadata_offset) metadata_bytes device.size_bytes))
      outside_device
  ok (partition_offset + metadata_offset)

unfoldable pub read_metadata_of : Device → Partition → Result GameError (List ℕ)
read_metadata_of device partition = do
  offset ← locate_metadata device partition
  from_option unreadable_metadata (device.read offset metadata_bytes)

unfoldable pub read_game_info : Device → Partition → GameResult
read_game_info device partition = elim (read_metadata_of device partition) [
  | err e ↦ failed (start_game partition) e
  | ok bytes ↦ parse_game partition bytes
]
