-- ===== src/Pfs/Zone.antt =====
-- `Reader::read_zone_bytes` of core/pfs.cpp: any byte range of one block descriptor, by whole
-- sectors in batches of up to 128 and by single sectors at the edges.
-- The products and sums below are taken in uint64_t in the source; their operands are below 2 ^ 32
-- and 2 ^ 33, so they cannot wrap.
use ps2_driveforge.Base.{
  ℕ, zero, suc, ◌+◌, ◌-◌, ◌*◌, ◌/◌, ◌%◌, List, [], ◌++◌, Bool, ◌&&◌, ◌||◌, ltb, leb, ◌==◌,
  if◌then◌else◌, min, Result, ok, err, ◌>>=◌, ◌>>◌, fail_if, from_option,
}
use ps2_driveforge.Device.{slice}
use ps2_driveforge.Apa.Header.{sector_size}
use ps2_driveforge.Volume.{read_sectors}
use ps2_driveforge.Pfs.Types.{BlockInfo}
use ps2_driveforge.Pfs.Metadata.{
  Fault, stuck, data_missing_sub, outside_descriptor, data_sector_overflow, unreadable_sectors,
  unreadable_sector, Reader, zone_size, is_missing_sub, u32_max,
}

abbrev pub sectors_per_zone : Reader → ℕ
sectors_per_zone r = zone_size r / sector_size

abbrev pub base_sector : Reader → BlockInfo → ℕ
base_sector r block = block.number * sectors_per_zone r

-- the test for whole sectors
abbrev pub is_aligned : ℕ → ℕ → Bool
is_aligned byte_position remaining = byte_position % sector_size == 0 && leb sector_size remaining

abbrev pub batch : ℕ → ℕ
batch remaining = min (remaining / sector_size) 128

-- the bytes that one round of the loop delivers
unfoldable pub round_bytes : ℕ → ℕ → ℕ
round_bytes byte_position remaining =
    if is_aligned byte_position remaining
    then batch remaining * sector_size
    else min remaining (sector_size - byte_position % sector_size)

-- one round of the loop
unfoldable pub read_whole : Reader → BlockInfo → ℕ → ℕ → Result Fault (List ℕ)
read_whole r block byte_position remaining = do
  let sector64 = base_sector r block + byte_position / sector_size
  fail_if (ltb u32_max sector64) data_sector_overflow
  from_option unreadable_sectors (
      read_sectors r.volume block.subpart sector64 (batch remaining)
        (batch remaining * sector_size))

unfoldable pub read_edge : Reader → BlockInfo → ℕ → ℕ → Result Fault (List ℕ)
read_edge r block byte_position remaining = do
  let sector64 = base_sector r block + byte_position / sector_size
  fail_if (ltb u32_max sector64) unreadable_sector
  sector ←
      from_option unreadable_sector (read_sectors r.volume block.subpart sector64 1 sector_size)
  ok (
      slice sector (byte_position % sector_size)
        (min remaining (sector_size - byte_position % sector_size)))

unfoldable pub read_round : Reader → BlockInfo → ℕ → ℕ → Result Fault (List ℕ)
read_round r block byte_position remaining =
    if is_aligned byte_position remaining
    then read_whole r block byte_position remaining
    else read_edge r block byte_position remaining

-- `while (done < out.size())`, over the bytes that remain; a round delivers at least one byte, so
-- that fuel of the buffer's size is enough.
unfoldable pub zone_loop : ℕ → Reader → BlockInfo → ℕ → ℕ → Result Fault (List ℕ)
zone_loop fuel r block byte_position zero = ok []
zone_loop zero r block byte_position (suc n) = err stuck
zone_loop (suc fuel) r block byte_position (suc n) = do
  bytes ← read_round r block byte_position (suc n)
  let size = round_bytes byte_position (suc n)
  more ← zone_loop fuel r block (byte_position + size) (suc n - size)
  ok (bytes ++ more)

unfoldable pub read_zone_bytes : Reader → BlockInfo → ℕ → ℕ → Result Fault (List ℕ)
read_zone_bytes r block zone_offset size = do
  fail_if (is_missing_sub r block) data_missing_sub
  let segment_bytes = block.count * zone_size r
  fail_if (ltb segment_bytes zone_offset || ltb (segment_bytes - zone_offset) size)
      outside_descriptor
  zone_loop size r block zone_offset size
