-- ===== src/Pfs/Metadata.antt =====
-- The metadata reads of `Reader` in core/pfs.cpp. A method that fails leaves its message in
-- `last_error_` and returns nothing: the result is the value, or the message.
use ps2_driveforge.Base.{
  ℕ, zero, suc, ◌+◌, ◌-◌, ◌*◌, ◌/◌, ◌%◌, ◌^◌, List, Bool, true, false, not, ◌&&◌, ◌||◌, Option, ltb,
  leb, ◌==◌, Result, ok, ◌>>=◌, ◌>>◌, fail_if, from_option,
}
use ps2_driveforge.Volume.{ApaVolume, read_sectors, extent_count}
use ps2_driveforge.Pfs.Types.{
  metadata_size, segd_magic, segi_magic, inode_max_blocks, BlockInfo, Inode, SegmentDescriptor,
  Node, decode_inode, decode_segment, inode_checksum, segment_checksum,
}
use ps2_driveforge.Pfs.Probe.{ProbeResult, probe}

-- one constructor for each text that `fail` is given
pub data Fault : Type 0 where
  invalid_filesystem : Fault
  inode_missing_sub inode_block_overflow inode_sector_overflow unreadable_inode : Fault
  bad_segd_magic inode_checksum_mismatch no_block_descriptors no_segi_chain : Fault
  null_segi segi_missing_sub segi_block_overflow segi_sector_overflow unreadable_segi : Fault
  bad_segi_magic segi_checksum_mismatch : Fault
  data_missing_sub outside_descriptor data_sector_overflow unreadable_sectors unreadable_sector :
      Fault
  outside_file indirect_before_segi empty_block extent_overflow not_enough_data
        segi_chain_too_long :
      Fault
  not_directory directory_too_large bad_allocation_length bad_name_length : Fault
  component_not_found : List ℕ → Fault
  -- no text of the source: the fuel of a loop ran out, which the theorems exclude
  stuck : Fault

pub record Reader : Type 0 where
  pub volume : ApaVolume
  pub probe_result : ProbeResult

-- the constructor that probes
unfoldable pub make_reader : ApaVolume → Reader
make_reader volume = record { volume = volume; probe_result = probe volume }

abbrev pub valid : Reader → Bool
valid r = r.probe_result.valid

abbrev pub zone_size : Reader → ℕ
zone_size r = r.probe_result.super.zone_size

abbrev pub num_subs : Reader → ℕ
num_subs r = r.probe_result.super.num_subs

-- `while (size < zone_size) { size <<= 1; ++scale; }`; 32 rounds are enough for a zone size that
-- the probe accepts
unfoldable pub scale_loop : ℕ → ℕ → ℕ → ℕ → ℕ
scale_loop zero zone_size size scale = scale
scale_loop (suc fuel) zone_size size scale = elim (ltb size zone_size) [
  | true ↦ scale_loop fuel zone_size ((size * 2) % 2 ^ 32) (scale + 1)
  | false ↦ scale
]

unfoldable pub inode_scale : Reader → ℕ
unfolding scale_loop
inode_scale r = scale_loop 32 (zone_size r) metadata_size 0

abbrev pub is_missing_sub : Reader → BlockInfo → Bool
is_missing_sub r location =
    ltb (num_subs r) location.subpart || leb (extent_count r.volume) location.subpart

abbrev pub sectors_per_metadata : ℕ
sectors_per_metadata = 2

abbrev pub u32_max : ℕ
u32_max = 2 ^ 32 - 1

-- `location.number << scale` in uint32_t, and the sector of that metadata block
unfoldable pub metadata_block : Reader → BlockInfo → ℕ
metadata_block r location = (location.number * 2 ^ inode_scale r) % 2 ^ 32

unfoldable pub metadata_sector : Reader → BlockInfo → ℕ
metadata_sector r location = metadata_block r location * sectors_per_metadata

unfoldable pub read_metadata : Reader → BlockInfo → Option (List ℕ)
read_metadata r location =
    read_sectors r.volume location.subpart (metadata_sector r location) sectors_per_metadata
      metadata_size

unfoldable pub check_inode : Inode → Result Fault (Unit {0})
check_inode inode = do
  fail_if (not (inode.magic == segd_magic)) bad_segd_magic
  fail_if (not (inode_checksum inode == inode.checksum)) inode_checksum_mismatch
  fail_if (inode.number_data == 0) no_block_descriptors
  fail_if (ltb inode_max_blocks inode.number_data && inode.next_segment.number == 0) no_segi_chain

unfoldable pub read_inode : Reader → BlockInfo → Result Fault Node
read_inode r location = do
  fail_if (not (valid r)) invalid_filesystem
  fail_if (is_missing_sub r location) inode_missing_sub
  fail_if (ltb (u32_max / 2 ^ inode_scale r) location.number) inode_block_overflow
  fail_if (ltb u32_max (metadata_sector r location)) inode_sector_overflow
  raw ← from_option unreadable_inode (read_metadata r location)
  check_inode (decode_inode raw)
  ok (record { location = location; inode = decode_inode raw })

unfoldable pub root : Reader → Result Fault Node
root r = do fail_if (not (valid r)) invalid_filesystem; read_inode r r.probe_result.super.root

unfoldable pub check_segment : SegmentDescriptor → Result Fault (Unit {0})
check_segment descriptor = do
  fail_if (not (descriptor.magic == segi_magic)) bad_segi_magic
  fail_if (not (segment_checksum descriptor == descriptor.checksum)) segi_checksum_mismatch

unfoldable pub read_segment_descriptor : Reader → BlockInfo → Result Fault SegmentDescriptor
read_segment_descriptor r location = do
  fail_if (location.number == 0) null_segi
  fail_if (is_missing_sub r location) segi_missing_sub
  fail_if (ltb (u32_max / 2 ^ inode_scale r) location.number) segi_block_overflow
  fail_if (ltb u32_max (metadata_sector r location)) segi_sector_overflow
  raw ← from_option unreadable_segi (read_metadata r location)
  check_segment (decode_segment raw)
  ok (decode_segment raw)
