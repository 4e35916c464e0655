-- ===== src/Tests/Pfs.antt =====
-- A PFS volume of 2 KiB zones with a file of two zones, on a disk whose first 8192 sectors cannot be read.
use ps2_driveforge.Base.{
  ℕ, ◌≡◌, ◌≤◌, ◌<◌, ◌↔◌, ◌⊎◌, inl, refl, true, false, List, [], ◌∷◌, ◌++◌, length, ◌+◌, ◌*◌, ◌/◌,
  ◌^◌, arith, ok,
}
use ps2_driveforge.Base.Bytes.{codes, load_u16, load_u32, load_u64, bytes_eq}
use ps2_driveforge.Base.Spans.{span}
use ps2_driveforge.Device.{Mirrors}
use ps2_driveforge.Apa.Header.{
  Partition, decode_header, decode_subs, is_sub, until_nul, partition_id,
}
use ps2_driveforge.Apa.Scan.{make_partition, total_with_subs, used_subs}
use ps2_driveforge.Volume.{ApaVolume, make_volume, read_extent, read_sectors}
use ps2_driveforge.Pfs.Types.{BlockInfo, Node, decode_blocks, decode_super, decode_inode, no_block}
use ps2_driveforge.Pfs.Probe.{valid_zone_size, read_super, check_super, accept, probe_super, probe}
use ps2_driveforge.Pfs.Metadata.{
  Reader, valid, make_reader, scale_loop, inode_scale, metadata_block, metadata_sector, zone_size,
  u32_max,
}
use ps2_driveforge.Pfs.Zone.{
  round_bytes, read_whole, read_edge, read_round, zone_loop, read_zone_bytes,
}
use ps2_driveforge.Pfs.File.{
  pick_indirect, pick_block, can_merge, add_run, take_block, take_picked, walk, read_runs,
  reverse_onto, read_range, read,
}
use ps2_driveforge.Pfs.Contents.{blocks_from, file_blocks, file_byte, total_size}
use ps2_driveforge.Pfs.ZoneSize.{ZoneSize, valid_zone_size_iff}
use ps2_driveforge.Pfs.Addressing.{metadata_sector_shift}
use ps2_driveforge.Pfs.Accepts.{IsMountable, IsProbed, probe_iff, probe_reports}
use ps2_driveforge.Pfs.ZoneRead.{block_byte, read_zone_bytes_exact}
use ps2_driveforge.Pfs.ZoneTotal.{IsPlaced, read_zone_bytes_succeeds}
use ps2_driveforge.Pfs.ReadTotal.{IsIntact, read_succeeds}
use ps2_driveforge.Pfs.FileRead.{read_exact}
use ps2_driveforge.Tests.Disk.{disk, image_of, disk-Mirrors, disk-IsReliable, le, zeros}

program : Unit {0}
unfolding disk le load_u16 load_u32 load_u64 bytes_eq decode_header decode_subs is_sub until_nul
    partition_id make_partition total_with_subs used_subs make_volume read_extent read_sectors
    decode_blocks decode_super decode_inode valid_zone_size read_super check_super accept
    probe_super probe make_reader scale_loop inode_scale metadata_block metadata_sector round_bytes
    read_whole read_edge read_round zone_loop read_zone_bytes pick_indirect pick_block can_merge
    add_run take_block take_picked walk read_runs reverse_onto read_range read blocks_from
program = tt

abbrev partition : Partition
partition = record (make_partition (decode_header [])) { type = 0x100; length_sectors = 8208 }

abbrev super_bytes : List ℕ
super_bytes = le 4 0x50465300 ++ le 4 3 ++ zeros 8 ++ le 4 2048 ++ zeros 492

abbrev file_bytes : List ℕ
file_bytes = zeros 2046 ++ codes "zones!" ++ zeros 2044

abbrev tail : List ℕ
tail = super_bytes ++ zeros 3584 ++ file_bytes

abbrev pad : ℕ
pad = 8192 * 512

abbrev volume : ApaVolume
volume = make_volume (disk pad tail) partition

abbrev reader : Reader
reader = make_reader volume

abbrev first : BlockInfo
first = record { number = 2050; subpart = 0; count = 1 }

abbrev second : BlockInfo
second = record { number = 2051; subpart = 0; count = 1 }

abbrev node : Node
node = record {
  location = no_block;
  inode = record (decode_inode []) {
    blocks = no_block ∷ first ∷ second ∷ [];
    number_data = 3;
    size = 4096;
  };
}

reads : read reader node 2045 5 ≡ ok (0 ∷ codes "zone")
unfolding program
reads = refl

two_blocks : file_blocks reader node.inode ≡ ok (first ∷ second ∷ [])
unfolding program
two_blocks = refl

reader-IsProbed : IsProbed reader
unfolding program
reader-IsProbed = refl

reader-Mirrors : Mirrors reader.volume.device (image_of pad tail)
unfolding make_volume make_reader
reader-Mirrors = disk-Mirrors pad tail

read_exact_example :
    (0 ∷ codes "zone" ≡ span (file_byte reader (image_of pad tail) (first ∷ second ∷ [])) 2045 5)
    × (2045 + 5 ≤ node.inode.size)
read_exact_example =
    read_exact reader (image_of pad tail) node (first ∷ second ∷ []) 2045 5 (0 ∷ codes "zone")
      reader-IsProbed reader-Mirrors two_blocks reads

zone_read : read_zone_bytes reader first 1530 518 ≡ ok (zeros 516 ++ codes "zo")
unfolding program
zone_read = refl

read_zone_bytes_exact_example :
    (zeros 516 ++ codes "zo" ≡ span (block_byte reader (image_of pad tail) first) 1530 518)
    × (1530 + 518 ≤ first.count * zone_size reader)
read_zone_bytes_exact_example =
    read_zone_bytes_exact reader (image_of pad tail) reader-Mirrors first 1530 518
      (zeros 516 ++ codes "zo") zone_read

reader-ZoneSize : ZoneSize (zone_size reader)
unfolding program
reader-ZoneSize = (valid_zone_size_iff 2048).0 refl

second_small : second.number ≤ u32_max / 2 ^ inode_scale reader
unfolding program
second_small = omega arith

metadata_sector_shift_example :
    (1024 * 2 ^ inode_scale reader ≡ zone_size reader)
    × (metadata_sector reader second ≡ 2051 * 2 ^ inode_scale reader * 2)
    × (2051 * 2 ^ inode_scale reader < 2 ^ 32)
metadata_sector_shift_example = metadata_sector_shift reader second reader-ZoneSize second_small

probe_iff_example :
    ((probe volume).valid ≡ true) ↔ ((m : IsMountable volume) × ((probe volume).super ≡ m.super))
probe_iff_example = probe_iff volume

probe_reports_example :
    (((probe volume).valid ≡ true) × (length (probe volume).errors ≡ 0))
    ⊎ (((probe volume).valid ≡ false) × (length (probe volume).errors ≡ 1))
probe_reports_example = probe_reports volume

-- a small volume whose superblock was read before
abbrev small : Reader
small = record {
  volume = make_volume (disk 0 file_bytes) (record partition { length_sectors = 8 });
  probe_result = record reader.probe_result { valid = true };
}

small-IsPlaced : IsPlaced small (record { number = 0; subpart = 0; count = 2 })
unfolding program
small-IsPlaced = record {
  extent = record { start_lba = 0; length_sectors = 8 };
  selected = refl;
  registered = omega arith;
  inside = omega arith;
  word = omega arith;
  fits = omega arith;
  small = omega arith;
  reliable = disk-IsReliable file_bytes;
}

small-ZoneSize : ZoneSize (zone_size small)
small-ZoneSize = reader-ZoneSize

four_kilobytes : 1000 + 3096 ≤ 2 * zone_size small
unfolding program
four_kilobytes = omega arith

read_zone_bytes_succeeds_example :
    (bytes : List ℕ) × (read_zone_bytes small
        (record { number = 0; subpart = 0; count = 2 })
        1000
        3096
      ≡ ok bytes)
read_zone_bytes_succeeds_example =
    read_zone_bytes_succeeds small (record { number = 0; subpart = 0; count = 2 }) small-ZoneSize
      small-IsPlaced 1000 3096 four_kilobytes

abbrev both : BlockInfo
both = record { number = 0; subpart = 0; count = 2 }

abbrev small_node : Node
small_node = record {
  location = no_block;
  inode = record (decode_inode []) { blocks = no_block ∷ both ∷ []; number_data = 2; size = 4096 };
}

small-IsIntact : IsIntact small small_node.inode (both ∷ [])
unfolding program total_size
small-IsIntact = record {
  listed = refl;
  sound = (record { some_zones = omega arith; placed = small-IsPlaced }, tt);
  small = omega arith;
  covered = omega arith;
  segments = inl refl;
}

small-valid : valid small ≡ true
unfolding program
small-valid = refl

read_succeeds_example : (bytes : List ℕ) × (read small small_node 2045 5 ≡ ok bytes)
read_succeeds_example =
    read_succeeds small small_node (both ∷ []) 2045 5 small-ZoneSize small-valid small-IsIntact
      (omega arith)
