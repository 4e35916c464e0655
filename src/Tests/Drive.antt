-- ===== src/Tests/Drive.antt =====
-- A disk with a partition "SAVES": its root directory holds the file "save" of five bytes.
use ps2_driveforge.Base.{ℕ, ◌*◌, ◌≡◌, refl, true, false, List, [], ◌∷◌, ◌++◌, ok, err}
use ps2_driveforge.Base.Bytes.{codes, load_u16, load_u32, load_u64, bytes_eq, sum_words}
use ps2_driveforge.Apa.Header.{
  Partition, decode_header, decode_subs, is_sub, until_nul, partition_id,
}
use ps2_driveforge.Apa.Scan.{ScanResult, make_partition, total_with_subs, used_subs}
use ps2_driveforge.Device.{Device}
use ps2_driveforge.Volume.{ApaVolume, make_volume, read_extent, read_sectors}
use ps2_driveforge.Pfs.Types.{
  BlockInfo, Node, DirectoryEntry, decode_blocks, decode_super, decode_inode, metadata_checksum,
  inode_checksum,
}
use ps2_driveforge.Pfs.Probe.{valid_zone_size, read_super, check_super, accept, probe_super, probe}
use ps2_driveforge.Pfs.Metadata.{
  not_directory, Reader, scale_loop, inode_scale, metadata_block, metadata_sector, read_metadata,
  check_inode, read_inode, root,
}
use ps2_driveforge.Pfs.Zone.{
  round_bytes, read_whole, read_edge, read_round, zone_loop, read_zone_bytes,
}
use ps2_driveforge.Pfs.File.{
  pick_indirect, pick_block, can_merge, add_run, take_block, take_picked, walk, read_runs,
  reverse_onto, read_range, read,
}
use ps2_driveforge.Pfs.Directory.{
  wanted, decode_entry, entry_at, check_entry, parse_entries, list_directory,
}
use ps2_driveforge.Session.State.{find_partition, select_partition, check_reader}
use ps2_driveforge.Session.Fresh.{open_fresh}
use ps2_driveforge.Tests.Disk.{disk, le, zeros}

unfoldable pub program : Unit {0}
unfolding disk le load_u16 load_u32 load_u64 bytes_eq sum_words decode_header decode_subs is_sub
    until_nul partition_id make_partition total_with_subs used_subs make_volume read_extent
    read_sectors decode_blocks decode_super decode_inode metadata_checksum inode_checksum
    valid_zone_size read_super check_super accept probe_super probe scale_loop inode_scale
    metadata_block metadata_sector read_metadata check_inode read_inode root round_bytes read_whole
    read_edge read_round zone_loop read_zone_bytes pick_indirect pick_block can_merge add_run
    take_block take_picked walk read_runs reverse_onto read_range read wanted decode_entry entry_at
    check_entry parse_entries list_directory find_partition select_partition check_reader open_fresh
program = tt

abbrev pub saves : Partition
saves = record (make_partition (decode_header [])) {
  id = codes "SAVES";
  type = 0x100;
  length_sectors = 8212;
}

abbrev super_bytes : List ℕ
super_bytes =
    le 4 0x50465300
    ++ le 4 3
    ++ zeros 8
    ++ le 4 2048
    ++ zeros 4
    ++ zeros 8
    ++ le 4 2049
    ++ zeros 476

-- an inode with one block of data
abbrev inode_bytes : ℕ → ℕ → ℕ → ℕ → List ℕ
inode_bytes checksum block mode size =
    le 4 checksum
    ++ le 4 0x53454744
    ++ zeros 40
    ++ le 4 block
    ++ 0 ∷ 0 ∷ 1 ∷ 0 ∷ zeros 896
    ++ le 2 mode
    ++ zeros 30
    ++ le 8 size
    ++ zeros 4
    ++ le 4 2
    ++ zeros 24

abbrev directory_bytes : List ℕ
directory_bytes = le 4 2051 ++ 0 ∷ 4 ∷ le 2 0x2200 ++ codes "save" ++ zeros 500

abbrev tail : List ℕ
tail =
    super_bytes
    ++ zeros 1536
    ++ inode_bytes 1397121352 2050 0x1000 512
    ++ zeros 1024
    ++ directory_bytes
    ++ zeros 1536
    ++ inode_bytes 1397124943 2052 0x2000 5
    ++ zeros 1024
    ++ codes "hello"
    ++ zeros 2043

abbrev pub device : Device
device = disk (8192 * 512) tail

abbrev pub scan : ScanResult
scan = record { mbr_valid = true; apa_version = 2; partitions = saves ∷ []; issues = [] }

abbrev volume : ApaVolume
volume = make_volume device saves

abbrev pub reader : Reader
reader = record { volume = volume; probe_result = probe volume }

pub opens : open_fresh device scan (codes "SAVES") ≡ ok reader
unfolding program
opens = refl

abbrev root_place : BlockInfo
root_place = record { number = 2049; subpart = 0; count = 0 }

abbrev file_place : BlockInfo
file_place = record { number = 2051; subpart = 0; count = 1 }

abbrev pub root_node : Node
root_node = record {
  location = root_place;
  inode = decode_inode (inode_bytes 1397121352 2050 0x1000 512);
}

abbrev pub file_node : Node
file_node = record {
  location = file_place;
  inode = decode_inode (inode_bytes 1397124943 2052 0x2000 5);
}

abbrev pub entry : DirectoryEntry
entry = record { name = codes "save"; inode = file_place; mode = 0x2000 }

pub root_read : root reader ≡ ok root_node
unfolding program
root_read = refl

pub file_read : read_inode reader file_place ≡ ok file_node
unfolding program
file_read = refl

pub root_listed : list_directory reader root_node true ≡ ok (entry ∷ [])
unfolding program
root_listed = refl

pub root_shown : list_directory reader root_node false ≡ ok (entry ∷ [])
unfolding program
root_shown = refl

pub file_listed : list_directory reader file_node true ≡ err not_directory
unfolding program
file_listed = refl

pub file_shown : list_directory reader file_node false ≡ err not_directory
unfolding program
file_shown = refl
