-- ===== src/Pfs/Types.antt =====
-- The on-disk structures of include/ps2hdd/pfs.hpp, read at the offsets of their packed fields, and
-- the errors that `Reader` leaves in `last_error_`.
use ps2_driveforge.Base.{ℕ, zero, suc, ◌+◌, ◌*◌, List, [], ◌∷◌, Bool, ◌==◌}
use ps2_driveforge.Base.Bytes.{byte_at, load_u16, load_u32, load_u64, sum_words}
use ps2_driveforge.Device.{slice}
use Prim.Native.Nat.{bit_and}

abbrev pub super_magic : ℕ
super_magic = 0x50465300

abbrev pub journal_magic : ℕ
journal_magic = 0x5046534C

abbrev pub segd_magic : ℕ
segd_magic = 0x53454744

abbrev pub segi_magic : ℕ
segi_magic = 0x53454749

abbrev pub format_version : ℕ
format_version = 3

abbrev pub super_sector : ℕ
super_sector = 8192

abbrev pub super_backup_sector : ℕ
super_backup_sector = 8193

abbrev pub fsck_write_error : ℕ
fsck_write_error = 0x01

abbrev pub fsck_errors_fixed : ℕ
fsck_errors_fixed = 0x02

abbrev pub metadata_size : ℕ
metadata_size = 1024

abbrev pub inode_max_blocks : ℕ
inode_max_blocks = 114

abbrev pub indirect_max_blocks : ℕ
indirect_max_blocks = 123

abbrev pub mode_mask : ℕ
mode_mask = 0xF000

abbrev pub mode_directory : ℕ
mode_directory = 0x1000

abbrev pub mode_regular : ℕ
mode_regular = 0x2000

pub record BlockInfo : Type 0 where
  pub number : ℕ
  pub subpart : ℕ
  pub count : ℕ

abbrev pub no_block : BlockInfo
no_block = record { number = 0; subpart = 0; count = 0 }

pub record DateTime : Type 0 where
  pub unused : ℕ
  pub sec : ℕ
  pub min : ℕ
  pub hour : ℕ
  pub day : ℕ
  pub month : ℕ
  pub year : ℕ

-- `bytes` is what `memcmp` sees of the 40-byte structure
pub record SuperBlock : Type 0 where
  pub magic : ℕ
  pub version : ℕ
  pub modver : ℕ
  pub fsck_stat : ℕ
  pub zone_size : ℕ
  pub num_subs : ℕ
  pub log : BlockInfo
  pub root : BlockInfo
  pub bytes : List ℕ

-- `bytes` is the 1024-byte structure that the checksum runs over
pub record Inode : Type 0 where
  pub checksum : ℕ
  pub magic : ℕ
  pub inode_block : BlockInfo
  pub next_segment : BlockInfo
  pub last_segment : BlockInfo
  pub unused : BlockInfo
  pub blocks : List BlockInfo
  pub mode : ℕ
  pub attr : ℕ
  pub uid : ℕ
  pub gid : ℕ
  pub atime : DateTime
  pub ctime : DateTime
  pub mtime : DateTime
  pub size : ℕ
  pub number_blocks : ℕ
  pub number_data : ℕ
  pub number_segdesg : ℕ
  pub subpart : ℕ
  pub bytes : List ℕ

pub record SegmentDescriptor : Type 0 where
  pub checksum : ℕ
  pub magic : ℕ
  pub inode_block : BlockInfo
  pub next_segment : BlockInfo
  pub last_segment : BlockInfo
  pub unused : BlockInfo
  pub blocks : List BlockInfo
  pub bytes : List ℕ

abbrev decode_block : List ℕ → ℕ → BlockInfo
decode_block p i = record {
  number = load_u32 p i;
  subpart = load_u16 p (i + 4);
  count = load_u16 p (i + 6);
}

abbrev decode_time : List ℕ → ℕ → DateTime
decode_time p i = record {
  unused = byte_at p i;
  sec = byte_at p (i + 1);
  min = byte_at p (i + 2);
  hour = byte_at p (i + 3);
  day = byte_at p (i + 4);
  month = byte_at p (i + 5);
  year = load_u16 p (i + 6);
}

-- `n` entries of the `data` array from entry `i` on
unfoldable pub decode_blocks : List ℕ → ℕ → ℕ → List BlockInfo
decode_blocks p zero i = []
decode_blocks p (suc n) i = decode_block p (40 + 8 * i) ∷ decode_blocks p n (i + 1)

unfoldable pub decode_super : List ℕ → SuperBlock
decode_super p = record {
  magic = load_u32 p 0;
  version = load_u32 p 4;
  modver = load_u32 p 8;
  fsck_stat = load_u32 p 12;
  zone_size = load_u32 p 16;
  num_subs = load_u32 p 20;
  log = decode_block p 24;
  root = decode_block p 32;
  bytes = slice p 0 40;
}

unfoldable pub decode_inode : List ℕ → Inode
decode_inode p = record {
  checksum = load_u32 p 0;
  magic = load_u32 p 4;
  inode_block = decode_block p 8;
  next_segment = decode_block p 16;
  last_segment = decode_block p 24;
  unused = decode_block p 32;
  blocks = decode_blocks p inode_max_blocks 0;
  mode = load_u16 p 952;
  attr = load_u16 p 954;
  uid = load_u16 p 956;
  gid = load_u16 p 958;
  atime = decode_time p 960;
  ctime = decode_time p 968;
  mtime = decode_time p 976;
  size = load_u64 p 984;
  number_blocks = load_u32 p 992;
  number_data = load_u32 p 996;
  number_segdesg = load_u32 p 1000;
  subpart = load_u32 p 1004;
  bytes = p;
}

unfoldable pub decode_segment : List ℕ → SegmentDescriptor
decode_segment p = record {
  checksum = load_u32 p 0;
  magic = load_u32 p 4;
  inode_block = decode_block p 8;
  next_segment = decode_block p 16;
  last_segment = decode_block p 24;
  unused = decode_block p 32;
  blocks = decode_blocks p indirect_max_blocks 0;
  bytes = p;
}

-- the template over both 1024-byte structures
unfoldable pub metadata_checksum : List ℕ → ℕ
metadata_checksum bytes = sum_words load_u32 255 4 bytes 0

unfoldable pub inode_checksum : Inode → ℕ
inode_checksum inode = metadata_checksum inode.bytes

unfoldable pub segment_checksum : SegmentDescriptor → ℕ
segment_checksum descriptor = metadata_checksum descriptor.bytes

pub record DirectoryEntry : Type 0 where
  pub name : List ℕ
  pub inode : BlockInfo
  pub mode : ℕ

unfoldable pub is_directory : DirectoryEntry → Bool
is_directory e = bit_and e.mode mode_mask == mode_directory

unfoldable pub is_regular : DirectoryEntry → Bool
is_regular e = bit_and e.mode mode_mask == mode_regular

pub record Node : Type 0 where
  pub location : BlockInfo
  pub inode : Inode
