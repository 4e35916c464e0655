-- ===== src/Apa/Header.antt =====
-- The on-disk structures of include/ps2hdd/apa.hpp and the functions on one header of
-- core/apa.cpp. A packed struct is read at the offsets of its fields; `bytes` is what
-- `std::as_bytes` sees of it.
use ps2_driveforge.Base.{
  ℕ, zero, suc, ◌+◌, ◌-◌, ◌*◌, ◌%◌, ◌^◌, Bool, true, false, ◌&&◌, Option, none, List, [], ◌∷◌,
  String, take, leb, ◌==◌, if◌then◌else◌,
}
use ps2_driveforge.Base.Bytes.{byte_at, load_u16, load_u32, load_u32_le, sum_words, codes, bytes_eq}
use ps2_driveforge.Device.{Device, slice}
use Prim.Native.Nat.{bit_and}
use mathlib.Core.Option

abbrev pub magic : ℕ
magic = 0x00415041

abbrev pub sector_size : ℕ
sector_size = 512

abbrev pub header_size : ℕ
header_size = 1024

abbrev pub id_max : ℕ
id_max = 32

abbrev pub pass_max : ℕ
pass_max = 8

abbrev pub max_sub : ℕ
max_sub = 64

abbrev pub flag_sub : ℕ
flag_sub = 0x0001

abbrev pub type_free : ℕ
type_free = 0x0000

abbrev pub type_mbr : ℕ
type_mbr = 0x0001

abbrev pub type_pfs : ℕ
type_pfs = 0x0100

abbrev pub type_hdl : ℕ
type_hdl = 0x1337

pub record Ps2Time : Type 0 where
  pub unused : ℕ
  pub sec : ℕ
  pub min : ℕ
  pub hour : ℕ
  pub day : ℕ
  pub month : ℕ
  pub year : ℕ

pub record SubPartition : Type 0 where
  pub start : ℕ
  pub length : ℕ

pub record MbrData : Type 0 where
  pub magic : List ℕ
  pub version : ℕ
  pub nsector : ℕ
  pub created : Ps2Time
  pub osd_start : ℕ
  pub osd_size : ℕ

pub record Header : Type 0 where
  pub checksum : ℕ
  pub magic : ℕ
  pub next : ℕ
  pub prev : ℕ
  pub id : List ℕ
  pub rpwd : List ℕ
  pub fpwd : List ℕ
  pub start : ℕ
  pub length : ℕ
  pub type : ℕ
  pub flags : ℕ
  pub nsub : ℕ
  pub created : Ps2Time
  pub main : ℕ
  pub number : ℕ
  pub modver : ℕ
  pub mbr : MbrData
  pub subs : List SubPartition
  pub bytes : List ℕ

abbrev decode_time : List ℕ → ℕ → Ps2Time
decode_time p i = record {
  unused = byte_at p i;
  sec = byte_at p (i + 1);
  min = byte_at p (i + 2);
  hour = byte_at p (i + 3);
  day = byte_at p (i + 4);
  month = byte_at p (i + 5);
  year = load_u16 p (i + 6);
}

-- the entries i, i + 1, ... of `subs`, `n` of them
unfoldable pub decode_subs : List ℕ → ℕ → ℕ → List SubPartition
decode_subs p zero i = []
decode_subs p (suc n) i =
    record { start = load_u32 p (512 + 8 * i); length = load_u32 p (512 + 8 * i + 4) }
    ∷ decode_subs p n (i + 1)

unfoldable pub decode_header : List ℕ → Header
decode_header p = record {
  checksum = load_u32 p 0;
  magic = load_u32 p 4;
  next = load_u32 p 8;
  prev = load_u32 p 12;
  id = slice p 16 id_max;
  rpwd = slice p 48 pass_max;
  fpwd = slice p 56 pass_max;
  start = load_u32 p 64;
  length = load_u32 p 68;
  type = load_u16 p 72;
  flags = load_u16 p 74;
  nsub = load_u32 p 76;
  created = decode_time p 80;
  main = load_u32 p 88;
  number = load_u32 p 92;
  modver = load_u32 p 96;
  mbr = record {
    magic = slice p 256 32;
    version = load_u32 p 288;
    nsector = load_u32 p 292;
    created = decode_time p 296;
    osd_start = load_u32 p 304;
    osd_size = load_u32 p 308;
  };
  subs = decode_subs p max_sub 0;
  bytes = p;
}

-- `offset` and `size` never wrap: the test subtracts instead of adding
unfoldable pub range_fits : ℕ → ℕ → ℕ → Bool
range_fits offset size device_size = leb offset device_size && leb size (device_size - offset)

unfoldable pub sector_extent_fits : ℕ → ℕ → ℕ → Bool
unfolding range_fits
sector_extent_fits start length device_size =
    range_fits (start * sector_size) (length * sector_size) device_size

unfoldable pub checksum : Header → ℕ
checksum header = sum_words load_u32_le 255 4 header.bytes 0

-- `std::find(begin, end, '\0')`, and the bytes before it
unfoldable pub until_nul : List ℕ → List ℕ
until_nul [] = []
until_nul (c ∷ cs) = if c == 0 then [] else c ∷ until_nul cs

unfoldable pub partition_id : Header → List ℕ
partition_id header = until_nul header.id

abbrev pub sony_mbr_magic : List ℕ
sony_mbr_magic = codes "Sony Computer Entertainment Inc."

unfoldable pub has_sony_mbr_magic : Header → Bool
has_sony_mbr_magic header = bytes_eq (take 32 header.mbr.magic) sony_mbr_magic

unfoldable pub type_name : ℕ → String
type_name type =
    if type == type_free
    then "FREE"
    else if type == type_mbr
    then "MBR"
    else if type == 0x0082
    then "EXT2SWAP"
    else if type == 0x0083
    then "EXT2"
    else if type == 0x0088
    then "REISER"
    else if type == type_pfs
    then "PFS"
    else if type == 0x0101
    then "CFS"
    else if type == type_hdl
    then "HDL"
    else "UNKNOWN"

unfoldable pub read_header : Device → ℕ → Option Header
read_header device lba =
    if range_fits (lba * sector_size) header_size device.size_bytes
    then Option.map decode_header (device.read (lba * sector_size) header_size)
    else none

pub record Partition : Type 0 where
  pub id : List ℕ
  pub start_lba : ℕ
  pub length_sectors : ℕ
  pub total_sectors : ℕ
  pub type : ℕ
  pub flags : ℕ
  pub main_lba : ℕ
  pub number : ℕ
  pub sub_count : ℕ
  pub created : Ps2Time
  pub sub_partitions : List SubPartition

unfoldable pub is_sub : Partition → Bool
is_sub p = if bit_and p.flags flag_sub == 0 then false else true

-- a product of uint64_t
unfoldable pub size_bytes : Partition → ℕ
size_bytes p = (p.total_sectors * sector_size) % 2 ^ 64
