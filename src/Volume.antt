-- ===== src/Volume.antt =====
-- core/apa_volume.cpp and include/ps2hdd/apa_volume.hpp: the sectors of one partition. Index 0 is
-- the main extent, 1 and up are the sub-partitions.
pub mod Bounds
use ps2_driveforge.Base.{
  ℕ, ◌+◌, ◌-◌, ◌*◌, ◌/◌, ◌^◌, Option, none, some, List, [], ◌∷◌, map, ltb, ◌==◌, if◌then◌else◌,
  get_elem?, not, length,
}
use ps2_driveforge.Device.{Device}
use ps2_driveforge.Apa.Header.{sector_size, SubPartition, Partition}

pub record Extent : Type 0 where
  pub start_lba : ℕ
  pub length_sectors : ℕ

pub record ApaVolume : Type 0 where
  pub device : Device
  pub partition : Partition
  pub extents : List Extent

abbrev sub_extent : SubPartition → Extent
sub_extent sub = record { start_lba = sub.start; length_sectors = sub.length }

-- the constructor
unfoldable pub make_volume : Device → Partition → ApaVolume
make_volume device partition = record {
  device = device;
  partition = partition;
  extents =
      record { start_lba = partition.start_lba; length_sectors = partition.length_sectors }
      ∷ map sub_extent partition.sub_partitions;
}

abbrev pub extent_count : ApaVolume → ℕ
extent_count v = length v.extents

-- `read_sectors` on the selected extent; `out_size` is the size of the caller's buffer
unfoldable pub read_extent : Device → Extent → ℕ → ℕ → ℕ → Option (List ℕ)
read_extent device e sector count out_size =
    if ltb e.length_sectors (sector + count)
    then none
    else if not (count * sector_size == out_size)
    then none
    else if ltb ((2 ^ 64 - 1) / sector_size) (e.start_lba + sector)
    then none
    else device.read ((e.start_lba + sector) * sector_size) out_size

unfoldable pub read_sectors : ApaVolume → ℕ → ℕ → ℕ → ℕ → Option (List ℕ)
read_sectors v sub sector count out_size = elim (get_elem? v.extents sub) [
  | none ↦ none
  | some e ↦ read_extent v.device e sector count out_size
]
