-- ===== src/Tests/Volume.antt =====
-- A volume of two extents on a small disk.
use ps2_driveforge.Base.{
  ℕ, ◌+◌, ◌*◌, ◌^◌, ◌<◌, ◌≡◌, refl, List, [], ◌∷◌, ◌++◌, some, none, take, drop, arith, get_elem?,
}
use ps2_driveforge.Base.Bytes.{codes}
use ps2_driveforge.Device.{Device, Mirrors, IsReliable}
use ps2_driveforge.Apa.Header.{
  sector_size, Partition, decode_header, decode_subs, until_nul, partition_id,
}
use ps2_driveforge.Apa.Scan.{make_partition, total_with_subs, used_subs}
use ps2_driveforge.Apa.Issues.{ExtentFits}
use ps2_driveforge.Volume.{ApaVolume, make_volume, read_extent, read_sectors}
use ps2_driveforge.Volume.Bounds.{
  SectorsRead, AgreeOn, read_sectors_exact, read_sectors_confined, read_sectors_succeeds,
}
use ps2_driveforge.Tests.Disk.{disk, image_of, disk-Mirrors, disk-IsReliable, disk-cut, zeros}

program : Unit {0}
unfolding disk decode_header decode_subs until_nul partition_id make_partition total_with_subs
    used_subs make_volume read_extent read_sectors
program = tt

abbrev bytes : List ℕ
bytes = zeros 1000 ++ codes "extent" ++ zeros 1554

-- sectors 1 and 2, and sector 4
abbrev partition : Partition
partition = record (make_partition (decode_header [])) {
  start_lba = 1;
  length_sectors = 2;
  sub_partitions = record { start = 4; length = 1 } ∷ [];
}

abbrev volume : ApaVolume
volume = make_volume (disk 0 bytes) partition

volume-Mirrors : Mirrors volume.device (image_of 0 bytes)
unfolding make_volume
volume-Mirrors = disk-Mirrors 0 bytes

abbrev two_sectors : List ℕ
two_sectors = take 1024 (drop 512 bytes)

two_read : read_sectors volume 0 0 2 1024 ≡ some two_sectors
unfolding program
two_read = refl

past_the_end : read_sectors volume 0 1 2 1024 ≡ none
unfolding program
past_the_end = refl

read_sectors_exact_example : SectorsRead volume (image_of 0 bytes) 0 0 2 1024 two_sectors
read_sectors_exact_example =
    read_sectors_exact volume (image_of 0 bytes) 0 0 2 1024 two_sectors volume-Mirrors two_read

-- the same device without its first sector
abbrev headless : Device
headless = disk 512 (drop 512 bytes)

volume_agrees : AgreeOn volume.extents (disk 0 bytes) headless
unfolding make_volume make_partition used_subs total_with_subs decode_header decode_subs
volume_agrees = (
  (λ sector count h.
      disk-cut 512 bytes ((1 + sector) * 512) (count * 512) (omega arith) (omega arith)),
  (
    (λ sector count h.
        disk-cut 512 bytes ((4 + sector) * 512) (count * 512) (omega arith) (omega arith)),
    tt,
  ),
)

read_sectors_confined_example :
    read_sectors (make_volume (disk 0 bytes) partition) 0 0 2 1024
    ≡ read_sectors (make_volume headless partition) 0 0 2 1024
read_sectors_confined_example =
    read_sectors_confined partition (disk 0 bytes) headless 0 0 2 1024 volume_agrees

volume_small : volume.device.size_bytes < 2 ^ 64
unfolding program
volume_small = omega arith

first_fits : ExtentFits volume.device.size_bytes 1 2
unfolding program
first_fits = omega arith

first_there : get_elem? volume.extents 0 ≡ some (record { start_lba = 1; length_sectors = 2 })
unfolding program
first_there = refl

volume-IsReliable : IsReliable volume.device
unfolding make_volume
volume-IsReliable = disk-IsReliable bytes

read_sectors_succeeds_example :
    (out : List ℕ) × (read_sectors volume 0 1 1 (1 * sector_size) ≡ some out)
read_sectors_succeeds_example =
    read_sectors_succeeds volume 0 1 1 (record { start_lba = 1; length_sectors = 2 })
      volume-IsReliable volume_small first_there first_fits (omega arith)
