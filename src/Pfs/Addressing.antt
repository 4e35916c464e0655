-- ===== src/Pfs/Addressing.antt =====
-- The two ways from a PFS block number to a disk sector in core/pfs.cpp: the shift by
-- `inode_scale` for metadata, and `sectors_per_zone` for file data.
use ps2_driveforge.Base.{ℕ, ◌-◌, ◌*◌, ◌/◌, ◌^◌, ◌≤◌, ◌<◌, ◌≡◌, refl, arith}
use ps2_driveforge.Apa.Header.{sector_size}
use ps2_driveforge.Pfs.Types.{metadata_size, BlockInfo}
use ps2_driveforge.Pfs.ZoneSize.{ZoneSize, at_each_size}
use ps2_driveforge.Pfs.Metadata.{
  Reader, zone_size, scale_loop, inode_scale, metadata_block, metadata_sector, u32_max,
}

-- The loop of `inode_scale` ends with the shift that takes 1 KiB to the zone size.
pub inode_scale-power :
    (r : Reader) → ZoneSize (zone_size r) → 1024 * 2 ^ inode_scale r ≡ zone_size r
unfolding inode_scale
inode_scale-power r =
    at_each_size (λ z. 1024 * 2 ^ scale_loop 32 z metadata_size 0 ≡ z) refl refl refl refl refl refl
      refl (zone_size r)

shift_no_wrap : (n m : ℕ) → n ≤ (2 ^ 32 - 1) / m → n * m < 2 ^ 32
shift_no_wrap n m h = grind arith

-- Where the overflow checks pass, the sector of a metadata block is its number times the sectors of
-- a zone, with no wrap: the same sector as for file data.
pub metadata_sector-eq :
    (r : Reader) (location : BlockInfo)
    → ZoneSize (zone_size r)
    → location.number ≤ u32_max / 2 ^ inode_scale r
    → metadata_sector r location ≡ location.number * (zone_size r / sector_size)
unfolding metadata_sector metadata_block
metadata_sector-eq r location size h =
    let e = inode_scale-power r size in
    let small = shift_no_wrap location.number (2 ^ inode_scale r) h in
    let spz : zone_size r / sector_size ≡ 2 ^ inode_scale r * 2 = omega arith in
    rw spz (omega arith)

-- On a file system with one of the zone sizes that the probe accepts, the shift of `inode_scale` takes
-- 1 KiB to exactly the size of a zone; and where the overflow check on the number of a metadata block
-- passes, its sector is the shifted number of 1 KiB blocks, of two sectors each, with no wrap.
pub metadata_sector_shift :
    (r : Reader) (location : BlockInfo)
    → ZoneSize (zone_size r)
    → location.number ≤ u32_max / 2 ^ inode_scale r
    → (1024 * 2 ^ inode_scale r ≡ zone_size r)
      × (metadata_sector r location ≡ location.number * 2 ^ inode_scale r * 2)
      × (location.number * 2 ^ inode_scale r < 2 ^ 32)
unfolding metadata_sector metadata_block
metadata_sector_shift r location size h =
    let small = shift_no_wrap location.number (2 ^ inode_scale r) h in
    (inode_scale-power r size, omega arith, small)
