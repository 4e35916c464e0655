-- ===== src/Pfs/ZoneTotal.antt =====
-- `read_zone_bytes` of core/pfs.cpp succeeds on every range of a block that lies in its extent, on
-- a device that does not fail.
use native.Mathlib.Nat.{add-mul, mul_assoc}
use ps2_driveforge.Base.{
  ℕ, zero, suc, ◌+◌, ◌-◌, ◌*◌, ◌/◌, ◌%◌, ◌^◌, ◌≤◌, ◌<◌, ◌≡◌, refl, List, [], ◌∷◌, ◌++◌, true, some,
  ok, ◌>>=◌, arith, length, get_elem?, min, Bool-cases, inl, inr,
}
use ps2_driveforge.Device.{IsReliable, slice}
use ps2_driveforge.Apa.Header.{sector_size}
use ps2_driveforge.Apa.Issues.{ExtentFits}
use ps2_driveforge.Volume.{Extent, read_sectors}
use ps2_driveforge.Volume.Bounds.{read_sectors_succeeds}
use ps2_driveforge.Pfs.Types.{BlockInfo}
use ps2_driveforge.Pfs.ZoneSize.{ZoneSize, at_each_size}
use ps2_driveforge.Pfs.Metadata.{Reader, zone_size, num_subs}
use ps2_driveforge.Pfs.Zone.{
  sectors_per_zone, base_sector, is_aligned, batch, round_bytes, read_whole, read_edge, read_round,
  zone_loop, read_zone_bytes,
}
use ps2_driveforge.Pfs.ZoneRead.{round_bytes_bounds}

-- the block lies inside the extent that it names, and that extent inside a device that answers
pub record IsPlaced (r : Reader) (block : BlockInfo) : Type 0 where
  pub extent : Extent
  pub selected : get_elem? r.volume.extents block.subpart ≡ some extent
  pub registered : block.subpart ≤ num_subs r
  pub inside : (block.number + block.count) * sectors_per_zone r ≤ extent.length_sectors
  pub word : extent.length_sectors < 2 ^ 32
  pub fits : ExtentFits r.volume.device.size_bytes extent.start_lba extent.length_sectors
  pub small : r.volume.device.size_bytes < 2 ^ 64
  pub reliable : IsReliable r.volume.device

pub whole_zones :
    (r : Reader) → ZoneSize (zone_size r) → sectors_per_zone r * sector_size ≡ zone_size r
whole_zones r =
    at_each_size (λ z. z / sector_size * sector_size ≡ z) refl refl refl refl refl refl refl
      (zone_size r)

get_elem?-lt {ℓ} :
    {A : Type ℓ} (xs : List A) (i : ℕ) {x : A} → get_elem? xs i ≡ some x → i < length xs
get_elem?-lt [] i h = cc
get_elem?-lt (x ∷ xs) zero h = omega arith
get_elem?-lt (x ∷ xs) (suc i) h = omega (arith, get_elem?-lt xs i h)

module _ (r : Reader) (block : BlockInfo) (size : ZoneSize (zone_size r))
    (placed : IsPlaced r block) where
  sectors_inside :
      (sector count : ℕ)
      → sector + count ≤ block.count * sectors_per_zone r
      → base_sector r block + sector + count ≤ placed.extent.length_sectors
  sectors_inside sector count h =
      omega (arith, placed.inside, add-mul block.number block.count (sectors_per_zone r))

  sectors_succeed :
      (sector count : ℕ)
      → sector + count ≤ block.count * sectors_per_zone r
      → (bytes : List ℕ) × (read_sectors r.volume block.subpart
            (base_sector r block + sector)
            count
            (count * sector_size)
          ≡ some bytes)
  sectors_succeed sector count h =
      read_sectors_succeeds r.volume block.subpart (base_sector r block + sector) count
        placed.extent placed.reliable placed.small placed.selected placed.fits
        (sectors_inside sector count h)

  whole_succeeds :
      (p n : ℕ)
      → is_aligned p n ≡ true
      → p + n ≤ block.count * sectors_per_zone r * sector_size
      → (bytes : List ℕ) × (read_whole r block p n ≡ ok bytes)
  unfolding read_whole
  whole_succeeds p n aligned h =
      let in_range : p / sector_size + batch n ≤ block.count * sectors_per_zone r = ground arith in
      let (bytes, run) = sectors_succeed (p / sector_size) (batch n) in_range in
      let low = sectors_inside (p / sector_size) (batch n) in_range in (bytes, ground arith)

  edge_succeeds :
      (p n : ℕ)
      → 0 < n
      → p + n ≤ block.count * sectors_per_zone r * sector_size
      → (bytes : List ℕ) × (read_edge r block p n ≡ ok bytes)
  unfolding read_edge
  edge_succeeds p n pos h =
      let in_range : p / sector_size + 1 ≤ block.count * sectors_per_zone r = omega arith in
      let (bytes, run) = sectors_succeed (p / sector_size) 1 in_range in
      let low = sectors_inside (p / sector_size) 1 in_range in
      (slice bytes (p % sector_size) (min n (sector_size - p % sector_size)), ground arith)

  round_succeeds :
      (p n : ℕ)
      → 0 < n
      → p + n ≤ block.count * sectors_per_zone r * sector_size
      → (bytes : List ℕ) × (read_round r block p n ≡ ok bytes)
  unfolding read_round
  round_succeeds p n pos h = elim (Bool-cases (is_aligned p n)) [
    | inl whole ↦ rw (whole, read_round) (whole_succeeds p n whole h)
    | inr edge ↦ rw (edge, read_round) (edge_succeeds p n pos h)
  ]

  loop_succeeds :
      (fuel p n : ℕ)
      → n ≤ fuel
      → p + n ≤ block.count * sectors_per_zone r * sector_size
      → (bytes : List ℕ) × (zone_loop fuel r block p n ≡ ok bytes)
  unfolding zone_loop
  loop_succeeds fuel p zero le h = ([], refl)
  loop_succeeds zero p (suc n) le h = absurd (omega arith)
  loop_succeeds (suc fuel) p (suc n) le h =
      let step = round_bytes p (suc n) in
      let (lo, hi) = round_bytes_bounds p (suc n) (omega arith) in
      let (bytes, first) = round_succeeds p (suc n) (omega arith) h in
      let (more, rest) = loop_succeeds fuel (p + step) (suc n - step) (omega arith) (omega arith) in
      (bytes ++ more, rw (first, ◌>>=◌, rest))

  -- Every byte range inside a block is read, with one of the zone sizes that the probe accepts, on a
  -- device below 2 ^ 64 bytes that answers every read inside it; where the block names a sub-part that is
  -- registered and has an extent of fewer than 2 ^ 32 sectors inside the device, and lies inside that
  -- extent.
  pub read_zone_bytes_succeeds :
      (zone_offset n : ℕ)
      → zone_offset + n ≤ block.count * zone_size r
      → (bytes : List ℕ) × (read_zone_bytes r block zone_offset n ≡ ok bytes)
  unfolding read_zone_bytes
  read_zone_bytes_succeeds zone_offset n h =
      let (bytes, run) =
        loop_succeeds n zone_offset n (omega arith) (rw mul_assoc (rw (whole_zones r size) h)) in
      let here = get_elem?-lt r.volume.extents block.subpart placed.selected in
      let known = placed.registered in (bytes, ground arith)
