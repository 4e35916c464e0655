-- ===== src/Pfs/ZoneRead.antt =====
-- `read_zone_bytes` of core/pfs.cpp delivers the bytes of the block, whatever the batches.
use ps2_driveforge.Base.{
  ℕ, zero, suc, ◌+◌, ◌-◌, ◌*◌, ◌/◌, ◌%◌, ◌≤◌, ◌<◌, ◌≡◌, ◌≢◌, ap, sym, ◌∙◌, List, ◌++◌, some, none,
  min, ok, err, arith, Bool-cases, >>=-eq-ok, >>=-ne-err, inl, inr, get_elem?,
}
use ps2_driveforge.Base.Spans.{
  span, at, span-zero, span_join, slice-span, slice-of_span, span_congr,
}
use ps2_driveforge.Device.{slice, Mirrors}
use ps2_driveforge.Apa.Header.{sector_size}
use ps2_driveforge.Volume.{Extent, read_sectors}
use ps2_driveforge.Volume.Bounds.{read_sectors_exact}
use ps2_driveforge.Pfs.Types.{BlockInfo}
use ps2_driveforge.Pfs.Metadata.{stuck, Reader, zone_size}
use ps2_driveforge.Pfs.Zone.{
  base_sector, is_aligned, batch, round_bytes, read_whole, read_edge, read_round, zone_loop,
  read_zone_bytes,
}

-- the byte of the image at which the data of a block starts
unfoldable pub extent_start : Reader → BlockInfo → ℕ
extent_start r block = elim (get_elem? r.volume.extents block.subpart) [
  | none ↦ 0
  | some e ↦ e.start_lba
]

-- byte `i` of the data that a block descriptor points to
abbrev pub block_byte : Reader → List ℕ → BlockInfo → ℕ → ℕ
block_byte r image block i =
    at image ((extent_start r block + base_sector r block) * sector_size + i)

pub round_bytes_bounds : (p n : ℕ) → 0 < n → (0 < round_bytes p n) × (round_bytes p n ≤ n)
unfolding round_bytes
round_bytes_bounds p n h = ground arith

extent_start_of :
    (r : Reader) (block : BlockInfo) {e : Extent}
    → get_elem? r.volume.extents block.subpart ≡ some e
    → extent_start r block ≡ e.start_lba
unfolding extent_start
extent_start_of r block found = rw (found, extent_start)

whole_sectors :
    (r : Reader) (block : BlockInfo) (p n : ℕ) (bytes : List ℕ)
    → read_whole r block p n ≡ ok bytes
    → read_sectors r.volume block.subpart
        (base_sector r block + p / sector_size)
        (batch n)
        (batch n * sector_size)
      ≡ some bytes
unfolding read_whole
whole_sectors r block p n bytes h = ground arith

edge_sector :
    (r : Reader) (block : BlockInfo) (p n : ℕ) (bytes : List ℕ)
    → read_edge r block p n ≡ ok bytes
    → (sector : List ℕ) × (read_sectors r.volume block.subpart
          (base_sector r block + p / sector_size)
          1
          sector_size
        ≡ some sector)
      × (bytes ≡ slice sector (p % sector_size) (min n (sector_size - p % sector_size)))
unfolding read_edge
edge_sector r block p n bytes h = ground arith

module _ (r : Reader) (image : List ℕ) (m : Mirrors r.volume.device image) (block : BlockInfo) where
  -- a read of whole sectors gives the bytes of the block there
  sectors-span :
      (sector count size : ℕ) (bytes : List ℕ)
      → read_sectors r.volume block.subpart (base_sector r block + sector) count size ≡ some bytes
      → bytes ≡ span (block_byte r image block) (sector * sector_size) size
  sectors-span sector count size bytes h =
      let read =
        read_sectors_exact r.volume image block.subpart (base_sector r block + sector) count size
          bytes m h in
      let start = extent_start_of r block read.selected in
      read.contents
      ∙ slice-span image ((read.extent.start_lba + (base_sector r block + sector)) * sector_size)
          size read.fits
      ∙ span_congr (at image) (block_byte r image block) _ (sector * sector_size) size
          λ i _. ap (at image) (omega (arith, start))

  whole-span :
      (p n : ℕ) (bytes : List ℕ)
      → p % sector_size ≡ 0
      → read_whole r block p n ≡ ok bytes
      → bytes ≡ span (block_byte r image block) p (batch n * sector_size)
  whole-span p n bytes aligned h =
      let e : p / sector_size * sector_size ≡ p = omega arith in
      rw e at (sectors-span (p / sector_size) _ _ bytes (whole_sectors r block p n bytes h))

  edge-span :
      (p n : ℕ) (bytes : List ℕ)
      → read_edge r block p n ≡ ok bytes
      → bytes ≡ span (block_byte r image block) p (min n (sector_size - p % sector_size))
  edge-span p n bytes h =
      let (sector, read, e) = edge_sector r block p n bytes h in
      let size = min n (sector_size - p % sector_size) in
      let f = block_byte r image block in
      let place : p / sector_size * sector_size + p % sector_size ≡ p = omega arith in
      let full = sectors-span (p / sector_size) 1 sector_size sector read in
      e
      ∙ ap (λ (s : List ℕ). slice s (p % sector_size) size) full
      ∙ slice-of_span f (p / sector_size * sector_size) sector_size (p % sector_size) size
          (omega arith)
      ∙ ap (λ (q : ℕ). span f q size) place

  round-span :
      (p n : ℕ) (bytes : List ℕ)
      → read_round r block p n ≡ ok bytes
      → bytes ≡ span (block_byte r image block) p (round_bytes p n)
  unfolding read_round round_bytes
  round-span p n bytes = elim (Bool-cases (is_aligned p n)) [
    | inl whole ↦ rw (whole, read_round, round_bytes) λ h. whole-span p n bytes (ground arith) h
    | inr edge ↦ rw (edge, read_round, round_bytes) λ h. edge-span p n bytes h
  ]

  loop-span :
      (fuel p n : ℕ) (bytes : List ℕ)
      → n ≤ fuel
      → zone_loop fuel r block p n ≡ ok bytes
      → bytes ≡ span (block_byte r image block) p n
  unfolding zone_loop
  loop-span fuel p zero bytes le h = rw span-zero (cc h)
  loop-span zero p (suc n) bytes le h = absurd (omega arith)
  loop-span (suc fuel) p (suc n) bytes le h =
      let size = round_bytes p (suc n) in
      let (first, read, h') = >>=-eq-ok (read_round r block p (suc n)) _ h in
      let (more, rest, h'') = >>=-eq-ok (zone_loop fuel r block (p + size) (suc n - size)) _ h' in
      let (lo, hi) = round_bytes_bounds p (suc n) (omega arith) in
      let whole : first ++ more ≡ bytes = cc h'' in
      sym whole
      ∙ span_join (block_byte r image block) p size (suc n - size) (suc n)
          (round-span p (suc n) first read)
          (loop-span fuel (p + size) (suc n - size) more (omega arith) rest) (omega arith)

  -- A read that succeeds delivers exactly the bytes of the block from `zone_offset` on, as many as
  -- were asked for, and the range lies inside the descriptor: batches and edges make no difference.
  pub read_zone_bytes_exact :
      (zone_offset size : ℕ) (bytes : List ℕ)
      → read_zone_bytes r block zone_offset size ≡ ok bytes
      → (bytes ≡ span (block_byte r image block) zone_offset size)
        × (zone_offset + size ≤ block.count * zone_size r)
  unfolding read_zone_bytes
  read_zone_bytes_exact zone_offset size bytes h =
      ground (arith, loop-span size zone_offset size bytes)

read_round-ne-stuck :
    (r : Reader) (block : BlockInfo) (p n : ℕ) → read_round r block p n ≢ err stuck
unfolding read_round read_whole read_edge
read_round-ne-stuck r block p n = ground arith

zone_loop-ne-stuck :
    (fuel : ℕ) (r : Reader) (block : BlockInfo) (p n : ℕ)
    → n ≤ fuel
    → zone_loop fuel r block p n ≢ err stuck
unfolding zone_loop
zone_loop-ne-stuck fuel r block p zero le = λ h. cc
zone_loop-ne-stuck zero r block p (suc n) le = absurd (omega arith)
zone_loop-ne-stuck (suc fuel) r block p (suc n) le =
    let size = round_bytes p (suc n) in
    let (lo, hi) = round_bytes_bounds p (suc n) (omega arith) in
    >>=-ne-err (read_round r block p (suc n)) _ (read_round-ne-stuck r block p (suc n)) λ bytes.
      >>=-ne-err (zone_loop fuel r block (p + size) (suc n - size)) _
        (zone_loop-ne-stuck fuel r block (p + size) (suc n - size) (omega arith)) (λ more h. cc)

-- The loop always ends: fuel of the buffer's size is enough.
pub read_zone_bytes-ne-stuck :
    (r : Reader) (block : BlockInfo) (zone_offset size : ℕ)
    → read_zone_bytes r block zone_offset size ≢ err stuck
unfolding read_zone_bytes
read_zone_bytes-ne-stuck r block zone_offset size =
    ground (arith, zone_loop-ne-stuck size r block zone_offset size)
