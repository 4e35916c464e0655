-- ===== src/Volume/Bounds.antt =====
-- A volume reads its own extents and nothing else.
use mathlib.Core.Option.{some-injective}
use ps2_driveforge.Base.{
  ℕ, zero, suc, ◌+◌, ◌*◌, ◌^◌, ◌≤◌, ◌<◌, ◌≡◌, ap, ◌∙◌, subst, none, some, List, [], ◌∷◌, length,
  get_elem?, All, arith, Option-cases, inl, inr,
}
use ps2_driveforge.Device.{Device, Mirrors, IsReliable, slice}
use ps2_driveforge.Apa.Header.{sector_size, Partition}
use ps2_driveforge.Apa.Issues.{ExtentFits}
use ps2_driveforge.Volume.{Extent, ApaVolume, make_volume, read_extent, read_sectors}

-- what a successful read of sectors has read
pub record SectorsRead (v : ApaVolume) (image : List ℕ) (sub sector count out_size : ℕ)
    (bytes : List ℕ) : Type 0 where
  pub extent : Extent
  pub selected : get_elem? v.extents sub ≡ some extent
  pub inside : sector + count ≤ extent.length_sectors
  pub sized : out_size ≡ count * sector_size
  pub contents : bytes ≡ slice image ((extent.start_lba + sector) * sector_size) out_size
  pub fits : (extent.start_lba + sector) * sector_size + out_size ≤ length image

pub read_sectors_of :
    (v : ApaVolume) (sub sector count out_size : ℕ) {e : Extent}
    → get_elem? v.extents sub ≡ some e
    → read_sectors v sub sector count out_size ≡ read_extent v.device e sector count out_size
unfolding read_sectors
read_sectors_of v sub sector count out_size found = rw (found, read_sectors)

pub read_sectors_missing :
    (v : ApaVolume) (sub sector count out_size : ℕ)
    → get_elem? v.extents sub ≡ none
    → read_sectors v sub sector count out_size ≡ none
unfolding read_sectors
read_sectors_missing v sub sector count out_size absent = rw (absent, read_sectors)

-- A successful read has the bytes that stand at the sectors of the selected extent, all of them
-- inside that extent, and fills the buffer.
pub read_sectors_exact :
    (v : ApaVolume) (image : List ℕ) (sub sector count out_size : ℕ) (bytes : List ℕ)
    → Mirrors v.device image
    → read_sectors v sub sector count out_size ≡ some bytes
    → SectorsRead v image sub sector count out_size bytes
unfolding read_extent
read_sectors_exact v image sub sector count out_size bytes m =
    elim (Option-cases (get_elem? v.extents sub)) [
      | inl absent ↦ rw (read_sectors_missing v sub sector count out_size absent) λ h. cc h
      | inr (e, found) ↦ rw (read_sectors_of v sub sector count out_size found) λ h.
          let read = m.exact ((e.start_lba + sector) * sector_size) out_size bytes in
          record {
            extent = e;
            selected = found;
            inside = ground arith;
            sized = ground arith;
            contents = ground (arith, read);
            fits = ground (arith, read);
          }
    ]

-- the device answers alike on every range of sectors inside the extents
abbrev pub AgreeOnExtent : Device → Device → Extent → Type 0
AgreeOnExtent d d' e =
    (sector count : ℕ)
    → sector + count ≤ e.length_sectors
    → d.read ((e.start_lba + sector) * sector_size) (count * sector_size)
      ≡ d'.read ((e.start_lba + sector) * sector_size) (count * sector_size)

abbrev pub AgreeOn : List Extent → Device → Device → Type 0
AgreeOn es d d' = All (AgreeOnExtent d d') es

All-get_elem? {ℓ κ} :
    {A : Type ℓ} (P : A → Type κ) (xs : List A) (i : ℕ) {x : A}
    → All P xs
    → get_elem? xs i ≡ some x
    → P x
All-get_elem? P [] i h e = cc
All-get_elem? P (x ∷ xs) zero h e = subst P (some-injective _ _ e) h.0
All-get_elem? P (x ∷ xs) (suc i) h e = All-get_elem? P xs i h.1 e

read_extent_confined :
    (d d' : Device) (e : Extent) (sector count out_size : ℕ)
    → AgreeOnExtent d d' e
    → read_extent d e sector count out_size ≡ read_extent d' e sector count out_size
unfolding read_extent
read_extent_confined d d' e sector count out_size agree =
    ground
      (arith, agree sector count, ap (λ (n : ℕ). d.read ((e.start_lba + sector) * sector_size) n))

-- Whatever is asked of a volume, its answer depends on the bytes of its own extents alone: another
-- device that agrees on them gives the same answer.
pub read_sectors_confined :
    (partition : Partition) (d d' : Device) (sub sector count out_size : ℕ)
    → AgreeOn (make_volume d partition).extents d d'
    → read_sectors (make_volume d partition) sub sector count out_size
      ≡ read_sectors (make_volume d' partition) sub sector count out_size
unfolding make_volume
read_sectors_confined partition d d' sub sector count out_size agree =
    let v = make_volume d partition in
    let v' = make_volume d' partition in
    elim (Option-cases (get_elem? v.extents sub)) [
      | inl absent ↦ rw (
        read_sectors_missing v sub sector count out_size absent,
        read_sectors_missing v' sub sector count out_size absent,
      )
      | inr (e, found) ↦
          rw
            (
              read_sectors_of v sub sector count out_size found,
              read_sectors_of v' sub sector count out_size found,
            )
            (read_extent_confined d d' e sector count out_size
              (All-get_elem? (AgreeOnExtent d d') v.extents sub agree found))
    ]

-- On a device that does not fail, every range of sectors inside an extent that fits the device is
-- read.
pub read_sectors_succeeds :
    (v : ApaVolume) (sub sector count : ℕ) (e : Extent)
    → IsReliable v.device
    → v.device.size_bytes < 2 ^ 64
    → get_elem? v.extents sub ≡ some e
    → ExtentFits v.device.size_bytes e.start_lba e.length_sectors
    → sector + count ≤ e.length_sectors
    → (bytes : List ℕ) × (read_sectors v sub sector count (count * sector_size) ≡ some bytes)
unfolding read_extent
read_sectors_succeeds v sub sector count e reliable small found fits inside =
    let (bytes, run) =
      reliable ((e.start_lba + sector) * sector_size) (count * sector_size) (omega arith) in
    (bytes, read_sectors_of v sub sector count (count * sector_size) found ∙ ground arith)
