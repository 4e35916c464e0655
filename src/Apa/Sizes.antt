-- ===== src/Apa/Sizes.antt =====
-- Sizes of a partition as core/apa.cpp adds them up: no 64-bit sum or product wraps.
use ps2_driveforge.Base.{
  ℕ, zero, suc, ◌+◌, ◌*◌, ◌%◌, ◌^◌, ◌≤◌, ◌<◌, ◌≡◌, refl, ap, ◌∙◌, List, [], ◌∷◌, length, take, min,
  All, arith, length-take,
}
use ps2_driveforge.Base.Bytes.{load_u32-lt}
use ps2_driveforge.Apa.Header.{SubPartition, decode_subs, decode_header, size_bytes, max_sub}
use ps2_driveforge.Apa.Scan.{total_with_subs, used_subs, make_partition}

-- the exact number of sectors of some extents
abbrev pub sectors : List SubPartition → ℕ
sectors [] = 0
sectors (sub ∷ subs) = sub.length + sectors subs

abbrev IsWord : SubPartition → Type 0
IsWord sub = (sub.start < 2 ^ 32) × (sub.length < 2 ^ 32)

decode_subs_words : (p : List ℕ) (n i : ℕ) → All IsWord (decode_subs p n i)
unfolding decode_subs
decode_subs_words p zero i = tt
decode_subs_words p (suc n) i =
    ((load_u32-lt p (512 + 8 * i), load_u32-lt p (512 + 8 * i + 4)), decode_subs_words p n (i + 1))

length-decode_subs : (p : List ℕ) (n i : ℕ) → length (decode_subs p n i) ≡ n
unfolding decode_subs
length-decode_subs p zero i = refl
length-decode_subs p (suc n) i = ap suc (length-decode_subs p n (i + 1))

All-take : (n : ℕ) (xs : List SubPartition) → All IsWord xs → All IsWord (take n xs)
All-take zero xs h = tt
All-take (suc n) [] h = tt
All-take (suc n) (x ∷ xs) h = (h.0, All-take n xs h.1)

sectors-le : (subs : List SubPartition) → All IsWord subs → sectors subs ≤ length subs * 2 ^ 32
sectors-le [] h = omega arith
sectors-le (sub ∷ subs) h = omega (arith, sectors-le subs h.1)

total_with_subs-eq :
    (total : ℕ) (subs : List SubPartition)
    → total + sectors subs < 2 ^ 64
    → total_with_subs total subs ≡ total + sectors subs
unfolding total_with_subs
total_with_subs-eq total [] h = omega arith
total_with_subs-eq total (sub ∷ subs) h =
    rw (small) (total_with_subs-eq (total + sub.length) subs (omega arith) ∙ omega arith)
  where
    small : (total + sub.length) % 2 ^ 64 ≡ total + sub.length
    small = omega arith

-- The partition made of a stored header has as many sub-partitions as it counts, at most 64; its
-- sectors are the exact sum of all its extents; and its size in bytes is 512 for each of them.
pub make_partition_sizes :
    (p : List ℕ)
    → (length (make_partition (decode_header p)).sub_partitions
        ≡ (make_partition (decode_header p)).sub_count)
      × ((make_partition (decode_header p)).sub_count ≤ 64)
      × ((make_partition (decode_header p)).total_sectors
          ≡ (make_partition (decode_header p)).length_sectors
            + sectors (make_partition (decode_header p)).sub_partitions)
      × (size_bytes (make_partition (decode_header p))
          ≡ (make_partition (decode_header p)).total_sectors * 512)
unfolding make_partition used_subs size_bytes decode_header
make_partition_sizes p =
    let header = decode_header p in
    let subs = take (min header.nsub max_sub) header.subs in
    let count : length subs ≡ min header.nsub max_sub =
      omega (arith, length-take (min header.nsub max_sub) header.subs, length-decode_subs p 64 0) in
    let few = sectors-le subs (All-take _ header.subs (decode_subs_words p 64 0)) in
    let small : header.length < 2 ^ 32 = load_u32-lt p 68 in
    let total = total_with_subs-eq header.length subs (omega arith) in
    (count, omega arith, total, omega arith)
