-- ===== src/Pfs/Contents.antt =====
-- What a file is, apart from how core/pfs.cpp reads it: its data blocks in the order of the
-- descriptors, with no run merged and nothing skipped, and the byte at each position.
use ps2_driveforge.Base.{
  ℕ, zero, suc, ◌+◌, ◌-◌, ◌*◌, ◌<◌, ◌≡◌, List, [], ◌∷◌, ◌++◌, Option, some, none, ltb,
  if◌then◌else◌, Result, ok, err, ◌>>=◌, arith,
}
use ps2_driveforge.Pfs.Types.{BlockInfo, Inode, SegmentDescriptor}
use ps2_driveforge.Pfs.Metadata.{Fault, Reader, zone_size}
use ps2_driveforge.Pfs.ZoneRead.{block_byte}
use ps2_driveforge.Pfs.File.{segment, block, pick_block}

-- the data blocks of the `left` descriptors from `global` on
unfoldable pub blocks_from :
    Reader → Inode → ℕ → ℕ → Option SegmentDescriptor → BlockInfo → Result Fault (List BlockInfo)
blocks_from r inode zero global indirect next_segment = ok []
blocks_from r inode (suc left) global indirect next_segment =
    elim (pick_block r inode indirect next_segment global) [
      | err e ↦ err e
      | ok (segment d) ↦ blocks_from r inode left (global + 1) (some d) d.next_segment
      | ok (block b) ↦ do
        bs ← blocks_from r inode left (global + 1) indirect next_segment
        ok (b ∷ bs)
    ]

-- all data blocks of an inode
abbrev pub file_blocks : Reader → Inode → Result Fault (List BlockInfo)
file_blocks r inode = blocks_from r inode (inode.number_data - 1) 1 none inode.next_segment

abbrev pub block_size : Reader → BlockInfo → ℕ
block_size r b = b.count * zone_size r

unfoldable pub total_size : Reader → List BlockInfo → ℕ
total_size r [] = 0
total_size r (b ∷ bs) = block_size r b + total_size r bs

-- byte `p` of the file, in the image of the device
unfoldable pub file_byte : Reader → List ℕ → List BlockInfo → ℕ → ℕ
file_byte r image [] p = 0
file_byte r image (b ∷ bs) p =
    if ltb p (block_size r b)
    then block_byte r image b p
    else file_byte r image bs (p - block_size r b)

module _ (r : Reader) (inode : Inode) (left global : ℕ) (indirect : Option SegmentDescriptor)
    (next_segment : BlockInfo) where
  pub blocks_from-segment :
      (d : SegmentDescriptor)
      → pick_block r inode indirect next_segment global ≡ ok (segment d)
      → blocks_from r inode (suc left) global indirect next_segment
        ≡ blocks_from r inode left (global + 1) (some d) d.next_segment
  unfolding blocks_from
  blocks_from-segment d e = rw (e, blocks_from)

  pub blocks_from-block :
      (b : BlockInfo)
      → pick_block r inode indirect next_segment global ≡ ok (block b)
      → blocks_from r inode (suc left) global indirect next_segment
        ≡ (blocks_from r inode left (global + 1) indirect next_segment >>= λ bs. ok (b ∷ bs))
  unfolding blocks_from
  blocks_from-block b e = rw (e, blocks_from)

  pub blocks_from-err :
      (f : Fault)
      → pick_block r inode indirect next_segment global ≡ err f
      → blocks_from r inode (suc left) global indirect next_segment ≡ err f
  unfolding blocks_from
  blocks_from-err f e = rw (e, blocks_from)

pub total_size-append :
    (r : Reader) (a b : List BlockInfo) → total_size r (a ++ b) ≡ total_size r a + total_size r b
unfolding total_size
total_size-append r [] b = omega arith
total_size-append r (x ∷ a) b = omega (arith, total_size-append r a b)

pub file_byte-middle :
    (r : Reader) (image : List ℕ) (before after : List BlockInfo) (b : BlockInfo) (i : ℕ)
    → i < block_size r b
    → file_byte r image (before ++ b ∷ after) (total_size r before + i) ≡ block_byte r image b i
unfolding total_size file_byte
file_byte-middle r image [] after b i h = let e : 0 + i ≡ i = omega arith in rw e (ground arith)
file_byte-middle r image (x ∷ before) after b i h =
    let e : block_size r x + total_size r before + i - block_size r x ≡ total_size r before + i =
      omega arith in
    rw e (ground (arith, file_byte-middle r image before after b i h))
