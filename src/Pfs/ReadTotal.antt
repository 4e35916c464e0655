-- ===== src/Pfs/ReadTotal.antt =====
-- `Reader::read` of core/pfs.cpp reads every range of an intact file.
use ps2_driveforge.Base.{
  ℕ, ◌+◌, ◌-◌, ◌^◌, ◌≤◌, ◌<◌, ◌≡◌, ◌⊎◌, inl, inr, refl, List, [], true, false, none, ok, arith, All,
  Bool-cases, ◌==◌, ◌&&◌, ltb, not, ◌||◌, ◌>>=◌, ◌>>◌,
}
use ps2_driveforge.Pfs.Types.{BlockInfo, Inode, Node}
use ps2_driveforge.Pfs.ZoneSize.{ZoneSize}
use ps2_driveforge.Pfs.Metadata.{Reader, valid, zone_size}
use ps2_driveforge.Pfs.Contents.{file_blocks, total_size}
use ps2_driveforge.Pfs.Runs.{All-reverse_onto}
use ps2_driveforge.Pfs.RunsTotal.{RunPlaced, reverse_onto-ends, read_runs-succeeds}
use ps2_driveforge.Pfs.Walk.{Walked, walk-Walked}
use ps2_driveforge.Pfs.MergesTotal.{IsSoundBlock}
use ps2_driveforge.Pfs.WalkTotal.{segments_from, walk-succeeds}
use ps2_driveforge.Pfs.File.{WalkState, start_walk, walk, read_runs, reverse_onto, read_range, read}

-- a file whose data blocks lie in their extents and hold at least as many bytes as its size, below
-- 2 ^ 64 in all, and whose SEGI descriptors are at most as many as it counts, or are not counted
pub record IsIntact (r : Reader) (inode : Inode) (blocks : List BlockInfo) : Type 0 where
  pub listed : file_blocks r inode ≡ ok blocks
  pub sound : All (IsSoundBlock r) blocks
  pub small : total_size r blocks < 2 ^ 64
  pub covered : inode.size ≤ total_size r blocks
  pub segments :
      (inode.number_segdesg ≡ 0)
      ⊎ (segments_from r inode (inode.number_data - 1) 1 none inode.next_segment
          ≤ inode.number_segdesg)

few_segments :
    (r : Reader) (inode : Inode) (offset request_end : ℕ) (blocks : List BlockInfo) (t : WalkState)
    → IsIntact r inode blocks
    → t.segi_loaded ≤ segments_from r inode (inode.number_data - 1) 1 none inode.next_segment
    → (not (inode.number_segdesg == 0) && ltb inode.number_segdesg t.segi_loaded) ≡ false
few_segments r inode offset request_end blocks t intact loaded = elim intact.segments [
  | inl uncounted ↦ rw uncounted refl
  | inr bounded ↦ ground arith
]

read_range-eq :
    (r : Reader) (inode : Inode) (offset n : ℕ) (t : WalkState) (bytes : List ℕ)
    → walk r inode offset (offset + n) (inode.number_data - 1) 1 (start_walk inode) ≡ ok t
    → read_runs r (reverse_onto t.runs []) offset n ≡ ok (bytes, 0)
    → (not (inode.number_segdesg == 0) && ltb inode.number_segdesg t.segi_loaded) ≡ false
    → read_range r inode offset n ≡ ok bytes
unfolding read_range
read_range-eq r inode offset n t bytes walked delivered few =
    rw (walked, ◌>>=◌, delivered, few) refl

module _ (r : Reader) (size : ZoneSize (zone_size r)) (inode : Inode) (blocks : List BlockInfo)
    (intact : IsIntact r inode blocks) where
  read_range-succeeds :
      (offset n : ℕ)
      → offset + n ≤ inode.size
      → (bytes : List ℕ) × (read_range r inode offset n ≡ ok bytes)
  unfolding read_range total_size
  read_range-succeeds offset n fits =
      let image : List ℕ = [] in
      let begin : Walked r image blocks offset [] (start_walk inode) = record {
        at_end = refl;
        good = tt;
        ends = omega arith;
        ahead = inl refl;
      } in
      let (t, walked, ends) =
        walk-succeeds r inode offset (offset + n) (inode.number_data - 1) 1 (start_walk inode)
          blocks intact.listed intact.sound (omega (arith, intact.small)) tt in
      let (taken, w) =
        walk-Walked r image size offset (offset + n) inode blocks (inode.number_data - 1) [] blocks
          1 (start_walk inode) t refl intact.listed begin walked in
      let (start, le, next, stop) = reverse_onto-ends offset t.logical t.runs [] w.ends tt in
      let reached : offset + n ≤ t.logical = elim ends.reached [
        | inl e ↦ e
        | inr e ↦ omega (arith, intact.covered)
      ] in
      let (bytes, delivered) =
        read_runs-succeeds r size (reverse_onto t.runs []) start offset n
          (All-reverse_onto (RunPlaced r) t.runs [] ends.runs tt) next (λ some. le)
          (λ some. omega arith) in
      let few =
        few_segments r inode offset (offset + n) blocks t intact (omega (arith, ends.loaded)) in
      (bytes, read_range-eq r inode offset n t bytes walked delivered few)

read-eq :
    (r : Reader) (node : Node) (offset n : ℕ) (bytes : List ℕ)
    → valid r ≡ true
    → (ltb node.inode.size offset || ltb (node.inode.size - offset) n) ≡ false
    → (n == 0) ≡ false
    → read_range r node.inode offset n ≡ ok bytes
    → read r node offset n ≡ ok bytes
unfolding read
read-eq r node offset n bytes is_valid inside some_bytes e =
    rw (e, is_valid, ◌>>◌, inside, some_bytes) refl

read-empty :
    (r : Reader) (node : Node) (offset n : ℕ)
    → valid r ≡ true
    → (ltb node.inode.size offset || ltb (node.inode.size - offset) n) ≡ false
    → (n == 0) ≡ true
    → read r node offset n ≡ ok []
unfolding read
read-empty r node offset n is_valid inside empty = rw (is_valid, ◌>>◌, inside, empty) refl

in_file :
    (size offset n : ℕ) → offset + n ≤ size → (ltb size offset || ltb (size - offset) n) ≡ false
in_file size offset n fits = ground arith

-- Every range of an intact file is read, on a valid file system with one of the zone sizes that the
-- probe accepts, on a device below 2 ^ 64 bytes that answers every read inside it: all descriptors of
-- the inode load, those of its SEGI chain too; each data block has at least one zone, names a sub-part
-- that is registered and has an extent, and lies in that extent, which has fewer than 2 ^ 32 sectors and
-- lies in the device; the blocks hold at least the size of the file and fewer than 2 ^ 64 bytes in all;
-- and the SEGI descriptors are at most as many as the inode counts, or not counted.
pub read_succeeds :
    (r : Reader) (node : Node) (blocks : List BlockInfo) (offset n : ℕ)
    → ZoneSize (zone_size r)
    → valid r ≡ true
    → IsIntact r node.inode blocks
    → offset + n ≤ node.inode.size
    → (bytes : List ℕ) × (read r node offset n ≡ ok bytes)
read_succeeds r node blocks offset n size is_valid intact fits =
    let inside = in_file node.inode.size offset n fits in
    elim (Bool-cases (n == 0)) [
      | inl empty ↦ ([], read-empty r node offset n is_valid inside empty)
      | inr some_bytes ↦
          let (bytes, e) = read_range-succeeds r size node.inode blocks intact offset n fits in
          (bytes, read-eq r node offset n bytes is_valid inside some_bytes e)
    ]
