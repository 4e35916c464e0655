-- ===== src/Pfs/FileRead.antt =====
-- The theorem about `Reader::read` of core/pfs.cpp.
use ps2_driveforge.Base.{
  ℕ, ◌+◌, ◌≤◌, ◌≡◌, refl, ap, sym, ◌∙◌, List, [], Bool-cases, inl, inr, ok, arith, >>=-eq-ok, ◌==◌,
}
use ps2_driveforge.Base.Spans.{span, span-zero}
use ps2_driveforge.Device.{Mirrors}
use ps2_driveforge.Pfs.Types.{BlockInfo, Inode, Node}
use ps2_driveforge.Pfs.ZoneSize.{ZoneSize}
use ps2_driveforge.Pfs.Metadata.{Reader, zone_size}
use ps2_driveforge.Pfs.Contents.{file_blocks, file_byte, total_size}
use ps2_driveforge.Pfs.Runs.{IsRun, reverse_onto-Consecutive, All-reverse_onto, read_runs-span}
use ps2_driveforge.Pfs.Accepts.{IsProbed, valid-ZoneSize}
use ps2_driveforge.Pfs.Walk.{Walked, walk-Walked}
use ps2_driveforge.Pfs.File.{start_walk, walk, read_runs, reverse_onto, read_range, read}

module _ (r : Reader) (image : List ℕ) (m : Mirrors r.volume.device image)
    (size : ZoneSize (zone_size r)) where
  started :
      (inode : Inode) (blocks : List BlockInfo) (offset : ℕ)
      → Walked r image blocks offset [] (start_walk inode)
  unfolding total_size
  started inode blocks offset = record {
    at_end = refl;
    good = tt;
    ends = omega arith;
    ahead = inl refl;
  }

  read_range-span :
      (inode : Inode) (blocks : List BlockInfo) (offset n : ℕ) (bytes : List ℕ)
      → file_blocks r inode ≡ ok blocks
      → read_range r inode offset n ≡ ok bytes
      → bytes ≡ span (file_byte r image blocks) offset n
  unfolding read_range
  read_range-span inode blocks offset n bytes whole h =
      let f = file_byte r image blocks in
      let (s, walked, h') =
        >>=-eq-ok (walk r inode offset (offset + n) _ 1 (start_walk inode)) _ h in
      let (out, delivered, h'') = >>=-eq-ok (read_runs r (reverse_onto s.runs []) offset n) _ h' in
      let (taken, w) =
        walk-Walked r image size offset (offset + n) inode blocks _ [] blocks 1 (start_walk inode) s
          refl whole (started inode blocks offset) walked in
      let (start, le, next) = reverse_onto-Consecutive offset s.logical s.runs [] w.ends tt in
      let d =
        read_runs-span r f image m (reverse_onto s.runs []) start offset n out
          (All-reverse_onto (IsRun r f image) s.runs [] w.good tt) next (λ _. le) delivered in
      let full : out.1 ≡ 0 = ground arith in
      let given : out.0 ≡ bytes = ground arith in
      sym given ∙ d.bytes ∙ ap (span f offset) (omega (arith, d.counted))

-- A file system that the probe accepts reads files right: a read that succeeds gives, byte for byte,
-- what stands in the image at the places that the inode's descriptors, direct and indirect, name
-- for this range of the file, where all of these load. Merged runs, batches of sectors and partial sectors do not show.
pub read_exact :
    (r : Reader) (image : List ℕ) (node : Node) (blocks : List BlockInfo) (offset n : ℕ)
    (bytes : List ℕ)
    → IsProbed r
    → Mirrors r.volume.device image
    → file_blocks r node.inode ≡ ok blocks
    → read r node offset n ≡ ok bytes
    → (bytes ≡ span (file_byte r image blocks) offset n) × (offset + n ≤ node.inode.size)
unfolding read
read_exact r image node blocks offset n bytes probed m whole h =
    let f = file_byte r image blocks in
    let size = valid-ZoneSize r probed (ground arith) in
    let bound : offset + n ≤ node.inode.size = ground arith in
    elim (Bool-cases (n == 0)) [
      | inl empty ↦
          let e : n ≡ 0 = ground arith in
          let given : [] ≡ bytes = ground arith in
          (sym given ∙ sym (span-zero f offset) ∙ ap (span f offset) (sym e), bound)
      | inr some_bytes ↦ (
        read_range-span r image m size node.inode blocks offset n bytes whole (ground arith),
        bound,
      )
    ]
