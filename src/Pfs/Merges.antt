-- ===== src/Pfs/Merges.antt =====
-- How the walk of core/pfs.cpp merges a block into the run before it.
use native.Mathlib.Decide.{dec_lt}
use ps2_driveforge.Base.Spans.{at}
use ps2_driveforge.Base.{
  ℕ, ◌+◌, ◌-◌, ◌*◌, ◌<◌, ◌≡◌, refl, ap, ◌∙◌, List, [], ◌∷◌, true, arith, Bool-cases, inl, inr, All,
}
use ps2_driveforge.Pfs.Types.{BlockInfo}
use ps2_driveforge.Pfs.ZoneSize.{ZoneSize}
use ps2_driveforge.Pfs.Metadata.{Reader, zone_size}
use ps2_driveforge.Pfs.Zone.{sectors_per_zone}
use ps2_driveforge.Pfs.ZoneRead.{extent_start, block_byte}
use ps2_driveforge.Pfs.ZoneTotal.{whole_zones}
use ps2_driveforge.Pfs.Contents.{block_size}
use ps2_driveforge.Pfs.Runs.{IsRun, EndsAt}
use ps2_driveforge.Pfs.File.{DataRun, can_merge, merged, add_run}

extent_start_congr :
    (r : Reader) (a b : BlockInfo) → a.subpart ≡ b.subpart → extent_start r a ≡ extent_start r b
unfolding extent_start
extent_start_congr r a b e = rw (e, extent_start) refl

module _ (r : Reader) (image : List ℕ) (size : ZoneSize (zone_size r)) where
  -- a block and the block in the zones behind it are one range of bytes
  next_block_byte :
      (a b : BlockInfo) (i : ℕ)
      → a.subpart ≡ b.subpart
      → a.number + a.count ≡ b.number
      → block_byte r image b i ≡ block_byte r image a (block_size r a + i)
  next_block_byte a b i same next =
      let spz = sectors_per_zone r in
      ap (at image) (
        omega (
          arith,
          extent_start_congr r a b same,
          ap (λ (n : ℕ). n * spz) next,
          ap (λ (n : ℕ). a.count * n) (whole_zones r size),
        ))

  -- the file's bytes of a run and of a block behind it are those of the merged run
  merged_maps :
      (f : ℕ → ℕ) (previous : DataRun) (b : BlockInfo) (logical i : ℕ)
      → can_merge previous b logical ≡ true
      → IsRun r f image previous
      → ((i : ℕ) → i < block_size r b → f (logical + i) ≡ block_byte r image b i)
      → i < previous.logical_bytes + block_size r b
      → f (previous.logical_start + i) ≡ block_byte r image previous.block i
  unfolding can_merge
  merged_maps f previous b logical i fits run maps lt = elim (dec_lt i previous.logical_bytes) [
    | yes inside ↦ run.maps i inside
    | no beyond ↦
        let j = i - previous.logical_bytes in
        let e : previous.logical_start + i ≡ logical + j = ground arith in
        let e' : block_size r previous.block + j ≡ i = omega (arith, run.sized) in
        ap f e
        ∙ maps j (omega arith)
        ∙ next_block_byte previous.block b j (ground arith) (ground arith)
        ∙ ap (block_byte r image previous.block) e'
  ]

  merged-IsRun :
      (f : ℕ → ℕ) (previous : DataRun) (b : BlockInfo) (logical : ℕ)
      → can_merge previous b logical ≡ true
      → IsRun r f image previous
      → ((i : ℕ) → i < block_size r b → f (logical + i) ≡ block_byte r image b i)
      → IsRun r f image (merged previous b (block_size r b))
  unfolding extent_start
  merged-IsRun f previous b logical fits run maps = record {
    sized = omega (arith, run.sized);
    maps = λ i lt. merged_maps f previous b logical i fits run maps lt;
  }

  can_merge_end :
      (previous : DataRun) (b : BlockInfo) (logical : ℕ)
      → can_merge previous b logical ≡ true
      → previous.logical_start + previous.logical_bytes ≡ logical
  unfolding can_merge
  can_merge_end previous b logical fits = ground arith

  -- adding a block keeps the runs right, and moves their end by its size
  pub add_run-good :
      (f : ℕ → ℕ) (runs : List DataRun) (b : BlockInfo) (offset logical : ℕ)
      → All (IsRun r f image) runs
      → EndsAt offset logical runs
      → ((i : ℕ) → i < block_size r b → f (logical + i) ≡ block_byte r image b i)
      → All (IsRun r f image) (add_run runs b logical (block_size r b))
        × EndsAt offset (logical + block_size r b) (add_run runs b logical (block_size r b))
  unfolding add_run
  add_run-good f [] b offset logical good ends maps =
      ((record { sized = refl; maps = maps }, tt), (refl, ends))
  add_run-good f (previous ∷ runs) b offset logical good ends maps =
      elim (Bool-cases (can_merge previous b logical)) [
        | inl fits ↦ rw fits (
          (merged-IsRun f previous b logical fits good.0 maps, good.1),
          (omega (arith, can_merge_end previous b logical fits), ends.1),
        )
        | inr apart ↦ rw apart ((record { sized = refl; maps = maps }, good), (refl, ends))
      ]
