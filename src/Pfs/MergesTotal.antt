-- ===== src/Pfs/MergesTotal.antt =====
-- A run that can be read and a block that can be read are merged into a run that can be read.
use ps2_driveforge.Base.{
  ℕ, ◌+◌, ◌*◌, ◌≤◌, ◌<◌, ◌≡◌, refl, ap, ◌∙◌, subst, List, [], ◌∷◌, true, arith, Bool-cases, inl,
  inr, All, get_elem?,
}
use ps2_driveforge.Pfs.Types.{BlockInfo}
use ps2_driveforge.Pfs.Metadata.{Reader}
use ps2_driveforge.Pfs.Zone.{sectors_per_zone}
use ps2_driveforge.Pfs.ZoneTotal.{IsPlaced}
use ps2_driveforge.Pfs.Contents.{block_size}
use ps2_driveforge.Pfs.RunsTotal.{RunPlaced}
use ps2_driveforge.Pfs.File.{DataRun, can_merge, merged, add_run}

-- a data block that can be read
pub record IsSoundBlock (r : Reader) (b : BlockInfo) : Type 0 where
  pub some_zones : 0 < b.count
  pub placed : IsPlaced r b

merged-RunPlaced :
    (r : Reader) (previous : DataRun) (b : BlockInfo) (logical : ℕ)
    → can_merge previous b logical ≡ true
    → RunPlaced r previous
    → IsSoundBlock r b
    → RunPlaced r (merged previous b (block_size r b))
unfolding can_merge
merged-RunPlaced r previous b logical fits run sound =
    let p = sound.placed in
    let q = run.placed in
    let same : previous.block.subpart ≡ b.subpart = ground arith in
    let next : previous.block.number + previous.block.count ≡ b.number = ground arith in
    record {
      placed = record {
        extent = p.extent;
        selected = ap (get_elem? r.volume.extents) same ∙ p.selected;
        registered = q.registered;
        inside =
            subst (λ (n : ℕ). n * sectors_per_zone r ≤ p.extent.length_sectors) (omega arith)
              p.inside;
        word = p.word;
        fits = p.fits;
        small = p.small;
        reliable = p.reliable;
      };
      sized = omega (arith, run.sized);
    }

pub add_run-RunPlaced :
    (r : Reader) (runs : List DataRun) (b : BlockInfo) (logical : ℕ)
    → All (RunPlaced r) runs
    → IsSoundBlock r b
    → All (RunPlaced r) (add_run runs b logical (block_size r b))
unfolding add_run
add_run-RunPlaced r [] b logical good sound = (record { placed = sound.placed; sized = refl }, tt)
add_run-RunPlaced r (previous ∷ runs) b logical good sound =
    elim (Bool-cases (can_merge previous b logical)) [
      | inl fits ↦ rw fits (merged-RunPlaced r previous b logical fits good.0 sound, good.1)
      | inr apart ↦ rw apart (record { placed = sound.placed; sized = refl }, good)
    ]
