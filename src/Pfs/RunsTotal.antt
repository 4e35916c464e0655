-- ===== src/Pfs/RunsTotal.antt =====
-- The runs of a file are read in full where each of them lies inside its extent.
use ps2_driveforge.Base.{
  ℕ, zero, suc, ◌+◌, ◌-◌, ◌≤◌, ◌<◌, ◌≡◌, refl, ap, sym, ◌∙◌, subst, List, [], ◌∷◌, ◌++◌, leb, min,
  ok, ◌>>=◌, arith, Bool-cases, inl, inr, All,
}
use ps2_driveforge.Pfs.ZoneSize.{ZoneSize}
use ps2_driveforge.Pfs.Metadata.{Reader, zone_size}
use ps2_driveforge.Pfs.Zone.{read_zone_bytes}
use ps2_driveforge.Pfs.ZoneTotal.{IsPlaced, read_zone_bytes_succeeds}
use ps2_driveforge.Pfs.Contents.{block_size}
use ps2_driveforge.Pfs.Runs.{Consecutive, EndsAt}
use ps2_driveforge.Pfs.File.{DataRun, read_runs, reverse_onto}

pub record RunPlaced (r : Reader) (run : DataRun) : Type 0 where
  pub placed : IsPlaced r run.block
  pub sized : run.logical_bytes ≡ block_size r run.block

-- where runs that follow one another end
abbrev pub end_from : ℕ → List DataRun → ℕ
end_from start [] = start
end_from start (run ∷ runs) = end_from (run.logical_start + run.logical_bytes) runs

pub reverse_onto-ends :
    (offset stop : ℕ) (runs acc : List DataRun)
    → EndsAt offset stop runs
    → Consecutive stop acc
    → (start : ℕ) × (start ≤ offset)
      × Consecutive start (reverse_onto runs acc)
      × (end_from start (reverse_onto runs acc) ≡ end_from stop acc)
unfolding reverse_onto
reverse_onto-ends offset stop [] acc h k = (stop, h, k, refl)
reverse_onto-ends offset stop (run ∷ runs) acc h k =
    let (start, le, next, e) =
      reverse_onto-ends offset run.logical_start runs (run ∷ acc) h.1
        (refl, subst (λ e. Consecutive e acc) (sym h.0) k) in
    (start, le, next, e ∙ ap (λ (s : ℕ). end_from s acc) h.0)

module _ (r : Reader) (size : ZoneSize (zone_size r)) where
  run_read :
      (run : DataRun) (p n : ℕ)
      → RunPlaced r run
      → run.logical_start ≤ p
      → p < run.logical_start + run.logical_bytes
      → (bytes : List ℕ) × (read_zone_bytes r run.block
            (p - run.logical_start)
            (min (run.logical_bytes - (p - run.logical_start)) n)
          ≡ ok bytes)
  run_read run p n h lo hi =
      read_zone_bytes_succeeds r run.block size h.placed (p - run.logical_start) _
        (omega (arith, h.sized))

  pub read_runs-succeeds :
      (runs : List DataRun) (start p n : ℕ)
      → All (RunPlaced r) runs
      → Consecutive start runs
      → (0 < n → start ≤ p)
      → (0 < n → p + n ≤ end_from start runs)
      → (bytes : List ℕ) × (read_runs r runs p n ≡ ok (bytes, 0))
  unfolding read_runs
  read_runs-succeeds [] start p n good next lo hi =
      let nothing : n ≡ 0 = ground arith in ([], ap (λ (m : ℕ). ok ([], m)) nothing)
  read_runs-succeeds (run ∷ runs) start p zero good next lo hi = ([], refl)
  read_runs-succeeds (run ∷ runs) start p (suc n) good next lo hi =
      elim (Bool-cases (leb (run.logical_start + run.logical_bytes) p)) [
        | inl before ↦
            rw (before, read_runs)
              (read_runs-succeeds runs (run.logical_start + run.logical_bytes) p (suc n) good.1
                next.1 (λ some. ground arith) hi)
        | inr here ↦
            let step = min (run.logical_bytes - (p - run.logical_start)) (suc n) in
            let started = lo (omega arith) in
            let enough = hi (omega arith) in
            let first = next.0 in
            let inside : p < run.logical_start + run.logical_bytes = ground arith in
            let (bytes, read) = run_read run p (suc n) good.0 (omega arith) inside in
            let (more, rest) =
              read_runs-succeeds runs (run.logical_start + run.logical_bytes) (p + step)
                (suc n - step) good.1 next.1 (λ some. omega arith) (λ some. omega arith) in
            (bytes ++ more, rw (here, read_runs, read, ◌>>=◌, rest))
      ]
