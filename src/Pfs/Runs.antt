-- ===== src/Pfs/Runs.antt =====
-- Runs that follow one another are read as one range of the file.
use ps2_driveforge.Base.{
  ℕ, zero, suc, ◌+◌, ◌-◌, ◌≤◌, ◌<◌, ◌≡◌, ◌≢◌, refl, ap, sym, ◌∙◌, subst, List, [], ◌∷◌, ◌++◌, leb,
  min, ok, err, arith, >>=-eq-ok, >>=-ne-err, Bool-cases, inl, inr, All,
}
use ps2_driveforge.Base.Spans.{span, span-zero, span_join, span_congr}
use ps2_driveforge.Device.{Mirrors}
use ps2_driveforge.Pfs.Metadata.{stuck, Reader}
use ps2_driveforge.Pfs.Zone.{read_zone_bytes}
use ps2_driveforge.Pfs.ZoneRead.{block_byte, read_zone_bytes_exact, read_zone_bytes-ne-stuck}
use ps2_driveforge.Pfs.Contents.{block_size}
use ps2_driveforge.Pfs.File.{DataRun, read_runs, reverse_onto}

-- the bytes of the run are the bytes of the file from its logical start on
pub record IsRun (r : Reader) (f : ℕ → ℕ) (image : List ℕ) (run : DataRun) : Type 0 where
  pub sized : run.logical_bytes ≡ block_size r run.block
  pub maps :
      (i : ℕ) → i < run.logical_bytes → f (run.logical_start + i) ≡ block_byte r image run.block i

-- each run starts where the one before it ends; the first at `start`
abbrev pub Consecutive : ℕ → List DataRun → Type 0
Consecutive start [] = Unit
Consecutive start (run ∷ runs) =
    (run.logical_start ≡ start) × Consecutive (run.logical_start + run.logical_bytes) runs

-- the same, newest first: the newest run ends at `stop`, and the oldest starts at `offset` or before
abbrev pub EndsAt : ℕ → ℕ → List DataRun → Type 0
EndsAt offset stop [] = stop ≤ offset
EndsAt offset stop (run ∷ runs) =
    (run.logical_start + run.logical_bytes ≡ stop) × EndsAt offset run.logical_start runs

pub reverse_onto-Consecutive :
    (offset stop : ℕ) (runs acc : List DataRun)
    → EndsAt offset stop runs
    → Consecutive stop acc
    → (start : ℕ) × (start ≤ offset) × Consecutive start (reverse_onto runs acc)
unfolding reverse_onto
reverse_onto-Consecutive offset stop [] acc h k = (stop, h, k)
reverse_onto-Consecutive offset stop (run ∷ runs) acc h k =
    reverse_onto-Consecutive offset run.logical_start runs (run ∷ acc) h.1
      (refl, subst (λ e. Consecutive e acc) (sym h.0) k)

pub All-reverse_onto :
    (P : DataRun → Type 0) (runs acc : List DataRun)
    → All P runs
    → All P acc
    → All P (reverse_onto runs acc)
unfolding reverse_onto
All-reverse_onto P [] acc h k = k
All-reverse_onto P (run ∷ runs) acc h k = All-reverse_onto P runs (run ∷ acc) h.1 (h.0, k)

module _ (r : Reader) (f : ℕ → ℕ) (image : List ℕ) (m : Mirrors r.volume.device image) where
  -- what was delivered, and what is still missing
  pub record Delivered (p n : ℕ) (out : List ℕ × ℕ) : Type 0 where
    pub count : ℕ
    pub counted : count + out.1 ≡ n
    pub bytes : out.0 ≡ span f p count

  nothing : (p n : ℕ) → Delivered p n ([], n)
  nothing p n = record { count = 0; counted = omega arith; bytes = sym (span-zero f p) }

  -- one run gives the file's bytes from the position on
  run-span :
      (run : DataRun) (p size : ℕ) (bytes : List ℕ)
      → IsRun r f image run
      → run.logical_start ≤ p
      → size ≤ run.logical_bytes - (p - run.logical_start)
      → read_zone_bytes r run.block (p - run.logical_start) size ≡ ok bytes
      → bytes ≡ span f p size
  run-span run p size bytes good reached short h =
      (read_zone_bytes_exact r image m run.block (p - run.logical_start) size bytes h).0
      ∙ span_congr (block_byte r image run.block) f (p - run.logical_start) p size λ i lt.
        let e : run.logical_start + (p - run.logical_start + i) ≡ p + i = omega arith in
        sym (good.maps (p - run.logical_start + i) (omega arith)) ∙ ap f e

  pub read_runs-span :
      (runs : List DataRun) (start p n : ℕ) (out : List ℕ × ℕ)
      → All (IsRun r f image) runs
      → Consecutive start runs
      → (n ≢ 0 → start ≤ p)
      → read_runs r runs p n ≡ ok out
      → Delivered p n out
  unfolding read_runs
  read_runs-span [] start p n out good next reached =
      λ h. subst (Delivered p n) (cc h) (nothing p n)
  read_runs-span (run ∷ runs) start p zero out good next reached =
      λ h. subst (Delivered p 0) (cc h) (nothing p 0)
  read_runs-span (run ∷ runs) start p (suc n) out good next reached =
      let here : run.logical_start ≤ p = omega (arith, next.0, reached (omega arith)) in
      elim (Bool-cases (leb (run.logical_start + run.logical_bytes) p)) [
        | inl before ↦
            rw (before, read_runs)
              λ h.
                read_runs-span runs (run.logical_start + run.logical_bytes) p (suc n) out good.1
                  next.1 (λ _. ground arith) h
        | inr inside ↦
            rw (inside, read_runs)
              λ h.
                let within = p - run.logical_start in
                let size = min (run.logical_bytes - within) (suc n) in
                let (bytes, read, h') = >>=-eq-ok (read_zone_bytes r run.block within size) _ h in
                let (rest, more, h'') =
                  >>=-eq-ok (read_runs r runs (p + size) (suc n - size)) _ h' in
                let d =
                  read_runs-span runs (run.logical_start + run.logical_bytes) (p + size)
                    (suc n - size) rest good.1 next.1 (λ missing. omega arith) more in
                subst (Delivered p (suc n)) {x = (bytes ++ rest.0, rest.1)} (cc h'') (record {
                  count = size + d.count;
                  counted = omega (arith, d.counted);
                  bytes =
                      span_join f p size d.count (size + d.count)
                        (run-span run p size bytes good.0 here (omega arith) read) d.bytes refl;
                })
      ]

pub read_runs-ne-stuck :
    (r : Reader) (runs : List DataRun) (p n : ℕ) → read_runs r runs p n ≢ err stuck
unfolding read_runs
read_runs-ne-stuck r [] p n = λ h. cc
read_runs-ne-stuck r (run ∷ runs) p zero = λ h. cc
read_runs-ne-stuck r (run ∷ runs) p (suc n) =
    elim (Bool-cases (leb (run.logical_start + run.logical_bytes) p)) [
      | inl before ↦ rw (before, read_runs) (read_runs-ne-stuck r runs p (suc n))
      | inr inside ↦
          rw (inside, read_runs)
            (>>=-ne-err (read_zone_bytes r run.block _ _) _
              (read_zone_bytes-ne-stuck r run.block _ _)
              λ bytes.
                >>=-ne-err (read_runs r runs _ _) _ (read_runs-ne-stuck r runs _ _) (λ rest h. cc))
    ]
