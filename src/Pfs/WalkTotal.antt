-- ===== src/Pfs/WalkTotal.antt =====
-- The walk over the descriptors of an intact file succeeds, up to the end of the request.
use ps2_driveforge.Base.{
  ℕ, zero, suc, ◌+◌, ◌-◌, ◌^◌, ◌&&◌, ◌==◌, ◌≤◌, ◌<◌, ◌≡◌, ◌⊎◌, refl, ap, sym, ◌∙◌, subst, List, [],
  ◌∷◌, Option, some, ltb, if◌then◌else◌, false, ok, err, ◌>>=◌, arith, Bool-cases, Result-cases,
  inl, inr, All, >>=-eq-ok,
}
use ps2_driveforge.Pfs.Types.{BlockInfo, Inode, SegmentDescriptor}
use ps2_driveforge.Pfs.Metadata.{Reader}
use ps2_driveforge.Pfs.Contents.{
  block_size, blocks_from, total_size, blocks_from-segment, blocks_from-block, blocks_from-err,
}
use ps2_driveforge.Pfs.RunsTotal.{RunPlaced}
use ps2_driveforge.Pfs.File.{
  Picked, segment, block, WalkState, pick_block, add_run, take_block, take_picked, walk,
}
use ps2_driveforge.Pfs.MergesTotal.{IsSoundBlock, add_run-RunPlaced}

-- the SEGI descriptors that a walk loads
unfoldable pub segments_from : Reader → Inode → ℕ → ℕ → Option SegmentDescriptor → BlockInfo → ℕ
segments_from r inode zero global indirect next_segment = 0
segments_from r inode (suc left) global indirect next_segment =
    elim (pick_block r inode indirect next_segment global) [
      | err e ↦ 0
      | ok (segment d) ↦ suc (segments_from r inode left (global + 1) (some d) d.next_segment)
      | ok (block b) ↦ segments_from r inode left (global + 1) indirect next_segment
    ]

-- one block is taken
record Taken (r : Reader) (s t : WalkState) (b : BlockInfo) : Type 0 where
  logical : t.logical ≡ s.logical + block_size r b
  runs : All (RunPlaced r) t.runs
  indirect : t.indirect ≡ s.indirect
  next_segment : t.next_segment ≡ s.next_segment
  loaded : t.segi_loaded ≡ s.segi_loaded

-- the state after a block
abbrev after_block : Reader → ℕ → ℕ → WalkState → BlockInfo → WalkState
after_block r offset request_end s b = record s {
  runs =
      if ltb offset (s.logical + block_size r b) && ltb s.logical request_end
      then add_run s.runs b s.logical (block_size r b)
      else s.runs;
  logical = s.logical + block_size r b;
}

after_block-Taken :
    (r : Reader) (offset request_end : ℕ) (s : WalkState) (b : BlockInfo)
    → IsSoundBlock r b
    → All (RunPlaced r) s.runs
    → Taken r s (after_block r offset request_end s b) b
after_block-Taken r offset request_end s b sound good = record {
  logical = refl;
  runs = elim (Bool-cases (ltb offset (s.logical + block_size r b) && ltb s.logical request_end)) [
    | inl e ↦ rw e (add_run-RunPlaced r s.runs b s.logical good sound)
    | inr e ↦ rw e good
  ];
  indirect = refl;
  next_segment = refl;
  loaded = refl;
}

take_block-succeeds :
    (r : Reader) (offset request_end : ℕ) (s : WalkState) (b : BlockInfo)
    → IsSoundBlock r b
    → s.logical + block_size r b < 2 ^ 64
    → take_block r offset request_end s b ≡ ok (after_block r offset request_end s b)
unfolding take_block
take_block-succeeds r offset request_end s b sound small =
    let some_zones = sound.some_zones in
    let used : (b.count == 0) ≡ false = ground arith in
    let room : ltb (2 ^ 64 - 1 - block_size r b) s.logical ≡ false = ground arith in
    rw (used, room) refl

-- where a walk over the blocks `after` from `s` has come to
pub record WalkEnds (r : Reader) (request_end segments : ℕ) (after : List BlockInfo)
    (s t : WalkState) : Type 0 where
  pub reached : (request_end ≤ t.logical) ⊎ (t.logical ≡ s.logical + total_size r after)
  pub runs : All (RunPlaced r) t.runs
  pub loaded : t.segi_loaded ≤ s.segi_loaded + segments

module _ (r : Reader) (inode : Inode) (offset request_end : ℕ) where
  abbrev WalksOn : ℕ → Type 0
  WalksOn left =
      (global : ℕ) (s : WalkState) (after : List BlockInfo)
      → blocks_from r inode left global s.indirect s.next_segment ≡ ok after
      → All (IsSoundBlock r) after
      → s.logical + total_size r after < 2 ^ 64
      → All (RunPlaced r) s.runs
      → (t : WalkState) × (walk r inode offset request_end left global s ≡ ok t)
        × WalkEnds r request_end (segments_from r inode left global s.indirect s.next_segment) after
            s t

  picked-succeeds :
      (left global : ℕ) (s : WalkState) (after : List BlockInfo) (picked : Picked)
      → WalksOn left
      → pick_block r inode s.indirect s.next_segment global ≡ ok picked
      → blocks_from r inode (suc left) global s.indirect s.next_segment ≡ ok after
      → All (IsSoundBlock r) after
      → s.logical + total_size r after < 2 ^ 64
      → All (RunPlaced r) s.runs
      → (t : WalkState) × ((take_picked r offset request_end s picked >>= λ u.
            walk r inode offset request_end left (global + 1) u)
          ≡ ok t)
        × WalkEnds r request_end
            (segments_from r inode (suc left) global s.indirect s.next_segment)
            after
            s
            t
  unfolding take_picked segments_from
  picked-succeeds left global s after (segment d) ih pe rest sound small good =
      let rest' =
        sym (blocks_from-segment r inode left global s.indirect s.next_segment d pe) ∙ rest in
      let (t, run, ends) =
        ih (global + 1)
          (record s {
            indirect = some d;
            next_segment = d.next_segment;
            segi_loaded = s.segi_loaded + 1;
          })
          after rest' sound small good in
      (
        t,
        run,
        record {
          reached = ends.reached;
          runs = ends.runs;
          loaded = rw (segments_from, pe) (omega (arith, ends.loaded));
        },
      )
  picked-succeeds left global s after (block b) ih pe rest sound small good =
      let rest' =
        sym (blocks_from-block r inode left global s.indirect s.next_segment b pe) ∙ rest in
      let (bs, more, e) =
        >>=-eq-ok (blocks_from r inode left (global + 1) s.indirect s.next_segment) _ rest' in
      let whole : after ≡ b ∷ bs = cc e in
      let (first, others) = subst (All (IsSoundBlock r)) whole sound in
      let sizes : total_size r after ≡ block_size r b + total_size r bs =
        ap (total_size r) whole ∙ total_size-cons b bs in
      let taken = after_block-Taken r offset request_end s b first good in
      let (t, run, ends) =
        ih (global + 1) (after_block r offset request_end s b) bs more others (omega arith)
          taken.runs in
      (
        t,
        rw (take_block-succeeds r offset request_end s b first (omega arith)) run,
        record {
          reached = elim ends.reached [ inl e ↦ inl e | inr e ↦ inr (omega arith) ];
          runs = ends.runs;
          loaded = rw (segments_from, pe) ends.loaded;
        },
      )
    where
      total_size-cons :
          (b : BlockInfo) (bs : List BlockInfo)
          → total_size r (b ∷ bs) ≡ block_size r b + total_size r bs
      total_size-cons b bs = unfold total_size in refl

  walk-zero :
      (global : ℕ) (s : WalkState) (after : List BlockInfo)
      → blocks_from r inode zero global s.indirect s.next_segment ≡ ok after
      → All (RunPlaced r) s.runs
      → WalkEnds r request_end 0 after s s
  unfolding blocks_from total_size
  walk-zero global s after rest good =
      let none_left : [] ≡ after = cc rest in
      record {
        reached = inr (omega (arith, ap (total_size r) none_left));
        runs = good;
        loaded = omega arith;
      }

  pub walk-succeeds : (left : ℕ) → WalksOn left
  unfolding walk
  walk-succeeds zero global s after rest sound small good =
      let ends = walk-zero global s after rest good in
      (s, refl, record { reached = ends.reached; runs = good; loaded = omega arith })
  walk-succeeds (suc left) global s after rest sound small good =
      elim (Bool-cases (ltb s.logical request_end)) [
        | inr stop ↦ (
          s,
          rw (stop, walk) refl,
          record { reached = inl (ground arith); runs = good; loaded = omega arith },
        )
        | inl on ↦ elim (Result-cases (pick_block r inode s.indirect s.next_segment global)) [
          | inr (f, bad) ↦
              cc (rest, blocks_from-err r inode left global s.indirect s.next_segment f bad)
          | inl (picked, pe) ↦
              let (t, run, ends) =
                picked-succeeds left global s after picked (walk-succeeds left) pe rest sound small
                  good in
              (t, rw (on, walk, pe, ◌>>=◌) run, ends)
        ]
      ]
