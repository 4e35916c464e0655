-- ===== src/Pfs/Walk.antt =====
-- The walk of core/pfs.cpp along the descriptors: what its variables hold on the way.
use ps2_driveforge.Base.{
  ℕ, zero, suc, ◌+◌, ◌≤◌, ◌<◌, ◌≡◌, ◌⊎◌, ap, sym, ◌∙◌, subst, subst₂, List, [], ◌∷◌, ◌++◌, true,
  false, ltb, ok, ◌>>=◌, arith, >>=-eq-ok, Result-cases, Bool-cases, inl, inr, All, append_assoc,
}
use ps2_driveforge.Pfs.Types.{BlockInfo, Inode}
use ps2_driveforge.Pfs.ZoneSize.{ZoneSize}
use ps2_driveforge.Pfs.Metadata.{Reader, zone_size}
use ps2_driveforge.Pfs.ZoneRead.{block_byte}
use ps2_driveforge.Pfs.Contents.{
  block_size, file_byte, total_size, file_byte-middle, total_size-append, blocks_from,
  blocks_from-segment, blocks_from-block, blocks_from-err,
}
use ps2_driveforge.Pfs.Runs.{IsRun, EndsAt}
use ps2_driveforge.Pfs.Merges.{add_run-good}
use ps2_driveforge.Pfs.File.{
  WalkState, Picked, segment, block, pick_block, add_run, take_block, take_picked, walk,
}

-- what holds before each round, where the blocks `before` have been taken and `after` are to come
pub record Walked (r : Reader) (image : List ℕ) (blocks : List BlockInfo) (offset : ℕ)
    (before : List BlockInfo) (s : WalkState) : Type 0 where
  pub at_end : s.logical ≡ total_size r before
  pub good : All (IsRun r (file_byte r image blocks) image) s.runs
  pub ends : EndsAt offset s.logical s.runs
  -- a run is begun only by a block that reaches past the offset
  pub ahead : (s.runs ≡ []) ⊎ (offset < s.logical)

take_block_cases :
    (r : Reader) (offset request_end : ℕ) (s t : WalkState) (b : BlockInfo)
    → take_block r offset request_end s b ≡ ok t
    → s.logical < request_end
    → (t.logical ≡ s.logical + block_size r b)
      × (0 < b.count)
      × (((offset < t.logical) × (t.runs ≡ add_run s.runs b s.logical (block_size r b)))
          ⊎ ((t.logical ≤ offset) × (t.runs ≡ s.runs)))
unfolding take_block
take_block_cases r offset request_end s t b h lt = ground arith

take_block_keeps :
    (r : Reader) (offset request_end : ℕ) (s t : WalkState) (b : BlockInfo)
    → take_block r offset request_end s b ≡ ok t
    → (t.indirect ≡ s.indirect) × (t.next_segment ≡ s.next_segment)
unfolding take_block
take_block_keeps r offset request_end s t b h = ground arith

module _ (r : Reader) (image : List ℕ) (size : ZoneSize (zone_size r))
    (offset request_end : ℕ) where
  no_runs :
      {blocks before : List BlockInfo} (s : WalkState)
      → Walked r image blocks offset before s
      → s.logical ≤ offset
      → s.runs ≡ []
  no_runs s w h = elim w.ahead [ inl e ↦ e | inr past ↦ absurd (omega arith) ]

  -- one block: the runs grow by it, or it ends before the offset and there are none yet
  take_block-Walked :
      (before after : List BlockInfo) (b : BlockInfo) (s t : WalkState)
      → s.logical < request_end
      → take_block r offset request_end s b ≡ ok t
      → Walked r image (before ++ b ∷ after) offset before s
      → Walked r image (before ++ b ∷ after) offset (before ++ b ∷ []) t
  take_block-Walked before after b s t lt h w =
      let f = file_byte r image (before ++ b ∷ after) in
      let (moved, some_zone, cases) = take_block_cases r offset request_end s t b h lt in
      let maps : (i : ℕ) → i < block_size r b → f (s.logical + i) ≡ block_byte r image b i =
        λ i p. ap f (omega (arith, w.at_end)) ∙ file_byte-middle r image before after b i p in
      let (good, ends) = add_run-good r image size f s.runs b offset s.logical w.good w.ends maps in
      let at_end : t.logical ≡ total_size r (before ++ b ∷ []) =
        unfold total_size in omega (arith, w.at_end, total_size-append r before (b ∷ [])) in
      elim cases [
        | inl (past, e) ↦ record {
          at_end = at_end;
          good = subst (All (IsRun r f image)) (sym e) good;
          ends = subst₂ (EndsAt offset) (sym moved) (sym e) ends;
          ahead = inr past;
        }
        | inr (short, e) ↦
            let none_yet = e ∙ no_runs s w (omega arith) in
            record {
              at_end = at_end;
              good = subst (All (IsRun r f image)) (sym e) w.good;
              ends = subst (EndsAt offset t.logical) (sym none_yet) short;
              ahead = inl none_yet;
            }
      ]

  walk-step :
      (inode : Inode) (left global : ℕ) (s : WalkState) (picked : Picked)
      → ltb s.logical request_end ≡ true
      → pick_block r inode s.indirect s.next_segment global ≡ ok picked
      → walk r inode offset request_end (suc left) global s ≡ (
          take_picked r offset request_end s picked >>= λ u.
          walk r inode offset request_end left (global + 1) u)
  unfolding walk
  walk-step inode left global s picked on e = rw (on, walk, e, ◌>>=◌)

  walk-stop :
      (inode : Inode) (left global : ℕ) (s : WalkState)
      → ltb s.logical request_end ≡ false
      → walk r inode offset request_end (suc left) global s ≡ ok s
  unfolding walk
  walk-stop inode left global s stop = rw (stop, walk)

  abbrev KeepsWalking : Inode → List BlockInfo → ℕ → Type 0
  KeepsWalking inode blocks left =
      (before after : List BlockInfo) (global : ℕ) (s t : WalkState)
      → blocks ≡ before ++ after
      → blocks_from r inode left global s.indirect s.next_segment ≡ ok after
      → Walked r image blocks offset before s
      → walk r inode offset request_end left global s ≡ ok t
      → (taken : List BlockInfo) × Walked r image blocks offset taken t

  picked-Walked :
      (inode : Inode) (blocks before after : List BlockInfo) (left global : ℕ) (s t : WalkState)
      (picked : Picked)
      → KeepsWalking inode blocks left
      → s.logical < request_end
      → pick_block r inode s.indirect s.next_segment global ≡ ok picked
      → blocks ≡ before ++ after
      → blocks_from r inode (suc left) global s.indirect s.next_segment ≡ ok after
      → Walked r image blocks offset before s
      → (take_picked r offset request_end s picked >>= λ u.
          walk r inode offset request_end left (global + 1) u)
        ≡ ok t
      → (taken : List BlockInfo) × Walked r image blocks offset taken t
  unfolding take_picked
  picked-Walked inode blocks before after left global s t (segment d) ih lt pe e rest w h =
      ih before after (global + 1) _ t e
        (sym (blocks_from-segment r inode left global s.indirect s.next_segment d pe) ∙ rest)
        (record { at_end = w.at_end; good = w.good; ends = w.ends; ahead = w.ahead }) h
  picked-Walked inode blocks before after left global s t (block b) ih lt pe e rest w h =
      let rest' =
        sym (blocks_from-block r inode left global s.indirect s.next_segment b pe) ∙ rest in
      let (bs, more, e') =
        >>=-eq-ok (blocks_from r inode left (global + 1) s.indirect s.next_segment) _ rest' in
      let (u, taken, h') = >>=-eq-ok (take_block r offset request_end s b) _ h in
      let same = take_block_keeps r offset request_end s u b taken in
      let whole : blocks ≡ before ++ b ∷ bs = cc e' in
      let w' =
        take_block-Walked before bs b s u lt taken
          (subst (λ l. Walked r image l offset before s) whole w) in
      ih (before ++ b ∷ []) bs (global + 1) u t (whole ∙ sym (append_assoc before _ _))
        (rw (same.0, same.1) more)
        (subst (λ l. Walked r image l offset (before ++ b ∷ []) u) (sym whole) w') h'

  -- The walk keeps what holds of its variables, for the blocks taken up to where it stops.
  pub walk-Walked :
      (inode : Inode) (blocks : List BlockInfo) (left : ℕ) → KeepsWalking inode blocks left
  walk-Walked inode blocks zero before after global s t e rest w h =
      (before, subst (Walked r image blocks offset before) {x = s} {y = t} (unfold walk in cc h) w)
  walk-Walked inode blocks (suc left) before after global s t e rest w h =
      elim (Bool-cases (ltb s.logical request_end)) [
        | inr stop ↦ (
          before,
          subst (Walked r image blocks offset before) {x = s} {y = t}
              (cc (h, walk-stop inode left global s stop)) w,
        )
        | inl on ↦ elim (Result-cases (pick_block r inode s.indirect s.next_segment global)) [
          | inr (f, bad) ↦
              cc (rest, blocks_from-err r inode left global s.indirect s.next_segment f bad)
          | inl (picked, pe) ↦
              picked-Walked inode blocks before after left global s t picked
                (walk-Walked inode blocks left) (ground arith) pe e rest w
                (sym (walk-step inode left global s picked on pe) ∙ h)
        ]
      ]
