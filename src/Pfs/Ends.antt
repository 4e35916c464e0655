-- ===== src/Pfs/Ends.antt =====
-- The loops of `Reader` in core/pfs.cpp end: the fuel of the models is enough for every file system,
-- intact or not.
use ps2_driveforge.Base.{
  ℕ, zero, suc, ◌+◌, ◌-◌, ◌≤◌, ◌<◌, ◌≡◌, ◌≢◌, refl, ap, List, [], ◌∷◌, Bool, true, false, Option,
  ltb, Result, err, ◌>>◌, fail_if, >>=-ne-err, arith, Bool-cases, inl, inr, length, Option-cases,
}
use ps2_driveforge.Base.Bytes.{bytes_eq, codes}
use ps2_driveforge.Pfs.Types.{BlockInfo, Inode, SegmentDescriptor, Node}
use ps2_driveforge.Pfs.Metadata.{
  Fault, stuck, not_directory, directory_too_large, Reader, read_inode, root, check_inode,
  check_segment, read_segment_descriptor,
}
use ps2_driveforge.Pfs.File.{
  Picked, WalkState, pick_indirect, pick_block, take_block, take_picked, walk, read_runs,
  reverse_onto, start_walk, read_range, read,
}
use ps2_driveforge.Pfs.Runs.{read_runs-ne-stuck}
use ps2_driveforge.Pfs.Directory.{
  list_directory, is_separator, split_component, skip_separators, find_entry, enter, resolve_loop,
  resolve,
}
use ps2_driveforge.Pfs.Entries.{parse_entries-ne-stuck}

read_segment_descriptor-ne-stuck :
    (r : Reader) (location : BlockInfo) → read_segment_descriptor r location ≢ err stuck
unfolding read_segment_descriptor check_segment
read_segment_descriptor-ne-stuck r location h = ground arith

read_inode-ne-stuck : (r : Reader) (location : BlockInfo) → read_inode r location ≢ err stuck
unfolding read_inode check_inode
read_inode-ne-stuck r location h = ground arith

pick_block-ne-stuck :
    (r : Reader) (inode : Inode) (indirect : Option SegmentDescriptor) (next_segment : BlockInfo)
    (global : ℕ)
    → pick_block r inode indirect next_segment global ≢ err stuck
unfolding pick_block pick_indirect
pick_block-ne-stuck r inode indirect next_segment global h =
    ground (arith, read_segment_descriptor-ne-stuck r next_segment)

take_picked-ne-stuck :
    (r : Reader) (offset request_end : ℕ) (s : WalkState) (picked : Picked)
    → take_picked r offset request_end s picked ≢ err stuck
unfolding take_picked take_block
take_picked-ne-stuck r offset request_end s picked h = ground arith

walk-ne-stuck :
    (r : Reader) (inode : Inode) (offset request_end left global : ℕ) (s : WalkState)
    → walk r inode offset request_end left global s ≢ err stuck
unfolding walk
walk-ne-stuck r inode offset request_end zero global s = λ h. cc
walk-ne-stuck r inode offset request_end (suc left) global s =
    elim (Bool-cases (ltb s.logical request_end)) [
      | inr done ↦ rw (done, walk) λ h. cc
      | inl more ↦
          rw (more, walk)
            (>>=-ne-err (pick_block r inode s.indirect s.next_segment global) _
              (pick_block-ne-stuck r inode s.indirect s.next_segment global)
              λ picked.
                >>=-ne-err (take_picked r offset request_end s picked) _
                  (take_picked-ne-stuck r offset request_end s picked)
                  λ s'. walk-ne-stuck r inode offset request_end left (global + 1) s')
    ]

read_range-ne-stuck :
    (r : Reader) (inode : Inode) (offset size : ℕ) → read_range r inode offset size ≢ err stuck
unfolding read_range
read_range-ne-stuck r inode offset size =
    >>=-ne-err (walk r inode offset (offset + size) (inode.number_data - 1) 1 (start_walk inode)) _
      (walk-ne-stuck r inode offset (offset + size) (inode.number_data - 1) 1 (start_walk inode))
      λ s.
        >>=-ne-err (read_runs r (reverse_onto s.runs []) offset size) _
          (read_runs-ne-stuck r _ offset size) λ out h. ground arith

-- A file read ends, whatever the metadata say.
pub read-ne-stuck :
    (r : Reader) (node : Node) (offset size : ℕ) → read r node offset size ≢ err stuck
unfolding read
read-ne-stuck r node offset size h = ground (arith, read_range-ne-stuck r node.inode offset size)

checked-ne-stuck {ℓ} :
    {B : Type ℓ} (bad : Bool) (e : Fault) (more : Result Fault B)
    → e ≢ stuck
    → more ≢ err stuck
    → (fail_if bad e >> more) ≢ err stuck
checked-ne-stuck true e more h k = λ q. h (cc q)
checked-ne-stuck false e more h k = k

list_directory-ne-stuck :
    (r : Reader) (directory : Node) (dots : Bool) → list_directory r directory dots ≢ err stuck
unfolding list_directory
list_directory-ne-stuck r directory dots =
    checked-ne-stuck _ not_directory _ (λ k. cc)
      (checked-ne-stuck _ directory_too_large _ (λ k. cc)
        (>>=-ne-err (read r directory 0 directory.inode.size) _
          (read-ne-stuck r directory 0 directory.inode.size)
          λ bytes. parse_entries-ne-stuck (length bytes) dots bytes 0 (omega arith)))

enter-ne-stuck :
    (r : Reader) (current : Node) (component : List ℕ) → enter r current component ≢ err stuck
unfolding enter
enter-ne-stuck r current component =
    >>=-ne-err (list_directory r current true) _ (list_directory-ne-stuck r current true) λ entries.
      elim (Option-cases (find_entry component entries)) [
        | inl missing ↦ rw missing λ k. cc
        | inr (e, found) ↦ rw found (read_inode-ne-stuck r e.inode)
      ]

-- what skipping separators leaves starts with none
pub skip_separators-le : (path : List ℕ) → length (skip_separators path) ≤ length path
unfolding skip_separators
skip_separators-le [] = omega arith
skip_separators-le (c ∷ cs) = ground (arith, skip_separators-le cs)

pub skipped :
    (path : List ℕ) (c : ℕ) (cs : List ℕ) → skip_separators path ≡ c ∷ cs → is_separator c ≡ false
unfolding skip_separators
skipped [] c cs = λ h. cc
skipped (d ∷ ds) c cs = elim (Bool-cases (is_separator d)) [
  | inl e ↦ rw e λ h. skipped ds c cs h
  | inr e ↦ rw e λ h. cc (e, h)
]

split_component-le : (path : List ℕ) → length (split_component path).1 ≤ length path
unfolding split_component
split_component-le [] = omega arith
split_component-le (c ∷ cs) = ground (arith, split_component-le cs)

pub split_component-lt :
    (c : ℕ) (cs : List ℕ)
    → is_separator c ≡ false
    → length (split_component (c ∷ cs)).1 < length (c ∷ cs)
unfolding split_component
split_component-lt c cs h = rw h (omega (arith, split_component-le cs))

-- one round, where those on a shorter path end
round-ne-stuck :
    (fuel : ℕ) (r : Reader) (current : Node) (path left : List ℕ)
    → length path ≤ suc fuel
    → ((node : Node) (rest : List ℕ)
        → length rest ≤ fuel
        → resolve_loop fuel r node rest ≢ err stuck)
    → skip_separators path ≡ left
    → resolve_loop (suc fuel) r current path ≢ err stuck
unfolding resolve_loop
round-ne-stuck fuel r current path [] h ends e = rw (resolve_loop, e) λ k. cc
round-ne-stuck fuel r current path (c ∷ cs) h ends e =
    let shorter = split_component-lt c cs (skipped path c cs e) in
    let le = skip_separators-le path in
    let same : length (skip_separators path) ≡ length (c ∷ cs) = ap length e in
    let fewer : length (split_component (c ∷ cs)).1 ≤ fuel = omega arith in
    elim (Bool-cases (bytes_eq (split_component (c ∷ cs)).0 (codes "."))) [
      | inl dot ↦ rw (resolve_loop, e, dot) (ends current (split_component (c ∷ cs)).1 fewer)
      | inr named ↦
          rw (resolve_loop, e, named)
            (>>=-ne-err (enter r current (split_component (c ∷ cs)).0) _
              (enter-ne-stuck r current (split_component (c ∷ cs)).0)
              λ node. ends node (split_component (c ∷ cs)).1 fewer)
    ]

-- fuel of the length of the path is enough
resolve_loop-ne-stuck :
    (fuel : ℕ) (r : Reader) (current : Node) (path : List ℕ)
    → length path ≤ fuel
    → resolve_loop fuel r current path ≢ err stuck
unfolding resolve_loop
resolve_loop-ne-stuck zero r current [] h = λ k. cc
resolve_loop-ne-stuck zero r current (c ∷ cs) h = absurd (omega arith)
resolve_loop-ne-stuck (suc fuel) r current path h =
    round-ne-stuck fuel r current path (skip_separators path) h (resolve_loop-ne-stuck fuel r) refl

-- The resolution of a path ends, whatever the path and the metadata say: every loop on the way, over
-- components, directory entries, descriptors and blocks, has fuel enough.
pub resolve-ne-stuck : (r : Reader) (path : List ℕ) → resolve r path ≢ err stuck
unfolding resolve root
resolve-ne-stuck r path =
    >>=-ne-err (root r) _ (λ k. ground (arith, read_inode-ne-stuck r r.probe_result.super.root))
      λ current. resolve_loop-ne-stuck (length path) r current path (omega arith)
