-- ===== src/Pfs/File.antt =====
-- `Reader::read` of core/pfs.cpp: the walk along the block descriptors of an inode, which merges
-- neighbours into runs, and the reads of those runs.
-- `runs` holds the newest run first, and `read` turns it round.
use ps2_driveforge.Base.{
  ℕ, zero, suc, ◌+◌, ◌-◌, ◌*◌, ◌%◌, ◌^◌, List, [], ◌∷◌, ◌++◌, Bool, true, false, not, ◌&&◌, ◌||◌,
  Option, some, none, ltb, leb, ◌==◌, if◌then◌else◌, min, Result, ok, err, ◌>>=◌, ◌>>◌, fail_if,
  get_or,
}
use ps2_driveforge.Pfs.Types.{
  inode_max_blocks, indirect_max_blocks, no_block, BlockInfo, Inode, SegmentDescriptor, Node,
}
use ps2_driveforge.Pfs.Metadata.{
  Fault, invalid_filesystem, outside_file, indirect_before_segi, empty_block, extent_overflow,
  not_enough_data, segi_chain_too_long, Reader, valid, zone_size, read_segment_descriptor,
}
use ps2_driveforge.Pfs.Zone.{read_zone_bytes}

pub record DataRun : Type 0 where
  pub block : BlockInfo
  pub logical_start : ℕ
  pub logical_bytes : ℕ

-- what descriptor `global` is: a SEGI to load, or a data block
pub data Picked : Type 0 where
  segment : SegmentDescriptor → Picked
  block : BlockInfo → Picked

abbrev pub local_index : ℕ → ℕ
local_index global = (global - inode_max_blocks) % indirect_max_blocks

unfoldable pub pick_indirect :
    Reader → Option SegmentDescriptor → BlockInfo → ℕ → Result Fault Picked
pick_indirect r indirect next_segment zero = do
  loaded ← read_segment_descriptor r next_segment
  ok (segment loaded)
pick_indirect r none next_segment (suc i) = err indirect_before_segi
pick_indirect r (some descriptor) next_segment (suc i) =
    ok (block (get_or descriptor.blocks (suc i) no_block))

unfoldable pub pick_block :
    Reader → Inode → Option SegmentDescriptor → BlockInfo → ℕ → Result Fault Picked
pick_block r inode indirect next_segment global =
    if ltb global inode_max_blocks
    then ok (block (get_or inode.blocks global no_block))
    else pick_indirect r indirect next_segment (local_index global)

-- the variables of the walk
pub record WalkState : Type 0 where
  pub runs : List DataRun
  pub logical : ℕ
  pub indirect : Option SegmentDescriptor
  pub next_segment : BlockInfo
  pub segi_loaded : ℕ

-- `previous` takes the block in: the same sub-partition, the next zone, the next byte of the file,
-- and a count that fits 16 bits
unfoldable pub can_merge : DataRun → BlockInfo → ℕ → Bool
can_merge previous b logical =
    previous.block.subpart == b.subpart
    && (previous.block.number + previous.block.count == b.number
        && (previous.logical_start + previous.logical_bytes == logical
            && leb (previous.block.count + b.count) (2 ^ 16 - 1)))

abbrev pub merged : DataRun → BlockInfo → ℕ → DataRun
merged previous b segment_size = record {
  block = record {
    number = previous.block.number;
    subpart = previous.block.subpart;
    count = previous.block.count + b.count;
  };
  logical_start = previous.logical_start;
  logical_bytes = previous.logical_bytes + segment_size;
}

abbrev pub fresh_run : BlockInfo → ℕ → ℕ → DataRun
fresh_run b logical segment_size = record {
  block = b;
  logical_start = logical;
  logical_bytes = segment_size;
}

unfoldable pub add_run : List DataRun → BlockInfo → ℕ → ℕ → List DataRun
add_run [] b logical segment_size = fresh_run b logical segment_size ∷ []
add_run (previous ∷ runs) b logical segment_size =
    if can_merge previous b logical
    then merged previous b segment_size ∷ runs
    else fresh_run b logical segment_size ∷ previous ∷ runs

-- one data block of the walk
unfoldable pub take_block : Reader → ℕ → ℕ → WalkState → BlockInfo → Result Fault WalkState
take_block r offset request_end s b = do
  fail_if (b.count == 0) empty_block
  let segment_size = b.count * zone_size r
  fail_if (ltb (2 ^ 64 - 1 - segment_size) s.logical) extent_overflow
  let segment_end = s.logical + segment_size
  ok (record s {
    runs =
        if ltb offset segment_end && ltb s.logical request_end
        then add_run s.runs b s.logical segment_size
        else s.runs;
    logical = segment_end;
  })

unfoldable pub take_picked : Reader → ℕ → ℕ → WalkState → Picked → Result Fault WalkState
take_picked r offset request_end s (segment d) =
    ok (record s {
      indirect = some d;
      next_segment = d.next_segment;
      segi_loaded = s.segi_loaded + 1;
    })
take_picked r offset request_end s (block b) = take_block r offset request_end s b

-- `for (global = 1; global < number_data && logical < request_end; ++global)`, over the descriptors
-- that `number_data` leaves
unfoldable pub walk : Reader → Inode → ℕ → ℕ → ℕ → ℕ → WalkState → Result Fault WalkState
walk r inode offset request_end zero global s = ok s
walk r inode offset request_end (suc left) global s = elim (ltb s.logical request_end) [
  | false ↦ ok s
  | true ↦ do
    picked ← pick_block r inode s.indirect s.next_segment global
    s' ← take_picked r offset request_end s picked
    walk r inode offset request_end left (global + 1) s'
]

-- the loop over the runs: the bytes, and how many are still missing
unfoldable pub read_runs : Reader → List DataRun → ℕ → ℕ → Result Fault (List ℕ × ℕ)
read_runs r [] position remaining = ok ([], remaining)
read_runs r (run ∷ runs) position zero = ok ([], 0)
read_runs r (run ∷ runs) position (suc n) =
    elim (leb (run.logical_start + run.logical_bytes) position) [
      | true ↦ read_runs r runs position (suc n)
      | false ↦ do
        let within = position - run.logical_start
        let size = min (run.logical_bytes - within) (suc n)
        bytes ← read_zone_bytes r run.block within size
        rest ← read_runs r runs (position + size) (suc n - size)
        ok (bytes ++ rest.0, rest.1)
    ]

unfoldable pub reverse_onto : List DataRun → List DataRun → List DataRun
reverse_onto [] acc = acc
reverse_onto (run ∷ runs) acc = reverse_onto runs (run ∷ acc)

abbrev pub start_walk : Inode → WalkState
start_walk inode = record {
  runs = [];
  logical = 0;
  indirect = none;
  next_segment = inode.next_segment;
  segi_loaded = 0;
}

-- the part of `read` past the checks on the range
unfoldable pub read_range : Reader → Inode → ℕ → ℕ → Result Fault (List ℕ)
read_range r inode offset size = do
  s ← walk r inode offset (offset + size) (inode.number_data - 1) 1 (start_walk inode)
  out ← read_runs r (reverse_onto s.runs []) offset size
  fail_if (not (out.1 == 0)) not_enough_data
  fail_if (not (inode.number_segdesg == 0) && ltb inode.number_segdesg s.segi_loaded)
      segi_chain_too_long
  ok out.0

unfoldable pub read : Reader → Node → ℕ → ℕ → Result Fault (List ℕ)
read r node offset size = do
  fail_if (not (valid r)) invalid_filesystem
  fail_if (ltb node.inode.size offset || ltb (node.inode.size - offset) size) outside_file
  if size == 0 then ok [] else read_range r node.inode offset size
