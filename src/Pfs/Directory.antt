-- ===== src/Pfs/Directory.antt =====
-- `Reader::list_directory` and `Reader::resolve` of core/pfs.cpp. Names and paths are byte strings.
use ps2_driveforge.Base.{
  ℕ, zero, suc, ◌+◌, ◌-◌, ◌*◌, ◌/◌, List, [], ◌∷◌, ◌++◌, Bool, true, false, not, ◌&&◌, ◌||◌, Option,
  some, none, ltb, ◌==◌, if◌then◌else◌, min, Result, ok, err, ◌>>=◌, ◌>>◌, fail_if, length,
}
use ps2_driveforge.Base.Bytes.{byte_at, load_u16, load_u32, codes, bytes_eq}
use ps2_driveforge.Device.{slice}
use ps2_driveforge.Apa.Header.{sector_size}
use ps2_driveforge.Pfs.Types.{mode_mask, mode_directory, DirectoryEntry, Node}
use ps2_driveforge.Pfs.Metadata.{
  Fault, stuck, not_directory, directory_too_large, bad_allocation_length, bad_name_length,
  component_not_found, Reader, root, read_inode,
}
use ps2_driveforge.Pfs.File.{read}
use Prim.Native.Nat.{bit_and}

abbrev pub sector_end : List ℕ → ℕ → ℕ
sector_end bytes position = min (position / sector_size * sector_size + sector_size) (length bytes)

abbrev pub allocated : List ℕ → ℕ → ℕ
allocated bytes position = bit_and (load_u16 bytes (position + 6)) 0x0FFF

abbrev pub path_len : List ℕ → ℕ → ℕ
path_len bytes position = byte_at bytes (position + 5)

-- the entry at a position, unless it is unused or a dot entry that is not wanted
unfoldable pub wanted : Bool → List ℕ → Bool
wanted include_dot_entries name =
    include_dot_entries || (not (bytes_eq name (codes ".")) && not (bytes_eq name (codes "..")))

unfoldable pub decode_entry : List ℕ → ℕ → DirectoryEntry
decode_entry bytes position = record {
  name = slice bytes (position + 8) (path_len bytes position);
  inode = record {
    number = load_u32 bytes position;
    subpart = byte_at bytes (position + 4);
    count = 1;
  };
  mode = bit_and (load_u16 bytes (position + 6)) mode_mask;
}

unfoldable pub entry_at : Bool → List ℕ → ℕ → List DirectoryEntry
entry_at include_dot_entries bytes position =
    let entry = decode_entry bytes position in
    if not (load_u32 bytes position == 0)
      && (not (path_len bytes position == 0) && wanted include_dot_entries entry.name)
    then entry ∷ []
    else []

-- the checks on the lengths of the entry at a position
unfoldable pub check_entry : List ℕ → ℕ → Result Fault (Unit {0})
check_entry bytes position = do
  let size = allocated bytes position
  fail_if
      (ltb size 8
        || (not (bit_and size 3 == 0) || ltb (sector_end bytes position) (position + size)))
      bad_allocation_length
  fail_if (ltb (size - 8) (path_len bytes position)) bad_name_length

-- `while (position < bytes.size())`; each round moves on by at least one byte, so that fuel of the
-- number of bytes is enough
unfoldable pub parse_entries : ℕ → Bool → List ℕ → ℕ → Result Fault (List DirectoryEntry)
parse_entries zero dots bytes position = if ltb position (length bytes) then err stuck else ok []
parse_entries (suc fuel) dots bytes position = elim (ltb position (length bytes)) [
  | false ↦ ok []
  | true ↦ elim (ltb (sector_end bytes position) (position + 8)) [
    | true ↦ parse_entries fuel dots bytes (sector_end bytes position)
    | false ↦ do
      check_entry bytes position
      rest ← parse_entries fuel dots bytes (position + allocated bytes position)
      ok (entry_at dots bytes position ++ rest)
  ]
]

unfoldable pub list_directory : Reader → Node → Bool → Result Fault (List DirectoryEntry)
list_directory r directory include_dot_entries = do
  fail_if (not (bit_and directory.inode.mode mode_mask == mode_directory)) not_directory
  fail_if (ltb (64 * 1024 * 1024) directory.inode.size) directory_too_large
  bytes ← read r directory 0 directory.inode.size
  parse_entries (length bytes) include_dot_entries bytes 0

abbrev pub is_separator : ℕ → Bool
is_separator c = c == b'/' || c == b'\\'

-- the bytes up to the next separator, and what follows them
unfoldable pub split_component : List ℕ → List ℕ × List ℕ
split_component [] = ([], [])
split_component (c ∷ cs) =
    let (name, rest) = split_component cs in
    if is_separator c then ([], c ∷ cs) else (c ∷ name, rest)

unfoldable pub skip_separators : List ℕ → List ℕ
skip_separators [] = []
skip_separators (c ∷ cs) = if is_separator c then skip_separators cs else c ∷ cs

-- `std::find_if` by name
unfoldable pub find_entry : List ℕ → List DirectoryEntry → Option DirectoryEntry
find_entry name [] = none
find_entry name (e ∷ es) = if bytes_eq e.name name then some e else find_entry name es

unfoldable pub enter : Reader → Node → List ℕ → Result Fault Node
enter r current component = do
  entries ← list_directory r current true
  elim (find_entry component entries) [
    | none ↦ err (component_not_found component)
    | some e ↦ read_inode r e.inode
  ]

-- `while (position < path.size())`, over what is left of the path; a round takes at least one byte
unfoldable pub resolve_loop : ℕ → Reader → Node → List ℕ → Result Fault Node
resolve_loop zero r current path = elim path [ [] ↦ ok current | c ∷ cs ↦ err stuck ]
resolve_loop (suc fuel) r current path = elim (skip_separators path) [
  | [] ↦ ok current
  | c ∷ cs ↦
      let component = (split_component (c ∷ cs)).0 in
      let rest = (split_component (c ∷ cs)).1 in
      elim (bytes_eq component (codes ".")) [
        | true ↦ resolve_loop fuel r current rest
        | false ↦ do node ← enter r current component; resolve_loop fuel r node rest
      ]
]

unfoldable pub resolve : Reader → List ℕ → Result Fault Node
resolve r path = do current ← root r; resolve_loop (length path) r current path
