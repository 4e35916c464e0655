-- ===== src/Tests/Directory.antt =====
-- The entries of a directory of one sector, and the parts of a path.
use ps2_driveforge.Base.{ℕ, ◌≡◌, ◌≢◌, refl, false, List, [], ◌∷◌, ◌++◌, All, ok, err, map}
use ps2_driveforge.Base.Bytes.{codes, bytes_eq, load_u16, load_u32}
use ps2_driveforge.Apa.Header.{decode_header}
use ps2_driveforge.Apa.Scan.{make_partition}
use ps2_driveforge.Volume.{make_volume}
use ps2_driveforge.Pfs.Types.{DirectoryEntry, decode_inode, no_block, Node}
use ps2_driveforge.Pfs.Metadata.{stuck, Reader, make_reader}
use ps2_driveforge.Pfs.File.{read}
use ps2_driveforge.Pfs.Directory.{
  wanted, decode_entry, entry_at, check_entry, parse_entries, split_component, skip_separators,
  resolve,
}
use ps2_driveforge.Pfs.Entries.{IsEntry, parse_entries-IsEntry}
use ps2_driveforge.Pfs.Ends.{read-ne-stuck, resolve-ne-stuck}
use ps2_driveforge.Tests.Disk.{disk, le, zeros}

program : Unit {0}
unfolding le bytes_eq load_u16 load_u32 wanted decode_entry entry_at check_entry parse_entries
    split_component skip_separators
program = tt

abbrev sector : List ℕ
sector =
    le 4 7
    ++ 0 ∷ 1 ∷ le 2 0x100c
    ++ codes "."
    ++ zeros 3
    ++ le 4 7
    ++ 0 ∷ 5 ∷ le 2 0x2010
    ++ codes "hello"
    ++ zeros 3
    ++ le 4 8
    ++ 0 ∷ 3 ∷ le 2 0x11e4
    ++ codes "dir"
    ++ zeros 473

abbrev listed : List DirectoryEntry
listed = decode_entry sector 12 ∷ decode_entry sector 28 ∷ []

sector_parsed : parse_entries 512 false sector 0 ≡ ok listed
unfolding program
sector_parsed = refl

names : map (λ (e : DirectoryEntry). e.name) listed ≡ codes "hello" ∷ codes "dir" ∷ []
unfolding program
names = refl

parse_entries-IsEntry_example : All (IsEntry false sector) listed
parse_entries-IsEntry_example = parse_entries-IsEntry 512 false sector 0 listed sector_parsed

components :
    split_component (skip_separators (codes "//save\\slot")) ≡ (codes "save", codes "\\slot")
unfolding program
components = refl

-- a reader of a volume with no file system
abbrev reader : Reader
reader = make_reader (make_volume (disk 0 (zeros 16)) (make_partition (decode_header [])))

abbrev node : Node
node = record { location = no_block; inode = decode_inode [] }

read-ne-stuck_example : read reader node 0 8 ≢ err stuck
read-ne-stuck_example = read-ne-stuck reader node 0 8

resolve-ne-stuck_example : resolve reader (codes "/save/slot") ≢ err stuck
resolve-ne-stuck_example = resolve-ne-stuck reader (codes "/save/slot")
