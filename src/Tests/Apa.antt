-- ===== src/Tests/Apa.antt =====
-- An APA table of two headers: the MBR and one partition.
use ps2_driveforge.Base.{
  ℕ, ◌≡◌, ◌≢◌, refl, true, List, [], ◌∷◌, ◌++◌, drop, take, map, length, zero, suc, ◌+◌, ◌*◌, ◌≤◌,
  arith, get_or,
}
use ps2_driveforge.Device.{Device}
use ps2_driveforge.Base.Bytes.{codes, sum_words, load_u32, load_u32_le, bytes_eq}
use ps2_driveforge.Apa.Header.{
  Header, decode_header, decode_subs, checksum, until_nul, partition_id, has_sony_mbr_magic,
  read_header, range_fits, sector_extent_fits,
}
use ps2_driveforge.Apa.Scan.{
  any_error, scan_ok, total_with_subs, sub_issues, used_subs, make_partition, header_issues,
  contains, load_header, add_partition, follow_link, scan_step, scan_loop, read_mbr, scan,
}
use ps2_driveforge.Base.Bytes.{words_of}
use ps2_driveforge.Apa.Header.{size_bytes}
use ps2_driveforge.Apa.Table.{IsTable, HeaderAt}
use ps2_driveforge.Apa.Sound.{Listed, scan-Listed}
use ps2_driveforge.Apa.Complete.{scan_complete}
use ps2_driveforge.Apa.Sizes.{sectors, make_partition_sizes}
use ps2_driveforge.Apa.Checksum.{checksum_detects}
use ps2_driveforge.Tests.Disk.{disk, le, zeros}

program : Unit {0}
unfolding disk le sum_words load_u32 load_u32_le bytes_eq decode_header decode_subs checksum
    until_nul partition_id has_sony_mbr_magic read_header range_fits sector_extent_fits any_error
    scan_ok total_with_subs sub_issues used_subs make_partition header_issues contains load_header
    add_partition follow_link scan_step scan_loop read_mbr scan
program = tt

-- the bytes 4 to 1023 of a header with the given links, name, type and extent
abbrev header_tail : ℕ → ℕ → List ℕ → ℕ → ℕ → ℕ → List ℕ
header_tail next prev name type start length =
    le 4 0x00415041
    ++ le 4 next
    ++ le 4 prev
    ++ take 32 (name ++ zeros 32)
    ++ zeros 16
    ++ le 4 start
    ++ le 4 length
    ++ le 2 type
    ++ zeros 182
    ++ codes "Sony Computer Entertainment Inc."
    ++ le 4 2
    ++ zeros 732

abbrev header_bytes : ℕ → ℕ → List ℕ → ℕ → ℕ → ℕ → List ℕ
header_bytes next prev name type start length =
    let rest = header_tail next prev name type start length in
    le 4 (checksum (decode_header (le 4 0 ++ rest))) ++ rest

abbrev mbr_bytes : List ℕ
mbr_bytes = header_bytes 2 2 (codes "__mbr") 1 0 2

abbrev games_bytes : List ℕ
games_bytes = header_bytes 0 0 (codes "+GAMES") 0x100 2 2

abbrev mbr : Header
mbr = decode_header mbr_bytes

abbrev games : Header
games = decode_header games_bytes

abbrev two_headers : Device
two_headers = disk 0 (mbr_bytes ++ games_bytes)

two_headers_scanned : scan_ok (scan two_headers 8) ≡ true
unfolding program
two_headers_scanned = refl

scan-Listed_example : Listed two_headers 8 (scan two_headers 8)
scan-Listed_example = scan-Listed two_headers 8 (omega arith) two_headers_scanned

mbr_at : HeaderAt two_headers 0 mbr
unfolding program
mbr_at = record { stored = refl; magic_matches = refl; checksum_matches = refl }

games_at : HeaderAt two_headers 2 games
unfolding program
games_at = record { stored = refl; magic_matches = refl; checksum_matches = refl }

two_headers-IsTable : IsTable two_headers mbr (games ∷ [])
unfolding program
two_headers-IsTable = record {
  room = omega arith;
  mbr = mbr_at;
  signature = refl;
  linked = (omega arith, games_at, refl);
  acyclic = (refl, tt);
  inside = ((omega arith, tt), ((omega arith, tt), tt));
}

scan_complete_example :
    (scan_ok (scan two_headers 8) ≡ true)
    × ((scan two_headers 8).partitions ≡ map make_partition (mbr ∷ games ∷ []))
    × ((scan two_headers 8).apa_version ≡ mbr.mbr.version)
scan_complete_example =
    scan_complete two_headers 8 mbr (games ∷ []) two_headers-IsTable (omega arith)

make_partition_sizes_example :
    (length (make_partition games).sub_partitions ≡ (make_partition games).sub_count)
    × ((make_partition games).sub_count ≤ 64)
    × ((make_partition games).total_sectors
        ≡ (make_partition games).length_sectors + sectors (make_partition games).sub_partitions)
    × (size_bytes (make_partition games) ≡ (make_partition games).total_sectors * 512)
make_partition_sizes_example = make_partition_sizes games_bytes

-- the header `games`, by its first two words and the rest, with the `magic` word given
abbrev games_rest : List ℕ
games_rest = drop 8 games_bytes

abbrev games_with : List ℕ → Header
games_with word = decode_header (0 ∷ 0 ∷ 0 ∷ 0 ∷ word ++ games_rest)

get_or-same :
    (xs xs' ys : List ℕ) (n : ℕ)
    → length xs ≡ length xs'
    → length xs ≤ n
    → get_or (xs ++ ys) n 0 ≡ get_or (xs' ++ ys) n 0
get_or-same [] [] ys n e h = refl
get_or-same [] (x ∷ xs') ys n e h = absurd (omega arith)
get_or-same (x ∷ xs) [] ys n e h = absurd (omega arith)
get_or-same (x ∷ xs) (x' ∷ xs') ys zero e h = absurd (omega arith)
get_or-same (x ∷ xs) (x' ∷ xs') ys (suc n) e h = get_or-same xs xs' ys n (omega arith) (omega arith)

load_u32-same :
    (xs xs' ys : List ℕ) (n : ℕ)
    → length xs ≡ length xs'
    → length xs ≤ n
    → load_u32 (xs ++ ys) n ≡ load_u32 (xs' ++ ys) n
unfolding load_u32
load_u32-same xs xs' ys n e h =
    rw
      (
        get_or-same xs xs' ys n e h,
        get_or-same xs xs' ys (n + 1) e (omega arith),
        get_or-same xs xs' ys (n + 2) e (omega arith),
        get_or-same xs xs' ys (n + 3) e (omega arith),
      )
      refl

-- two headers that differ in their second word alone
other_words_same :
    (word word' : List ℕ) (i : ℕ)
    → length word ≡ 4
    → length word' ≡ 4
    → i ≢ 1
    → words_of load_u32 (games_with word).bytes i ≡ words_of load_u32 (games_with word').bytes i
unfolding program
other_words_same word word' zero e e' n = refl
other_words_same word word' (suc i) e e' n =
    load_u32-same (0 ∷ 0 ∷ 0 ∷ 0 ∷ word) (0 ∷ 0 ∷ 0 ∷ 0 ∷ word') games_rest (4 * suc i)
      (omega arith) (omega arith)

magic_words_differ :
    words_of load_u32 (games_with (1 ∷ 2 ∷ 3 ∷ 4 ∷ [])).bytes 1
    ≢ words_of load_u32 (games_with (1 ∷ 2 ∷ 7 ∷ 4 ∷ [])).bytes 1
unfolding program
magic_words_differ = omega arith

checksum_detects_example :
    checksum (games_with (1 ∷ 2 ∷ 3 ∷ 4 ∷ [])) ≢ checksum (games_with (1 ∷ 2 ∷ 7 ∷ 4 ∷ []))
checksum_detects_example =
    checksum_detects (games_with (1 ∷ 2 ∷ 3 ∷ 4 ∷ [])) (games_with (1 ∷ 2 ∷ 7 ∷ 4 ∷ [])) 1
      (omega arith) (omega arith)
      (λ i. other_words_same (1 ∷ 2 ∷ 3 ∷ 4 ∷ []) (1 ∷ 2 ∷ 7 ∷ 4 ∷ []) i refl refl)
      magic_words_differ
