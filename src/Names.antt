-- ===== src/Names.antt =====
-- Host names for the byte strings of a PS2 disk: `sanitize_host_filename` of host/pfs_export.cpp, and
-- the loop that gives two names that Windows takes for one a suffix each, as host/pfs_export.cpp and
-- host/mount_view.cpp run it. `std::set<std::string>` is the list of what was inserted.
pub mod Decimal
pub mod Devices
pub mod Safe
pub mod Unique
use ps2_driveforge.Base.{
  ℕ, zero, suc, ◌+◌, ◌-◌, ◌/◌, ◌%◌, ◌^◌, List, [], ◌∷◌, ◌++◌, map, length, Bool, true, false, not,
  ◌&&◌, ◌||◌, ltb, leb, ◌==◌, if◌then◌else◌, get_or, take,
}
use ps2_driveforge.Base.Bytes.{codes, bytes_eq}

-- `std::toupper` in the "C" locale, on the bytes below 0x80
unfoldable pub upper_byte : ℕ → ℕ
upper_byte c = if leb b'a' c && leb c b'z' then c - 32 else c

unfoldable pub uppercase_ascii : List ℕ → List ℕ
uppercase_ascii = map upper_byte

-- `name.substr(0, name.find('.'))`
unfoldable pub stem_of : List ℕ → List ℕ
stem_of [] = []
stem_of (c ∷ cs) = let rest = stem_of cs in if c == b'.' then [] else c ∷ rest

abbrev pub is_one_of : List ℕ → List (List ℕ) → Bool
is_one_of name [] = false
is_one_of name (n ∷ ns) = bytes_eq n name || is_one_of name ns

unfoldable pub reserved_stem : List ℕ → Bool
unfolding bytes_eq
reserved_stem stem =
    is_one_of stem (codes "CON" ∷ codes "PRN" ∷ codes "AUX" ∷ codes "NUL" ∷ [])
    || (length stem == 4
        && ((bytes_eq (take 3 stem) (codes "COM") || bytes_eq (take 3 stem) (codes "LPT"))
            && (leb b'1' (get_or stem 3 0) && leb (get_or stem 3 0) b'9')))

unfoldable pub reserved_windows_name : List ℕ → Bool
reserved_windows_name name = reserved_stem (uppercase_ascii (stem_of name))

unfoldable pub is_forbidden : ℕ → Bool
is_forbidden c =
    ltb c 0x20
    || (c == b'<'
        || (c == b'>'
            || (c == b':'
                || (c == b'"'
                    || (c == b'/' || (c == b'\\' || (c == b'|' || (c == b'?' || c == b'*'))))))))

unfoldable pub replace_forbidden : List ℕ → List ℕ
unfolding is_forbidden
replace_forbidden [] = []
replace_forbidden (c ∷ cs) = (if is_forbidden c then b'_' else c) ∷ replace_forbidden cs

-- `while (!result.empty() && (result.back() == ' ' || result.back() == '.')) result.back() = '_'`:
-- the round that replaces the last byte is the only one
unfoldable pub replace_last : List ℕ → List ℕ
replace_last [] = []
replace_last (c ∷ []) = (if c == b' ' || c == b'.' then b'_' else c) ∷ []
replace_last (c ∷ d ∷ cs) = c ∷ replace_last (d ∷ cs)

unfoldable pub replace_dots : List ℕ → List ℕ
replace_dots name = if is_one_of name ([] ∷ codes "." ∷ codes ".." ∷ []) then b'_' ∷ [] else name

unfoldable pub sanitize_host_filename : List ℕ → List ℕ
sanitize_host_filename name =
    let result = replace_last (replace_dots (replace_forbidden name)) in
    if reserved_windows_name result then b'_' ∷ result else result

-- `std::to_string` of an unsigned; ten digits are enough for 32 bits
unfoldable pub decimal : ℕ → ℕ → List ℕ
decimal zero n = []
decimal (suc digits) n =
    let rest = decimal digits (n / 10) in
    if ltb n 10 then (b'0' + n) ∷ [] else rest ++ (b'0' + n % 10) ∷ []

abbrev pub to_string : ℕ → List ℕ
to_string n = decimal 10 n

unfoldable pub mem_name : List ℕ → List (List ℕ) → Bool
mem_name name [] = false
mem_name name (n ∷ ns) = bytes_eq n name || mem_name name ns

abbrev pub suffixed : List ℕ → ℕ → List ℕ
suffixed base suffix = base ++ b'_' ∷ to_string suffix

-- `while (!used.insert(uppercase_ascii(visible)).second) visible = base + "_" + to_string(suffix++)`,
-- where `used` holds no more names than there is fuel
unfoldable pub unique_loop : ℕ → List (List ℕ) → List ℕ → List ℕ → ℕ → List ℕ
unique_loop zero used base visible suffix = visible
unique_loop (suc fuel) used base visible suffix = elim (mem_name (uppercase_ascii visible) used) [
  | true ↦ unique_loop fuel used base (suffixed base suffix) ((suffix + 1) % 2 ^ 32)
  | false ↦ visible
]

unfoldable pub unique_name : List (List ℕ) → List ℕ → List ℕ
unique_name used base = unique_loop (length used) used base base 2
