-- ===== src/Session/Paths.antt =====
-- The paths and keys of the caches of host/drive_session.cpp, as byte strings.
use ps2_driveforge.Base.{ℕ, List, [], ◌∷◌, ◌++◌, Bool, true, ◌==◌, if◌then◌else◌}

-- `path == '\\' ? '/' : ch`
abbrev pub map_separator : ℕ → ℕ
map_separator ch = if ch == b'\\' then b'/' else ch

-- the loop of `normalize_cache_path`: what it appends
unfoldable pub collapse : Bool → List ℕ → List ℕ
collapse previous_slash [] = []
collapse previous_slash (ch ∷ rest) =
    let later = collapse (map_separator ch == b'/') rest in
    if map_separator ch == b'/'
    then (if previous_slash then later else b'/' ∷ later)
    else map_separator ch ∷ later

-- `while (!normalized.empty() && normalized.back() == '/') normalized.pop_back()`, from the back
abbrev pub trim_step : ℕ → List ℕ → List ℕ
trim_step c [] = if c == b'/' then [] else c ∷ []
trim_step c (d ∷ ds) = c ∷ d ∷ ds

unfoldable pub trim_slashes : List ℕ → List ℕ
trim_slashes [] = []
trim_slashes (c ∷ cs) = trim_step c (trim_slashes cs)

unfoldable pub normalize_cache_path : List ℕ → List ℕ
normalize_cache_path path = trim_slashes (collapse true path)

abbrev pub unit_separator : ℕ
unit_separator = 0x1f

unfoldable pub make_cache_key : List ℕ → List ℕ → List ℕ
make_cache_key partition path = partition ++ unit_separator ∷ normalize_cache_path path

abbrev pub join_child : List ℕ → List ℕ → List ℕ
join_child [] name = name
join_child (c ∷ cs) name = (c ∷ cs) ++ b'/' ∷ name

unfoldable pub child_path : List ℕ → List ℕ → List ℕ
child_path parent name = join_child (normalize_cache_path parent) name
