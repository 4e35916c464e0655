-- ===== src/Pfs/Children.antt =====
-- The entries of a directory, and the nodes that `Reader::resolve` of core/pfs.cpp reaches through them.
use ps2_driveforge.Base.{
  ℕ, zero, suc, ◌+◌, ◌≡◌, ◌≢◌, refl, ap, sym, ◌∙◌, List, [], ◌∷◌, ◌++◌, length, true, false,
  Bool-cases, inl, inr, arith, All, some, Result, ok, err, ◌>>=◌, ◌>>◌, if◌then◌else◌, ltb,
  >>=-eq-ok,
}
use ps2_driveforge.Base.Bytes.{bytes_eq, bytes_eq→eq, bytes_eq_refl, codes}
use ps2_driveforge.Pfs.Types.{DirectoryEntry, Node}
use ps2_driveforge.Pfs.Metadata.{Fault, Reader, read_inode}
use ps2_driveforge.Pfs.File.{read}
use ps2_driveforge.Pfs.Directory.{
  sector_end, allocated, wanted, entry_at, check_entry, parse_entries, list_directory, is_separator,
  find_entry, enter,
}

-- the entries but the dots
unfoldable pub without_dots : List DirectoryEntry → List DirectoryEntry
without_dots [] = []
without_dots (e ∷ es) = let rest = without_dots es in if wanted false e.name then e ∷ rest else rest

abbrev pub Entries : Type 0
Entries = Result Fault (List DirectoryEntry)

abbrev pub drop_dots : Entries → Entries
drop_dots entries = entries >>= λ es. ok (without_dots es)

without_dots-append :
    (xs ys : List DirectoryEntry) → without_dots (xs ++ ys) ≡ without_dots xs ++ without_dots ys
unfolding without_dots
without_dots-append [] ys = refl
without_dots-append (x ∷ xs) ys = ground (arith, without_dots-append xs ys)

entry_dots :
    (bytes : List ℕ) (position : ℕ)
    → entry_at false bytes position ≡ without_dots (entry_at true bytes position)
unfolding entry_at without_dots wanted
entry_dots bytes position = ground arith

-- the rest of the entries behind the entry at a position
join_dots :
    (bytes : List ℕ) (position : ℕ) (some_entries all : Entries)
    → some_entries ≡ drop_dots all
    → (some_entries >>= λ rest. ok (entry_at false bytes position ++ rest))
      ≡ drop_dots (all >>= λ rest. ok (entry_at true bytes position ++ rest))
join_dots bytes position some_entries (err e) h = rw h refl
join_dots bytes position some_entries (ok all) h =
    rw (h, entry_dots bytes position)
      (ap ok (sym (without_dots-append (entry_at true bytes position) all)))

guard_dots :
    (check : Result Fault (Unit {0})) (some_entries all : Entries)
    → some_entries ≡ drop_dots all
    → (check >> some_entries) ≡ drop_dots (check >> all)
guard_dots (err e) some_entries all h = refl
guard_dots (ok u) some_entries all h = h

parse_dots :
    (fuel : ℕ) (bytes : List ℕ) (position : ℕ)
    → parse_entries fuel false bytes position ≡ drop_dots (parse_entries fuel true bytes position)
unfolding parse_entries
parse_dots zero bytes position = elim (Bool-cases (ltb position (length bytes))) [
  | inl more ↦ rw more refl
  | inr done ↦ rw done (unfold without_dots in refl)
]
parse_dots (suc fuel) bytes position = elim (Bool-cases (ltb position (length bytes))) [
  | inr done ↦ rw (done, parse_entries) (unfold without_dots in refl)
  | inl more ↦ elim (Bool-cases (ltb (sector_end bytes position) (position + 8))) [
    | inl slack ↦
        rw (more, parse_entries, slack) (parse_dots fuel bytes (sector_end bytes position))
    | inr entry ↦
        rw (more, parse_entries, entry)
          (guard_dots (check_entry bytes position) _ _ (
            join_dots bytes position _ _
              (parse_dots fuel bytes (position + allocated bytes position))))
  ]
]

list_dots :
    (r : Reader) (node : Node)
    → list_directory r node false ≡ drop_dots (list_directory r node true)
unfolding list_directory
list_dots r node = guard_dots _ _ _ (guard_dots _ _ _ (after_read (read r node 0 node.inode.size)))
  where
    after_read :
        (bytes : Result Fault (List ℕ))
        → (bytes >>= λ b. parse_entries (length b) false b 0)
          ≡ drop_dots (bytes >>= λ b. parse_entries (length b) true b 0)
    after_read (err e) = refl
    after_read (ok b) = parse_dots (length b) b 0

wanted-apart :
    (a b : List ℕ) → wanted false a ≡ true → wanted false b ≡ false → bytes_eq b a ≡ false
wanted-apart a b h k = elim (Bool-cases (bytes_eq b a)) [
  | inl same ↦ cc (sym k ∙ ap (wanted false) (bytes_eq→eq b a same) ∙ h)
  | inr other ↦ other
]

find_dots :
    (name : List ℕ) (es : List DirectoryEntry)
    → wanted false name ≡ true
    → find_entry name es ≡ find_entry name (without_dots es)
unfolding find_entry without_dots
find_dots name [] h = refl
find_dots name (e ∷ es) h = elim (Bool-cases (wanted false e.name)) [
  | inl keep ↦ rw keep (ap (λ o. if bytes_eq e.name name then some e else o) (find_dots name es h))
  | inr dot ↦ rw (dot, wanted-apart name e.name h dot) (find_dots name es h)
]

-- no two entries have one name
abbrev pub Distinct : List DirectoryEntry → Type 0
Distinct [] = Unit
Distinct (e ∷ es) = All (λ (f : DirectoryEntry). e.name ≢ f.name) es × Distinct es

-- a name that a path can hold as one component
pub record IsComponent (name : List ℕ) : Type 0 where
  pub some_bytes : name ≢ []
  pub no_dot : name ≢ codes "."
  pub no_dots : name ≢ codes ".."
  pub no_separator : All (λ (c : ℕ). is_separator c ≡ false) name

-- the names of a directory tell its entries apart, in a path too
pub record IsWellNamed (entries : List DirectoryEntry) : Type 0 where
  pub distinct : Distinct entries
  pub components : All (λ (e : DirectoryEntry). IsComponent e.name) entries

IsComponent-wanted : (name : List ℕ) → IsComponent name → wanted false name ≡ true
unfolding wanted
IsComponent-wanted name h = ground (arith, eq_of name (codes "."), eq_of name (codes ".."))
  where
    eq_of : (a b : List ℕ) → bytes_eq a b ≡ true → a ≡ b
    eq_of a b e = bytes_eq→eq a b e

pub bytes_eq-apart : (a b : List ℕ) → a ≢ b → bytes_eq a b ≡ false
bytes_eq-apart a b h = elim (Bool-cases (bytes_eq a b)) [
  | inl same ↦ absurd (h (bytes_eq→eq a b same))
  | inr other ↦ other
]

-- an entry is found behind one of another name
found_behind :
    (first : DirectoryEntry) (es fs : List DirectoryEntry)
    → All (λ (f : DirectoryEntry). first.name ≢ f.name) fs
    → All (λ (f : DirectoryEntry). find_entry f.name es ≡ some f) fs
    → All (λ (f : DirectoryEntry). find_entry f.name (first ∷ es) ≡ some f) fs
unfolding find_entry
found_behind first es [] h k = tt
found_behind first es (f ∷ fs) h k =
    (rw (bytes_eq-apart first.name f.name h.0) k.0, found_behind first es fs h.1 k.1)

-- each entry is found under its name
pub Distinct-found :
    (es : List DirectoryEntry)
    → Distinct es
    → All (λ (e : DirectoryEntry). find_entry e.name es ≡ some e) es
unfolding find_entry
Distinct-found [] h = tt
Distinct-found (e ∷ es) h =
    (rw (bytes_eq_refl e.name) refl, found_behind e es es h.0 (Distinct-found es h.1))

-- an entry that is found among those that are listed is entered
pub enter-listed :
    (r : Reader) (node child : Node) (es : List DirectoryEntry) (e : DirectoryEntry)
    → list_directory r node false ≡ ok es
    → find_entry e.name es ≡ some e
    → IsComponent e.name
    → read_inode r e.inode ≡ ok child
    → enter r node e.name ≡ ok child
unfolding enter
enter-listed r node child es e listed found named readable =
    let (all, whole, same) =
      >>=-eq-ok (list_directory r node true) (λ es. ok (without_dots es))
        (sym (list_dots r node) ∙ listed) in
    let kept : without_dots all ≡ es = cc same in
    let first : find_entry e.name all ≡ some e =
      find_dots e.name all (IsComponent-wanted e.name named)
      ∙ ap (find_entry e.name) kept
      ∙ found in
    rw (whole, ◌>>=◌, first) readable
