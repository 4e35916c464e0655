-- ===== src/Tests/DriveNames.antt =====
-- The names of the directories of the test disk, of which only the root is listed.
use ps2_driveforge.Base.{
  ℕ, ◌≡◌, ◌⊎◌, inl, inr, refl, ap, sym, ◌∙◌, subst, true, false, List, [], ◌∷◌, length, ok, err,
  Bool-cases, arith, ◌>>=◌, ok_injective, >>=-eq-ok, some, none,
}
use ps2_driveforge.Base.Bytes.{codes, bytes_eq, bytes_eq→eq, load_u16}
use ps2_driveforge.Apa.Header.{is_sub, decode_header}
use ps2_driveforge.Apa.Scan.{make_partition}
use ps2_driveforge.Pfs.Types.{Node, DirectoryEntry}
use ps2_driveforge.Pfs.Metadata.{not_directory, Reader, root, read_inode}
use ps2_driveforge.Pfs.Directory.{list_directory, find_entry, enter, resolve}
use ps2_driveforge.Pfs.Components.{components, walk_components, resolve-walk}
use ps2_driveforge.Pfs.Children.{IsComponent, IsWellNamed}
use ps2_driveforge.Session.State.{find_partition, select_partition}
use ps2_driveforge.Session.Browse.{list_path}
use ps2_driveforge.Session.Exact.{list_path-parts}
use ps2_driveforge.Session.Fresh.{open_fresh}
use ps2_driveforge.Session.Children.{HasNames}
use ps2_driveforge.Tests.Drive.{
  device, scan, reader, root_node, file_node, entry, opens, root_read, file_read, root_listed,
  root_shown, file_listed, file_shown,
}

found_first :
    (e : DirectoryEntry) (c : List ℕ) → bytes_eq e.name c ≡ true → find_entry c (e ∷ []) ≡ some e
unfolding find_entry
found_first e c h = rw h refl

found_none :
    (e : DirectoryEntry) (c : List ℕ) → bytes_eq e.name c ≡ false → find_entry c (e ∷ []) ≡ none
unfolding find_entry
found_none e c h = rw h refl

-- a root with one entry, which is a file
module _ (r : Reader) (root_node file_node : Node) (e : DirectoryEntry)
    (root_listed : list_directory r root_node true ≡ ok (e ∷ []))
    (file_read : read_inode r e.inode ≡ ok file_node)
    (file_listed : list_directory r file_node true ≡ err not_directory) where
  enter_root : (c : List ℕ) (n : Node) → enter r root_node c ≡ ok n → n ≡ file_node
  unfolding enter
  enter_root c n = elim (Bool-cases (bytes_eq e.name c)) [
    | inl here ↦
        rw (root_listed, ◌>>=◌, found_first e c here, file_read) (λ h. sym (ok_injective h))
    | inr missing ↦ rw (root_listed, ◌>>=◌, found_none e c missing) (λ h. absurd (cc h))
  ]

  file_only :
      (parts : List (List ℕ)) (n : Node) → walk_components r file_node parts ≡ ok n → n ≡ file_node
  unfolding walk_components enter
  file_only [] n = λ h. sym (ok_injective h)
  file_only (c ∷ cs) n = elim (Bool-cases (bytes_eq c (codes "."))) [
    | inl dot ↦ rw (dot, walk_components) (file_only cs n)
    | inr other ↦ rw (other, walk_components, file_listed) (λ h. cc h)
  ]

  root_or_file :
      (parts : List (List ℕ)) (n : Node)
      → walk_components r root_node parts ≡ ok n
      → (n ≡ root_node) ⊎ (n ≡ file_node)
  unfolding walk_components
  root_or_file [] n = λ h. inl (sym (ok_injective h))
  root_or_file (c ∷ cs) n = elim (Bool-cases (bytes_eq c (codes "."))) [
    | inl dot ↦ rw (dot, walk_components) (root_or_file cs n)
    | inr other ↦
        rw (other, walk_components)
          λ h.
            let (next, entered, walked) =
              >>=-eq-ok (enter r root_node c) (λ m. walk_components r m cs) h in
            inr (
              file_only cs n
                (subst (λ m. walk_components r m cs ≡ ok n) (enter_root c next entered) walked))
  ]

  reached :
      (path : List ℕ) (n : Node)
      → root r ≡ ok root_node
      → resolve r path ≡ ok n
      → (n ≡ root_node) ⊎ (n ≡ file_node)
  reached path n at_root found = root_or_file (components path) n (
      ap (λ start. start >>= λ current. walk_components r current (components path)) (sym at_root)
      ∙ sym (resolve-walk r path)
      ∙ found)

  well_named :
      (path : List ℕ) (n : Node) (entries : List DirectoryEntry)
      → root r ≡ ok root_node
      → list_directory r root_node false ≡ ok (e ∷ [])
      → list_directory r file_node false ≡ err not_directory
      → IsComponent e.name
      → list_path r path ≡ ok (n, entries)
      → IsWellNamed entries
  well_named path n entries at_root shown hidden named h =
      let (found, listing) = list_path-parts r path n entries h in
      elim (reached path n at_root found) [
        | inl top ↦
            subst IsWellNamed
              (ok_injective
                (sym shown ∙ subst (λ m. list_directory r m false ≡ ok entries) top listing))
              (record { distinct = (tt, tt); components = (named, tt) })
        | inr file ↦
            cc (sym hidden ∙ subst (λ m. list_directory r m false ≡ ok entries) file listing)
      ]

save-IsComponent : IsComponent (codes "save")
save-IsComponent = record {
  some_bytes = λ e. absurd (omega (arith, ap length e));
  no_dot = λ e. absurd (omega (arith, ap length e));
  no_dots = λ e. absurd (omega (arith, ap length e));
  no_separator = (refl, (refl, (refl, (refl, tt))));
}

-- only the identity of the partition opens a reader
other_id :
    (id : List ℕ) (r : Reader)
    → bytes_eq (codes "SAVES") id ≡ false
    → open_fresh device scan id ≡ ok r
    → codes "SAVES" ≡ id
unfolding open_fresh select_partition find_partition is_sub make_partition decode_header load_u16
    bytes_eq
other_id id r h = rw (h) (λ e. absurd (cc e))

opened_id : (id : List ℕ) (r : Reader) → open_fresh device scan id ≡ ok r → codes "SAVES" ≡ id
opened_id id r h = elim (Bool-cases (bytes_eq (codes "SAVES") id)) [
  | inl same ↦ bytes_eq→eq (codes "SAVES") id same
  | inr other ↦ other_id id r other h
]

pub drive-HasNames : HasNames device scan
drive-HasNames id path r n entries opened listed =
    let same_reader : reader ≡ r =
      ok_injective (sym opens ∙ ap (open_fresh device scan) (opened_id id r opened) ∙ opened) in
    well_named reader root_node file_node entry root_listed file_read file_listed path n entries
      root_read root_shown file_shown save-IsComponent
      (subst (λ q. list_path q path ≡ ok (n, entries)) (sym same_reader) listed)
