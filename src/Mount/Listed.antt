-- ===== src/Mount/Listed.antt =====
-- The names that a listing of the mounted drive shows, behind the parts of the path that it lists.
use ps2_driveforge.Base.{
  ℕ, Option-cases, ◌+◌, ◌<◌, ◌^◌, ◌≡◌, refl, ap, sym, ◌∙◌, subst, List, [], ◌∷◌, ◌++◌, length, map,
  All, Bool, true, false, not, none, some, ok, Bool-cases, inl, inr, arith, if◌then◌else◌,
}
use ps2_driveforge.Base.Bytes.{bytes_eq, codes}
use ps2_driveforge.Apa.Scan.{ScanResult}
use ps2_driveforge.Names.{uppercase_ascii, upper_byte}
use ps2_driveforge.Session.State.{BrowseResult}
use ps2_driveforge.Pfs.Children.{IsComponent}
use ps2_driveforge.Mount.Aliases.{
  MountNodeKind, root, namespace_directory, pfs_directory, pfs_file, Shown, AliasEntry,
  equal_windows_name, name_aliases, shown_entries, shown_partitions, make_entry_aliases,
  make_partition_aliases, find_alias,
}
use ps2_driveforge.Mount.View.{
  session_error, lookup_failed, dot_component, no_path, no_partition, MountEntry, MountLookupResult,
  MountListResult, no_lookup, any_forbidden, is_pfs_directory, choose_entry, in_partition,
  list_browsed, listed_names, mount_entry, list_failed, error_of,
}
use ps2_driveforge.Mount.Fresh.{
  walk_fresh, partition_fresh, namespace_fresh, parts_fresh, node_list_fresh,
}
use ps2_driveforge.Mount.Exact.{answered_fresh}
use ps2_driveforge.Mount.Walk.{
  is_pfs_kind, IsPfsKind, entries-IsPfsKind, named-All, IsReached, walk-kind, walk_partition,
  walk-append,
}
use ps2_driveforge.Mount.Shown.{
  IsShown, IsFew, IsPartition, IsFoundIn, map-All, any_forbidden-append, allowed,
  partitions-IsPartition, both, implies, names-IsFoundIn, choose_found,
}

-- a name that a listing of the parts shows, and a look-up of it
abbrev pub Target :
    (List ℕ → List ℕ → BrowseResult) → ScanResult → List (List ℕ) → MountEntry → Type 0
Target ask scan parts e =
    IsShown e (parts_fresh ask scan (parts ++ e.name ∷ [])) × IsComponent e.name

abbrev pub IsListed :
    (List ℕ → List ℕ → BrowseResult) → ScanResult → List (List ℕ) → MountListResult → Type 0
IsListed ask scan parts l = l.ok ≡ true → IsFew l → All (Target ask scan parts) l.entries

module _ (ask : List ℕ → List ℕ → BrowseResult) (scan : ScanResult) where
  entries_shown :
      (P : Shown → Type 0) (parts : List (List ℕ)) (shown : List Shown)
      → All P shown
      → length (map mount_entry (name_aliases [] shown)) + 2 < 2 ^ 32
      → ((a : AliasEntry)
          → P a.shown
          → IsFoundIn (name_aliases [] shown) a
          → IsReached a (parts_fresh ask scan (parts ++ a.visible ∷ [])))
      → All (Target ask scan parts) (map mount_entry (name_aliases [] shown))
  entries_shown P parts shown h few f = map-All _ mount_entry (name_aliases [] shown) (
      implies _ _ (name_aliases [] shown) (λ a k. (f a k.0 k.1, k.1.1))
        (both _ _ (name_aliases [] shown) (named-All P [] shown h) (names-IsFoundIn shown few)))

  -- the parts behind the name of the namespace
  parts_here :
      (first : List ℕ) (rest : List (List ℕ))
      → any_forbidden (first ∷ rest) ≡ false
      → equal_windows_name first (codes "Partitions") ≡ true
      → parts_fresh ask scan (first ∷ rest) ≡ namespace_fresh ask scan rest
  unfolding parts_fresh
  parts_here first rest plain here = rw (plain, here, parts_fresh) refl

  parts_failed :
      (first : List ℕ) (rest : List (List ℕ))
      → any_forbidden (first ∷ rest) ≡ true
      → parts_fresh ask scan (first ∷ rest) ≡ lookup_failed no_lookup dot_component
  unfolding parts_fresh
  parts_failed first rest dots = rw (dots, parts_fresh) refl

  parts_other :
      (first : List ℕ) (rest : List (List ℕ))
      → any_forbidden (first ∷ rest) ≡ false
      → equal_windows_name first (codes "Partitions") ≡ false
      → parts_fresh ask scan (first ∷ rest) ≡ lookup_failed no_lookup no_path
  unfolding parts_fresh
  parts_other first rest plain other = rw (plain, other, parts_fresh) refl

  partition_here :
      (partition : List ℕ) (names : List (List ℕ)) (a : AliasEntry)
      → find_alias (make_partition_aliases scan) partition ≡ some a
      → namespace_fresh ask scan (partition ∷ names) ≡ walk_fresh ask scan (in_partition a) [] names
  unfolding namespace_fresh partition_fresh
  partition_here partition names a found = ap (λ o. partition_fresh ask scan o names) found

  partition_missing :
      (partition : List ℕ) (names : List (List ℕ))
      → find_alias (make_partition_aliases scan) partition ≡ none
      → namespace_fresh ask scan (partition ∷ names) ≡ lookup_failed no_lookup no_partition
  unfolding namespace_fresh partition_fresh
  partition_missing partition names missing = ap (λ o. partition_fresh ask scan o names) missing

  -- the listing of a directory of a partition
  browsed-IsListed :
      (parts : List (List ℕ)) (b : BrowseResult)
      → ((a : AliasEntry)
          → choose_entry b a.visible true ≡ ok a
          → IsComponent a.visible
          → IsReached a (parts_fresh ask scan (parts ++ a.visible ∷ [])))
      → IsListed ask scan parts (list_browsed b)
  unfolding list_browsed make_entry_aliases
  browsed-IsListed parts b f =
      let listing = λ (good : Bool).
        if not good
        then list_failed (session_error b.error)
        else listed_names (map mount_entry (make_entry_aliases b.entries)) in
      elim (Bool-cases b.ok) [
        | inr bad ↦
            subst (IsListed ask scan parts) (ap listing (sym bad)) (λ good few. absurd (cc good))
        | inl readable ↦ subst (IsListed ask scan parts) (ap listing (sym readable)) (λ good few.
            entries_shown IsPfsKind parts (shown_entries b.entries) (entries-IsPfsKind b.entries)
              few (λ a p found. f a (choose_found b a readable found.0) found.1))
      ]

  namespace-IsListed :
      (first : List ℕ)
      → any_forbidden (first ∷ []) ≡ false
      → equal_windows_name first (codes "Partitions") ≡ true
      → IsListed ask scan
          (first ∷ [])
          (listed_names (map mount_entry (make_partition_aliases scan)))
  unfolding make_partition_aliases walk_fresh
  namespace-IsListed first plain here good few =
      entries_shown IsPartition (first ∷ []) (shown_partitions scan.partitions)
        (partitions-IsPartition scan.partitions) few
        (λ a p found.
          subst (IsReached a)
            (sym (
              parts_here first (a.visible ∷ [])
                (any_forbidden-append (first ∷ []) a.visible plain (allowed a.visible found.1)) here
              ∙ partition_here a.visible [] a found.0))
            (refl, sym p.0, sym p.1))

  kind-IsListed :
      (parts : List (List ℕ)) (w : MountLookupResult) (k : MountNodeKind)
      → is_pfs_kind k ≡ true
      → (is_pfs_directory k ≡ true
          → IsListed ask scan parts (list_browsed (ask w.partition w.pfs_path)))
      → IsListed ask scan parts (node_list_fresh ask scan w k)
  unfolding node_list_fresh
  kind-IsListed parts w root h f = absurd (cc h)
  kind-IsListed parts w namespace_directory h f = absurd (cc h)
  kind-IsListed parts w pfs_directory h f = f refl
  kind-IsListed parts w pfs_file h f = λ good few. absurd (cc good)

  module _ (first partition : List ℕ) (names : List (List ℕ)) (a0 : AliasEntry)
      (plain : any_forbidden (first ∷ partition ∷ names) ≡ false)
      (here : equal_windows_name first (codes "Partitions") ≡ true)
      (found0 : find_alias (make_partition_aliases scan) partition ≡ some a0) where
    abbrev Walked : MountLookupResult
    Walked = walk_fresh ask scan (in_partition a0) [] names

    one_more :
        Walked.ok ≡ true
        → is_pfs_directory Walked.kind ≡ true
        → (a : AliasEntry)
        → choose_entry (ask Walked.partition Walked.pfs_path) a.visible true ≡ ok a
        → IsComponent a.visible
        → IsReached a (parts_fresh ask scan (first ∷ partition ∷ names ++ a.visible ∷ []))
    one_more good directory a chosen_a named =
        subst (IsReached a)
          (sym (
            parts_here first (partition ∷ names ++ a.visible ∷ [])
              (any_forbidden-append (first ∷ partition ∷ names) a.visible plain
                (allowed a.visible named))
              here
            ∙ partition_here partition (names ++ a.visible ∷ []) a0 found0))
          (walk-append ask scan (in_partition a0) [] names a.visible a refl good directory (
            subst (λ id. choose_entry (ask id Walked.pfs_path) a.visible true ≡ ok a)
              (walk_partition ask scan (in_partition a0) [] names) chosen_a))

    walked-IsListed : IsListed ask scan (first ∷ partition ∷ names) (answered_fresh ask scan Walked)
    walked-IsListed =
        let listing = λ (good : Bool).
          if not good then error_of Walked.error else node_list_fresh ask scan Walked Walked.kind in
        elim (Bool-cases Walked.ok) [
          | inr bad ↦
              subst (IsListed ask scan (first ∷ partition ∷ names)) (ap listing (sym bad))
                (λ good few. absurd (cc good))
          | inl good ↦
              subst (IsListed ask scan (first ∷ partition ∷ names)) (ap listing (sym good)) (
                kind-IsListed (first ∷ partition ∷ names) Walked Walked.kind
                  (walk-kind ask scan (in_partition a0) [] names refl)
                  (λ directory.
                    browsed-IsListed (first ∷ partition ∷ names)
                      (ask Walked.partition Walked.pfs_path) (one_more good directory)))
        ]

  rest-IsListed :
      (first : List ℕ) (rest : List (List ℕ))
      → any_forbidden (first ∷ rest) ≡ false
      → equal_windows_name first (codes "Partitions") ≡ true
      → IsListed ask scan (first ∷ rest) (answered_fresh ask scan (namespace_fresh ask scan rest))
  unfolding namespace_fresh node_list_fresh
  rest-IsListed first [] plain here = namespace-IsListed first plain here
  rest-IsListed first (partition ∷ names) plain here =
      let P = λ (w : MountLookupResult).
        IsListed ask scan (first ∷ partition ∷ names) (answered_fresh ask scan w) in
      elim (Option-cases (find_alias (make_partition_aliases scan) partition)) [
        | inl missing ↦
            subst P (sym (partition_missing partition names missing)) (λ good few. absurd (cc good))
        | inr (a, found) ↦
            subst P (sym (partition_here partition names a found))
              (walked-IsListed first partition names a plain here found)
      ]

  root-IsListed : IsListed ask scan [] (answered_fresh ask scan (parts_fresh ask scan []))
  unfolding parts_fresh namespace_fresh node_list_fresh any_forbidden equal_windows_name
      uppercase_ascii bytes_eq upper_byte
  root-IsListed good few = (
    (
      (refl, refl, refl),
      record {
        some_bytes = λ e. absurd (omega (arith, ap length e));
        no_dot = λ e. absurd (omega (arith, ap length e));
        no_dots = λ e. absurd (omega (arith, ap length e));
        no_separator =
            (refl, (refl, (refl, (refl, (refl, (refl, (refl, (refl, (refl, (refl, tt))))))))));
      },
    ),
    tt,
  )

  pub parts-IsListed :
      (parts : List (List ℕ))
      → IsListed ask scan parts (answered_fresh ask scan (parts_fresh ask scan parts))
  parts-IsListed [] = root-IsListed
  parts-IsListed (first ∷ rest) =
      let P =
        λ (w : MountLookupResult). IsListed ask scan (first ∷ rest) (answered_fresh ask scan w) in
      elim (Bool-cases (any_forbidden (first ∷ rest))) [
        | inl dots ↦ subst P (sym (parts_failed first rest dots)) (λ good few. absurd (cc good))
        | inr plain ↦ elim (Bool-cases (equal_windows_name first (codes "Partitions"))) [
          | inr other ↦
              subst P (sym (parts_other first rest plain other)) (λ good few. absurd (cc good))
          | inl here ↦
              subst P (sym (parts_here first rest plain here)) (rest-IsListed first rest plain here)
        ]
      ]
